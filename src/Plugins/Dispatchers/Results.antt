-- ===== src/Plugins/Dispatchers/Results.antt =====
-- What src/quads/plugins/dispatchers/base.py makes of the plugins' answers.
use quads.Base.{
  String, ◌≡◌, refl, ◌∙◌, inl, inr, Bool, not, ◌||◌, Option, none, some, List, [], ◌∷◌, Bool-cases,
  str_eq, select, if◌then◌else◌,
}
use quads.Plugins.Manager.{Plugin, get, with_entry, get-with_entry}
use quads.Plugins.Dispatchers.{
  Dispatcher, get_active_plugins, called_plugins, collect, dispatch_all,
}

-- The answer of the last plugin of the name, `none` where there is none.
abbrev pub answer_of {ℓ} : {A : Type ℓ} → (Plugin → A) → Option Plugin → Option A
answer_of call none = none
answer_of call (some p) = some (call p)

-- The last of the plugins that has the name, or else the one before.
abbrev pub latest : String → List Plugin → Option Plugin → Option Plugin
latest n [] o = o
latest n (p ∷ plugins) o = latest n plugins (if str_eq p.name n then some p else o)

module _ {ℓ} {A : Type ℓ} (call : Plugin → Option A) where
  get-collect :
      (n : String) (plugins : List Plugin) (d : List (String × Option A)) (o : Option Plugin)
      → get n d ≡ answer_of call o
      → get n (collect call plugins d) ≡ answer_of call (latest n plugins o)
  unfolding collect
  get-collect n [] d o h = h
  get-collect n (p ∷ plugins) d o h =
      get-collect n plugins (with_entry p.name (call p) d) (if str_eq p.name n then some p else o) (
        get-with_entry n p.name (call p) d
        ∙ elim (Bool-cases (str_eq p.name n)) [ inl t ↦ rw t refl | inr f ↦ rw f h ])

-- `dispatch_all` gives each name the answer, or the `False` of an exception, of the last plugin of that name
-- among the active ones that it calls, and no other name has a result; without the plugins that are
-- disabled, if those are skipped, these are all the active ones.
pub get-dispatch_all {ℓ} :
    {A : Type ℓ} (call : Plugin → Option A) (skip_disabled : Bool) (d : Dispatcher) (n : String)
    → get n (dispatch_all call skip_disabled d)
      ≡ answer_of call
          (latest n (select (λ p. not skip_disabled || p.enabled) (get_active_plugins d)) none)
unfolding dispatch_all called_plugins
get-dispatch_all call skip_disabled d n = get-collect call n _ [] none refl
