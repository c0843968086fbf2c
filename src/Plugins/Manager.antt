-- ===== src/Plugins/Manager.antt =====
-- `PluginManager` of src/quads/plugins/manager.py: the plugins that the configuration enables.
pub mod Loaded
use quads.Base.{
  ℕ, String, ◌≡◌, refl, inl, inr, sym, ap, ◌∙◌, arith, eq_iff, Bool-cases, Bool, true, false, ◌&&◌,
  Option, none, some, List, [], ◌∷◌, str_eq, select, map, if◌then◌else◌,
}
use quads.Plugins.Switch.{Answer, is_true}

-- A plugin instance: its name, its class, and `enabled`.
pub record Plugin : Type 0 where
  pub name : String
  pub class_of : ℕ
  pub enabled : Bool

-- The settings of a plugin: `enabled`, and the other keys.
pub record PluginSettings : Type 0 where
  pub enabled : Bool
  pub options : List (String × String)

-- What the plugins' modules give: the classes by name, what a class makes of its settings, `none` where it
-- raises, what its `initialize` answers, and `isinstance`.
pub record Loader : Type 0 where
  pub available : List (String × ℕ)
  pub construct : ℕ → PluginSettings → Option Plugin
  pub initializes : Plugin → Answer
  pub is_instance : ℕ → ℕ → Bool

-- A dictionary as an association list in the order of insertion.
module _ {ℓ} {A : Type ℓ} where
  abbrev pub get : String → List (String × A) → Option A
  get name [] = none
  get name ((key, a) ∷ rest) = if str_eq key name then some a else get name rest

  -- `d[name] = a`
  abbrev pub with_entry : String → A → List (String × A) → List (String × A)
  with_entry name a [] = (name, a) ∷ []
  with_entry name a ((key, b) ∷ rest) =
      if str_eq key name then (key, a) ∷ rest else (key, b) ∷ with_entry name a rest

  pub get-with_entry :
      (n name : String) (a : A) (d : List (String × A))
      → get n (with_entry name a d) ≡ (if str_eq name n then some a else get n d)
  get-with_entry n name a [] = refl
  get-with_entry n name a ((key, b) ∷ rest) =
      let rest_same = get-with_entry n name a rest in
      elim (Bool-cases (str_eq key name)) [
        | inl t ↦
            let same : str_eq key n ≡ str_eq name n =
              ap (λ k. str_eq k n) ((eq_iff key name).0 t) in
            elim (Bool-cases (str_eq name n)) [
              | inl on ↦ rw (t, same, on) refl
              | inr off ↦ rw (t, same, off) refl
            ]
        | inr f ↦ elim (Bool-cases (str_eq key n)) [
          | inl on ↦
              let off : str_eq name n ≡ false =
                ground (arith, eq_iff key name, eq_iff key n, eq_iff name n) in
              rw (f, on, off) refl
          | inr off ↦ rw (f, off) rest_same
        ]
      ]

-- The instance after `plugin_class(config)` and `initialize`, `none` where either fails.
abbrev pub made : Loader → Option Plugin → Option Plugin
made l none = none
made l (some p) = if is_true (l.initializes p) then some p else none

abbrev pub instance_of : Loader → Option ℕ → PluginSettings → Option Plugin
instance_of l none settings = none
instance_of l (some class) settings = made l (l.construct class settings)

abbrev pub with_plugin : String → Option Plugin → List (String × Plugin) → List (String × Plugin)
with_plugin name none loaded = loaded
with_plugin name (some p) loaded = with_entry name p loaded

-- `load_plugin`: its answer, and `loaded_plugins` after it
unfoldable pub load_plugin :
    Loader
    → String
    → PluginSettings
    → List (String × Plugin)
    → Option Plugin × List (String × Plugin)
load_plugin l name settings loaded =
    let p = instance_of l (get name l.available) settings in (p, with_plugin name p loaded)

-- The loop of `initialize` over the plugins of the configuration.
unfoldable pub load_all :
    Loader → List (String × PluginSettings) → List (String × Plugin) → List (String × Plugin)
load_all l [] loaded = loaded
load_all l ((name, settings) ∷ rest) loaded =
    load_all l rest (if settings.enabled then (load_plugin l name settings loaded).1 else loaded)

unfoldable pub initialize : Loader → List (String × PluginSettings) → List (String × Plugin)
initialize l config = load_all l config []

abbrev pub of_type : Loader → ℕ → Plugin → Bool
of_type l plugin_type p = l.is_instance p.class_of plugin_type

unfoldable pub get_plugins_by_type : Loader → ℕ → List (String × Plugin) → List Plugin
get_plugins_by_type l plugin_type loaded = select (of_type l plugin_type) (map (λ e. e.1) loaded)
