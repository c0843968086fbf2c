-- ===== src/Plugins/Dispatchers/Chosen.antt =====
-- Which plugins a dispatcher of src/quads/plugins/dispatchers/base.py takes.
use mathlib.Core.Path.{subst}
use mathlib.Core.List.Memᴰ.{head, tail}
use quads.Base.{
  some_same, ℕ, String, ◌≡◌, ◌≢◌, ◌⊎◌, first, str_eq, refl, sym, ap, ◌∙◌, inl, inr, true, false,
  ◌||◌, Option, none, some, List, [], ◌∷◌, eq_iff, Bool-cases, Option-cases, first_sound, present,
  map, All, All-map, All-first, All-select_of, Memᴰ, All-Memᴰ,
}
use quads.Plugins.Manager.{Plugin, Loader, of_type, get_plugins_by_type}
use quads.Plugins.Dispatchers.{
  Dispatcher, get_plugin_by_name, default_of, missing, checked, refresh_plugins, filtered,
  get_active_plugins,
}

-- The plugins that operations go to have the property, and those that were asked for by name are these.
pub record IsChosen (P : Plugin → Type 0) (name : Option String) (names : List String)
    (d : Dispatcher) : Type 0 where
  pub typed : All P (get_active_plugins d)
  pub default_typed : (p : Plugin) → d.default_plugin ≡ some p → P p
  pub asked :
      (p : Plugin) (n : String)
      → name ≡ some n
      → present (some n) ≡ true
      → d.default_plugin ≡ some p
      → p.name ≡ n
  pub named : d.plugins ≢ [] → names ≢ [] → map (λ p. p.name) (get_active_plugins d) ≡ names

by_name :
    (plugins : List Plugin) (n : String) (p : Plugin)
    → get_plugin_by_name plugins n ≡ some p
    → p.name ≡ n
unfolding get_plugin_by_name
by_name plugins n p h = (eq_iff p.name n).0 (first_sound _ plugins p h)

module _ (P : Plugin → Type 0) where
  by_name-All :
      (plugins : List Plugin) (n : String) (p : Plugin)
      → All P plugins
      → get_plugin_by_name plugins n ≡ some p
      → P p
  unfolding get_plugin_by_name
  by_name-All plugins n p h e = All-first P _ plugins p h e

  filtered-All :
      (plugins : List Plugin) (names : List String) → All P plugins → All P (filtered plugins names)
  filtered-All plugins [] h = tt
  filtered-All plugins (n ∷ names) h = elim (Option-cases (get_plugin_by_name plugins n)) [
    | inl nothing ↦ rw nothing (filtered-All plugins names h)
    | inr (p, found) ↦ rw found (by_name-All plugins n p h found, filtered-All plugins names h)
  ]

filtered-names :
    (plugins : List Plugin) (names : List String)
    → missing plugins names ≡ false
    → map (λ p. p.name) (filtered plugins names) ≡ names
filtered-names plugins [] h = refl
filtered-names plugins (n ∷ names) h = elim (Option-cases (get_plugin_by_name plugins n)) [
  | inl nothing ↦ let k : (true || missing plugins names) ≡ false = rw nothing at h in cc
  | inr (p, found) ↦
      let k : (false || missing plugins names) ≡ false = rw found at h in
      let rest = filtered-names plugins names k in
      let same = by_name plugins n p found in rw (found, same, rest) refl
]

default-All :
    (P : Plugin → Type 0) (name : Option String) (p : Plugin) (plugins : List Plugin) (q : Plugin)
    → All P (p ∷ plugins)
    → default_of name p (p ∷ plugins) ≡ some q
    → P q
default-All P none p plugins q h e = let same : p ≡ q = cc in subst P same h.0
default-All P (some n) p plugins q h e = elim (Bool-cases (present (some n))) [
  | inl t ↦
      let k : get_plugin_by_name (p ∷ plugins) n ≡ some q = rw t at e in
      by_name-All P (p ∷ plugins) n q h k
  | inr f ↦ let k : some p ≡ some q = rw f at e in let same : p ≡ q = cc in subst P same h.0
]

default-named :
    (p : Plugin) (plugins : List Plugin) (q : Plugin) (n : String)
    → present (some n) ≡ true
    → default_of (some n) p (p ∷ plugins) ≡ some q
    → q.name ≡ n
default-named p plugins q n given e =
    let k : get_plugin_by_name (p ∷ plugins) n ≡ some q = rw given at e in
    by_name (p ∷ plugins) n q k

-- The dispatcher that passes its checks.
checked-is :
    (plugins : List Plugin) (names : List String) (o : Option Plugin) (d : Dispatcher)
    → checked plugins names o ≡ some d
    → (q : Plugin) × (o ≡ some q)
      × (missing plugins names ≡ false)
      × (record { plugins = plugins; default_plugin = some q; selected_plugin_names = names } ≡ d)
checked-is plugins names none d h = cc
checked-is plugins names (some q) d h = elim (Bool-cases (missing plugins names)) [
  | inl t ↦ let k : ◌≡◌ {A = Option Dispatcher} none (some d) = rw t at h in cc
  | inr f ↦
      let k : some
            (record { plugins = plugins; default_plugin = some q; selected_plugin_names = names })
          ≡ some d =
        rw f at h in
      (q, refl, f, some_same k)
]

module _ (P : Plugin → Type 0) where
  active-All :
      (plugins : List Plugin) (o : Option Plugin) (names : List String)
      → All P plugins
      → All P (
          get_active_plugins
            (record { plugins = plugins; default_plugin = o; selected_plugin_names = names }))
  unfolding get_active_plugins
  active-All plugins o [] h = h
  active-All plugins o (n ∷ names) h = filtered-All P plugins (n ∷ names) h

active-names :
    (plugins : List Plugin) (o : Option Plugin) (names : List String)
    → missing plugins names ≡ false
    → names ≢ []
    → map
        (λ p. p.name)
        (get_active_plugins
          (record { plugins = plugins; default_plugin = o; selected_plugin_names = names }))
      ≡ names
unfolding get_active_plugins
active-names plugins o [] h some_names = absurd (some_names refl)
active-names plugins o (n ∷ names) h some_names = filtered-names plugins (n ∷ names) h

refresh_plugins-IsChosen :
    (P : Plugin → Type 0) (name : Option String) (names : List String) (plugins : List Plugin)
    (d : Dispatcher)
    → All P plugins
    → refresh_plugins name names plugins ≡ some d
    → IsChosen P name names d
unfolding refresh_plugins
refresh_plugins-IsChosen P name names [] d h e =
    let same : record { plugins = []; default_plugin = none; selected_plugin_names = names } ≡ d =
      some_same e in
    subst (IsChosen P name names) same (record {
      typed = active-All P [] none names h;
      default_typed = λ p k. cc;
      asked = λ p n k t none_such. cc;
      named = λ some_plugins. absurd (some_plugins refl);
    })
refresh_plugins-IsChosen P name names (p ∷ plugins) d h e =
    let (q, chosen, all_there, same) =
      checked-is (p ∷ plugins) names (default_of name p (p ∷ plugins)) d e in
    subst (IsChosen P name names) same (record {
      typed = active-All P (p ∷ plugins) (some q) names h;
      default_typed = λ r k. subst P (some_same k) (default-All P name p plugins q h chosen);
      asked = λ r n given t k.
          ap (λ x. x.name) (sym (some_same k))
          ∙ default-named p plugins q n t
              (subst (λ o. default_of o p (p ∷ plugins) ≡ some q) given chosen);
      named =
          λ some_plugins some_names. active-names (p ∷ plugins) (some q) names all_there some_names;
    })

-- The plugin is a loaded one of the type.
abbrev pub IsLoaded : Loader → ℕ → List (String × Plugin) → Plugin → Type 0
IsLoaded l plugin_type loaded p =
    Memᴰ p (map (λ e. e.1) loaded) × (l.is_instance p.class_of plugin_type ≡ true)

absent :
    (plugins : List Plugin) (n : String)
    → get_plugin_by_name plugins n ≡ none
    → All (λ p. p.name ≢ n) plugins
unfolding get_plugin_by_name
absent [] n h = tt
absent (p ∷ plugins) n h = elim (Bool-cases (str_eq p.name n)) [
  | inl t ↦ let k : some p ≡ none = rw t at h in cc
  | inr f ↦
      let k : first (λ q. str_eq q.name n) plugins ≡ none = rw f at h in
      (λ same. let t = (eq_iff p.name n).1 same in cc, absent plugins n k)
]

missing-absent :
    (plugins : List Plugin) (names : List String)
    → missing plugins names ≡ true
    → (n : String) × Memᴰ n names × All (λ p. p.name ≢ n) plugins
missing-absent plugins [] h = cc
missing-absent plugins (n ∷ names) h = elim (Option-cases (get_plugin_by_name plugins n)) [
  | inl nothing ↦ (n, head refl, absent plugins n nothing)
  | inr (p, found) ↦
      let k : missing plugins names ≡ true = rw found at h in
      let (m, there, away) = missing-absent plugins names k in (m, tail there, away)
]

-- A name that is asked for is the name of no plugin.
abbrev pub IsLacking : Option String → List String → List Plugin → Type 0
IsLacking name names plugins =
    ((n : String) × (name ≡ some n) × (present name ≡ true) × All (λ p. p.name ≢ n) plugins)
    ⊎ ((n : String) × Memᴰ n names × All (λ p. p.name ≢ n) plugins)

default-absent :
    (name : Option String) (p : Plugin) (plugins : List Plugin)
    → default_of name p (p ∷ plugins) ≡ none
    → (n : String) × (name ≡ some n) × (present name ≡ true) × All (λ q. q.name ≢ n) (p ∷ plugins)
default-absent none p plugins h = cc
default-absent (some n) p plugins h = elim (Bool-cases (present (some n))) [
  | inl t ↦
      let k : get_plugin_by_name (p ∷ plugins) n ≡ none = rw t at h in
      (n, refl, t, absent (p ∷ plugins) n k)
  | inr f ↦ let k : some p ≡ none = rw f at h in cc
]

refresh_plugins-IsLacking :
    (name : Option String) (names : List String) (plugins : List Plugin)
    → refresh_plugins name names plugins ≡ none
    → IsLacking name names plugins
unfolding refresh_plugins
refresh_plugins-IsLacking name names [] h = cc
refresh_plugins-IsLacking name names (p ∷ plugins) h =
    elim (Option-cases (default_of name p (p ∷ plugins))) [
      | inl nothing ↦ inl (default-absent name p plugins nothing)
      | inr (q, chosen) ↦ elim (Bool-cases (missing (p ∷ plugins) names)) [
        | inl t ↦ inr (missing-absent (p ∷ plugins) names t)
        | inr f ↦
            let k : checked (p ∷ plugins) names (some q) ≡ none = rw chosen at h in
            let made : ◌≡◌ {A = Option Dispatcher} (some _) none = rw f at k in cc
      ]
    ]

by_type-IsLoaded :
    (l : Loader) (plugin_type : ℕ) (loaded : List (String × Plugin))
    → All (IsLoaded l plugin_type loaded) (get_plugins_by_type l plugin_type loaded)
unfolding get_plugins_by_type
by_type-IsLoaded l plugin_type loaded =
    All-select_of _ (of_type l plugin_type) (map (λ e. e.1) loaded)
      (All-map (map (λ e. e.1) loaded) (λ p m t. (m, t)) (All-Memᴰ (map (λ e. e.1) loaded)))

-- A dispatcher, or `none` where making it raises.
abbrev pub IsChosenOrLacking :
    Loader → ℕ → List (String × Plugin) → Option String → List String → Option Dispatcher → Type 0
IsChosenOrLacking l plugin_type loaded name names (some d) =
    IsChosen (IsLoaded l plugin_type loaded) name names d
IsChosenOrLacking l plugin_type loaded name names none =
    IsLacking name names (get_plugins_by_type l plugin_type loaded)

-- A dispatcher that is made without an error sends its operations only to loaded plugins of its type: the
-- one that it calls for a single operation, which has the name that was asked for, and all that it calls for
-- the others, which have the names that were asked for, one for each, unless no plugin of the type is loaded.
-- It is made without an error unless a name that was asked for is the name of no loaded plugin of the type.
pub dispatcher-IsChosen :
    (l : Loader) (plugin_type : ℕ) (loaded : List (String × Plugin)) (name : Option String)
    (names : List String)
    → IsChosenOrLacking l plugin_type loaded name names
        (refresh_plugins name names (get_plugins_by_type l plugin_type loaded))
dispatcher-IsChosen l plugin_type loaded name names =
    let plugins = get_plugins_by_type l plugin_type loaded in
    elim (Option-cases (refresh_plugins name names plugins)) [
      | inl raised ↦ rw raised (refresh_plugins-IsLacking name names plugins raised)
      | inr (d, made) ↦ rw made (
          refresh_plugins-IsChosen (IsLoaded l plugin_type loaded) name names plugins d
            (by_type-IsLoaded l plugin_type loaded) made)
    ]
