-- ===== src/Plugins/Manager/Loaded.antt =====
-- Which plugins `PluginManager` of src/quads/plugins/manager.py loads.
use mathlib.Core.Path.{subst}
use quads.Plugins.Switch.{Answer, affirmed, is_true}
use quads.Base.{
  ap, Option-cases, inl, inr, append_assoc, append_nil, ℕ, String, ◌≡◌, ◌≢◌, refl, sym, ◌∙◌, Bool,
  true, false, Option, none, some, List, [], ◌∷◌, ◌++◌, arith, eq_iff, All, All-map, All-both,
  All-append, if◌then◌else◌,
}
use quads.Plugins.Manager.{
  Plugin, PluginSettings, Loader, get, with_entry, instance_of, with_plugin, load_plugin, load_all,
  initialize,
}

-- The plugin that an entry of the configuration stands for, if it is enabled, found, made and initialized.
abbrev pub plugin_of : Loader → String × PluginSettings → Option Plugin
plugin_of l (name, settings) =
    if settings.enabled then instance_of l (get name l.available) settings else none

abbrev pub entry : String → Option Plugin → List (String × Plugin)
entry name none = []
entry name (some p) = (name, p) ∷ []

-- The entries of the configuration that stand for a plugin, in its order.
abbrev pub entries : Loader → List (String × PluginSettings) → List (String × Plugin)
entries l [] = []
entries l (e ∷ rest) = entry e.0 (plugin_of l e) ++ entries l rest

-- No two entries have one name, as in a dictionary.
abbrev pub HaveNames : List (String × PluginSettings) → Type 0
HaveNames [] = Unit
HaveNames (e ∷ rest) = All (λ k. k.0 ≢ e.0) rest × HaveNames rest

with_entry-fresh :
    (name : String) (p : Plugin) (d : List (String × Plugin))
    → All (λ e. e.0 ≢ name) d
    → with_entry name p d ≡ d ++ (name, p) ∷ []
with_entry-fresh name p [] h = refl
with_entry-fresh name p ((key, q) ∷ rest) h =
    ground (arith, eq_iff key name, with_entry-fresh name p rest h.1)

with_plugin-entry :
    (name : String) (o : Option Plugin) (d : List (String × Plugin))
    → All (λ e. e.0 ≢ name) d
    → with_plugin name o d ≡ d ++ entry name o
with_plugin-entry name none d h = append_nil d
with_plugin-entry name (some p) d h = with_entry-fresh name p d h

-- One more entry of the configuration.
load_one :
    (l : Loader) (name : String) (settings : PluginSettings) (on : Bool)
    (d : List (String × Plugin))
    → All (λ e. e.0 ≢ name) d
    → (if on then (load_plugin l name settings d).1 else d)
      ≡ d ++ entry name (if on then instance_of l (get name l.available) settings else none)
unfolding load_plugin
load_one l name settings true d h =
    with_plugin-entry name (instance_of l (get name l.available) settings) d h
load_one l name settings false d h = append_nil d

-- No name of the configuration is loaded.
abbrev AreNew : List (String × PluginSettings) → List (String × Plugin) → Type 0
AreNew config d = All (λ s. All (λ e. e.0 ≢ s.0) d) config

entry_new :
    (name : String) (o : Option Plugin) (other : String)
    → other ≢ name
    → All (λ e. e.0 ≢ other) (entry name o)
entry_new name none other h = tt
entry_new name (some p) other h = (λ e. h (sym e), tt)

load_all-entries :
    (l : Loader) (config : List (String × PluginSettings)) (d : List (String × Plugin))
    → HaveNames config
    → AreNew config d
    → load_all l config d ≡ d ++ entries l config
unfolding load_all
load_all-entries l [] d names new = append_nil d
load_all-entries l ((name, settings) ∷ rest) d names new =
    let more = entry name (plugin_of l (name, settings)) in
    let still : AreNew rest (d ++ more) =
      All-map rest
        (λ s k.
          All-append (λ e. e.0 ≢ s.0) d more k.0
            (entry_new name (plugin_of l (name, settings)) s.0 k.1))
        (All-both _ _ rest new.1 names.0) in
    rw (load_one l name settings settings.enabled d new.0)
      (load_all-entries l rest (d ++ more) names.1 still ∙ append_assoc d more (entries l rest))

nothing_loaded : (config : List (String × PluginSettings)) → AreNew config []
nothing_loaded [] = tt
nothing_loaded (s ∷ rest) = (tt, nothing_loaded rest)

-- The entry of the configuration is enabled, its class is found, and the class makes the plugin of the
-- settings, which is then initialized.
pub record IsMade (l : Loader) (name : String) (settings : PluginSettings) (p : Plugin)
    : Type 0 where
  pub enabled : settings.enabled ≡ true
  pub class : ℕ
  pub found : get name l.available ≡ some class
  pub constructed : l.construct class settings ≡ some p
  pub initialized : l.initializes p ≡ affirmed

-- The plugins that are loaded for a configuration, in its order.
pub data AreLoaded (l : Loader)
    : List (String × PluginSettings) → List (String × Plugin) → Type 0 where
  nothing : AreLoaded l [] []
  loads :
      {name : String} {settings : PluginSettings} {p : Plugin}
      {rest : List (String × PluginSettings)} {loaded : List (String × Plugin)}
      → IsMade l name settings p
      → AreLoaded l rest loaded
      → AreLoaded l ((name, settings) ∷ rest) ((name, p) ∷ loaded)
  skips :
      {name : String} {settings : PluginSettings} {rest : List (String × PluginSettings)}
      {loaded : List (String × Plugin)}
      → ((p : Plugin) → ¬ IsMade l name settings p)
      → AreLoaded l rest loaded
      → AreLoaded l ((name, settings) ∷ rest) loaded

is_true-affirmed : (a : Answer) → is_true a ≡ true → a ≡ affirmed
is_true-affirmed a h = ground arith

plugin_of-IsMade :
    (l : Loader) (name : String) (settings : PluginSettings) (p : Plugin)
    → plugin_of l (name, settings) ≡ some p
    → IsMade l name settings p
plugin_of-IsMade l name settings p h = elim (Option-cases (get name l.available)) [
  | inl missing ↦ ground arith
  | inr (c, found) ↦ elim (Option-cases (l.construct c settings)) [
    | inl raised ↦ ground arith
    | inr (q, made) ↦
        let same : q ≡ p = ground arith in
        let on : is_true (l.initializes q) ≡ true = ground arith in
        record {
          enabled = ground arith;
          class = c;
          found = found;
          constructed = made ∙ ap some same;
          initialized = ap l.initializes (sym same) ∙ is_true-affirmed (l.initializes q) on;
        }
  ]
]

IsMade-plugin_of :
    (l : Loader) (name : String) (settings : PluginSettings) (p : Plugin)
    → IsMade l name settings p
    → plugin_of l (name, settings) ≡ some p
IsMade-plugin_of l name settings p h = rw (h.found, h.constructed, h.initialized, h.enabled) refl

entries-AreLoaded :
    (l : Loader) (config : List (String × PluginSettings)) → AreLoaded l config (entries l config)
entries-AreLoaded l [] = nothing
entries-AreLoaded l ((name, settings) ∷ rest) = elim (Option-cases (plugin_of l (name, settings))) [
  | inl e ↦ rw e (
      skips (λ p h. let made = IsMade-plugin_of l name settings p h in cc)
        (entries-AreLoaded l rest))
  | inr (p, e) ↦ rw e (loads (plugin_of-IsMade l name settings p e) (entries-AreLoaded l rest))
]

-- Where the configuration names no plugin twice, the loaded plugins are, in its order and under their
-- names, those of its entries that are enabled, whose class is found and makes a plugin of the settings
-- without an exception, and whose plugin answers True when it is initialized; every other entry is skipped.
pub initialize-entries :
    (l : Loader) (config : List (String × PluginSettings))
    → HaveNames config
    → AreLoaded l config (initialize l config)
unfolding initialize
initialize-entries l config names =
    subst (λ loaded. AreLoaded l config loaded)
      (sym (load_all-entries l config [] names (nothing_loaded config)))
      (entries-AreLoaded l config)
