-- ===== src/Plugins/Dispatchers.antt =====
-- src/quads/plugins/dispatchers/base.py: which plugins an operation goes to, and what becomes of their
-- answers. What a plugin answers is a parameter, `none` where it raises.
pub mod Chosen
pub mod Results
use quads.Base.{
  ℕ, String, Bool, true, false, not, ◌&&◌, ◌||◌, Option, none, some, List, [], ◌∷◌, ◌++◌, str_eq,
  select, first, any, is_some, present, if◌then◌else◌,
}
use quads.Plugins.Manager.{Plugin, Loader, with_entry, get_plugins_by_type}

-- `plugins` are the enabled ones of the dispatcher's type.
pub record Dispatcher : Type 0 where
  pub plugins : List Plugin
  pub default_plugin : Option Plugin
  pub selected_plugin_names : List String

unfoldable pub get_plugin_by_name : List Plugin → String → Option Plugin
get_plugin_by_name plugins name = first (λ p. str_eq p.name name) plugins

-- The plugin that is asked for by name, which raises where it is missing, or the first.
abbrev pub default_of : Option String → Plugin → List Plugin → Option Plugin
default_of none p plugins = some p
default_of (some name) p plugins =
    if present (some name) then get_plugin_by_name plugins name else some p

abbrev pub missing : List Plugin → List String → Bool
missing plugins names = any (λ n. not (is_some (get_plugin_by_name plugins n))) names

abbrev pub checked : List Plugin → List String → Option Plugin → Option Dispatcher
checked plugins names none = none
checked plugins names (some p) =
    if missing plugins names
    then none
    else some (record { plugins = plugins; default_plugin = some p; selected_plugin_names = names })

-- `_refresh_plugins` on the plugins of the type; `none` is `ValueError`.
unfoldable pub refresh_plugins : Option String → List String → List Plugin → Option Dispatcher
refresh_plugins name names [] =
    some (record { plugins = []; default_plugin = none; selected_plugin_names = names })
refresh_plugins name names (p ∷ plugins) =
    checked (p ∷ plugins) names (default_of name p (p ∷ plugins))

abbrev pub as_list : Option Plugin → List Plugin
as_list none = []
as_list (some p) = p ∷ []

abbrev pub filtered : List Plugin → List String → List Plugin
filtered plugins [] = []
filtered plugins (n ∷ names) = as_list (get_plugin_by_name plugins n) ++ filtered plugins names

-- `get_active_plugins`; no names are as good as none.
unfoldable pub get_active_plugins : Dispatcher → List Plugin
get_active_plugins d = elim d.selected_plugin_names [
  | [] ↦ d.plugins
  | n ∷ names ↦ filtered d.plugins (n ∷ names)
]

module _ {ℓ} {A : Type ℓ} (call : Plugin → Option A) where
  abbrev pub answer_or : A → Option A → A
  answer_or default_return none = default_return
  answer_or default_return (some a) = a

  abbrev pub via : A → Option Plugin → A
  via default_return none = default_return
  via default_return (some p) = answer_or default_return (call p)

  -- `dispatch_single` and `dispatch_single_sync`
  unfoldable pub dispatch_single : A → Dispatcher → A
  dispatch_single default_return d = via default_return d.default_plugin

  -- The plugins that `dispatch_all` calls, each once.
  unfoldable pub called_plugins : Bool → Dispatcher → List Plugin
  called_plugins skip_disabled d =
      select (λ p. not skip_disabled || p.enabled) (get_active_plugins d)

  -- The dictionary of the results: `none` is the `False` that stands for an exception.
  unfoldable pub collect : List Plugin → List (String × Option A) → List (String × Option A)
  collect [] results = results
  collect (p ∷ plugins) results = collect plugins (with_entry p.name (call p) results)

  -- `dispatch_all`, whether the calls run at one time or one after the other
  unfoldable pub dispatch_all : Bool → Dispatcher → List (String × Option A)
  dispatch_all skip_disabled d = collect (called_plugins skip_disabled d) []
