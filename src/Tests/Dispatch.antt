-- ===== src/Tests/Dispatch.antt =====
-- Two plugins, one of them for switches, and a dispatcher for them.
use quads.Base.{
  String, ◌≡◌, refl, Bool, true, false, not, ◌||◌, Option, none, some, List, [], ◌∷◌, select, ◌==◌,
}
use quads.Plugins.Switch.{affirmed}
use quads.Plugins.Manager.{
  Plugin, PluginSettings, Loader, get, get_plugins_by_type, load_plugin, load_all, initialize,
}
use quads.Plugins.Manager.Loaded.{AreLoaded, initialize-entries}
use quads.Plugins.Dispatchers.{
  Dispatcher, get_plugin_by_name, refresh_plugins, get_active_plugins, called_plugins, collect,
  dispatch_all,
}
use quads.Plugins.Dispatchers.Chosen.{IsChosenOrLacking, dispatcher-IsChosen}
use quads.Plugins.Dispatchers.Results.{answer_of, latest, get-dispatch_all}
use quads.Tests.{str_differs}

-- Class 1 is for switches, class 2 for mail.
abbrev loader : Loader
loader = record {
  available = ("juniper", 1) ∷ ("smtp", 2) ∷ [];
  construct = λ class settings. some (record {
    name = elim (class == 1) [ true ↦ "juniper" | false ↦ "smtp" ];
    class_of = class;
    enabled = settings.enabled;
  });
  initializes = λ _. affirmed;
  is_instance = λ class plugin_type. class == plugin_type;
}

abbrev on : PluginSettings
on = record { enabled = true; options = [] }

abbrev config : List (String × PluginSettings)
config = ("smtp", on) ∷ ("juniper", on) ∷ ("slack", on) ∷ []

abbrev juniper : Plugin
juniper = record { name = "juniper"; class_of = 1; enabled = true }

switches : get_plugins_by_type loader 1 (initialize loader config) ≡ juniper ∷ []
unfolding get_plugins_by_type initialize load_all load_plugin
switches = refl

initialize-entries_example : AreLoaded loader config (initialize loader config)
initialize-entries_example = initialize-entries loader config (
  (str_differs "juniper" "smtp" refl, (str_differs "slack" "smtp" refl, tt)),
  ((str_differs "slack" "juniper" refl, tt), (tt, tt)),
)

abbrev dispatcher : Dispatcher
dispatcher = record {
  plugins = juniper ∷ [];
  default_plugin = some juniper;
  selected_plugin_names = [];
}

dispatcher_made :
    refresh_plugins (some "juniper") [] (get_plugins_by_type loader 1 (initialize loader config))
    ≡ some dispatcher
unfolding refresh_plugins get_plugin_by_name get_plugins_by_type initialize load_all load_plugin
dispatcher_made = refl

dispatcher-IsChosen_example :
    IsChosenOrLacking loader 1 (initialize loader config) (some "juniper") [] (some dispatcher)
unfolding refresh_plugins get_plugin_by_name get_plugins_by_type initialize load_all load_plugin
dispatcher-IsChosen_example =
    dispatcher-IsChosen loader 1 (initialize loader config) (some "juniper") []

-- An operation that raises.
abbrev no_result : Plugin → Option Bool
no_result p = none

no_answer : dispatch_all no_result true dispatcher ≡ ("juniper", none) ∷ []
unfolding dispatch_all called_plugins collect get_active_plugins
no_answer = refl

get-dispatch_all_example :
    get "juniper" (dispatch_all no_result true dispatcher)
    ≡ answer_of no_result (
        latest "juniper" (select (λ p. not true || p.enabled) (get_active_plugins dispatcher)) none)
get-dispatch_all_example = get-dispatch_all no_result true dispatcher "juniper"
