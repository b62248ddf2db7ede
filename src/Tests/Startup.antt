-- ===== src/Tests/Startup.antt =====
-- The start of the process on two states of the file system.
use sonic_device_health_prtm.Prelude.{
  String, ◌∷◌, Result, false, true, str_eq, [], if◌then◌else◌, ◌≡◌, ok, refl, Mem,
}
use sonic_device_health_prtm.Common.Config.{
  Config, is_running_config_available, get_global_rc, Files, get_proc_plugins_conf,
  get_actions_conf,
}
use sonic_device_health_prtm.PluginProc.Startup.{wait_conf, Setup, set_up}
use sonic_device_health_prtm.Json.{Fields, Json, find, end, obj, field, text, arr}
use sonic_device_health_prtm.Common.Paths.{path_join, is_on, IsUnique, syspath_append, drop_last}
use sonic_device_health_prtm.PluginProc.Startup.SearchPath.{HasEntry, texts, set_up_adds_paths}
use sonic_device_health_prtm.PluginProc.Startup.Waiting.{Conf, wait_conf-Conf}

abbrev pub rc : Fields
rc = field "config_running_path" (text "run") (
    field "config_static_path" (text "static") (
      field "proc_plugins_conf_name" (text "proc.json") (
        field "actions_config_name" (text "actions.json") (
          field "actions_binding_config_name" (text "bindings.json")
            (field "plugin_paths" (arr (texts ("plugins/" ∷ "vendors" ∷ []))) end)))))

abbrev pub proc_plugins : Fields
proc_plugins = field "proc_0" (obj (field "link_flap" (text "link_flap.py") end)) end

abbrev load : String → Result Json
load fl =
    if str_eq fl "/etc/LoM/global.rc.json"
    then ok (obj rc)
    else (if str_eq fl "/lom/run/proc.json" then ok (obj proc_plugins) else ok (obj end))

-- The running configuration is still to be written.
abbrev pub early_files : Files
early_files = record { exists = λ fl. str_eq fl "/etc/LoM/global.rc.json"; load = load }

abbrev pub files : Files
files = record { exists = λ _. true; load = load }

abbrev pub no_files : Files
no_files = record { exists = λ _. false; load = load }

abbrev pub unread : Config
unread = record { rc_file = "/etc/LoM/global.rc.json"; rc_data = end }

abbrev pub start : Setup
start = record { config = unread; sys_path = "/usr/lib" ∷ "/lom/vendors" ∷ [] }

set_up_adds_paths_example :
    let (r, s') = set_up files "/lom" "" start in
    (r ≡ ok tt)
    × IsUnique s'.sys_path
    × ((p : String) → is_on p ("plugins/" ∷ "vendors" ∷ []) ≡ true → HasEntry "/lom" p s'.sys_path)
    × ((q : String) → is_on q start.sys_path ≡ true → is_on q s'.sys_path ≡ true)
unfolding get_global_rc find IsUnique is_on
set_up_adds_paths_example =
    set_up_adds_paths "/lom" files "" start rc ("plugins/" ∷ "vendors" ∷ []) (refl, (refl, tt)) refl
      refl

-- Only the path that was not there is added, without its slash.
set_up_path :
    (set_up files "/lom" "" start).1.sys_path ≡ "/usr/lib" ∷ "/lom/vendors" ∷ "/lom/plugins" ∷ []
unfolding set_up get_global_rc find is_on syspath_append path_join drop_last
set_up_path = refl

abbrev conf : Json × Json
conf = (obj (field "link_flap" (text "link_flap.py") end), obj end)

wait_conf-Conf_example :
    (fs : Files) × Mem fs (early_files ∷ files ∷ []) × Conf "/lom" "proc_0" fs conf
unfolding wait_conf is_running_config_available path_join get_proc_plugins_conf get_actions_conf
wait_conf-Conf_example = wait_conf-Conf "/lom" "proc_0" (early_files ∷ files ∷ []) unread conf refl
