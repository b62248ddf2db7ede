-- ===== src/Tests/Configs.antt =====
-- Configuration files and module paths.
use sonic_device_health_prtm.Prelude.{
  List, true, ◌≡◌, false, String, ◌∷◌, err, ok, PyError, if◌then◌else◌, [], refl, str_eq, arith,
}
use sonic_device_health_prtm.Prelude.Int.{pos}
use sonic_device_health_prtm.Common.Config.{
  Config, Files, get_global_rc, get_actions_conf, public_of, set_global_rc_file, read_rc, required,
}
use sonic_device_health_prtm.Json.{Fields, end, field, text, obj}
use sonic_device_health_prtm.Common.Paths.{path_join}
use sonic_device_health_prtm.Common.Config.Cache.{rc_kept_until_set}
use sonic_device_health_prtm.Common.Config.Required.{IsComplete, HasItems, get_global_rc-HasItems}
use sonic_device_health_prtm.Common.Log.{
  write_all, set_log_level, log_err, Level, log_warning, log_info, log_write,
}

abbrev rc : Fields
rc = field "config_running_path" (text "run") (
    field "config_static_path" (text "static") (
      field "proc_plugins_conf_name" (text "proc.json") (
        field "actions_config_name" (text "actions.json") (
          field "actions_binding_config_name" (text "bindings.json")
            (field "_comment" (text "paths") end)))))

-- The RC file and the files that it names.
abbrev files : Files
files = record {
  exists = λ fl. true;
  load = λ fl.
      ok (if str_eq fl "/etc/LoM/global.rc.json" then obj rc else obj (field "name" (text fl) end));
}

abbrev no_files : Files
no_files = record { exists = λ _. false; load = λ _. err PyError.os_error }

abbrev start : Config
start = record { rc_file = "/etc/LoM/global.rc.json"; rc_data = end }

-- The file that is read is the one in the running directory beside the module.
actions_file :
    (get_actions_conf files "/usr/lom" start).0
    ≡ ok (obj (field "name" (text "/usr/lom/run/actions.json") end))
unfolding get_actions_conf path_join
actions_file = refl

rc_kept_until_set_example :
    let c' = (get_global_rc files start).1 in
    (get_global_rc no_files c' ≡ (ok (public_of rc), c'))
    × (get_global_rc no_files (set_global_rc_file "/tmp/rc.json" c')
        ≡ read_rc no_files (record { rc_file = "/tmp/rc.json"; rc_data = end }))
unfolding get_global_rc
rc_kept_until_set_example =
    rc_kept_until_set files no_files start (public_of rc) "/tmp/rc.json" refl refl

abbrev search_path : List String
search_path = "/usr/lib" ∷ "/opt" ∷ []

get_global_rc-HasItems_example :
    IsComplete (get_global_rc files start).1 × HasItems required (public_of rc)
unfolding get_global_rc
get_global_rc-HasItems_example =
    get_global_rc-HasItems files start (public_of rc) (λ t. absurd (ground (arith, t))) refl refl

abbrev calls : List (Level × String)
calls = (log_err, "first") ∷ (log_info, "second") ∷ (log_warning, "third") ∷ []

written_lines :
    (write_all calls
      (set_log_level (pos 4) (record { ident = ""; level = pos 3; written = [] }))).written
    ≡ (log_err, "first") ∷ (log_warning, "third") ∷ []
unfolding log_write
written_lines = refl
