-- ===== src/PluginProc/Startup.antt =====
-- What precedes the loading in `main` and `main_run` of python_plugins/src/plugin_proc.py: the paths of
-- the plugins, and the wait for the configuration.
use sonic_device_health_prtm.Prelude.{
  String, Result, List, if◌then◌else◌, Option, ok, [], str_eq, ◌∷◌, none, err, PyError, true,
  or_else, some, false,
}
use sonic_device_health_prtm.Prelude.Action.{Action, ◌>>=◌, pure, lift}
use sonic_device_health_prtm.Prelude.Dict.{Dict}
use sonic_device_health_prtm.Common.Config.{
  Files, Config, get_proc_plugins_conf, set_global_rc_file, get_actions_conf, get_global_rc,
  is_running_config_available,
}
use sonic_device_health_prtm.Json.{Json, Fields, Items, nil, arr, cons, field, text, end, obj, find}
use sonic_device_health_prtm.Common.Paths.{syspath_append, path_join}
pub mod SearchPath
pub mod Waiting

-- The variables of common.py and `sys.path`.
pub record Setup : Type 0 where
  pub config : Config
  pub sys_path : List String

abbrev pub characters : String → Items
characters String.[] = nil
characters (String.◌∷◌ c s) = cons (text (String.◌∷◌ c String.[])) (characters s)

abbrev pub keys_of : Fields → Items
keys_of end = nil
keys_of (field k v fs) = cons (text k) (keys_of fs)

-- What a `for` statement goes through: the items of a list, the characters of a text, the keys of an
-- object.
abbrev pub iterate : Json → Result Items
iterate (arr vs) = ok vs
iterate (text s) = ok (characters s)
iterate (obj fs) = ok (keys_of fs)
iterate other = err PyError.type_error

-- `for p in syspaths`, on `sys.path`: a path that is no text raises in `os.path.join`.
unfoldable pub append_paths : String → Items → Action (List String) (Unit {0})
append_paths ct_dir nil ps = (ok tt, ps)
append_paths ct_dir (cons (text p) vs) ps =
    append_paths ct_dir vs (syspath_append (path_join ct_dir p) ps)
append_paths ct_dir (cons other vs) ps = (err PyError.type_error, ps)

-- `set_global_rc_file` and the paths in `main`; `rc_file` is "" if the process was given none.
unfoldable pub set_up : Files → String → String → Action Setup (Unit {0})
unfolding append_paths
set_up fs ct_dir rc_file s =
    let c = if str_eq rc_file "" then s.config else set_global_rc_file rc_file s.config in
    let (r, c') = get_global_rc fs c in
    let (done, ps) =
      (lift r >>= λ d.
      lift (iterate (or_else (find "plugin_paths" d) (arr nil))) >>= append_paths ct_dir)
        s.sys_path in
    (done, record { config = c'; sys_path = ps })

-- The reads of `main_run` once the configuration is available, on the files of that time.
unfoldable pub read_conf : Files → String → String → Action Config (Json × Json)
read_conf fs ct_path proc_name = do
  plugins ← get_proc_plugins_conf fs ct_path proc_name
  actions_conf ← get_actions_conf fs ct_path
  pure (plugins, actions_conf)

-- `while not is_running_config_available()`, with the files as each test finds them; `none` if the
-- process waits on. The reads find the files of the last test.
unfoldable pub wait_conf : String → String → List Files → Action Config (Option (Json × Json))
unfolding read_conf
wait_conf ct_path proc_name [] = pure none
wait_conf ct_path proc_name (fs ∷ later) = do
  there ← is_running_config_available fs ct_path
  elim there [
    | true ↦ read_conf fs ct_path proc_name >>= λ conf. pure (some conf)
    | false ↦ wait_conf ct_path proc_name later
  ]

-- `plugins.items()`
abbrev pub items_of : Fields → Dict Json
items_of end = []
items_of (field k v fs) = (k, v) ∷ items_of fs
