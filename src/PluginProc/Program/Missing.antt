-- ===== src/PluginProc/Program/Missing.antt =====
-- The program of python_plugins/src/plugin_proc.py without its global RC file.
use sonic_device_health_prtm.Prelude.{PyError, String, ◌≡◌, false, List, err, arith, ap}
use sonic_device_health_prtm.Prelude.Action.{bind-raises}
use sonic_device_health_prtm.Json.{JsonModule, truthy, obj}
use sonic_device_health_prtm.PluginProc.Startup.{set_up, Setup}
use sonic_device_health_prtm.ClibBind.Calls.{ClibLibrary}
use sonic_device_health_prtm.Common.Config.{Files}
use sonic_device_health_prtm.PluginProc.Loading.{Host}
use sonic_device_health_prtm.PluginProc.Program.{
  run_program, whole_main, take_options, Env, Args, Attempt, Program, with_setup, open_and_run,
}
use sonic_device_health_prtm.PluginProc.Startup.SearchPath.{configured}
use sonic_device_health_prtm.Common.Config.Cache.{get_global_rc_raises}
use sonic_device_health_prtm.PluginProc.Requests.{Req}
use sonic_device_health_prtm.Common.Log.{set_log_level}

abbrev no_rc : PyError
no_rc = PyError.raised "Sorry, global rc file missing; break"

set_up_raises :
    (fs : Files) (ct_dir rc_file : String) (s : Setup)
    → truthy (obj (configured ct_dir rc_file s).rc_data) ≡ false
    → fs.exists (configured ct_dir rc_file s).rc_file ≡ false
    → (set_up fs ct_dir rc_file s).0 ≡ err no_rc
unfolding set_up
set_up_raises fs ct_dir rc_file s empty missing =
    ground (arith, get_global_rc_raises fs (configured ct_dir rc_file s) empty missing)

module _ (J : JsonModule) (lib : ClibLibrary J) (host : Host) where
  -- If nothing of the global RC is in the cache and its file, the one of the option or else the one
  -- that is set, does not exist, the program ends with an exception before it opens the log, binds
  -- the library or waits: of the state of the main thread nothing has changed but what the options
  -- ask for.
  pub run_program_needs_rc :
      (env : Env) (args : Args) (attempts : List (Attempt (Req J lib))) (s : Program J lib host)
      → truthy (obj (configured env.ct_dir args.global_rc s.setup).rc_data) ≡ false
      → env.files.exists (configured env.ct_dir args.global_rc s.setup).rc_file ≡ false
      → let (r, s') = run_program J lib host env args attempts s in
        (r ≡ err (PyError.raised "Sorry, global rc file missing; break"))
        × (s'.log ≡ set_log_level args.log_level s.log)
        × (s'.process ≡ (take_options J lib host args s).process)
  unfolding run_program whole_main take_options
  run_program_needs_rc env args attempts s empty missing =
      let t = take_options J lib host args s in
      let m = with_setup J lib host (set_up env.files env.ct_dir args.global_rc) in
      let fails = set_up_raises env.files env.ct_dir args.global_rc s.setup empty missing in
      let run =
        bind-raises m (λ _. open_and_run J lib host env args.proc_name attempts) t no_rc fails in
      (ap (λ r. r.0) run, ap (λ r. r.1.log) run, ap (λ r. r.1.process) run)
