-- ===== src/PluginProc/Program.antt =====
-- The whole program of python_plugins/src/plugin_proc.py: the options, `main`, and the calls of
-- `main_run` with their wait for the configuration. Signals that come in before the first poll are
-- not modelled.
use sonic_device_health_prtm.Prelude.{
  true, false, none, String, List, Bool, Option, if◌then◌else◌, ℕ, ok, ◌||◌, ◌∷◌, [], some, err,
  ◌&&◌, not, PyError, ◌+◌, Result,
}
use sonic_device_health_prtm.Prelude.Int.{ℤ, negsuc}
use sonic_device_health_prtm.Prelude.Action.{Action, ◌>>=◌, ◌>>◌, pure, modify, raise}
use sonic_device_health_prtm.PluginProc.Run.{running, Outcome, main_run, returned}
use sonic_device_health_prtm.Json.{JsonModule, Json, obj}
use sonic_device_health_prtm.ClibBind.Calls.{ClibLibrary, register_client, is_zero, is_true}
use sonic_device_health_prtm.Common.Config.{Files, Config}
use sonic_device_health_prtm.PluginProc.State.{Turn, with_world}
use sonic_device_health_prtm.PluginProc.Loading.{Host}
use sonic_device_health_prtm.ClibBind.Load.{Dll, c_lib_init, clib_bind_names}
use sonic_device_health_prtm.Common.Log.{set_log_level, Log, syslog_init}
use sonic_device_health_prtm.PluginProc.Startup.{Setup, set_up, wait_conf, items_of}
use sonic_device_health_prtm.PluginProc.Requests.{Req, Process}
use sonic_device_health_prtm.Gvars.{set_test_mode}
pub mod Missing

-- What one call of `main_run` finds: the files at each test of its wait, and the turns of its poll
-- loop.
pub record Attempt (Req : Type 0) : Type 0 where
  pub files : List Files
  pub turns : List (Turn Req)

-- `args`
pub record Args : Type 0 where
  pub proc_name : String
  pub global_rc : String
  pub test : Bool
  pub log_level : ℤ

-- Of the environment: `sys.argv[0]`, the directory that common.py and plugin_proc.py stand in, what
-- `ctypes.CDLL` gives, what the import of the test double and its `clib_init` give, and the files when
-- `main` reads the global RC.
pub record Env : Type 0 where
  pub argv0 : String
  pub ct_dir : String
  pub found : Option Dll
  pub test_init : Result Bool
  pub files : Files

module _ (J : JsonModule) (lib : ClibLibrary J) (host : Host) where
  -- The variables of all modules.
  pub record Program : Type 0 where
    pub setup : Setup
    pub log : Log
    pub process : Process J lib

  -- A call that works on the variables of common.py and `sys.path`.
  abbrev pub with_setup : {A : Type 0} → Action Setup A → Action Program A
  with_setup m s = let (r, t) = m s.setup in (r, record s { setup = t })

  abbrev pub with_config : {A : Type 0} → Action Config A → Action Program A
  with_config m = with_setup (λ t. let (r, c) = m t.config in (r, record t { config = c }))

  -- A call that works on the variables of the main thread.
  abbrev pub with_process : {A : Type 0} → Action (Process J lib) A → Action Program A
  with_process m s = let (r, p) = m s.process in (r, record s { process = p })

  -- `main_run` behind the wait. If the plugins are no object, `plugins.items()` raises in the `try`
  -- statement, and the log line behind it, for want of pipes, raises at `plugins.keys()`.
  unfoldable pub run_plugins :
      String → Json × Json → List (Turn (Req J lib)) → Action (Process J lib) Outcome
  run_plugins proc_name (obj fs, actions_conf) turns =
      main_run J lib host proc_name
        (record { plugins = items_of fs; actions_conf = actions_conf; turns = turns })
  run_plugins proc_name (other, actions_conf) turns = do
    modify (λ p. record p { holders = []; pipe_list = [] })
    ret ← with_world (register_client J lib proc_name)
    if is_true ret then raise (PyError.attribute_error "keys") else pure (returned (negsuc 0))

  -- `main_run`
  unfoldable pub run_attempt : String → String → Attempt (Req J lib) → Action Program Outcome
  unfolding run_plugins
  run_attempt ct_path proc_name a = do
    conf ← with_config (wait_conf ct_path proc_name a.files)
    elim conf [
      | none ↦ pure running
      | some found ↦ with_process (run_plugins proc_name found a.turns)
    ]

  -- The loop of `main`: the number of calls of `main_run`, and whether the process has ended.
  unfoldable pub run_attempts :
      String → String → List (Attempt (Req J lib)) → Action Program (ℕ × Bool)
  run_attempts ct_path proc_name [] s =
      (ok (0, s.process.shutdown_request || s.process.sigterm_raised), s)
  run_attempts ct_path proc_name (a ∷ rest) s =
      elim (s.process.shutdown_request || s.process.sigterm_raised) [
        | true ↦ (ok (0, true), s)
        | false ↦
            (let (r, s') = run_attempt ct_path proc_name a s in
              elim r [
                | err e ↦ (err e, s')
                | ok running ↦ (ok (1, false), s')
                | ok (returned rc) ↦
                    if is_zero rc && not s'.process.sigusr1_raised
                    then (run_attempts ct_path proc_name rest >>= λ (k, ended). pure (k + 1, ended))
                        s'
                    else (ok (1, true), s')
              ])
      ]

  -- The call of `c_lib_init`.
  unfoldable pub init_library : Env → Action (Process J lib) Bool
  init_library env p =
      let (r, b) = c_lib_init clib_bind_names env.found env.test_init p.world.binding in
      (r, record p { world = record (p.world) { binding = b } })

  -- `main` behind the paths of the plugins.
  unfoldable pub open_and_run :
      Env → String → List (Attempt (Req J lib)) → Action Program (ℕ × Bool)
  unfolding run_attempts init_library
  open_and_run env proc_name attempts = do
    modify (λ s. record s { log = syslog_init env.argv0 proc_name s.log })
    ready ← with_process (init_library env)
    if ready then run_attempts env.ct_dir proc_name attempts else pure (0, true)

  -- `main`
  unfoldable pub whole_main :
      Env → String → String → List (Attempt (Req J lib)) → Action Program (ℕ × Bool)
  unfolding open_and_run
  whole_main env proc_name global_rc attempts = do
    with_setup (set_up env.files env.ct_dir global_rc)
    open_and_run env proc_name attempts

  -- What the options ask for before `main` is called.
  unfoldable pub take_options : Args → Program → Program
  take_options args s = record s {
    log = set_log_level args.log_level s.log;
    process =
        if args.test
        then record (s.process) {
          world = record (s.process.world) {
            binding = record (s.process.world.binding) {
              gvars = set_test_mode s.process.world.binding.gvars;
            };
          };
        }
        else s.process;
  }

  -- The program, once its arguments are parsed.
  unfoldable pub run_program : Env → Args → List (Attempt (Req J lib)) → Action Program (ℕ × Bool)
  unfolding whole_main take_options
  run_program env args attempts s =
      whole_main env args.proc_name args.global_rc attempts (take_options args s)
