-- ===== src/Tests/Program.antt =====
-- The whole program, which waits once for its configuration and ends at a SIGTERM.
use sonic_device_health_prtm.Prelude.{none, true, [], List, ◌∷◌, ◌≡◌, refl, ok}
use sonic_device_health_prtm.Prelude.Int.{pos}
use sonic_device_health_prtm.PluginProc.State.{sigterm, deliver}
use sonic_device_health_prtm.Json.{end, Fields, find, Json, field, text, obj, index}
use sonic_device_health_prtm.PluginProc.Program.{
  Program, Args, run_program, Env, Attempt, run_attempt,
}
use sonic_device_health_prtm.PluginProc.Startup.{set_up, wait_conf}
use sonic_device_health_prtm.Tests.Process.{json, host}
use sonic_device_health_prtm.Common.Config.{
  get_global_rc, is_running_config_available, get_proc_plugins_conf, get_actions_conf,
}
use sonic_device_health_prtm.PluginProc.Requests.{
  Req, handle_server_request, after_read, dispatch, handle_shutdown,
}
use sonic_device_health_prtm.Tests.Delivery.{scripted}
use sonic_device_health_prtm.Common.Paths.{path_join, syspath_append, is_on, drop_last}
use sonic_device_health_prtm.PluginProc.Run.{main_run, serve, poll_loop, round}
use sonic_device_health_prtm.ClibBind.Calls.{
  register_client, register_action, poll_for_data, read_action_request, parse_request, last_error,
  deregister_client,
}
use sonic_device_health_prtm.PluginProc.Loading.{load_plugins, load_one, module_name}
use sonic_device_health_prtm.Holder.Methods.{is_valid, send_request, shutdown}
use sonic_device_health_prtm.ClibBind.Messages.{new_request, is_shutdown}
use sonic_device_health_prtm.ClibBind.Load.{c_lib_init}
use sonic_device_health_prtm.Tests.Delivery as Delivery
use sonic_device_health_prtm.Tests.Startup as Startup

abbrev env : Env
env = record {
  argv0 = "/usr/bin/plugin_proc.py";
  ct_dir = "/lom";
  found = none;
  test_init = ok true;
  files = Startup.early_files;
}

abbrev attempts : List (Attempt (Req json scripted))
attempts =
    record {
      files = Startup.early_files ∷ Startup.files ∷ [];
      turns = record { threads = λ _ h. h; signals = sigterm ∷ []; now = 3; reads = 2 } ∷ [];
    }
    ∷ []

abbrev confs : List (Fields × Json)
confs = (field "link_flap" (text "link_flap.py") end, obj end) ∷ []

abbrev program : Program json scripted host
program = record {
  setup = Startup.start;
  log = record { ident = ""; level = pos 3; written = [] };
  process = Delivery.start;
}

abbrev args : Args
args = record { proc_name = "proc_0"; global_rc = ""; test = true; log_level = pos 6 }

-- The program waits once, loads the plugin, and tells it to shut down behind the signal.
program_runs :
    let (r, s') = run_program json scripted host env args attempts program in
    (r ≡ ok (1, true)) × (s'.process.shutdown_request ≡ true)
unfolding run_program set_up get_global_rc find wait_conf is_running_config_available path_join
    get_proc_plugins_conf get_actions_conf main_run register_client load_plugins load_one
    module_name register_action is_valid serve poll_loop round poll_for_data deliver
    handle_server_request after_read read_action_request parse_request new_request index dispatch
    is_shutdown send_request handle_shutdown last_error deregister_client shutdown c_lib_init
    syspath_append is_on drop_last run_attempt
program_runs = (refl, refl)
