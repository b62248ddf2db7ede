-- ===== src/Tests/Process.antt =====
-- The main thread on small runs, over a library whose state is the queue of requests.
use sonic_device_health_prtm.Prelude.{
  List, String, length, Option, ok, ◌≡◌, true, ◌∷◌, refl, some, [], none, false, ◌*◌, not, ◌≢◌,
  is_some, ◌+◌, ◌<◌, arith,
}
use sonic_device_health_prtm.Prelude.Int.{pos, negsuc}
use sonic_device_health_prtm.Prelude.Dict.{insert, lookup}
use sonic_device_health_prtm.Prelude.Action.{Action}
use sonic_device_health_prtm.PluginProc.Requests.Queue.{QueuedLibrary, handle_server_request_drains}
use sonic_device_health_prtm.PluginProc.Loading.{module_name, Host, load_plugins, load_one}
use sonic_device_health_prtm.Holder.Defs.{Holder, not_started, Thread}
use sonic_device_health_prtm.PluginProc.Run.{
  Session, main_run, main, serve, poll_loop, round, main_loop,
}
use sonic_device_health_prtm.ClibBind.Calls.{
  ClibLibrary, register_client, read_action_request, poll_for_data, last_error, deregister_client,
  register_action, parse_request,
}
use sonic_device_health_prtm.PluginProc.Requests.{
  handle_server_request, Req, Process, after_read, dispatch, handle_shutdown,
}
use sonic_device_health_prtm.ClibBind.Load.{Binding, symbols, prototypes, clib_bind_names, Dll}
use sonic_device_health_prtm.Json.{JsonModule, Json, obj, field, text, end, int, index, find}
use sonic_device_health_prtm.ClibBind.Messages.{ActionFields, is_shutdown, new_request}
use sonic_device_health_prtm.PluginProc.State.{sighup, deliver}
use sonic_device_health_prtm.Gvars.{initial_gvars}
use sonic_device_health_prtm.Holder.Methods.{is_valid, send_request, shutdown}
use sonic_device_health_prtm.PluginProc.Requests.Dispatch.{Started, dispatch_starts}
use sonic_device_health_prtm.PluginProc.Run.Production.{production_never_serves}
use sonic_device_health_prtm.PluginProc.Run.Signals.{signal_ends_process}

-- Texts are values that are not printed; the empty text is none.
abbrev pub json : JsonModule
json = record {
  Text = Option Json;
  empty = none;
  is_empty = λ t. not (is_some t);
  dumps = λ j. some j;
  loads = λ t. t;
  loads-dumps = λ j. refl;
  dumps_nonempty = λ j. refl;
  empty_is_empty = refl;
  loads-empty = refl;
}

abbrev pop : Action (List Json) (Option (Option Json))
pop [] = (ok (some none), [])
pop (j ∷ js) = (ok (some (some j)), js)

abbrev pub library : ClibLibrary json
library = record {
  State = List Json;
  register_client = λ _ x. (ok (pos 0), x);
  deregister_client = λ _ x. (ok (some (pos 0)), x);
  register_action = λ _ x. (ok (pos 0), x);
  touch_heartbeat = λ _ _ x. (ok (pos 0), x);
  read_action_request = λ _ x. pop x;
  write_action_response = λ _ x. (ok (some (pos 0)), x);
  poll_for_data = λ _ _ x. (ok (some (negsuc 0)), x);
  get_last_error = λ x. (ok (pos 0), x);
  get_last_error_str = λ x. (ok none, x);
}

pop_takes :
    (x : List Json) (t : Option Json)
    → (pop x).0 ≡ ok (some t)
    → not (is_some t) ≡ false
    → length (pop x).1 < length x
pop_takes [] t e f = ground arith
pop_takes (j ∷ js) t e f = omega arith

abbrev queued : QueuedLibrary json library
queued = record { pending = length; read_takes = λ x t e f. pop_takes x t e f }

abbrev pub test_binding : Binding
test_binding = record {
  dll = true;
  bound = symbols prototypes;
  gvars = record initial_gvars { test_run = true };
}

abbrev loaded : Holder (Req json library)
loaded = record {
  name = "link_flap";
  plugin = some (record { get_name = "link_flap"; valid = true; shutdown_flag = false });
  fds = some (5, 6);
  pipe = 0;
  thr = false;
  thread = not_started;
  response = none;
  last_request = none;
  req_start = 0;
  req_end = 0;
  touch = none;
  touch_sent = none;
  instance_id = none;
  action_pause = none;
}

abbrev shutdown_json : Json
shutdown_json = obj (field "request_type" (text "shutdown") end)

abbrev pub action_json : String → Json
action_json name = obj (
    field "request_type" (text "action") (
      field "action_name" (text name) (
        field "instance_id" (text "inst_0") (
          field "anomaly_instance_id" (text "inst_0") (
            field "anomaly_key" (text "")
              (field "context" (obj end) (field "timeout" (int (pos 0)) end)))))))

abbrev pub fields_of : String → ActionFields
fields_of name = record {
  action_name = text name;
  instance_id = text "inst_0";
  anomaly_instance_id = text "inst_0";
  anomaly_key = text "";
  context = obj end;
  timeout = int (pos 0);
}

abbrev pub request_of : String → Req json library
request_of name = record {
  str_data = some (action_json name);
  kind = text "action";
  fields = some (fields_of name);
}

abbrev pub process : List Json → Process json library
process queue = record {
  world = record { binding = test_binding; ext = queue };
  holders = ("link_flap", loaded) ∷ [];
  pipe_list = (5, "link_flap") ∷ [];
  pipes_made = 1;
  signal_raised = false;
  sigusr1_raised = false;
  sigterm_raised = false;
  shutdown_request = false;
}

abbrev pub host : Host
host = record {
  load_module = λ name _. ok (record { get_name = name; valid = true; shutdown_flag = false });
  os_pipe = λ n. (2 * n + 5, 2 * n + 6);
}

-- One turn in which SIGHUP arrives; the library's poll announces the server.
abbrev hup_session : Session (Req json library)
hup_session = record {
  plugins = ("link_flap", text "vendors/sonic/actions/link_flap.py") ∷ [];
  actions_conf = obj end;
  turns = record { threads = λ _ h. h; signals = sighup ∷ []; now = 1; reads = 9 } ∷ [];
}

module_name_example : module_name "vendors/sonic/actions/link_flap.py" ≡ "link_flap"
unfolding module_name
module_name_example = refl

handle_server_request_drains_example :
    let p = process (action_json "link_flap" ∷ []) in
    ((handle_server_request json library 2 0 p).0 ≢ ok false)
    × (handle_server_request json library (3 + 2) 0 p ≡ handle_server_request json library 2 0 p)
handle_server_request_drains_example =
    handle_server_request_drains json library queued 2 3 0 (process (action_json "link_flap" ∷ []))
      (omega arith)

-- The queue is read to its end, and the request has started the plugin.
one_request_served :
    let (r, p) = handle_server_request json library 2 7 (process (action_json "link_flap" ∷ [])) in
    (r ≡ ok true)
    × (p.holders
        ≡ (
          "link_flap",
          record loaded {
            thr = true;
            thread = Thread.running;
            last_request = some (request_of "link_flap");
            req_start = 7;
          },
        )
          ∷ [])
unfolding handle_server_request after_read dispatch read_action_request new_request index find
    is_shutdown is_valid send_request last_error parse_request
one_request_served = (refl, refl)

dispatch_starts_example :
    (h' : Holder (Req json library)) × Started json library 7 (request_of "link_flap") loaded h'
    × (dispatch json library 7 (request_of "link_flap") (process [])
        ≡ (ok tt, record (process []) { holders = insert "link_flap" h' (process []).holders }))
    × (lookup "link_flap" (insert "link_flap" h' (process []).holders) ≡ some h')
    × ((other : String)
        → "link_flap" ≢ other
        → lookup other (insert "link_flap" h' (process []).holders)
          ≡ lookup other (process []).holders)
unfolding is_shutdown is_valid
dispatch_starts_example =
    dispatch_starts json library 7 (request_of "link_flap") (fields_of "link_flap") "link_flap"
      loaded (process []) refl refl refl refl refl refl refl

signal_ends_process_example :
    main_loop json library host "proc_0" (hup_session ∷ hup_session ∷ []) (process [])
    ≡ (ok (1, true), (main_run json library host "proc_0" hup_session (process [])).1)
unfolding deliver parse_request main_run register_client load_plugins serve poll_loop round
    poll_for_data handle_server_request after_read read_action_request last_error is_valid load_one
    module_name find deregister_client handle_shutdown shutdown register_action
signal_ends_process_example =
    signal_ends_process json library host "proc_0" hup_session (hup_session ∷ []) (process [])
      (main_run json library host "proc_0" hup_session (process [])).1 (pos 0) refl refl refl refl

-- A library that exports everything.
abbrev dll : Dll
dll = record { exports = λ _. true; global_str = λ _. some "request_type" }

abbrev unbound : Binding
unbound = record { dll = false; bound = []; gvars = initial_gvars }

-- With `from ctypes import *` in place the same library would be bound.
abbrev mended_names : List String
mended_names = "c_int" ∷ "c_char_p" ∷ "POINTER" ∷ clib_bind_names

abbrev cold_process : Process json library
cold_process = record (process []) { world = record { binding = unbound; ext = [] } }

production_never_serves_example :
    let (r, q) =
      main json library host (some dll) (ok true) "proc_0" (hup_session ∷ []) cold_process in
    (r ≡ ok (0, true)) × (q.world.ext ≡ cold_process.world.ext) × (q.holders ≡ cold_process.holders)
production_never_serves_example =
    production_never_serves json library host (some dll) (ok true) "proc_0" (hup_session ∷ [])
      cold_process refl refl
