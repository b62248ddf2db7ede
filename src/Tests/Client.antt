-- ===== src/Tests/Client.antt =====
-- The process in the test mode, with the client library of python_plugins/tests/lib/test_client.py.
use sonic_device_health_prtm.Prelude.{
  Bool, List, some, ◌∷◌, ℕ, [], none, if◌then◌else◌, str_eq, ◌≡◌, ok, ◌⊎◌, err, arith, true, refl,
  PyError, false, ◌≢◌, ◌+◌,
}
use sonic_device_health_prtm.Prelude.Int.{pos, negsuc}
use sonic_device_health_prtm.TestClient.Registered.{AllOrNothing, register-AllOrNothing}
use sonic_device_health_prtm.TestClient.Polls.{
  clib_poll_for_data, as_library, poll_rounds, poll_round, poll_select, look,
}
use sonic_device_health_prtm.TestClient.Calls.{
  TextModule, clib_register_client, Client, ThreadLocal, register_on, by_suffix, take_service,
  take_index, tell, clib_register_action,
}
use sonic_device_health_prtm.ClibBind.Calls.{World, send_response, read_action_request}
use sonic_device_health_prtm.TestClient.Session.{
  after, Use, use_on, registers, registers_action, session_hands_wanted, session_poll_then_read,
}
use sonic_device_health_prtm.Json.{
  Json, obj, Fields, text, field, null, end, int, index, item, find,
}
use sonic_device_health_prtm.TestClient.Services.{
  server_write_request, Services, new_service, is_wanted, req_action_request, request_body,
  write_to_server, server_read_from, only_message,
}
use sonic_device_health_prtm.ClibBind.Messages.{ActionResponse, new_request, response_json}
use sonic_device_health_prtm.Tests.Process.{json, test_binding}
use sonic_device_health_prtm.TestClient.Cache.Fifo.{Contains}
use sonic_device_health_prtm.TestClient.Cache.{new_cache, write, read_now, take, put, bump}
use sonic_device_health_prtm.TestClient.Server.{offered, request_reaches, response_offered}
use sonic_device_health_prtm.TestClient.Reads.{
  clib_read_action_request, read_req, read_unless, read_from_server, await, post, keep_read,
  keep_request, check_body, keep_checked,
}
use sonic_device_health_prtm.ClibBind.Load.{validate_dll}
use sonic_device_health_prtm.PluginProc.Requests.{Process, handle_server_request}
use sonic_device_health_prtm.TestClient.Drained.{test_mode_drains}
use sonic_device_health_prtm.TestClient.Cache.Invariant.{first}

abbrev pub texts : TextModule
texts = record {
  behind_last =
      λ s. if str_eq s "proc_0" then some "0" else if str_eq s "proc_7" then some "7" else none;
  int_of = λ s. if str_eq s "0" then some (pos 0) else if str_eq s "7" then some (pos 7) else none;
}

abbrev request : Json
request = obj (
    field "request_type" (text "action") (
      field "action_name" (text "link_flap") (
        field "instance_id" (text "id-1") (
          field "anomaly_instance_id" (text "id-1") (
            field "anomaly_key" (text "")
              (field "context" null (field "timeout" (int (pos 60)) end)))))))

-- A request for a plugin of another process.
abbrev elsewhere : Json
elsewhere = obj (field "request_type" (text "action") (field "action_name" (text "link_down") end))

abbrev posted_as : Json → Fields
posted_as v = field req_action_request v end

abbrev services : Services
services = record { cnt = 1; svc = λ i. new_service ((10, 11), (12, 13)) }

-- While the process waits, the server writes a request for another one and then one for it.
abbrev unregistered : Client
unregistered = record {
  services = services;
  thread = none;
  waits =
      record { posted = posted_as elsewhere ∷ []; ready = λ fds. 12 ∷ [] }
      ∷ record { posted = posted_as request ∷ []; ready = λ fds. 12 ∷ [] }
      ∷ [];
}

abbrev start_up : List (Use json)
start_up = registers "proc_0" ∷ registers_action "link_flap" ∷ []

abbrev own_thread : ThreadLocal
own_thread = record { cache_svc = 0; cl_name = "proc_0"; actions = "link_flap" ∷ []; req = none }

started_thread : (after json texts start_up unregistered).thread ≡ some own_thread
unfolding after use_on clib_register_client register_on by_suffix take_service take_index tell
    clib_register_action
started_thread = refl

polled_for :
    (clib_poll_for_data [] (pos 10) (after json texts start_up unregistered)).0
    ≡ ok (some (negsuc 0))
unfolding after use_on clib_register_client register_on by_suffix take_service take_index tell
    clib_register_action clib_poll_for_data poll_rounds poll_round poll_select look read_req
    read_unless read_from_server await post server_write_request request_body write read_now take
    put bump keep_read keep_request check_body is_wanted keep_checked write_to_server index item
    find
polled_for = refl

session_poll_then_read_example :
    let s' = (clib_poll_for_data [] (pos 10) (after json texts start_up unregistered)).1 in
    (t : ThreadLocal) × (v : Json) × (s'.thread ≡ some t)
    × (is_wanted t.actions v ≡ ok true)
    × ((clib_read_action_request json (pos 0) s').0 ≡ ok (some (some v)))
session_poll_then_read_example =
    session_poll_then_read json texts start_up unregistered [] (pos 10) (pos 0) refl polled_for

-- A read that waits for the first message is handed nothing of it.
read_elsewhere :
    (clib_read_action_request json (negsuc 0) (after json texts start_up unregistered)).0
    ≡ ok (some none)
unfolding after use_on clib_register_client register_on by_suffix take_service take_index tell
    clib_register_action clib_read_action_request read_req read_unless read_from_server await post
    server_write_request request_body write read_now take put bump keep_read keep_request check_body
    is_wanted keep_checked write_to_server index item find
read_elsewhere = refl

session_hands_wanted_example :
    (some (json.empty) ≡ some (json.empty))
    ⊎ ((v : Json) × (some (json.empty) ≡ some (json.dumps v))
        × (is_wanted ("link_flap" ∷ []) v ≡ ok true))
session_hands_wanted_example =
    session_hands_wanted json texts start_up unregistered (negsuc 0) own_thread (some (json.empty))
      refl started_thread read_elsewhere

registered_7 : (clib_register_client texts "proc_7" unregistered).0 ≡ err (PyError.name_error "cnt")
unfolding clib_register_client register_on by_suffix take_service
registered_7 = refl

register-AllOrNothing_example :
    AllOrNothing "proc_7" unregistered (clib_register_client texts "proc_7" unregistered)
register-AllOrNothing_example = register-AllOrNothing texts "proc_7" unregistered

empty-Contains : (c2s : Bool) (fds : ℕ × ℕ) → Contains (new_cache {D = Fields} 10 c2s fds) []
empty-Contains c2s fds = record {
  start = omega arith;
  fits = omega arith;
  counts = refl;
  holds = tt;
  tail = refl;
}

abbrev connected : World Client
connected = record {
  binding = test_binding;
  ext = record { services = services; thread = some own_thread; waits = [] };
}

request_reaches_example :
    let s' = (server_write_request (posted_as request) services).1 in
    (read_action_request json
      (as_library json texts)
      (pos 0)
      (record connected { ext = record { services = s'; thread = some own_thread; waits = [] } })).0
    ≡ elim (new_request json test_binding.gvars (some request)) [
      | err x ↦ err x
      | ok r ↦ ok (some r)
    ]
unfolding is_wanted index find validate_dll
request_reaches_example =
    request_reaches json texts (pos 0) request connected own_thread refl refl refl refl refl
      (empty-Contains false (12, 13))

abbrev response : ActionResponse
response = record {
  action_name = text "link_flap";
  instance_id = text "id-1";
  anomaly_instance_id = text "id-1";
  anomaly_key = text "Ethernet0";
  action_data = null;
  result_code = pos 0;
  result_str = "";
}

response_offered_example :
    let (b, w') = send_response json (as_library json texts) response connected in
    let q' = offered 10 (posted_as (response_json test_binding.gvars response)) [] in
    (b ≡ ok true)
    × Contains (w'.ext.services.svc 0).c2s q'
    × ((server_read_from 0 w'.ext.services).0 ≡ ok (only_message (first q')))
unfolding validate_dll
response_offered_example =
    response_offered json texts response connected own_thread [] refl refl refl
      (empty-Contains true (10, 11))

-- The process of the test mode, before which the server has written one request.
abbrev served : Process json (as_library json texts)
served = record {
  world = record connected {
    ext = record {
      services = (server_write_request (posted_as request) services).1;
      thread = some own_thread;
      waits = [];
    };
  };
  holders = [];
  pipe_list = [];
  pipes_made = 0;
  signal_raised = false;
  sigusr1_raised = false;
  sigterm_raised = false;
  shutdown_request = false;
}

test_mode_drains_example :
    ((handle_server_request json (as_library json texts) 2 0 served).0 ≢ ok false)
    × (handle_server_request json (as_library json texts) (1 + 2) 0 served
        ≡ handle_server_request json (as_library json texts) 2 0 served)
unfolding server_write_request request_body write
test_mode_drains_example = test_mode_drains json texts 2 1 0 served (omega arith)
