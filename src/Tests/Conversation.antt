-- ===== src/Tests/Conversation.antt =====
-- The whole process on the client library of the test mode: the server writes a request, the plugin beats
-- and answers, and the server reads what the process has sent.
use sonic_device_health_prtm.Prelude.{
  ℕ, Result, map, List, ◌≡◌, Option, none, ◌∷◌, [], String, ok, false, refl, suc, some, zero, true,
  arith,
}
use sonic_device_health_prtm.Prelude.Int.{pos}
use sonic_device_health_prtm.Tests.Client.{texts}
use sonic_device_health_prtm.ClibBind.Messages.{
  ActionResponse, response_text, response_json, new_request, is_shutdown, action_fields,
}
use sonic_device_health_prtm.PluginProc.Requests.{
  Process, Req, handle_server_request, after_read, dispatch, handle_plugin_holder, handle_shutdown,
}
use sonic_device_health_prtm.Holder.Defs.{Holder}
use sonic_device_health_prtm.PluginProc.Run.{
  Session, main_run, serve, poll_loop, round, finish, Outcome,
}
use sonic_device_health_prtm.TestClient.Calls.{
  Client, tell, clib_register_client, register_on, by_suffix, take_service, take_index,
  clib_register_action, clib_touch_heartbeat, clib_deregister_client,
}
use sonic_device_health_prtm.TestClient.Services.{
  Services, new_service, req_action_request, server_read_request, service_at, server_read_from,
  server_write_request, request_body, write_to_server, is_wanted,
}
use sonic_device_health_prtm.Tests.Process.{json, test_binding, host, action_json}
use sonic_device_health_prtm.Json.{text, Fields, field, obj, end, find, index, item}
use sonic_device_health_prtm.TestClient.Polls.{
  as_library, poll_select, look, poll_round, poll_rounds, clib_poll_for_data,
}
use sonic_device_health_prtm.PluginProc.State.{Turn, deliver, sigterm}
use sonic_device_health_prtm.Holder.Methods.{
  do_touch_heartbeat, run_request, is_valid, send_request, handle_response, shutdown,
}
use sonic_device_health_prtm.TestClient.Cache.{bump, put, write, take, read_now}
use sonic_device_health_prtm.TestClient.Reads.{
  post, await, read_from_server, keep_checked, check_body, keep_request, keep_read, read_unless,
  read_req, give, hand_request, hand_out, clib_read_action_request, respond_with,
  clib_write_action_response,
}
use sonic_device_health_prtm.ClibBind.Calls.{
  register_client, register_action, poll_for_data, read_action_request, parse_request, after_call,
  send_touch, send_response, perform, last_error, call, deregister_client, boolean,
}
use sonic_device_health_prtm.ClibBind.Load.{validate_dll}
use sonic_device_health_prtm.PluginProc.Loading.{load_plugins, load_one, module_name}
use sonic_device_health_prtm.TestClient.Restart.{main_run_restarts}

abbrev reply : ActionResponse
reply = record {
  action_name = text "link_flap";
  instance_id = text "inst_0";
  anomaly_instance_id = text "inst_0";
  anomaly_key = text "Ethernet4";
  action_data = text "{}";
  result_code = pos 0;
  result_str = "";
}

-- The request wakes the process by the queue's descriptor, the plugin twice by its pipe.
abbrev before : Client
before = record {
  services = record { cnt = 1; svc = λ i. new_service ((10, 11), (12, 13)) };
  thread = none;
  waits =
      record {
        posted = field req_action_request (action_json "link_flap") end ∷ [];
        ready = λ fds. 12 ∷ [];
      }
      ∷ record { posted = []; ready = λ fds. 5 ∷ [] }
      ∷ record { posted = []; ready = λ fds. 5 ∷ [] }
      ∷ [];
}

abbrev pub start_test : Process json (as_library json texts)
start_test = record {
  world = record { binding = test_binding; ext = before };
  holders = [];
  pipe_list = [];
  pipes_made = 0;
  signal_raised = false;
  sigusr1_raised = false;
  sigterm_raised = false;
  shutdown_request = false;
}

abbrev next_turn :
    (Holder (Req json (as_library json texts)) → Holder (Req json (as_library json texts)))
    → Turn (Req json (as_library json texts))
next_turn f = record { threads = λ _ h. f h; signals = []; now = 3; reads = 2 }

abbrev talk : Session (Req json (as_library json texts))
talk = record {
  plugins = ("link_flap", text "vendors/sonic/actions/link_flap.py") ∷ [];
  actions_conf = obj end;
  turns =
      next_turn (λ h. h)
      ∷ next_turn (do_touch_heartbeat 5 (text "inst_0"))
      ∷ next_turn (run_request 9 (some reply))
      ∷ [];
}

abbrev end_of_talk : Services
end_of_talk =
    (main_run json (as_library json texts) host "proc_0" talk start_test).1.world.ext.services

-- What the server reads, message by message.
abbrev hear : ℕ → Services → List (Result (Option Fields))
hear zero s = []
hear (suc n) s = let (r, s') = server_read_request (10 ∷ []) s in r ∷ hear n s'

abbrev kind : Result (Option Fields) → String
kind (ok (some (field k v end))) = k
kind _ = ""

heard :
    map kind (hear 5 end_of_talk)
    ≡ "register_client" ∷ "register_action" ∷ "heartbeat" ∷ "action_request" ∷ "" ∷ []
unfolding server_read_request service_at server_read_from server_write_request request_body
    write_to_server is_wanted bump put write take read_now tell clib_register_client register_on
    by_suffix take_service take_index clib_register_action clib_touch_heartbeat post await
    read_from_server keep_checked check_body keep_request keep_read read_unless read_req give
    hand_request hand_out clib_read_action_request respond_with clib_write_action_response
    poll_select look poll_round poll_rounds clib_poll_for_data main_run serve poll_loop round
    register_client register_action poll_for_data read_action_request parse_request after_call
    send_touch send_response perform last_error call validate_dll response_text response_json
    new_request is_shutdown action_fields load_plugins load_one module_name find index item is_valid
    send_request handle_response do_touch_heartbeat run_request deliver handle_server_request
    after_read dispatch handle_plugin_holder
heard = refl

-- A session that a signal ends, while the first poll times out.
abbrev stopped : Session (Req json (as_library json texts))
stopped = record talk {
  turns = record { threads = λ _ h. h; signals = sigterm ∷ []; now = 3; reads = 2 } ∷ [];
}

abbrev quiet : Process json (as_library json texts)
quiet = record start_test {
  world = record {
    binding = test_binding;
    ext = record before { waits = record { posted = []; ready = λ fds. [] } ∷ [] };
  };
}

stops :
    (main_run json (as_library json texts) host "proc_0" stopped quiet).0
    ≡ ok (Outcome.returned (pos 0))
unfolding server_read_request service_at server_read_from server_write_request request_body
    write_to_server is_wanted bump put write take read_now tell clib_register_client register_on
    by_suffix take_service take_index clib_register_action clib_touch_heartbeat post await
    read_from_server keep_checked check_body keep_request keep_read read_unless read_req give
    hand_request hand_out clib_read_action_request respond_with clib_write_action_response
    poll_select look poll_round poll_rounds clib_poll_for_data main_run serve poll_loop round
    register_client register_action poll_for_data read_action_request parse_request after_call
    send_touch send_response perform last_error call validate_dll response_text response_json
    new_request is_shutdown action_fields load_plugins load_one module_name find index item is_valid
    send_request handle_response do_touch_heartbeat run_request deliver handle_server_request
    after_read dispatch handle_plugin_holder deregister_client clib_deregister_client finish
    handle_shutdown shutdown
stops = refl

main_run_restarts_example :
    let w = (main_run json (as_library json texts) host "proc_0" stopped quiet).1.world in
    (w.ext.thread ≡ none)
    × ((register_client json (as_library json texts) "proc_0" w).0 ≡ ok (boolean true))
unfolding validate_dll
main_run_restarts_example =
    main_run_restarts json texts host "proc_0" "0" 0 stopped quiet refl refl refl refl refl
      (omega arith) stops
