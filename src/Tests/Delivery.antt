-- ===== src/Tests/Delivery.antt =====
-- A run of the process in which the server sends one request, and the plugin answers it.
use sonic_device_health_prtm.Prelude.Int.{ℤ, negsuc, pos}
use sonic_device_health_prtm.Prelude.{
  List, Option, some, ◌∷◌, ◌≡◌, [], none, false, ok, true, refl, ◌<◌, arith, ℕ, ◌≢◌,
}
use sonic_device_health_prtm.Prelude.Dict.{insert, lookup-AllValues}
use sonic_device_health_prtm.Prelude.Action.{Action}
use sonic_device_health_prtm.PluginProc.Requests.{
  Process, Req, handle_server_request, after_read, dispatch, handle_plugin_holder, perform_all,
  handle_shutdown,
}
use sonic_device_health_prtm.ClibBind.Messages.{ActionResponse, new_request, is_shutdown}
use sonic_device_health_prtm.PluginProc.Run.{
  main_run, Session, poll_loop, Outcome, serve, round, load_all,
}
use sonic_device_health_prtm.ClibBind.Calls.{
  ClibLibrary, register_client, register_action, poll_for_data, read_action_request, parse_request,
  send_touch, perform, last_error, deregister_client,
}
use sonic_device_health_prtm.Holder.Defs.{
  Holder, finished, running, write_action_response, not_started,
}
use sonic_device_health_prtm.Json.{Json, text, obj, end, find, index}
use sonic_device_health_prtm.Tests.Process.{json, host, test_binding, action_json, request_of}
use sonic_device_health_prtm.PluginProc.State.{Turn, deliver, sigterm}
use sonic_device_health_prtm.Holder.Methods.{
  do_touch_heartbeat, run_request, is_valid, send_request, handle_response, shutdown, after_calls,
}
use sonic_device_health_prtm.PluginProc.Loading.{load_plugins, load_one, module_name}
use sonic_device_health_prtm.PluginProc.Run.Reached.{Legal}
use sonic_device_health_prtm.PluginProc.Run.Whole.{loaded_by}
use sonic_device_health_prtm.PluginProc.Run.Delivery.{main_run_delivers, sent_or_kept}
use sonic_device_health_prtm.Holder.Threads.Work.{
  rest-ThreadRun, do_touch_heartbeat-ThreadRun, trans-ThreadRun, run_request-ThreadRun,
}
use sonic_device_health_prtm.PluginProc.Run.Wired.{IsWired, main_run-IsWired}
use sonic_device_health_prtm.PluginProc.Requests.Shutdown.{AllValid, AllAsked}
use sonic_device_health_prtm.PluginProc.Run.Asked.{main_run_asks_all}

abbrev answer : ActionResponse
answer = record {
  action_name = text "link_flap";
  instance_id = text "inst_0";
  anomaly_instance_id = text "inst_0";
  anomaly_key = text "Ethernet4";
  action_data = text "{}";
  result_code = pos 0;
  result_str = "";
}

-- A library with the requests still to read, and what the next polls report.
abbrev pub Script : Type 0
Script = List Json × List ℤ

abbrev next_poll : Action Script (Option ℤ)
next_poll (q, []) = (ok (some (negsuc 1)), (q, []))
next_poll (q, i ∷ is) = (ok (some i), (q, is))

abbrev next_request : Action Script (Option (Option Json))
next_request ([], is) = (ok (some none), ([], is))
next_request (j ∷ q, is) = (ok (some (some j)), (q, is))

abbrev pub scripted : ClibLibrary json
scripted = record {
  State = Script;
  register_client = λ _ x. (ok (pos 0), x);
  deregister_client = λ _ x. (ok (some (pos 0)), x);
  register_action = λ _ x. (ok (pos 0), x);
  touch_heartbeat = λ _ _ x. (ok (pos 0), x);
  read_action_request = λ _ x. next_request x;
  write_action_response = λ _ x. (ok (some (pos 0)), x);
  poll_for_data = λ _ _ x. next_poll x;
  get_last_error = λ x. (ok (pos 0), x);
  get_last_error_str = λ x. (ok none, x);
}

-- The server's request, then a heartbeat, then the timeout of the poll.
abbrev pub start : Process json scripted
start = record {
  world = record {
    binding = test_binding;
    ext = (action_json "link_flap" ∷ [], negsuc 0 ∷ pos 5 ∷ []);
  };
  holders = [];
  pipe_list = [];
  pipes_made = 0;
  signal_raised = false;
  sigusr1_raised = false;
  sigterm_raised = false;
  shutdown_request = false;
}

abbrev turn : (Holder (Req json scripted) → Holder (Req json scripted)) → Turn (Req json scripted)
turn f = record { threads = λ _ h. f h; signals = []; now = 3; reads = 2 }

abbrev session : Session (Req json scripted)
session = record {
  plugins = ("link_flap", text "vendors/sonic/actions/link_flap.py") ∷ [];
  actions_conf = obj end;
  turns =
      turn (λ h. h)
      ∷ turn (do_touch_heartbeat 5 (text "inst_0"))
      ∷ turn (λ h. run_request 9 (some answer) (do_touch_heartbeat 8 (text "inst_0") h))
      ∷ [];
}

abbrev reached : Process json scripted
reached = (main_run json scripted host "proc_0" session start).1

abbrev asked : Holder (Req json scripted)
asked = record {
  name = "link_flap";
  plugin = some (record { get_name = "link_flap"; valid = true; shutdown_flag = false });
  fds = some (5, 6);
  pipe = 0;
  thr = true;
  thread = running;
  response = none;
  last_request = some (request_of "link_flap");
  req_start = 3;
  req_end = 0;
  touch = none;
  touch_sent = none;
  instance_id = none;
  action_pause = none;
}

-- The holder when the schedule ends.
abbrev answered : Holder (Req json scripted)
answered = record asked {
  pipe = 10;
  thread = finished;
  response = some answer;
  req_end = 9;
  touch = some 8;
  touch_sent = some 5;
  instance_id = some (text "inst_0");
}

run_ends :
    ((main_run json scripted host "proc_0" session start).0 ≡ ok Outcome.running)
    × (reached.holders ≡ ("link_flap", answered) ∷ [])
unfolding main_run register_client load_plugins load_one module_name find register_action is_valid
    serve poll_loop round poll_for_data deliver handle_server_request after_read read_action_request
    parse_request new_request index dispatch is_shutdown send_request handle_response after_calls
    handle_plugin_holder send_touch perform do_touch_heartbeat run_request last_error
run_ends = (refl, refl)

not_a_descriptor : (n fd : ℕ) → ok (negsuc n) ≢ ok (pos fd)
not_a_descriptor n fd e = ground (arith, e)

-- The holder behind its first heartbeat.
abbrev beaten : Holder (Req json scripted)
beaten = record asked { touch = some 5; touch_sent = some 5; instance_id = some (text "inst_0") }

-- Nothing else than the server is announced in the first turn, the plugin's heartbeat in the second.
run-Legal : Legal json scripted session.turns (loaded_by json scripted host "proc_0" session start)
unfolding main_run register_client load_plugins load_one module_name find register_action is_valid
    serve poll_loop round poll_for_data deliver handle_server_request after_read read_action_request
    parse_request new_request index dispatch is_shutdown send_request handle_response after_calls
    handle_plugin_holder send_touch perform do_touch_heartbeat run_request last_error load_all
run-Legal = (
  (
    (
      rest-ThreadRun
          (record asked { thr = false; thread = not_started; last_request = none; req_start = 0 }),
      tt,
    ),
    (λ fd name h e f l. absurd (not_a_descriptor 0 fd e)),
  ),
  (
    (
      (do_touch_heartbeat-ThreadRun 5 (text "inst_0") asked refl, tt),
      (λ fd name h e f l.
          lookup-AllValues (λ (g : Holder (Req json scripted)). 0 < g.pipe) name h
            (("link_flap", do_touch_heartbeat 5 (text "inst_0") asked) ∷ []) (omega arith, tt) l),
    ),
    (
      (
        (
          trans-ThreadRun beaten (do_touch_heartbeat 8 (text "inst_0") beaten)
              (run_request 9 (some answer) (do_touch_heartbeat 8 (text "inst_0") beaten))
              (do_touch_heartbeat-ThreadRun 8 (text "inst_0") beaten refl)
              (run_request-ThreadRun 9 answer (do_touch_heartbeat 8 (text "inst_0") beaten)
                (omega arith) refl),
          tt,
        ),
        (λ fd name h e f l. absurd (not_a_descriptor 1 fd e)),
      ),
      tt,
    ),
  ),
)

main_run_delivers_example :
    (0 < 10)
    × (handle_plugin_holder json scripted "link_flap" reached ≡ (
        let (sent, w) =
          perform_all json scripted (write_action_response answer ∷ []) reached.world in
        (
          sent,
          record reached {
            world = w;
            holders = insert "link_flap" (sent_or_kept sent answered) reached.holders;
          },
        )))
unfolding main_run register_client load_plugins load_one module_name find register_action is_valid
    serve poll_loop round poll_for_data deliver handle_server_request after_read read_action_request
    parse_request new_request index dispatch is_shutdown send_request handle_response after_calls
    handle_plugin_holder send_touch perform do_touch_heartbeat run_request last_error
main_run_delivers_example =
    main_run_delivers json scripted host "proc_0" session start reached Outcome.running "link_flap"
      answered answer run-Legal refl refl refl refl

main_run-IsWired_example : IsWired reached
main_run-IsWired_example = main_run-IsWired json scripted host "proc_0" session start

-- A SIGTERM while the process polls for the first time.
abbrev pub ended : Session (Req json scripted)
ended = record session {
  turns = record { threads = λ _ h. h; signals = sigterm ∷ []; now = 3; reads = 2 } ∷ [];
}

main_run_asks_all_example :
    AllValid (main_run json scripted host "proc_0" ended start).1.holders
    × AllAsked (main_run json scripted host "proc_0" ended start).1.holders
unfolding main_run register_client load_plugins load_one module_name find register_action is_valid
    serve poll_loop round poll_for_data deliver handle_server_request after_read read_action_request
    parse_request new_request index dispatch is_shutdown send_request handle_shutdown last_error
    load_all deregister_client shutdown
main_run_asks_all_example =
    main_run_asks_all json scripted host "proc_0" ended start refl ((refl, tt), tt) refl
