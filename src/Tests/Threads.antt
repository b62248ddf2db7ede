-- ===== src/Tests/Threads.antt =====
-- A holder for the plugin "link_flap" that runs one request.
use sonic_device_health_prtm.Prelude.{
  ℕ, ◌<◌, ◌≢◌, true, ◌++◌, some, refl, ◌≡◌, false, PyError, none, ◌∷◌, [], arith,
}
use sonic_device_health_prtm.Prelude.Int.{pos}
use sonic_device_health_prtm.Holder.Defs.{
  Holder, finished, touched, not_started, write_action_response, touch_heartbeat,
}
use sonic_device_health_prtm.Holder.Threads.System.{
  IsFresh, Steps, System, crashed, next, initial, here, idle, no_thread, accept, start, touch_now,
  identify, signal_beat, answer, stamp, signal_end,
}
use sonic_device_health_prtm.ClibBind.Messages.{ActionResponse}
use sonic_device_health_prtm.Holder.Threads.Accounting.{
  responses, unsent, somes, responses_in_order,
}
use sonic_device_health_prtm.Holder.Threads.Wakeup.{no_lost_wakeup, response_delivered}
use sonic_device_health_prtm.Json.{text}
use sonic_device_health_prtm.Holder.Threads.Refinement.{
  Lands, Submits, send_request_runs, handle_response_runs,
}
use sonic_device_health_prtm.Holder.Methods.{send_request, handled}
use sonic_device_health_prtm.Holder.Threads.Instance.{no_instance_error}
use sonic_device_health_prtm.Holder.Threads.Hazards.{busy_stops_process, stale_heartbeat_sent}

abbrev holder : Holder ℕ
holder = record {
  name = "link_flap";
  plugin = some (record { get_name = "link_flap"; valid = true; shutdown_flag = false });
  fds = some (5, 6);
  pipe = 0;
  thr = false;
  thread = not_started;
  response = none;
  last_request = none;
  req_start = 0;
  req_end = 0;
  touch = none;
  touch_sent = none;
  instance_id = none;
  action_pause = none;
}

holder-IsFresh : IsFresh holder
holder-IsFresh = (refl, refl, refl, refl, refl, refl, refl, refl)

abbrev reported_response : ActionResponse
reported_response = record {
  action_name = text "link_flap";
  instance_id = text "inst_0";
  anomaly_instance_id = text "inst_0";
  anomaly_key = text "Ethernet92";
  action_data = text "{}";
  result_code = pos 0;
  result_str = "";
}

-- The plugin has touched once and returned; the main thread has slept.
abbrev unsent_state : System ℕ
unsent_state = record {
  holder = record holder {
    pipe = 10;
    thr = true;
    thread = finished;
    response = some reported_response;
    last_request = some 1;
    req_start = 3;
    req_end = 5;
    touch = some 4;
    instance_id = some (text "inst_0");
  };
  main = idle;
  wire = [];
  submitted = 1 ∷ [];
  returned = some reported_response ∷ [];
}

unsent_run : Steps true (initial holder) unsent_state
unsent_run =
    next
      (next
        (next
          (next
            (next
              (next
                (next (next (next here (no_thread refl refl)) (accept refl refl)) (start 3 1 refl))
                (touch_now 4 (text "inst_0") refl))
              (identify (text "inst_0") refl))
            (signal_beat refl))
          (answer reported_response refl))
        (stamp 5 (omega arith) refl))
      (signal_end refl)

responses_in_order_example :
    responses unsent_state.wire ++ unsent unsent_state.main unsent_state.holder.response
    ≡ somes unsent_state.returned
responses_in_order_example = responses_in_order holder holder-IsFresh unsent_run

no_lost_wakeup_example : 0 < unsent_state.holder.pipe
no_lost_wakeup_example = no_lost_wakeup holder holder-IsFresh unsent_run refl refl refl

response_delivered_example :
    (t : System ℕ) × Steps true unsent_state t
    × (t.wire ≡ unsent_state.wire ++ (write_action_response reported_response ∷ []))
    × (t.main ≡ idle)
    × (t.holder.response ≡ none)
    × (t.holder.req_end ≡ 0)
response_delivered_example =
    response_delivered holder reported_response holder-IsFresh unsent_run refl refl refl

no_instance_error_example : unsent_state.main ≢ crashed (PyError.attribute_error "instance_id")
no_instance_error_example = no_instance_error holder holder-IsFresh unsent_run "instance_id"

handle_response_runs_example :
    (t : System ℕ) × Steps true unsent_state t × Lands unsent_state (handled unsent_state.holder) t
handle_response_runs_example = handle_response_runs unsent_state refl (omega arith)

send_request_runs_example :
    (t : System ℕ) × Steps true unsent_state t
    × Submits unsent_state 2 (send_request 6 2 unsent_state.holder) t
send_request_runs_example = send_request_runs 6 2 unsent_state refl

busy_stops_process_example :
    (s : System ℕ) × Steps true (initial holder) s
    × (s.main ≡ crashed (PyError.name_error "take"))
    × (s.wire ≡ write_action_response reported_response ∷ [])
    × (s.submitted ≡ 1 ∷ [])
busy_stops_process_example = busy_stops_process holder holder-IsFresh 1 reported_response

stale_heartbeat_sent_example :
    (s : System ℕ) × Steps true (initial holder) s
    × (s.holder.thread ≡ touched (text "inst_1"))
    × (s.wire
        ≡ write_action_response reported_response
          ∷ touch_heartbeat "link_flap" (text "inst_0")
          ∷ [])
    × (s.submitted ≡ 1 ∷ 2 ∷ [])
    × (s.returned ≡ some reported_response ∷ [])
stale_heartbeat_sent_example =
    stale_heartbeat_sent holder holder-IsFresh 1 2 reported_response (text "inst_0") (text "inst_1")
