-- ===== src/TestClient/Polls.antt =====
-- `_poll` and `clib_poll_for_data` of python_plugins/tests/lib/test_client.py, and its functions as the
-- client library of the process.
use sonic_device_health_prtm.Prelude.{
  ℕ, List, Bool, none, Option, ◌∷◌, false, some, Result, [], suc, is_some, if◌then◌else◌, ok, ltb,
  err, zero, or_else, length,
}
use sonic_device_health_prtm.Prelude.Int.{ℤ, pos, pos_part, negsuc}
use sonic_device_health_prtm.Prelude.Action.{Action}
use sonic_device_health_prtm.TestClient.Reads.{
  read_req, post, left, mem_num, clib_read_action_request, clib_write_action_response,
}
use sonic_device_health_prtm.TestClient.Calls.{
  Client, Select, if_registered, TextModule, clib_register_client, clib_deregister_client,
  clib_register_action, clib_touch_heartbeat,
}
use sonic_device_health_prtm.ClibBind.Calls.{is_zero, ClibLibrary}
use sonic_device_health_prtm.Json.{JsonModule}

-- `_poll`: what `select` returns, or none at the timeout or the shutdown.
unfoldable pub poll_select : List Select → List ℕ → ℤ → Client → List ℕ × Client
unfolding post
poll_select [] fds timeout s = ([], s)
poll_select (e ∷ es) fds timeout s =
    let s' : Client = record s { services = post e.posted s.services; waits = es } in
    let later = poll_select es fds (left timeout) s' in
    elim (e.ready fds) [
      | [] ↦ if is_zero (left timeout) then ([], s') else later
      | fd ∷ more ↦ (fd ∷ more, s')
    ]

-- Whether the thread keeps a request.
abbrev pub has_request : Client → Bool
has_request s = elim s.thread [ none ↦ false | some t ↦ is_some t.req ]

-- `_read_req(0)` of the loop
unfoldable pub look : Action Client Bool
unfolding read_req
look = if_registered false (read_req (pos 0))

-- A round of the loop of `clib_poll_for_data` for a thread that listens at `signal`, with the waits to
-- come; `again` is the loop's rest. Behind the loop stands None.
unfoldable pub poll_round :
    (Client → Option (Result (Option ℤ) × Client))
    → ℕ
    → List ℕ
    → ℤ
    → List Select
    → Client
    → Option (Result (Option ℤ) × Client)
unfolding poll_select look
poll_round again signal fds timeout [] s = some (ok none, s)
poll_round again signal fds timeout (e ∷ es) s =
    let (r, s') = poll_select (e ∷ es) (signal ∷ fds) timeout s in
    elim r [
      | [] ↦ if ltb 0 (pos_part timeout) then some (ok (some (negsuc 1)), s') else again s'
      | fd ∷ more ↦
          if mem_num signal (fd ∷ more)
          then (let (got, s'') = look s' in
              elim got [
                | err x ↦ some (err x, s'')
                | ok _ ↦ if has_request s'' then some (ok (some (negsuc 0)), s'') else again s''
              ])
          else some (ok (some (pos fd)), s')
    ]

-- The loop; none is a loop that the fuel has cut off.
unfoldable pub poll_rounds : ℕ → ℕ → List ℕ → ℤ → Client → Option (Result (Option ℤ) × Client)
unfolding poll_round
poll_rounds zero signal fds timeout s = none
poll_rounds (suc fuel) signal fds timeout s =
    poll_round (poll_rounds fuel signal fds timeout) signal fds timeout s.waits s

-- `clib_poll_for_data`, which returns None before the registration.
unfoldable pub clib_poll_for_data : List ℕ → ℤ → Action Client (Option ℤ)
unfolding poll_rounds
clib_poll_for_data fds timeout = if_registered none λ t s.
    or_else
      (poll_rounds (suc (length s.waits)) (s.services.svc t.cache_svc).s2c.signal_rd fds timeout s)
      (ok none, s)

-- `c_lib_init` in the test mode sets the pointers to these functions.
abbrev pub as_library : (J : JsonModule) → TextModule → ClibLibrary J
as_library J T = record {
  State = Client;
  register_client = clib_register_client T;
  deregister_client = clib_deregister_client;
  register_action = clib_register_action;
  touch_heartbeat = clib_touch_heartbeat;
  read_action_request = clib_read_action_request J;
  write_action_response = clib_write_action_response J;
  poll_for_data = clib_poll_for_data;
  get_last_error = λ s. (ok (pos 0), s);
  get_last_error_str = λ s. (ok (J.empty), s);
}
