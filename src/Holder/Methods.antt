-- ===== src/Holder/Methods.antt =====
-- The methods of `LoMPluginHolder` in python_plugins/src/plugin_proc.py that the main thread and the
-- request thread call, each as one uninterrupted run.
use sonic_device_health_prtm.Prelude.{
  ℕ, ◌+◌, ◌-◌, Bool, true, false, Option, none, some, List, [], ◌∷◌, ◌==◌, if◌then◌else◌, Result,
  ok, err, PyError, is_some,
}
use sonic_device_health_prtm.Json.{Json}
use sonic_device_health_prtm.ClibBind.Messages.{ActionResponse}
use sonic_device_health_prtm.Holder.Defs.{
  running, finished, Holder, is_alive, same_touch, Call, touch_heartbeat, write_action_response,
}

module _ {Req : Type 0} where
  -- `_raise_signal` writes the five bytes of "Hello".
  unfoldable pub raise_signal : Holder Req → Holder Req
  raise_signal h = record h { pipe = h.pipe + 5 }

  -- `_drain_signal` reads up to a hundred bytes, if there are any.
  unfoldable pub drain_signal : Holder Req → Holder Req
  drain_signal h = record h { pipe = h.pipe - 100 }

  -- `do_touch_heartbeat`, at the time `now`
  unfoldable pub do_touch_heartbeat : ℕ → Json → Holder Req → Holder Req
  unfolding raise_signal
  do_touch_heartbeat now id h = raise_signal (record h { touch = some now; instance_id = some id })

  -- What follows the plugin's return in `_run_request`: at the time `now` it returned `r`.
  unfoldable pub run_request : ℕ → Option ActionResponse → Holder Req → Holder Req
  unfolding raise_signal
  run_request now r h = record (raise_signal (record h { response = r; req_end = now })) {
    thread = finished;
  }

  -- `send_heartbeat`; reading `self.instance_id` before the first touch raises.
  unfoldable pub send_heartbeat : Holder Req → Result (List Call) × Holder Req
  send_heartbeat h = if same_touch h.touch_sent h.touch then (ok [], h) else (
    elim h.instance_id [
      | none ↦ err (PyError.attribute_error "instance_id")
      | some id ↦ ok (touch_heartbeat h.name id ∷ [])
    ],
    record h { touch_sent = h.touch },
  )

  -- `handle_response` behind the drain, up to its call to the library. Where no response is there,
  -- it makes none, and `req_end` stays as it is.
  unfoldable pub answer : Holder Req → Result (List Call) × Holder Req
  unfolding send_heartbeat
  answer h =
      if h.req_end == 0
      then send_heartbeat h
      else elim h.response [ none ↦ (ok [], h) | some r ↦ (ok (write_action_response r ∷ []), h) ]

  -- `handle_response`, up to its call to the library.
  unfoldable pub handle_response : Holder Req → Result (List Call) × Holder Req
  unfolding answer drain_signal
  handle_response h = answer (drain_signal h)

  -- The rest of `handle_response`, behind a call that has returned.
  unfoldable pub after_calls : List Call → Holder Req → Holder Req
  after_calls [] h = h
  after_calls (touch_heartbeat _ _ ∷ _) h = h
  after_calls (write_action_response _ ∷ _) h = record h { response = none; req_end = 0 }

  -- All of `handle_response`, where the library raises nothing.
  unfoldable pub handled : Holder Req → Result (List Call) × Holder Req
  unfolding handle_response after_calls
  handled h =
      let (r, h') = handle_response h in
      elim r [ ok calls ↦ (ok calls, after_calls calls h') | err e ↦ (err e, h') ]

  -- `_chk_thread_done`. While the thread is alive the log line names the undefined `take`.
  unfoldable pub chk_thread_done : Holder Req → Result Bool × Holder Req
  chk_thread_done h =
      if h.thr
      then (if is_alive h.thread
          then (err (PyError.name_error "take"), h)
          else (ok true, record h { thr = false }))
      else (ok true, h)

  -- `send_request` behind the check of the thread, at the time `now`.
  unfoldable pub start_request : ℕ → Req → Holder Req → Holder Req
  start_request now req h =
      if is_some h.response
      then h
      else record h { req_start = now; last_request = some req; thr = true; thread = running }

  unfoldable pub send_request : ℕ → Req → Holder Req → Result (Unit {0}) × Holder Req
  unfolding chk_thread_done start_request
  send_request now req h =
      let (done, h') = chk_thread_done h in
      elim done [ err e ↦ (err e, h') | ok b ↦ (ok tt, if b then start_request now req h' else h') ]

  -- `set_pipe`
  unfoldable pub set_pipe : ℕ → ℕ → Holder Req → Result (Holder Req)
  set_pipe fd_r fd_w h = elim h.fds [
    | some _ ↦ err (PyError.raised "Internal: Duplicate set_pipe")
    | none ↦ ok (record h { fds = some (fd_r, fd_w) })
  ]

  -- `is_valid`
  unfoldable pub is_valid : Holder Req → Bool
  is_valid h = is_some h.plugin

  -- `shutdown` of the holder: None has no attribute `shutdown`.
  unfoldable pub shutdown : Holder Req → Result (Holder Req)
  shutdown h = elim h.plugin [
    | none ↦ err (PyError.attribute_error "shutdown")
    | some p ↦ ok (record h { plugin = some (record p { shutdown_flag = true }) })
  ]
