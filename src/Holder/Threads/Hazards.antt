-- ===== src/Holder/Threads/Hazards.antt =====
-- Two interleavings that `LoMPluginHolder` of python_plugins/src/plugin_proc.py does not rule out. Both
-- start with a heartbeat signal that wakes the main thread behind `self.req_end = time.time()`.
use sonic_device_health_prtm.Prelude.{
  ℕ, ◌<◌, true, ◌≡◌, none, some, ◌∷◌, [], refl, arith, subst, PyError,
}
use sonic_device_health_prtm.Holder.Defs.{
  Holder, stamped, write_action_response, touched, touch_heartbeat,
}
use sonic_device_health_prtm.Holder.Threads.System.{
  IsFresh, System, Steps, initial, next, idle, here, no_thread, accept, start, touch_now, identify,
  signal_beat, answer, stamp, wake, drain, is_ended, has_response, write, clear, reset, crashed,
  signal_end, busy, join, not_ended, beat, copy, send,
}
use sonic_device_health_prtm.Json.{Json, null}
use sonic_device_health_prtm.ClibBind.Messages.{ActionResponse}

module _ {Req : Type 0} (h : Holder Req) (fresh : IsFresh h) where
  -- The system from which both go on: the response is sent, and the thread of the first request has
  -- yet to raise its completion signal.
  abbrev answered : ℕ → ℕ → Json → Req → ActionResponse → System Req
  answered t0 t1 id req r = record {
    holder = record h {
      pipe = 0;
      thr = true;
      thread = stamped;
      response = none;
      last_request = some req;
      req_start = t0;
      req_end = 0;
      touch = some t1;
      touch_sent = none;
      instance_id = some id;
    };
    main = idle;
    wire = write_action_response r ∷ [];
    submitted = req ∷ [];
    returned = some r ∷ [];
  }

  answered_early :
      (t0 t1 t2 : ℕ) (id : Json) (req : Req) (r : ActionResponse)
      → 0 < t2
      → Steps true (initial h) (answered t0 t1 id req r)
  answered_early t0 t1 t2 id req r p =
      let run =
        next
          (next
            (next
              (next
                (next
                  (next
                    (next
                      (next
                        (next
                          (next
                            (next
                              (next
                                (next
                                  (next (next here (no_thread refl fresh.1))
                                    (accept refl (ground arith)))
                                  (start t0 req refl))
                                (touch_now t1 id refl))
                              (identify id refl))
                            (signal_beat refl))
                          (answer r refl))
                        (stamp t2 p refl))
                      (wake refl (omega arith)))
                    (drain refl))
                  (is_ended refl p))
                (has_response r refl refl))
              (write r refl refl))
            (clear refl))
          (reset refl) in
      subst (Steps true (initial h)) (ground arith) run

  -- The request thread is still alive behind a response that was sent, and the server's next request
  -- stops the main thread with a NameError: for any plugin that never returns None there is an
  -- interleaving in which the first request is answered with `r`, and `send_request` of the second
  -- one raises in the log line of `_chk_thread_done`.
  pub busy_stops_process :
      (req : Req) (r : ActionResponse)
      → (s : System Req) × Steps true (initial h) s
        × (s.main ≡ crashed (PyError.name_error "take"))
        × (s.wire ≡ write_action_response r ∷ [])
        × (s.submitted ≡ req ∷ [])
  busy_stops_process req r = (
    _,
    next (answered_early 1 1 1 null req r (omega arith)) (busy refl refl refl),
    refl,
    refl,
    refl,
  )

  -- While the plugin reports its first heartbeat for `next_id` of the second request, a heartbeat for
  -- the instance `id` of the first request, which is answered already, can be sent: `touch` is new
  -- and `instance_id` still old.
  pub stale_heartbeat_sent :
      (req next_req : Req) (r : ActionResponse) (id next_id : Json)
      → (s : System Req) × Steps true (initial h) s
        × (s.holder.thread ≡ touched next_id)
        × (s.wire ≡ write_action_response r ∷ touch_heartbeat h.name id ∷ [])
        × (s.submitted ≡ req ∷ next_req ∷ [])
        × (s.returned ≡ some r ∷ [])
  stale_heartbeat_sent req next_req r id next_id = (
    _,
    next
        (next
          (next
            (next
              (next
                (next
                  (next
                    (next
                      (next
                        (next (next (answered_early 1 1 1 id req r (omega arith)) (signal_end refl))
                          (join refl refl refl))
                        (accept refl refl))
                      (start 2 next_req refl))
                    (touch_now 2 next_id refl))
                  (wake refl (omega arith)))
                (drain refl))
              (not_ended refl refl))
            (beat refl refl))
          (copy refl))
        (send id refl refl),
    refl,
    refl,
    refl,
    refl,
  )
