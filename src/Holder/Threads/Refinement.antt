-- ===== src/Holder/Threads/Refinement.antt =====
-- The methods of `LoMPluginHolder` as uninterrupted runs of the steps of one thread.
use mathlib.Core.List.{append-nil, []}
use sonic_device_health_prtm.Prelude.{
  ◌-◌, ◌<◌, ◌≡◌, refl, Bool, List, ◌++◌, inl, inr, Result, ok, err, Bool-cases, Option-cases, arith,
  ◌==◌, sym, if◌then◌else◌, is_some, ℕ, false, ◌∷◌, true, PyError, none, some,
}
use sonic_device_health_prtm.Holder.Defs.{
  Holder, Call, same_touch, is_alive, write_action_response, touch_heartbeat,
}
use sonic_device_health_prtm.Holder.Methods.{start_request, send_request, handled}
use sonic_device_health_prtm.Holder.Threads.System.{
  Main, idle, crashed, System, Steps, here, next, wake, drain, not_ended, is_ended, no_beat, beat,
  copy, send, no_instance, no_response, has_response, write, clear, reset, Step, accept, busy,
  start, refuse, join, no_thread,
}
use sonic_device_health_prtm.Json.{Json}
use sonic_device_health_prtm.ClibBind.Messages.{ActionResponse}

module _ {Req : Type 0} where
  -- The main thread stands where a method that began at `s` leaves it: in the poll with the calls
  -- sent, or stopped by the exception.
  abbrev pub Lands : System Req → Result (List Call) × Holder Req → System Req → Type 0
  Lands s (ok calls, h) t =
      (t.main ≡ idle) × (t.holder ≡ h) × (t.wire ≡ s.wire ++ calls) × (t.submitted ≡ s.submitted)
  Lands s (err e, h) t =
      (t.main ≡ crashed e) × (t.holder ≡ h) × (t.wire ≡ s.wire) × (t.submitted ≡ s.submitted)

  to_drained :
      {a : Bool} {s : System Req}
      → s.main ≡ idle
      → 0 < s.holder.pipe
      → Steps a s (record s {
        holder = record (s.holder) { pipe = s.holder.pipe - 100 };
        main = Main.drained;
      })
  to_drained e p = next (next here (wake e p)) (drain refl)

  module _ (h : Holder Req) where
    abbrev quiet : Holder Req
    quiet = record h { pipe = h.pipe - 100 }

    handled-same :
        (h.req_end == 0) ≡ true
        → same_touch h.touch_sent h.touch ≡ true
        → handled h ≡ (ok [], quiet)
    unfolding handled
    handled-same running_yet same = ground (arith, running_yet, same)

    handled-unset :
        (h.req_end == 0) ≡ true
        → same_touch h.touch_sent h.touch ≡ false
        → h.instance_id ≡ none
        → handled h
          ≡ (err (PyError.attribute_error "instance_id"), record quiet { touch_sent = h.touch })
    unfolding handled
    handled-unset running_yet new unset = ground (arith, running_yet, new, unset)

    handled-beats :
        (id : Json)
        → (h.req_end == 0) ≡ true
        → same_touch h.touch_sent h.touch ≡ false
        → h.instance_id ≡ some id
        → handled h ≡ (ok (touch_heartbeat h.name id ∷ []), record quiet { touch_sent = h.touch })
    unfolding handled
    handled-beats id running_yet new set = ground (arith, running_yet, new, set)

    handled-silent : (h.req_end == 0) ≡ false → h.response ≡ none → handled h ≡ (ok [], quiet)
    unfolding handled
    handled-silent done missing = ground (arith, done, missing)

    handled-sends :
        (r : ActionResponse)
        → (h.req_end == 0) ≡ false
        → h.response ≡ some r
        → handled h
          ≡ (ok (write_action_response r ∷ []), record quiet { response = none; req_end = 0 })
    unfolding handled
    handled-sends r done has = ground (arith, done, has)

  -- Where the library raises nothing, `handle_response` is a run of the main thread's steps: from the
  -- poll, with the pipe readable, the steps lead to the holder that the method leaves, with the calls
  -- that it makes, or to its AttributeError for an `instance_id` that was never set.
  pub handle_response_runs :
      {a : Bool} (s : System Req)
      → s.main ≡ idle
      → 0 < s.holder.pipe
      → (t : System Req) × Steps a s t × Lands s (handled s.holder) t
  handle_response_runs s e p = elim (Bool-cases (s.holder.req_end == 0)) [
    | inl running_yet ↦ elim (Bool-cases (same_touch s.holder.touch_sent s.holder.touch)) [
      | inl same ↦ (
        _,
        next (next (to_drained e p) (not_ended refl (ground arith))) (no_beat refl same),
        rw (handled-same s.holder running_yet same) (refl, refl, sym (append-nil s.wire), refl),
      )
      | inr new ↦ elim (Option-cases s.holder.instance_id) [
        | inl unset ↦ (
          _,
          next
              (next (next (next (to_drained e p) (not_ended refl (ground arith))) (beat refl new))
                (copy refl))
              (no_instance refl unset),
          rw (handled-unset s.holder running_yet new unset) (refl, refl, refl, refl),
        )
        | inr (id, set) ↦ (
          _,
          next
              (next (next (next (to_drained e p) (not_ended refl (ground arith))) (beat refl new))
                (copy refl))
              (send id refl set),
          rw (handled-beats s.holder id running_yet new set) (refl, refl, refl, refl),
        )
      ]
    ]
    | inr done ↦ elim (Option-cases s.holder.response) [
      | inl missing ↦ (
        _,
        next (next (to_drained e p) (is_ended refl (ground arith))) (no_response refl missing),
        rw (handled-silent s.holder done missing) (refl, refl, sym (append-nil s.wire), refl),
      )
      | inr (r, has) ↦ (
        _,
        next
            (next
              (next
                (next (next (to_drained e p) (is_ended refl (ground arith)))
                  (has_response r refl has))
                (write r refl has))
              (clear refl))
            (reset refl),
        rw (handled-sends s.holder r done has) (refl, refl, refl, refl),
      )
    ]
  ]

  -- Where `send_request` leaves the main thread: a request is handed over, refused, or the exception
  -- stops the thread.
  abbrev pub Submits : System Req → Req → Result (Unit {0}) × Holder Req → System Req → Type 0
  Submits s req (ok _, h) t =
      (t.main ≡ idle)
      × (t.holder ≡ h)
      × (t.wire ≡ s.wire)
      × (t.submitted ≡ (if is_some s.holder.response then s.submitted else s.submitted ++ req ∷ []))
  Submits s req (err e, h) t =
      (t.main ≡ crashed e) × (t.holder ≡ h) × (t.wire ≡ s.wire) × (t.submitted ≡ s.submitted)

  -- Behind the check of the thread.
  admit :
      {a : Bool} (now : ℕ) (req : Req) (s : System Req)
      → s.main ≡ Main.checking
      → (t : System Req) × Steps a s t × Submits s req (ok tt, start_request now req s.holder) t
  unfolding start_request
  admit now req s e = elim (Option-cases s.holder.response) [
    | inl empty ↦ (
      _,
      next (next here (accept e (simp empty))) (start now req refl),
      simp empty (refl, refl, refl, refl),
    )
    | inr (r, has) ↦ (_, next here (refuse e (simp has)), simp has (refl, refl, refl, refl))
  ]

  prepend : {a : Bool} {s t u : System Req} → Step a s t → Steps a t u → Steps a s u
  prepend st here = next here st
  prepend st (next r x) = next (prepend st r) x

  send_request-alive :
      (now : ℕ) (req : Req) (h : Holder Req)
      → h.thr ≡ true
      → is_alive h.thread ≡ true
      → send_request now req h ≡ (err (PyError.name_error "take"), h)
  unfolding send_request
  send_request-alive now req h e p = ground arith

  send_request-joined :
      (now : ℕ) (req : Req) (h : Holder Req)
      → h.thr ≡ true
      → is_alive h.thread ≡ false
      → send_request now req h ≡ (ok tt, start_request now req (record h { thr = false }))
  unfolding send_request
  send_request-joined now req h e p = ground arith

  send_request-free :
      (now : ℕ) (req : Req) (h : Holder Req)
      → h.thr ≡ false
      → send_request now req h ≡ (ok tt, start_request now req h)
  unfolding send_request
  send_request-free now req h e = ground arith

  -- `send_request` is a run of the main thread's steps from the poll, exceptions included.
  pub send_request_runs :
      {a : Bool} (now : ℕ) (req : Req) (s : System Req)
      → s.main ≡ idle
      → (t : System Req) × Steps a s t × Submits s req (send_request now req s.holder) t
  send_request_runs now req s e = elim (Bool-cases s.holder.thr) [
    | inl recorded ↦ elim (Bool-cases (is_alive s.holder.thread)) [
      | inl alive ↦ (
        _,
        next here (busy e recorded alive),
        rw (send_request-alive now req s.holder recorded alive) (refl, refl, refl, refl),
      )
      | inr dead ↦
          let joined = record s {
            holder = record (s.holder) { thr = false };
            main = Main.checking;
          } in
          let (t, run, lands) = admit now req joined refl in
          (
            t,
            prepend (join e recorded dead) run,
            rw (send_request-joined now req s.holder recorded dead) lands,
          )
    ]
    | inr free ↦
        let unjoined = record s { main = Main.checking } in
        let (t, run, lands) = admit now req unjoined refl in
        (t, prepend (no_thread e free) run, rw (send_request-free now req s.holder free) lands)
  ]
