-- ===== src/Holder/Threads/Wakeup.antt =====
-- The signal of a completed request reaches the main thread of python_plugins/src/plugin_proc.py: no
-- response waits in a holder while its pipe is empty.
use sonic_device_health_prtm.Prelude.{
  ◌<◌, ◌≡◌, Bool, true, false, is_some, arith, ltb, ◌-◌, ◌++◌, ◌∷◌, [], some, none, refl,
}
use sonic_device_health_prtm.Holder.Defs.{
  Thread, not_started, responded, stamped, finished, Holder, is_alive, write_action_response,
}
use sonic_device_health_prtm.Holder.Threads.System.{
  Main, idle, beating, copying, sending, ended, writing, clearing, resetting, checking, crashed,
  System, Step, wake, drain, not_ended, is_ended, no_beat, beat, copy, send, no_instance,
  no_response, has_response, write, clear, reset, busy, join, no_thread, refuse, accept, start,
  touch_now, identify, signal_beat, answer, answer_none, request_raises, stamp, signal_end, initial,
  Steps, here, next, IsFresh,
}
use sonic_device_health_prtm.Holder.Threads.Control.{Control, Steps-Control, initial-Control}
use sonic_device_health_prtm.ClibBind.Messages.{ActionResponse}

abbrev pub is_responded : Thread → Bool
is_responded responded = true
is_responded _ = false

-- Behind `self.req_end = time.time()`, or with no request at all.
abbrev pub is_settled : Thread → Bool
is_settled not_started = true
is_settled stamped = true
is_settled finished = true
is_settled _ = false

-- Behind the test of `req_end` in `handle_response`, where a response is expected.
abbrev pub in_answer : Main → Bool
in_answer ended = true
in_answer writing = true
in_answer clearing = true
in_answer resetting = true
in_answer _ = false

abbrev pub is_resetting : Main → Bool
is_resetting resetting = true
is_resetting _ = false

-- Where the main thread will not look at `req_end` before the next poll.
abbrev pub sleeps : Main → Bool
sleeps idle = true
sleeps beating = true
sleeps copying = true
sleeps sending = true
sleeps checking = true
sleeps (crashed _) = true
sleeps _ = false

pub record Wakeup {Req : Type 0} (s : System Req) : Type 0 where
  pub unstamped : is_settled s.holder.thread ≡ false → s.holder.req_end ≡ 0
  pub has_returned : is_responded s.holder.thread ≡ true → is_some s.holder.response ≡ true
  pub answering :
      in_answer s.main ≡ true → (is_settled s.holder.thread ≡ true) × (0 < s.holder.req_end)
  pub sent : is_resetting s.main ≡ true → is_some s.holder.response ≡ false
  pub agreed :
      is_resetting s.main ≡ false
      → is_settled s.holder.thread ≡ true
      → is_some s.holder.response ≡ ltb 0 s.holder.req_end
  pub waking :
      sleeps s.main ≡ true
      → is_alive s.holder.thread ≡ false
      → is_some s.holder.response ≡ true
      → 0 < s.holder.pipe

pub initial-Wakeup : {Req : Type 0} (h : Holder Req) → IsFresh h → Wakeup (initial h)
initial-Wakeup h fresh = ground arith

pub Step-Wakeup :
    {Req : Type 0} {s t : System Req} → Step true s t → Control s → Wakeup s → Wakeup t
Step-Wakeup (wake e p) c w = ground arith
Step-Wakeup (drain e) c w = ground arith
Step-Wakeup (not_ended e p) c w = ground arith
Step-Wakeup (is_ended e p) c w = ground arith
Step-Wakeup (no_beat e p) c w = ground arith
Step-Wakeup (beat e p) c w = ground arith
Step-Wakeup (copy e) c w = ground arith
Step-Wakeup (send id e p) c w = ground arith
Step-Wakeup (no_instance e p) c w = ground arith
Step-Wakeup (no_response e p) c w = ground arith
Step-Wakeup (has_response r e p) c w = ground arith
Step-Wakeup (write r e p) c w = ground arith
Step-Wakeup (clear e) c w = ground arith
Step-Wakeup (reset e) c w = ground arith
Step-Wakeup (busy e p q) c w = ground arith
Step-Wakeup (join e p q) c w = ground arith
Step-Wakeup (no_thread e p) c w = ground arith
Step-Wakeup (refuse e p) c w = ground arith
Step-Wakeup (accept e p) c w = ground arith
Step-Wakeup (start now req e) c w = ground arith
Step-Wakeup (touch_now now id e) c w = ground arith
Step-Wakeup (identify id e) c w = ground arith
Step-Wakeup (signal_beat e) c w = ground arith
Step-Wakeup (answer r e) c w = ground arith
Step-Wakeup (answer_none n e) c w = cc
Step-Wakeup (request_raises e) c w = ground arith
Step-Wakeup (stamp now p e) c w = ground arith
Step-Wakeup (signal_end e) c w = ground arith

pub Steps-Wakeup :
    {Req : Type 0} (h : Holder Req) {s : System Req}
    → IsFresh h
    → Steps true (initial h) s
    → Wakeup s
Steps-Wakeup h fresh here = initial-Wakeup h fresh
Steps-Wakeup h fresh (next r st) =
    Step-Wakeup st (Steps-Control (initial-Control h fresh) r) (Steps-Wakeup h fresh r)

-- With a plugin that never returns None, whenever the main thread is in its poll, the request thread
-- has ended and a response is unsent, the pipe is readable, so the poll returns.
pub no_lost_wakeup :
    {Req : Type 0} (h : Holder Req) {s : System Req}
    → IsFresh h
    → Steps true (initial h) s
    → s.main ≡ idle
    → is_alive s.holder.thread ≡ false
    → is_some s.holder.response ≡ true
    → 0 < s.holder.pipe
no_lost_wakeup h fresh r e dead unsent = ground (arith, (Steps-Wakeup h fresh r).waking)

-- In the same states the end of the request is stamped, so the main thread answers.
pub unsent_stamped :
    {Req : Type 0} (h : Holder Req) {s : System Req}
    → IsFresh h
    → Steps true (initial h) s
    → s.main ≡ idle
    → is_alive s.holder.thread ≡ false
    → is_some s.holder.response ≡ true
    → 0 < s.holder.req_end
unsent_stamped h fresh run e dead unsent =
    let w = Steps-Wakeup h fresh run in ground (arith, w.agreed, unsent)

-- Seven steps of the main thread alone.
deliver :
    {Req : Type 0} {a : Bool} {s : System Req} {r : ActionResponse}
    → s.main ≡ idle
    → 0 < s.holder.pipe
    → 0 < s.holder.req_end
    → s.holder.response ≡ some r
    → Steps a s (record s {
      holder = record (s.holder) { pipe = s.holder.pipe - 100; response = none; req_end = 0 };
      wire = s.wire ++ (write_action_response r ∷ []);
      main = idle;
    })
deliver {r} e p q f =
    next
      (next
        (next
          (next (next (next (next here (wake e p)) (drain refl)) (is_ended refl q))
            (has_response r refl f))
          (write r refl f))
        (clear refl))
      (reset refl)

-- From each state that a fresh holder reaches, with a plugin that never returns None, in which the
-- main thread is in its poll, the request thread has ended and the response `r` is unsent, there are
-- steps that send just `r` and end in the poll, with the response and `req_end` reset.
pub response_delivered :
    {Req : Type 0} (h : Holder Req) {s : System Req} (r : ActionResponse)
    → IsFresh h
    → Steps true (initial h) s
    → s.main ≡ idle
    → is_alive s.holder.thread ≡ false
    → s.holder.response ≡ some r
    → (t : System Req) × Steps true s t
      × (t.wire ≡ s.wire ++ (write_action_response r ∷ []))
      × (t.main ≡ idle)
      × (t.holder.response ≡ none)
      × (t.holder.req_end ≡ 0)
response_delivered h {s} r fresh run e dead has =
    let w = Steps-Wakeup h fresh run in
    let unsent : is_some s.holder.response ≡ true = rw has in
    (
      _,
      deliver e (no_lost_wakeup h fresh run e dead unsent) (ground (arith, w.agreed, unsent)) has,
      refl,
      refl,
      refl,
      refl,
    )
