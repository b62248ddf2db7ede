-- ===== src/Holder/Threads/Control.antt =====
-- Which attributes each of the two threads of a `LoMPluginHolder` can rely on, statement by statement.
use sonic_device_health_prtm.Prelude.{◌≡◌, Bool, true, false, none, is_some, arith}
use sonic_device_health_prtm.Holder.Defs.{Thread, running, touched, identified, Holder, is_alive}
use sonic_device_health_prtm.Holder.Threads.System.{
  Main, writing, clearing, checking, starting, System, Step, wake, drain, not_ended, is_ended,
  no_beat, beat, copy, send, no_instance, no_response, has_response, write, clear, reset, busy,
  join, no_thread, refuse, accept, start, touch_now, identify, signal_beat, answer, answer_none,
  request_raises, stamp, signal_end, initial, Steps, here, next, IsFresh,
}

-- The plugin's `request` has not returned yet.
abbrev pub in_request : Thread → Bool
in_request running = true
in_request (touched _) = true
in_request identified = true
in_request _ = false

-- Between the test of `response` in `handle_response` and its reset.
abbrev pub holds_response : Main → Bool
holds_response writing = true
holds_response clearing = true
holds_response _ = false

-- Behind `_chk_thread_done` in `send_request`.
abbrev pub has_joined : Main → Bool
has_joined checking = true
has_joined starting = true
has_joined _ = false

abbrev pub is_starting : Main → Bool
is_starting starting = true
is_starting _ = false

pub record Control {Req : Type 0} (s : System Req) : Type 0 where
  -- while the plugin runs there is no response
  pub quiet : in_request s.holder.thread ≡ true → s.holder.response ≡ none
  -- a response that was seen stays until the main thread clears it
  pub kept : holds_response s.main ≡ true → is_some s.holder.response ≡ true
  -- a thread that is not recorded does not run
  pub joined : s.holder.thr ≡ false → is_alive s.holder.thread ≡ false
  pub idle_thread : has_joined s.main ≡ true → is_alive s.holder.thread ≡ false
  pub empty : is_starting s.main ≡ true → is_some s.holder.response ≡ false

pub initial-Control : {Req : Type 0} (h : Holder Req) → IsFresh h → Control (initial h)
initial-Control h fresh = ground arith

pub Step-Control : {Req : Type 0} {a : Bool} {s t : System Req} → Step a s t → Control s → Control t
Step-Control (wake e p) c = ground arith
Step-Control (drain e) c = ground arith
Step-Control (not_ended e p) c = ground arith
Step-Control (is_ended e p) c = ground arith
Step-Control (no_beat e p) c = ground arith
Step-Control (beat e p) c = ground arith
Step-Control (copy e) c = ground arith
Step-Control (send id e p) c = ground arith
Step-Control (no_instance e p) c = ground arith
Step-Control (no_response e p) c = ground arith
Step-Control (has_response r e p) c = ground arith
Step-Control (write r e p) c = ground arith
Step-Control (clear e) c = ground arith
Step-Control (reset e) c = ground arith
Step-Control (busy e p q) c = ground arith
Step-Control (join e p q) c = ground arith
Step-Control (no_thread e p) c = ground arith
Step-Control (refuse e p) c = ground arith
Step-Control (accept e p) c = ground arith
Step-Control (start now req e) c = ground arith
Step-Control (touch_now now id e) c = ground arith
Step-Control (identify id e) c = ground arith
Step-Control (signal_beat e) c = ground arith
Step-Control (answer r e) c = ground arith
Step-Control (answer_none n e) c = ground arith
Step-Control (request_raises e) c = ground arith
Step-Control (stamp now p e) c = ground arith
Step-Control (signal_end e) c = ground arith

pub Steps-Control :
    {Req : Type 0} {a : Bool} {s t : System Req} → Control s → Steps a s t → Control t
Steps-Control c here = c
Steps-Control c (next r st) = Step-Control st (Steps-Control c r)
