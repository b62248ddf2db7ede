-- ===== src/Holder/Threads/Instance.antt =====
-- `send_heartbeat` of python_plugins/src/plugin_proc.py finds `self.instance_id` set.
use sonic_device_health_prtm.Prelude.{
  ◌<◌, ◌≤◌, ◌≡◌, Bool, true, false, none, is_some, arith, PyError, sym, ap, ◌∙◌, String, ◌≢◌,
}
use sonic_device_health_prtm.Holder.Defs.{Thread, touched, finished, Holder, identified, stamped}
use sonic_device_health_prtm.Holder.Threads.System.{
  Main, draining, drained, beating, copying, sending, crashed, System, Step, wake, drain, not_ended,
  is_ended, no_beat, beat, copy, send, no_instance, no_response, has_response, write, clear, reset,
  busy, join, no_thread, refuse, accept, start, touch_now, identify, signal_beat, answer,
  answer_none, request_raises, stamp, signal_end, initial, Steps, here, next, IsFresh,
}
use sonic_device_health_prtm.Holder.Threads.Control.{Control, initial-Control, Steps-Control}
use sonic_device_health_prtm.Holder.Threads.Wakeup.{Wakeup, in_answer, Steps-Wakeup}

abbrev is_touched : Thread → Bool
is_touched (touched _) = true
is_touched _ = false

abbrev is_identified : Thread → Bool
is_identified identified = true
is_identified _ = false

abbrev is_stamped : Thread → Bool
is_stamped stamped = true
is_stamped _ = false

abbrev is_finished : Thread → Bool
is_finished finished = true
is_finished _ = false

-- In `send_heartbeat`.
abbrev in_beat : Main → Bool
in_beat beating = true
in_beat copying = true
in_beat sending = true
in_beat _ = false

-- Behind the poll, before the test of `req_end`.
abbrev in_drain : Main → Bool
in_drain draining = true
in_drain drained = true
in_drain _ = false

abbrev is_draining : Main → Bool
is_draining draining = true
is_draining _ = false

-- Behind the drain.
abbrev is_drained : Main → Bool
is_drained drained = true
is_drained m = in_answer m

abbrev is_crashed_by_instance : Main → Bool
is_crashed_by_instance (crashed (PyError.attribute_error _)) = true
is_crashed_by_instance _ = false

-- What holds as long as no plugin has touched.
record Unset {Req : Type 0} (s : System Req) : Type 0 where
  unsent_touch : s.holder.touch_sent ≡ none
  untouched : is_touched s.holder.thread ≡ false → s.holder.touch ≡ none
  unidentified : is_identified s.holder.thread ≡ false
  pending : is_stamped s.holder.thread ≡ true → is_some s.holder.response ≡ true
  silent : in_beat s.main ≡ false
  woken :
      in_drain s.main ≡ true
      → (is_finished s.holder.thread ≡ true) × (is_some s.holder.response ≡ true)
  signalled :
      0 < s.holder.pipe → (is_finished s.holder.thread ≡ true) × (is_some s.holder.response ≡ true)
  little : s.holder.pipe ≤ 5
  emptied : is_drained s.main ≡ true → s.holder.pipe ≡ 0
  finishing : in_answer s.main ≡ true → is_finished s.holder.thread ≡ true

abbrev Guarded : {Req : Type 0} → System Req → Type 0
Guarded s =
    (is_some s.holder.instance_id ≡ false → Unset s) × (is_crashed_by_instance s.main ≡ false)

Step-Guarded :
    {Req : Type 0} {s t : System Req} → Step true s t → Control s → Wakeup s → Guarded s → Guarded t
Step-Guarded (wake e p) c w g = (λ u. ground (arith, g.0 u), ground (arith, g.0, g.1))
Step-Guarded (drain e) c w g = (λ u. ground (arith, g.0 u), ground (arith, g.0, g.1))
Step-Guarded (not_ended e p) c w g = (λ u. ground (arith, g.0 u), ground (arith, g.0, g.1))
Step-Guarded (is_ended e p) c w g = (λ u. ground (arith, g.0 u), ground (arith, g.0, g.1))
Step-Guarded (no_beat e p) c w g = (λ u. ground (arith, g.0 u), ground (arith, g.0, g.1))
Step-Guarded (beat e p) c w g = (λ u. ground (arith, g.0 u), ground (arith, g.0, g.1))
Step-Guarded (copy e) c w g = (λ u. ground (arith, g.0 u), ground (arith, g.0, g.1))
Step-Guarded (send id e p) c w g = (λ u. ground (arith, g.0 u), ground (arith, g.0, g.1))
Step-Guarded {s} (no_instance e p) c w g =
    let u : Unset s = g.0 (rw p) in absurd (ground (arith, u.silent))
Step-Guarded (no_response e p) c w g = (λ u. ground (arith, g.0 u), ground (arith, g.0, g.1))
Step-Guarded (has_response r e p) c w g = (λ u. ground (arith, g.0 u), ground (arith, g.0, g.1))
Step-Guarded (write r e p) c w g = (λ u. ground (arith, g.0 u), ground (arith, g.0, g.1))
Step-Guarded (clear e) c w g = (λ u. ground (arith, g.0 u), ground (arith, g.0, g.1))
Step-Guarded (reset e) c w g = (λ u. ground (arith, g.0 u), ground (arith, g.0, g.1))
Step-Guarded (busy e p q) c w g = (λ u. ground (arith, g.0 u), ground (arith, g.0, g.1))
Step-Guarded (join e p q) c w g = (λ u. ground (arith, g.0 u), ground (arith, g.0, g.1))
Step-Guarded (no_thread e p) c w g = (λ u. ground (arith, g.0 u), ground (arith, g.0, g.1))
Step-Guarded (refuse e p) c w g = (λ u. ground (arith, g.0 u), ground (arith, g.0, g.1))
Step-Guarded (accept e p) c w g = (λ u. ground (arith, g.0 u), ground (arith, g.0, g.1))
Step-Guarded (start now req e) c w g = (λ u. ground (arith, g.0 u), ground (arith, g.0, g.1))
Step-Guarded (touch_now now id e) c w g = (λ u. ground (arith, g.0 u), ground (arith, g.0, g.1))
Step-Guarded (identify id e) c w g = (λ (u : true ≡ false). cc, ground (arith, g.0, g.1))
Step-Guarded (signal_beat e) c w g = (λ u. ground (arith, g.0 u), ground (arith, g.0, g.1))
Step-Guarded (answer r e) c w g = (λ u. ground (arith, g.0 u), ground (arith, g.0, g.1))
Step-Guarded (answer_none n e) c w g = cc
Step-Guarded (request_raises e) c w g = (λ u. ground (arith, g.0 u), ground (arith, g.0, g.1))
Step-Guarded (stamp now p e) c w g = (λ u. ground (arith, g.0 u), ground (arith, g.0, g.1))
Step-Guarded (signal_end e) c w g = (λ u. ground (arith, g.0 u), ground (arith, g.0, g.1))

Steps-Guarded :
    {Req : Type 0} (h : Holder Req) {s : System Req}
    → IsFresh h
    → Steps true (initial h) s
    → Guarded s
Steps-Guarded h fresh here = (λ u. ground arith, ground arith)
Steps-Guarded h fresh (next r st) =
    Step-Guarded st (Steps-Control (initial-Control h fresh) r) (Steps-Wakeup h fresh r)
      (Steps-Guarded h fresh r)

-- If the plugin never returns None, no interleaving makes `send_heartbeat` read `instance_id` before
-- a touch has set it: the main thread never stops with an AttributeError.
pub no_instance_error :
    {Req : Type 0} (h : Holder Req) {s : System Req}
    → IsFresh h
    → Steps true (initial h) s
    → (attribute : String) → s.main ≢ crashed (PyError.attribute_error attribute)
no_instance_error h fresh r attribute e =
    cc (sym (Steps-Guarded h fresh r).1 ∙ ap is_crashed_by_instance e)
