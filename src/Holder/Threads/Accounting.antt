-- ===== src/Holder/Threads/Accounting.antt =====
-- What the request thread returns and what the main thread sends, over all interleavings of the two
-- threads of a `LoMPluginHolder`.
use mathlib.Core.List.{append-nil}
use sonic_device_health_prtm.Prelude.{
  ◌≡◌, refl, Bool, Option, none, some, arith, List, [], ◌∷◌, ◌++◌,
}
use sonic_device_health_prtm.ClibBind.Messages.{ActionResponse}
use sonic_device_health_prtm.Holder.Defs.{Call, touch_heartbeat, write_action_response, Holder}
use sonic_device_health_prtm.Holder.Threads.System.{
  Main, clearing, System, Step, wake, drain, not_ended, is_ended, no_beat, beat, copy, send,
  no_instance, no_response, has_response, write, clear, reset, busy, join, no_thread, refuse,
  accept, start, touch_now, identify, signal_beat, answer, answer_none, request_raises, stamp,
  signal_end, initial, Steps, here, next, IsFresh,
}
use sonic_device_health_prtm.Holder.Threads.Control.{Control, initial-Control, Steps-Control}

-- The responses among the calls to the server.
abbrev pub responses : List Call → List ActionResponse
responses [] = []
responses (touch_heartbeat _ _ ∷ cs) = responses cs
responses (write_action_response r ∷ cs) = r ∷ responses cs

-- What the plugin returned, without the None values.
abbrev pub somes : List (Option ActionResponse) → List ActionResponse
somes [] = []
somes (none ∷ rs) = somes rs
somes (some r ∷ rs) = r ∷ somes rs

-- The response that the holder keeps and that has not been sent.
abbrev pub unsent : Main → Option ActionResponse → List ActionResponse
unsent clearing _ = []
unsent _ none = []
unsent _ (some r) = r ∷ []

responses-append : (xs ys : List Call) → responses (xs ++ ys) ≡ responses xs ++ responses ys
responses-append [] ys = refl
responses-append (touch_heartbeat n i ∷ xs) ys = responses-append xs ys
responses-append (write_action_response r ∷ xs) ys = cc (responses-append xs ys)

somes-append : (xs ys : List (Option ActionResponse)) → somes (xs ++ ys) ≡ somes xs ++ somes ys
somes-append [] ys = refl
somes-append (none ∷ xs) ys = somes-append xs ys
somes-append (some r ∷ xs) ys = cc (somes-append xs ys)

-- The sent responses and the unsent one are what the plugin returned, in order.
abbrev pub IsSettled : {Req : Type 0} → System Req → Type 0
IsSettled s = responses s.wire ++ unsent s.main s.holder.response ≡ somes s.returned

Step-IsSettled :
    {Req : Type 0} {a : Bool} {s t : System Req}
    → Step a s t
    → Control s
    → IsSettled s
    → IsSettled t
Step-IsSettled (wake e p) c h = ground arith
Step-IsSettled (drain e) c h = ground arith
Step-IsSettled (not_ended e p) c h = ground arith
Step-IsSettled (is_ended e p) c h = ground arith
Step-IsSettled (no_beat e p) c h = ground arith
Step-IsSettled (beat e p) c h = ground arith
Step-IsSettled (copy e) c h = ground arith
Step-IsSettled {s} (send id e p) c h = ground (
  arith,
  responses-append s.wire (touch_heartbeat s.holder.name id ∷ []),
  append-nil (responses s.wire),
)
Step-IsSettled (no_instance e p) c h = ground arith
Step-IsSettled (no_response e p) c h = ground arith
Step-IsSettled (has_response r e p) c h = ground arith
Step-IsSettled {s} (write r e p) c h = ground (
  arith,
  responses-append s.wire (write_action_response r ∷ []),
  append-nil (responses s.wire ++ r ∷ []),
)
Step-IsSettled (clear e) c h = ground arith
Step-IsSettled (reset e) c h = ground arith
Step-IsSettled (busy e p q) c h = ground arith
Step-IsSettled (join e p q) c h = ground arith
Step-IsSettled (no_thread e p) c h = ground arith
Step-IsSettled (refuse e p) c h = ground arith
Step-IsSettled (accept e p) c h = ground arith
Step-IsSettled (start now req e) c h = ground arith
Step-IsSettled (touch_now now id e) c h = ground arith
Step-IsSettled (identify id e) c h = ground arith
Step-IsSettled (signal_beat e) c h = ground arith
Step-IsSettled {s} (answer r e) c h =
    ground
      (arith, c.quiet, c.kept, somes-append s.returned (some r ∷ []), append-nil (responses s.wire))
Step-IsSettled {s} (answer_none n e) c h = ground (
  arith,
  c.quiet,
  c.kept,
  somes-append s.returned (none ∷ []),
  append-nil (responses s.wire),
  append-nil (somes s.returned),
)
Step-IsSettled (request_raises e) c h = ground arith
Step-IsSettled (stamp now p e) c h = ground arith
Step-IsSettled (signal_end e) c h = ground arith

-- In every interleaving the responses sent to the server, followed by the one that the holder keeps
-- unsent, are exactly what the plugin returned (None aside), in the order of the returns.
pub responses_in_order :
    {Req : Type 0} {a : Bool} (h : Holder Req) {s : System Req}
    → IsFresh h
    → Steps a (initial h) s
    → responses s.wire ++ unsent s.main s.holder.response ≡ somes s.returned
responses_in_order h fresh here = ground arith
responses_in_order h fresh (next r st) =
    Step-IsSettled st (Steps-Control (initial-Control h fresh) r) (responses_in_order h fresh r)
