-- ===== src/Holder/Threads/Work.antt =====
-- What the request thread of python_plugins/src/plugin_proc.py does while the main thread is elsewhere.
use sonic_device_health_prtm.Prelude.{Bool, ℕ, ◌<◌, ap, ◌≡◌, true, refl, arith, ◌∙◌, some}
use sonic_device_health_prtm.Holder.Defs.{Holder, running}
use sonic_device_health_prtm.Holder.Methods.{do_touch_heartbeat, run_request}
use sonic_device_health_prtm.Holder.Threads.System.{
  System, Steps, Step, here, next, idle, touch_now, identify, signal_beat, stamp, signal_end,
}
use sonic_device_health_prtm.ClibBind.Messages.{ActionResponse}
use sonic_device_health_prtm.Json.{Json}

pub append :
    {Req : Type 0} {a : Bool} {s t u : System Req} → Steps a s t → Steps a t u → Steps a s u
append r here = r
append r (next q st) = next (append r q) st

-- What a request thread makes of its holder while the main thread is elsewhere.
unfoldable pub ThreadRun : {Req : Type 0} → Holder Req → Holder Req → Type 0
ThreadRun {Req} h h' =
    (s : System Req)
    → s.main ≡ idle
    → s.holder ≡ h
    → (t : System Req) × Steps true s t × (t.main ≡ idle) × (t.holder ≡ h')

module _ {Req : Type 0} where
  -- What a request thread can do while the main thread is away: nothing, a heartbeat of the plugin,
  -- the end of the request, and one after the other.
  pub rest-ThreadRun : (h : Holder Req) → ThreadRun h h
  unfolding ThreadRun
  rest-ThreadRun h s e d = (s, here, e, d)

  pub do_touch_heartbeat-ThreadRun :
      (now : ℕ) (id : Json) (h : Holder Req)
      → h.thread ≡ running
      → ThreadRun h (do_touch_heartbeat now id h)
  unfolding ThreadRun do_touch_heartbeat
  do_touch_heartbeat-ThreadRun now id h alive s e d =
      let alive' = ap {A = Holder Req} (λ g. g.thread) d ∙ alive in
      (
        _,
        next (next (next here (touch_now now id alive')) (identify id refl)) (signal_beat refl),
        e,
        ground (arith, d, alive),
      )

  pub run_request-ThreadRun :
      (now : ℕ) (r : ActionResponse) (h : Holder Req)
      → 0 < now
      → h.thread ≡ running
      → ThreadRun h (run_request now (some r) h)
  unfolding ThreadRun run_request
  run_request-ThreadRun now r h p alive s e d =
      let alive' = ap {A = Holder Req} (λ g. g.thread) d ∙ alive in
      (
        _,
        next (next (next here (Step.answer r alive')) (stamp now p refl)) (signal_end refl),
        e,
        ap {A = Holder Req} (run_request now (some r)) d,
      )

  pub trans-ThreadRun : (h i j : Holder Req) → ThreadRun h i → ThreadRun i j → ThreadRun h j
  unfolding ThreadRun
  trans-ThreadRun h i j f g s e d =
      let (t, run, e', d') = f s e d in
      let (u, run', e'', d'') = g t e' d' in (u, append run run', e'', d'')
