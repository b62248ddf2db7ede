-- ===== src/PluginProc/Run/Asked/Holders.antt =====
-- What the methods of a holder in python_plugins/src/plugin_proc.py leave of its plugin.
use sonic_device_health_prtm.Prelude.{
  String, ◌≡◌, arith, List, Result, refl, ok, true, All, Option-cases, ℕ, inl, inr, ◌∷◌, [],
}
use sonic_device_health_prtm.Prelude.Dict.{Dict, AllValues}
use sonic_device_health_prtm.Holder.Defs.{Holder, Call, touch_heartbeat, write_action_response}
use sonic_device_health_prtm.PluginProc.Requests.Keep.{IsKept}
use sonic_device_health_prtm.Holder.Methods.{
  is_valid, send_request, handle_response, answer, shutdown, chk_thread_done, send_heartbeat,
  start_request, drain_signal, after_calls,
}
use sonic_device_health_prtm.PluginProc.Requests.Shutdown.{was_asked}
use sonic_device_health_prtm.PluginProc.State.{run_threads}

-- The plugin of a holder has been told to shut down.
unfoldable pub IsAsked : {R : Type 0} → Holder R → Type 0
IsAsked h = was_asked h ≡ true

unfoldable pub HasPlugin : {R : Type 0} → Holder R → Type 0
HasPlugin h = is_valid h ≡ true

-- The method leaves `self.plugin` as it is.
unfoldable pub SamePlugin : {R A : Type 0} → (Holder R → A × Holder R) → Type 0
SamePlugin {R} f = (h : Holder R) → h.plugin ≡ (f h).1.plugin

pub send_request-SamePlugin : {R : Type 0} (now : ℕ) (req : R) → SamePlugin (send_request now req)
unfolding SamePlugin send_request chk_thread_done start_request
send_request-SamePlugin now req h = ground arith

pub handle_response-SamePlugin : (R : Type 0) → SamePlugin (handle_response {Req = R})
unfolding SamePlugin handle_response answer send_heartbeat drain_signal
handle_response-SamePlugin R h = ground arith

pub after_calls-SamePlugin :
    (R : Type 0) (calls : List Call)
    → SamePlugin {A = Result (Unit {0})} (λ (h : Holder R). (ok tt, after_calls calls h))
unfolding SamePlugin after_calls
after_calls-SamePlugin R [] h = refl
after_calls-SamePlugin R (touch_heartbeat _ _ ∷ _) h = refl
after_calls-SamePlugin R (write_action_response _ ∷ _) h = refl

pub plugin-HasPlugin :
    {R : Type 0} (h h' : Holder R) → h.plugin ≡ h'.plugin → HasPlugin h → HasPlugin h'
unfolding HasPlugin is_valid
plugin-HasPlugin h h' same v = ground (arith, same, v)

pub plugin-IsAsked : {R : Type 0} (h h' : Holder R) → h.plugin ≡ h'.plugin → IsAsked h → IsAsked h'
unfolding IsAsked
plugin-IsAsked h h' same v = ground (arith, same, v)

shutdown-HasPlugin :
    {R : Type 0} (h h' : Holder R) → shutdown h ≡ ok h' → HasPlugin h → HasPlugin h'
unfolding HasPlugin is_valid shutdown
shutdown-HasPlugin h h' e v = elim (Option-cases h.plugin) [
  | inl missing ↦ absurd (ground (arith, v, missing))
  | inr (q, found) ↦ ground (arith, e, found)
]

pub HasPlugin-IsKept : {R : Type 0} → IsKept {R = R} HasPlugin
unfolding SamePlugin
HasPlugin-IsKept = record {
  sends = λ now req h.
      plugin-HasPlugin h (send_request now req h).1 (send_request-SamePlugin now req h);
  shuts = shutdown-HasPlugin;
}

pub run_threads-AllValues :
    {R : Type 0} (P : Holder R → Type 0) (f : String → Holder R → Holder R) (d : Dict (Holder R))
    → ((h h' : Holder R) → h.plugin ≡ h'.plugin → P h → P h')
    → All (λ e. e.1.plugin ≡ (f e.0 e.1).plugin) d
    → AllValues P d
    → AllValues P (run_threads f d)
run_threads-AllValues P f [] keep same all = tt
run_threads-AllValues P f ((name, h) ∷ d) keep same all =
    (keep h (f name h) same.0 all.0, run_threads-AllValues P f d keep same.1 all.1)
