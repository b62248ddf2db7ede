-- ===== src/PluginProc/Requests/Shutdown.antt =====
-- `handle_shutdown` of python_plugins/src/plugin_proc.py over all holders.
use sonic_device_health_prtm.Prelude.{
  none, some, [], ◌∷◌, refl, arith, false, All, ◌≡◌, Bool, true, ok, Option-cases, inl, inr, String,
}
use sonic_device_health_prtm.Prelude.Dict.{Dict}
use sonic_device_health_prtm.PluginProc.Requests.{shutdown_all, handle_shutdown, Process}
use sonic_device_health_prtm.Holder.Defs.{Holder, Plugin}
use sonic_device_health_prtm.Json.{JsonModule}
use sonic_device_health_prtm.ClibBind.Calls.{ClibLibrary}
use sonic_device_health_prtm.Holder.Methods.{is_valid, shutdown}

-- The plugin has been told to shut down.
abbrev pub was_asked : {Req : Type 0} → Holder Req → Bool
was_asked h = elim h.plugin [ none ↦ false | some p ↦ p.shutdown_flag ]

abbrev pub AllValid : {Req : Type 0} → Dict (Holder Req) → Type 0
AllValid d = All (λ e. is_valid e.1 ≡ true) d

abbrev pub AllAsked : {Req : Type 0} → Dict (Holder Req) → Type 0
AllAsked d = All (λ e. was_asked e.1 ≡ true) d

asked : {Req : Type 0} → Plugin → Holder Req → Holder Req
asked q h = record h { plugin = some (record q { shutdown_flag = true }) }

shutdown-some :
    {Req : Type 0} (h : Holder Req) (q : Plugin) → h.plugin ≡ some q → shutdown h ≡ ok (asked q h)
unfolding shutdown asked
shutdown-some h q e = ground arith

shutdown_all-cons :
    {Req : Type 0} (name : String) (h h' : Holder Req) (d : Dict (Holder Req))
    → shutdown h ≡ ok h'
    → shutdown_all ((name, h) ∷ d) ≡ ((shutdown_all d).0, (name, h') ∷ (shutdown_all d).1)
unfolding shutdown_all
shutdown_all-cons name h h' d e = rw (e, shutdown_all)

pub shutdown_all-AllAsked :
    {Req : Type 0} (d : Dict (Holder Req))
    → AllValid d
    → ((shutdown_all d).0 ≡ ok tt) × AllAsked (shutdown_all d).1
unfolding is_valid asked
shutdown_all-AllAsked [] v = unfold shutdown_all in (refl, tt)
shutdown_all-AllAsked ((name, h) ∷ rest) v =
    let ih = shutdown_all-AllAsked rest v.1 in
    elim (Option-cases h.plugin) [
      | inl missing ↦ absurd (ground (arith, v.0, missing))
      | inr (q, e) ↦
          rw (shutdown_all-cons name h (asked q h) rest (shutdown-some h q e)) (ih.0, (refl, ih.1))
    ]

module _ (J : JsonModule) (lib : ClibLibrary J) where
  -- If every holder has its plugin, `handle_shutdown` does not raise, asks every plugin to shut down,
  -- and sets `shutdown_request`.
  pub handle_shutdown_asks_all :
      (p : Process J lib)
      → AllValid p.holders
      → ((handle_shutdown J lib p).0 ≡ ok tt)
        × AllAsked (handle_shutdown J lib p).1.holders
        × ((handle_shutdown J lib p).1.shutdown_request ≡ true)
  unfolding handle_shutdown
  handle_shutdown_asks_all p v = ground (arith, shutdown_all-AllAsked p.holders v)
