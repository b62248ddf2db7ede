-- ===== src/PluginProc/Requests/Keep.antt =====
-- What holds of every holder and is kept by `shutdown` and `send_request` is kept by the functions of
-- python_plugins/src/plugin_proc.py that handle requests, whether they return or raise.
use sonic_device_health_prtm.Prelude.Dict.{
  Dict, AllValues, lookup, insert, insert-AllValues, lookup-AllValues,
}
use sonic_device_health_prtm.Prelude.{
  ℕ, String, Result-cases, Result, ◌≡◌, inl, ok, some, inr, none, Option-cases, subst, ◌∷◌, arith,
  PyError, err, [],
}
use sonic_device_health_prtm.Holder.Defs.{Holder}
use sonic_device_health_prtm.Json.{JsonModule}
use sonic_device_health_prtm.PluginProc.Requests.{
  shutdown_all, Req, Process, handle_shutdown, on_holder,
}
use sonic_device_health_prtm.ClibBind.Calls.{ClibLibrary}
use sonic_device_health_prtm.Holder.Methods.{send_request, shutdown}
use sonic_device_health_prtm.PluginProc.Requests.Stable.{IsStable}

-- A predicate on holders that the methods called for a request keep.
pub record IsKept {R : Type 0} (P : Holder R → Type 0) : Type 0 where
  pub sends : (now : ℕ) (req : R) (h : Holder R) → P h → P (send_request now req h).1
  pub shuts : (h h' : Holder R) → shutdown h ≡ ok h' → P h → P h'

shutdown_all-AllValues :
    {R : Type 0} (P : Holder R → Type 0)
    → IsKept P
    → (d : Dict (Holder R)) → AllValues P d
    → AllValues P (shutdown_all d).1
unfolding shutdown_all
shutdown_all-AllValues {R} P keep [] all = all
shutdown_all-AllValues {R} P keep ((name, h) ∷ d) all =
    let rest = shutdown_all-AllValues P keep d all.1 in
    elim (Result-cases (shutdown h)) [
      | inl (h', e) ↦ subst (AllValues P) (asked h' e) (keep.shuts h h' e all.0, rest)
      | inr (x, e) ↦ subst (AllValues P) (unasked x e) all
    ]
  where
    asked :
        (h' : Holder R)
        → shutdown h ≡ ok h'
        → ((name, h') ∷ (shutdown_all d).1) ≡ (shutdown_all ((name, h) ∷ d)).1
    asked h' e = ground (arith, e)

    unasked :
        (x : PyError) → shutdown h ≡ err x → ((name, h) ∷ d) ≡ (shutdown_all ((name, h) ∷ d)).1
    unasked x e = ground (arith, e)

module _ (J : JsonModule) (lib : ClibLibrary J) (P : Holder (Req J lib) → Type 0) where
  abbrev pub Holds : Process J lib → Type 0
  Holds p = AllValues P p.holders

  pub on_holder-Holds :
      {A : Type 0} (name : String) (f : Holder (Req J lib) → Result A × Holder (Req J lib))
      (p : Process J lib)
      → ((h : Holder (Req J lib)) → lookup name p.holders ≡ some h → P h → P (f h).1)
      → Holds p
      → Holds (on_holder J lib name f p).1
  on_holder-Holds name f p step all = elim (Option-cases (lookup name p.holders)) [
    | inl missing ↦ subst (AllValues P) (left missing) all
    | inr (h, found) ↦ subst (AllValues P) (changed h found) (
        insert-AllValues P name (f h).1 p.holders
          (step h found (lookup-AllValues P name h p.holders all found)) all)
  ]
    where
      left : lookup name p.holders ≡ none → p.holders ≡ (on_holder J lib name f p).1.holders
      left missing = ground (arith, missing)

      changed :
          (h : Holder (Req J lib))
          → lookup name p.holders ≡ some h
          → insert name (f h).1 p.holders ≡ (on_holder J lib name f p).1.holders
      changed h found = ground (arith, found)

  module _ (keep : IsKept P) where
    handle_shutdown-shutdown_all :
        (p : Process J lib) → (shutdown_all p.holders).1 ≡ (handle_shutdown J lib p).1.holders
    unfolding handle_shutdown
    handle_shutdown-shutdown_all p = elim (Result-cases (shutdown_all p.holders).0) [
      | inl (u, e) ↦ ground (arith, e)
      | inr (x, e) ↦ ground (arith, e)
    ]

    pub handle_shutdown-Holds : (p : Process J lib) → Holds p → Holds (handle_shutdown J lib p).1
    handle_shutdown-Holds p all =
        subst (AllValues P) (handle_shutdown-shutdown_all p)
          (shutdown_all-AllValues P keep p.holders all)

    pub Holds-IsStable : IsStable J lib Holds
    Holds-IsStable = record {
      worlds = λ _ _ _ all. all;
      sends = λ now req name p all.
          on_holder-Holds name (send_request now req) p (λ h _ held. keep.sends now req h held) all;
      shuts = handle_shutdown-Holds;
    }
