-- ===== src/Actions/LinkFlap/Detection.antt =====
-- `request` of python_plugins/src/vendors/sonic/actions/link_flap.py against a detector that keeps the whole
-- history of the interfaces and no windows.
use sonic_device_health_prtm.Prelude.{
  ℕ, String, List, suc, ◌∷◌, ◌≡◌, arith, false, true, ◌∙◌, err, [], refl, ok, some, none,
  Bool-cases, inl, inr, Result-cases, Option-cases,
}
use sonic_device_health_prtm.Prelude.Int.{ℤ}
use sonic_device_health_prtm.Json.{Json}
use sonic_device_health_prtm.ClibBind.Messages.{ActionFields}
use sonic_device_health_prtm.Actions.LinkFlap.{
  on_down, Reply, flap_response, request, Plugin, Input, waiting, new_plugin, no_reply, receive,
  down_of, failed, answered,
}
use sonic_device_health_prtm.Actions.LinkFlap.Window.{
  IsTuned, on_down_refines, Keeps, flap_of, downs,
}

module _ (dumps : Json → String) (req : ActionFields) where
  abbrev counted : Reply × ℕ → Reply × ℕ
  counted (r, n) = (r, suc n)

  -- The detector: reply and number of heartbeats, from the history so far.
  unfoldable pub detect : List Input → List (String × ℕ) → Reply × ℕ
  detect [] h = (waiting, 0)
  detect (i ∷ is) h = elim i.stop [
    | true ↦ (no_reply, 0)
    | false ↦ elim (down_of i.event) [
      | err x ↦ (failed x, 0)
      | ok none ↦ counted (detect is h)
      | ok (some name) ↦ elim (flap_of i.now (downs name h)) [
        | none ↦ counted (detect is ((name, i.now) ∷ h))
        | some v ↦ (answered (flap_response dumps new_plugin req name v), 0)
      ]
    ]
  ]

  -- A plugin that runs, and whose windows stand for the history `h`.
  pub record Tracks (p : Plugin) (h : List (String × ℕ)) : Type 0 where
    pub tuned : IsTuned p
    pub named : p.name ≡ "link_flap"
    pub up : p.shutdown_flag ≡ false
    pub keeps : Keeps p.flaps h

  flap_response-same :
      (p : Plugin) (name : String) (v : ℤ)
      → IsTuned p
      → p.name ≡ "link_flap"
      → flap_response dumps p req name v ≡ flap_response dumps new_plugin req name v
  unfolding flap_response
  flap_response-same p name v tuned named = rw (named, tuned.0)

  on_down-keeps :
      (i : String) (now : ℕ) (p : Plugin)
      → ((on_down i now p).1.name ≡ p.name) × ((on_down i now p).1.shutdown_flag ≡ p.shutdown_flag)
  unfolding on_down
  on_down-keeps i now p = ground arith

  on_down-Tracks :
      (i : String) (now : ℕ) (p : Plugin) (h : List (String × ℕ))
      → Tracks p h
      → Tracks (on_down i now p).1 ((i, now) ∷ h)
  on_down-Tracks i now p h t =
      let (found, keeps, tuned) = on_down_refines i now p h t.tuned t.keeps in
      let (named, up) = on_down-keeps i now p in
      record { tuned = tuned; named = named ∙ t.named; up = up ∙ t.up; keeps = keeps }

  -- For a plugin whose windows stand for a history, `request` on any sequence of events gives the
  -- reply and the number of heartbeats that the detector gives from that history.
  pub request_detects :
      (is : List Input) (p : Plugin) (h : List (String × ℕ))
      → Tracks p h
      → let (reply, beats, _) = request dumps req is p in
        (reply ≡ (detect is h).0) × (beats ≡ (detect is h).1)
  unfolding request receive detect
  request_detects [] p h t = (refl, refl)
  request_detects (i ∷ is) p h t = elim (Bool-cases i.stop) [
    | inl stop ↦ ground (arith, stop)
    | inr on ↦ elim (Result-cases (down_of i.event)) [
      | inr (x, e) ↦ ground (arith, t.up, on, e)
      | inl (none, e) ↦ ground (arith, t.up, on, e, request_detects is p h t)
      | inl (some name, e) ↦
          let (found, _, _) = on_down_refines name i.now p h t.tuned t.keeps in
          elim (Option-cases (flap_of i.now (downs name h))) [
            | inl quiet ↦ ground (
              arith,
              t.up,
              on,
              e,
              quiet,
              found,
              request_detects is (on_down name i.now p).1 ((name, i.now) ∷ h)
                  (on_down-Tracks name i.now p h t),
            )
            | inr (v, flap) ↦ ground (
              arith,
              t.up,
              on,
              e,
              flap,
              found,
              flap_response-same (on_down name i.now p).1 name v
                  (on_down-Tracks name i.now p h t).tuned (on_down-Tracks name i.now p h t).named,
            )
          ]
    ]
  ]
