-- ===== src/Actions/LinkFlap/Bounds.antt =====
-- How much python_plugins/src/vendors/sonic/actions/link_flap.py remembers.
use sonic_device_health_prtm.Actions.LinkFlap
use sonic_device_health_prtm.Prelude.{
  String, ℕ, List, length, ◌≤◌, ◌≡◌, arith, Result-cases, ◌∷◌, inr, [], subst, inl, some, none,
  Bool-cases, sym, ◌||◌, ◌∙◌,
}
use sonic_device_health_prtm.Prelude.Dict.{AllValues, insert, insert-AllValues}
use sonic_device_health_prtm.Actions.LinkFlap.{
  trim, on_down, Plugin, receive, Input, Event, down_of, shutdown, record_time,
}
use sonic_device_health_prtm.Json.{Json}
use sonic_device_health_prtm.ClibBind.Messages.{ActionFields}

-- At most `cnt` times are kept for each interface.
abbrev pub IsBounded : ℕ → Plugin → Type 0
IsBounded cnt p = (p.flap_cnt ≡ cnt) × AllValues (λ times. length times ≤ cnt) p.flaps

length-trim : (cnt : ℕ) (xs : List ℕ) → length (trim cnt xs) ≤ cnt
unfolding trim
length-trim cnt [] = omega arith
length-trim cnt (x ∷ xs) = ground (arith, length-trim cnt xs)

on_down-flaps :
    (ifname : String) (now : ℕ) (p : Plugin)
    → ((on_down ifname now p).1.flap_cnt ≡ p.flap_cnt)
      × (insert ifname (trim p.flap_cnt (record_time ifname now p.flaps)) p.flaps
          ≡ (on_down ifname now p).1.flaps)
unfolding on_down
on_down-flaps ifname now p = ground arith

on_down-IsBounded :
    (cnt : ℕ) (ifname : String) (now : ℕ) (p : Plugin)
    → IsBounded cnt p
    → IsBounded cnt (on_down ifname now p).1
on_down-IsBounded cnt ifname now p (same, bounded) =
    let Short : List ℕ → Type 0 = λ times. length times ≤ cnt in
    let times = record_time ifname now p.flaps in
    let (kept, changed) = on_down-flaps ifname now p in
    let short = subst (λ k. length (trim k times) ≤ cnt) (sym same) (length-trim cnt times) in
    (
      kept ∙ same,
      subst (AllValues Short) changed
          (insert-AllValues Short ifname (trim p.flap_cnt times) p.flaps short bounded),
    )

module _ (dumps : Json → String) (req : ActionFields) where
  receive-IsBounded :
      (cnt : ℕ) (e : Event) (now : ℕ) (p : Plugin)
      → IsBounded cnt p
      → IsBounded cnt (receive dumps req e now p).1
  unfolding receive
  receive-IsBounded cnt e now p bounded = elim (Result-cases (down_of e)) [
    | inr (x, f) ↦ moved p (ground (arith, f)) bounded
    | inl (none, f) ↦ moved p (ground (arith, f)) bounded
    | inl (some ifname, f) ↦
        moved (on_down ifname now p).1 (ground (arith, f))
          (on_down-IsBounded cnt ifname now p bounded)
  ]
    where
      moved :
          (q : Plugin)
          → q ≡ (receive dumps req e now p).1
          → IsBounded cnt q
          → IsBounded cnt (receive dumps req e now p).1
      moved q same held = subst (IsBounded cnt) same held

  -- However long `request` runs and whatever it receives: a plugin that keeps at most `flap_cnt` times
  -- for each interface does so behind the call, with the same `flap_cnt`.
  pub request-IsBounded :
      (cnt : ℕ) (is : List Input) (p : Plugin)
      → IsBounded cnt p
      → IsBounded cnt (LinkFlap.request dumps req is p).2
  unfolding LinkFlap.request
  request-IsBounded cnt [] p bounded = bounded
  request-IsBounded cnt (i ∷ is) p bounded =
      let q = (receive dumps req i.event i.now p).1 in
      let held = receive-IsBounded cnt i.event i.now p bounded in
      elim (Bool-cases (p.shutdown_flag || i.stop)) [
        | inl stop ↦ moved (shutdown p) (ground (arith, stop)) bounded
        | inr go ↦ elim (Result-cases (receive dumps req i.event i.now p).0) [
          | inr (x, e) ↦ moved q (ground (arith, go, e)) held
          | inl (some r, e) ↦ moved q (ground (arith, go, e)) held
          | inl (none, e) ↦
              moved (LinkFlap.request dumps req is q).2 (ground (arith, go, e))
                (request-IsBounded cnt is q held)
        ]
      ]
    where
      moved :
          (r : Plugin)
          → r ≡ (LinkFlap.request dumps req (i ∷ is) p).2
          → IsBounded cnt r
          → IsBounded cnt (LinkFlap.request dumps req (i ∷ is) p).2
      moved r same h = subst (IsBounded cnt) same h
