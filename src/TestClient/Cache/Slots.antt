-- ===== src/TestClient/Cache/Slots.antt =====
-- Where the messages of a `CacheData` of python_plugins/tests/lib/test_client.py lie in its ring.
use sonic_device_health_prtm.Prelude.{
  ℕ, Option, if◌then◌else◌, ◌<◌, arith, ltb, List, ◌≡◌, ◌∷◌, ◌+◌, length, ◌-◌, some, [], ◌++◌,
  subst,
}
use sonic_device_health_prtm.TestClient.Cache.{bump, put}

-- The `n`th slot from index `h` on, for `n` up to the limit.
abbrev pub slot : ℕ → ℕ → ℕ → ℕ
slot limit h n = if ltb (h + n) limit then h + n else h + n - limit

pub bump_in : (limit h : ℕ) → h < limit → bump limit h < limit
unfolding bump
bump_in limit h p = ground arith

pub slot-zero : (limit h : ℕ) → h < limit → slot limit h 0 ≡ h
slot-zero limit h p = ground arith

pub slot-bump :
    (limit h n : ℕ) → h < limit → n < limit → slot limit (bump limit h) n ≡ slot limit h (n + 1)
unfolding bump
slot-bump limit h n p q = ground arith

pub bump-slot :
    (limit h n : ℕ) → h < limit → n < limit → bump limit (slot limit h n) ≡ slot limit h (n + 1)
unfolding bump
bump-slot limit h n p q = ground arith

module _ {D : Type 0} (limit : ℕ) where
  -- The messages `q` lie in the slots from `h` on, the oldest first.
  abbrev pub Holds : (ℕ → Option D) → ℕ → List D → Type 0
  Holds cells h [] = Unit
  Holds cells h (d ∷ q) = (cells h ≡ some d) × Holds cells (bump limit h) q

  -- A write past the messages leaves them.
  pub put-Holds :
      (cells : ℕ → Option D) (d : D) (i h : ℕ) (q : List D)
      → h < limit
      → length q < limit
      → i ≡ slot limit h (length q)
      → Holds cells h q
      → Holds (put cells i d) h q
  unfolding put
  put-Holds cells d i h [] p r e holds = tt
  put-Holds cells d i h (x ∷ q) p r e holds = (
    ground (arith, holds.0),
    put-Holds cells d i (bump limit h) q (bump_in limit h p) (omega arith)
        (ground (arith, e, slot-bump limit h (length q) p (omega arith))) holds.1,
  )

  -- What lies in the next slot comes after them.
  pub Holds-append :
      (cells : ℕ → Option D) (d : D) (h : ℕ) (q : List D)
      → h < limit
      → length q < limit
      → cells (slot limit h (length q)) ≡ some d
      → Holds cells h q
      → Holds cells h (q ++ (d ∷ []))
  Holds-append cells d h [] p r e holds =
      (subst (λ i. cells i ≡ some d) (slot-zero limit h p) e, tt)
  Holds-append cells d h (x ∷ q) p r e holds = (
    holds.0,
    Holds-append cells d (bump limit h) q (bump_in limit h p) (omega arith)
        (subst (λ i. cells i ≡ some d)
          (ground (arith, slot-bump limit h (length q) p (omega arith))) e)
        holds.1,
  )
