-- ===== src/Prelude/Dict.antt =====
-- A Python dict keyed by text, in insertion order.
use Prim.Native.String.{String}
use mathlib.Core.Path.{◌≡◌, refl, subst}
use mathlib.Core.Bool.{Bool, true, false}
use mathlib.Core.Option.{Option, none, some, some-injective}
use mathlib.Core.List.{List, [], ◌∷◌}
use mathlib.Core.Logic.{◌≢◌, inl, inr}
use native.Mathlib.Omega.{arith}
use text.Mathlib.Text.{◌==◌}
use text.Mathlib.TextEquality.{eq_iff}
use text.Mathlib.TextPositions.{eq_refl}
use sonic_device_health_prtm.Prelude.Tests.{if◌then◌else◌, is_some, Bool-cases}
use sonic_device_health_prtm.Prelude.Lists.{All}

abbrev pub Dict {ℓ} : Type ℓ → Type ℓ
Dict V = List (String × V)

module _ {ℓ} {V : Type ℓ} where
  -- `d.get(k)`
  abbrev pub lookup : String → Dict V → Option V
  lookup k [] = none
  lookup k ((j, v) ∷ d) = if j == k then some v else lookup k d

  -- `k in d`
  abbrev pub contains : String → Dict V → Bool
  contains k d = is_some (lookup k d)

  -- `d[k] = v`
  abbrev pub insert : String → V → Dict V → Dict V
  insert k v [] = (k, v) ∷ []
  insert k v ((j, w) ∷ d) = if j == k then (k, v) ∷ d else (j, w) ∷ insert k v d

  pub lookup-insert :
      (k j : String) (v : V) (d : Dict V)
      → lookup j (insert k v d) ≡ (if k == j then some v else lookup j d)
  lookup-insert k j v [] = refl
  lookup-insert k j v ((i, w) ∷ d) =
      ground (arith, eq_iff k j, eq_iff i k, eq_iff i j, lookup-insert k j v d)

  pub lookup-insert_self : (k : String) (v : V) (d : Dict V) → lookup k (insert k v d) ≡ some v
  lookup-insert_self k v d = simp (lookup-insert, eq_refl)

  -- The later of two values for a key.
  pub insert-insert : (k : String) (v w : V) (d : Dict V) → insert k w (insert k v d) ≡ insert k w d
  insert-insert k v w [] = ground (arith, eq_refl k)
  insert-insert k v w ((j, x) ∷ d) = ground (arith, eq_iff j k, eq_refl k, insert-insert k v w d)

  pub lookup-insert_ne :
      (k j : String) (v : V) (d : Dict V) → k ≢ j → lookup j (insert k v d) ≡ lookup j d
  lookup-insert_ne k j v d h = ground (arith, eq_iff k j, lookup-insert k j v d)

  pub contains-insert :
      (k j : String) (v : V) (d : Dict V) → contains k d ≡ true → contains k (insert j v d) ≡ true
  contains-insert k j v d h = ground (arith, h, lookup-insert j k v d)

  pub contains-insert_self : (k : String) (v : V) (d : Dict V) → contains k (insert k v d) ≡ true
  contains-insert_self k v d = ground (arith, lookup-insert_self k v d)

  -- Every value of the dictionary.
  abbrev pub AllValues {κ} : (V → Type κ) → Dict V → Type κ
  AllValues P d = All (λ e. P e.1) d

  pub lookup-AllValues {κ} :
      (P : V → Type κ) (k : String) (v : V) (d : Dict V) → AllValues P d → lookup k d ≡ some v → P v
  lookup-AllValues P k v [] all h = absurd (ground (arith, h))
  lookup-AllValues P k v ((j, w) ∷ d) all h = elim (Bool-cases (j == k)) [
    | inl same ↦ subst P (some-injective w v (ground (arith, same, h))) all.0
    | inr other ↦ lookup-AllValues P k v d all.1 (ground (arith, other, h))
  ]

  pub insert-AllValues {κ} :
      (P : V → Type κ) (k : String) (v : V) (d : Dict V)
      → P v
      → AllValues P d
      → AllValues P (insert k v d)
  insert-AllValues P k v [] h all = (h, tt)
  insert-AllValues P k v ((j, w) ∷ d) h all = elim (Bool-cases (j == k)) [
    | inl same ↦ subst (AllValues P) (replaced same) (h, all.1)
    | inr other ↦ subst (AllValues P) (kept other) (all.0, insert-AllValues P k v d h all.1)
  ]
    where
      replaced : (j == k) ≡ true → ((k, v) ∷ d) ≡ insert k v ((j, w) ∷ d)
      replaced same = ground (arith, same)

      kept : (j == k) ≡ false → ((j, w) ∷ insert k v d) ≡ insert k v ((j, w) ∷ d)
      kept other = ground (arith, other)
