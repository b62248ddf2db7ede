-- ===== src/Actions/LinkFlap/Window.antt =====
-- The windows of `LoMPlugin` in python_plugins/src/vendors/sonic/actions/link_flap.py against the whole
-- history of the interfaces.
use sonic_device_health_prtm.Prelude.{
  ℕ, List, String, Option, none, ◌≡◌, ◌∷◌, [], if◌then◌else◌, some, str_eq, ◌∙◌, Bool-cases, arith,
  ap, inl, refl, subst, eq_iff, inr,
}
use sonic_device_health_prtm.Prelude.Dict.{Dict, lookup, insert, lookup-insert}
use sonic_device_health_prtm.Prelude.Int.{ℤ, leb_ℤ, sub_ℕ, pos}
use sonic_device_health_prtm.Actions.LinkFlap.{on_down, Plugin}

-- The times at which an interface went down, the latest first.
abbrev pub downs : String → List (String × ℕ) → List ℕ
downs i [] = []
downs i ((j, t) ∷ h) = if str_eq j i then t ∷ downs i h else downs i h

-- The last two of them, the latest last.
abbrev pub window : List ℕ → Option (List ℕ)
window [] = none
window (a ∷ []) = some (a ∷ [])
window (a ∷ b ∷ _) = some (b ∷ a ∷ [])

-- The dictionary of windows that the plugin keeps stands for the history.
abbrev pub Keeps : Dict (List ℕ) → List (String × ℕ) → Type 0
Keeps flaps h = (i : String) → lookup i flaps ≡ window (downs i h)

-- The interval to report: from the last time that the interface went down to now, if short enough.
abbrev pub flap_of : ℕ → List ℕ → Option ℤ
flap_of now [] = none
flap_of now (t ∷ _) = if leb_ℤ (sub_ℕ now t) (pos 15) then some (sub_ℕ now t) else none

-- The plugin with its constants as `__init__` sets them.
abbrev pub IsTuned : Plugin → Type 0
IsTuned p = (p.flap_cnt ≡ 2) × (p.flap_int ≡ 15)

on_down_new :
    (i : String) (now : ℕ) (p : Plugin)
    → IsTuned p
    → lookup i p.flaps ≡ none
    → on_down i now p ≡ (none, record p { flaps = insert i (now ∷ []) p.flaps })
unfolding on_down
on_down_new i now p c e = ground arith

on_down_second :
    (i : String) (now a : ℕ) (p : Plugin)
    → IsTuned p
    → lookup i p.flaps ≡ some (a ∷ [])
    → on_down i now p ≡ (flap_of now (a ∷ []), record p { flaps = insert i (a ∷ now ∷ []) p.flaps })
unfolding on_down
on_down_second i now a p c e = ground arith

on_down_later :
    (i : String) (now a b : ℕ) (p : Plugin)
    → IsTuned p
    → lookup i p.flaps ≡ some (b ∷ a ∷ [])
    → on_down i now p ≡ (flap_of now (a ∷ []), record p { flaps = insert i (a ∷ now ∷ []) p.flaps })
unfolding on_down
on_down_later i now a b p c e = ground arith

-- A new window for one interface keeps the dictionary in step with the history.
Keeps-insert :
    (i : String) (now : ℕ) (lst : List ℕ) (flaps : Dict (List ℕ)) (h : List (String × ℕ))
    → Keeps flaps h
    → some lst ≡ window (now ∷ downs i h)
    → Keeps (insert i lst flaps) ((i, now) ∷ h)
Keeps-insert i now lst flaps h k e j = elim (Bool-cases (str_eq i j)) [
  | inl same ↦
      simp (lookup-insert i j lst flaps, same)
        (subst (λ x. some lst ≡ window (now ∷ downs x h)) ((eq_iff i j).0 same) e)
  | inr other ↦ simp (lookup-insert i j lst flaps, other) (k j)
]

-- `on_down` on a dictionary that stands for the history reports exactly if the interface has gone
-- down before and the time since then is at most 15 seconds, with that time, and the new dictionary
-- stands for the history with the new event.
pub on_down_refines :
    (i : String) (now : ℕ) (p : Plugin) (h : List (String × ℕ))
    → IsTuned p
    → Keeps p.flaps h
    → let (found, q) = on_down i now p in
      (found ≡ flap_of now (downs i h)) × Keeps q.flaps ((i, now) ∷ h) × IsTuned q
on_down_refines i now p h c k = go (downs i h) refl
  where
    go :
        (d : List ℕ)
        → downs i h ≡ d
        → let (found, q) = on_down i now p in
          (found ≡ flap_of now (downs i h)) × Keeps q.flaps ((i, now) ∷ h) × IsTuned q
    go [] e =
        rw (on_down_new i now p c (k i ∙ ap window e))
          (rw e refl, Keeps-insert i now _ p.flaps h k (rw e refl), c)
    go (a ∷ []) e =
        rw (on_down_second i now a p c (k i ∙ ap window e))
          (rw e refl, Keeps-insert i now _ p.flaps h k (rw e refl), c)
    go (a ∷ b ∷ rest) e =
        rw (on_down_later i now a b p c (k i ∙ ap window e))
          (rw e refl, Keeps-insert i now _ p.flaps h k (rw e refl), c)
