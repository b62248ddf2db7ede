-- ===== src/Prelude/Action.antt =====
-- Python code with state: a call returns or raises, and what was written before a raise stays.
use mathlib.Core.Bool.{false}
use sonic_device_health_prtm.Prelude.Results.{Result, ok, err, PyError}
use sonic_device_health_prtm.Prelude.{
  ◌≡◌, ◌⊎◌, Result-cases, inl, inr, ap, Bool, sym, ◌∙◌, arith, if◌then◌else◌, true, subst, refl,
}

abbrev pub Action : Type 0 → Type 0 → Type 0
Action S A = S → Result A × S

module _ {S A : Type 0} where
  abbrev pub pure : A → Action S A
  pure a s = (ok a, s)

  abbrev pub raise : PyError → Action S A
  raise e s = (err e, s)

  abbrev pub gets : (S → A) → Action S A
  gets f s = (ok (f s), s)

  abbrev pub lift : Result A → Action S A
  lift r s = (r, s)

infixl 5 ◌>>=◌ ◌>>◌
abbrev pub ◌>>=◌ : {S A B : Type 0} → Action S A → (A → Action S B) → Action S B
◌>>=◌ m f s = let (r, s') = m s in elim r [ ok a ↦ f a s' | err e ↦ (err e, s') ]

abbrev pub ◌>>◌ : {S A B : Type 0} → Action S A → Action S B → Action S B
m >> k = m >>= λ _. k

abbrev pub modify : {S : Type 0} → (S → S) → Action S (Unit {0})
modify f s = (ok tt, f s)

module _ {S A B : Type 0} (m : Action S A) (k : A → Action S B) (s : S) where
  after : Result A → Result B × S
  after (ok a) = k a (m s).1
  after (err e) = (err e, (m s).1)

  -- The first call returns, and the second follows in the state that it has left.
  pub bind-returns : (a : A) → (m s).0 ≡ ok a → (m >>= k) s ≡ k a (m s).1
  unfolding after
  bind-returns a h = ap after h

  pub bind-raises : (e : PyError) → (m s).0 ≡ err e → (m >>= k) s ≡ (err e, (m s).1)
  unfolding after
  bind-raises e h = ap after h

  pub bind-fails : (e : PyError) (s' : S) → m s ≡ (err e, s') → (m >>= k) s ≡ (err e, s')
  bind-fails e s' h = ap (λ x. ((λ _. x) >>= k) s) h

  pub bind-cases :
      ((a : A) × ((m s).0 ≡ ok a) × ((m >>= k) s ≡ k a (m s).1))
      ⊎ ((e : PyError) × ((m >>= k) s ≡ (err e, (m s).1)))
  bind-cases = elim (Result-cases (m s).0) [
    | inl (a, h) ↦ inl (a, h, bind-returns a h)
    | inr (e, h) ↦ inr (e, bind-raises e h)
  ]

  -- What has returned has returned step by step.
  pub bind-ok :
      (b : B)
      → ((m >>= k) s).0 ≡ ok b
      → (a : A) × ((m s).0 ≡ ok a) × ((k a (m s).1).0 ≡ ok b) × (((m >>= k) s).1 ≡ (k a (m s).1).1)
  bind-ok b h = elim bind-cases [
    | inl (a, e, run) ↦ (a, e, sym (ap (λ r. r.0) run) ∙ h, ap (λ r. r.1) run)
    | inr (x, run) ↦ (let bad : ⊥ = ground (arith, ap (λ r. r.0) run, h) in elim bad [ ])
  ]

  pub bind-state : (m s).1 ≡ s → ((a : A) → (k a s).1 ≡ s) → ((m >>= k) s).1 ≡ s
  bind-state hm hk = elim bind-cases [
    | inl (a, e, run) ↦ ap (λ r. r.1) run ∙ ap (λ t. (k a t).1) hm ∙ hk a
    | inr (x, run) ↦ ap (λ r. r.1) run ∙ hm
  ]

pub if-state :
    {S A : Type 0} (b : Bool) (m n : Action S A) (s : S)
    → (m s).1 ≡ s
    → (n s).1 ≡ s
    → ((if b then m else n) s).1 ≡ s
if-state true m n s h k = h
if-state false m n s h k = k

-- What both calls keep, their sequence keeps, whether they return or raise.
pub bind-keeps :
    {S A B : Type 0} (P : S → Type 0) (m : Action S A) (k : A → Action S B) (s : S)
    → P (m s).1
    → ((a : A) (t : S) → P t → P (k a t).1)
    → P ((m >>= k) s).1
bind-keeps P m k s h step = elim (bind-cases m k s) [
  | inl (a, e, run) ↦ subst (λ r. P r.1) (sym run) (step a (m s).1 h)
  | inr (x, run) ↦ subst (λ r. P r.1) (sym run) h
]

pub if-keeps :
    {S A : Type 0} (P : S → Type 0) (b : Bool) (m n : Action S A) (s : S)
    → (b ≡ true → P (m s).1)
    → P (n s).1
    → P ((if b then m else n) s).1
if-keeps P true m n s h k = h refl
if-keeps P false m n s h k = k

-- The same, where the second call may use what the first has returned.
pub bind-keeps_at :
    {S A B : Type 0} (P : S → Type 0) (m : Action S A) (k : A → Action S B) (s : S)
    → P (m s).1
    → ((a : A) → (m s).0 ≡ ok a → P (k a (m s).1).1)
    → P ((m >>= k) s).1
bind-keeps_at P m k s h step = elim (bind-cases m k s) [
  | inl (a, e, run) ↦ subst (λ r. P r.1) (sym run) (step a e)
  | inr (x, run) ↦ subst (λ r. P r.1) (sym run) h
]

-- `Q` holds of the state that a return leaves, `E` of the one that an exception leaves.
abbrev pub Leaves : {S A : Type 0} → (S → Type 0) → (S → Type 0) → Result A × S → Type 0
Leaves Q E (ok _, s) = Q s
Leaves Q E (err _, s) = E s

module _ {S A : Type 0} (Q E : S → Type 0) where
  pub Leaves-always : (x : Result A × S) → ((s : S) → Q s → E s) → Q x.1 → Leaves Q E x
  Leaves-always (ok a, s) stops h = h
  Leaves-always (err e, s) stops h = stops s h

  pub Leaves-ok : (x : Result A × S) (a : A) → Leaves Q E x → x.0 ≡ ok a → Q x.1
  Leaves-ok (ok b, s) a h e = h
  Leaves-ok (err y, s) a h e = absurd (ground (arith, e))

  pub Leaves-err : (x : Result A × S) (y : PyError) → Leaves Q E x → x.0 ≡ err y → E x.1
  Leaves-err (ok b, s) y h e = absurd (ground (arith, e))
  Leaves-err (err z, s) y h e = h

pub Leaves-same : {S A : Type 0} (Q : S → Type 0) (x : Result A × S) → Leaves Q Q x → Q x.1
Leaves-same Q (ok a, s) h = h
Leaves-same Q (err e, s) h = h

pub if-Leaves :
    {S A : Type 0} (Q E : S → Type 0) (b : Bool) (m n : Action S A) (s : S)
    → Leaves Q E (m s)
    → Leaves Q E (n s)
    → Leaves Q E ((if b then m else n) s)
if-Leaves Q E true m n s h k = h
if-Leaves Q E false m n s h k = k

pub bind-Leaves :
    {S A B : Type 0} (Q E : S → Type 0) (m : Action S A) (k : A → Action S B) (s : S)
    → Leaves Q E (m s)
    → ((a : A) (t : S) → Q t → Leaves Q E (k a t))
    → Leaves Q E ((m >>= k) s)
bind-Leaves {S} {A} Q E m k s h step = go (m s) h
  where
    go : (x : Result A × S) → Leaves Q E x → Leaves Q E (((λ _. x) >>= k) s)
    go (ok a, t) held = step a t held
    go (err e, t) held = held

-- The same, where the second call may use what the first has returned.
pub bind-Leaves_at :
    {S A B : Type 0} (Q E : S → Type 0) (m : Action S A) (k : A → Action S B) (s : S)
    → Leaves Q E (m s)
    → ((a : A) → (m s).0 ≡ ok a → Leaves Q E (k a (m s).1))
    → Leaves Q E ((m >>= k) s)
bind-Leaves_at {S} {A} Q E m k s h step = go (m s) h step
  where
    go :
        (x : Result A × S)
        → Leaves Q E x
        → ((a : A) → x.0 ≡ ok a → Leaves Q E (k a x.1))
        → Leaves Q E (((λ _. x) >>= k) s)
    go (ok a, t) held then_ = then_ a refl
    go (err e, t) held then_ = held
