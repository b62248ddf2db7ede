-- ===== src/TestClient/Registered.antt =====
-- What `clib_register_client` of python_plugins/tests/lib/test_client.py leaves, on each branch.
use mathlib.Core.Bool.{false, true}
use mathlib.Core.Option.{some-injective}
use sonic_device_health_prtm.Prelude.{
  String, ◌≡◌, ℕ, true, ok, [], arith, Result, Bool, ◌<◌, none, some, ◌⊎◌, ◌≢◌, false, inl, refl,
  subst, Option, Bool-cases, inr, ltb, if◌then◌else◌, ◌-◌, err, PyError, ◌+◌,
}
use sonic_device_health_prtm.Prelude.Int.{ℤ, pos, leb_ℤ, negsuc}
use sonic_device_health_prtm.TestClient.Services.{write_to_server}
use sonic_device_health_prtm.TestClient.Calls.{
  TextModule, Client, clib_register_client, take_index, tell, python_index, registration,
  register_on, by_suffix, take_service, ThreadLocal,
}

-- A registration of the thread as `name` at the service `k`, and its message.
abbrev pub Registers : String → Client → Client → Type 0
Registers name s s' =
    (k : ℕ) × (k < s.services.cnt)
    × (s.thread ≡ none)
    × (s'.thread ≡ some (record { cache_svc = k; cl_name = name; actions = []; req = none }))
    × (s'.services ≡ write_to_server k (registration name) s.services)

-- A call that registers returns 0; another returns another code, or raises, and changes nothing.
abbrev pub AllOrNothing : String → Client → Result ℤ × Client → Type 0
AllOrNothing name s (r, s') =
    ((r ≡ ok (pos 0)) × Registers name s s') ⊎ ((r ≢ ok (pos 0)) × (s' ≡ s))

python_index-bound :
    (cnt : ℕ) (i : ℤ) (k : ℕ) → leb_ℤ (pos cnt) i ≡ false → python_index cnt i ≡ some k → k < cnt
python_index-bound cnt (pos n) k p e =
    subst (λ m. m < cnt) (some-injective n k e) (ground (arith, p))
python_index-bound cnt (negsuc n) k p e = elim (Bool-cases (ltb n cnt)) [
  | inl within ↦
      subst (λ m. m < cnt) (some-injective (cnt - (n + 1)) k (rw within at e))
        (ground (arith, within))
  | inr beyond ↦ absurd (ground (arith, beyond, e))
]

take_index-AllOrNothing :
    (name : String) (o : Option ℕ) (s : Client)
    → s.thread ≡ none
    → ((k : ℕ) → o ≡ some k → k < s.services.cnt)
    → AllOrNothing name s (take_index name o s)
unfolding take_index tell
take_index-AllOrNothing name none s e p = inr (λ f. absurd (ground (arith, f)), refl)
take_index-AllOrNothing name (some k) s e p = inl (refl, (k, p k refl, e, refl, refl))

take_service-AllOrNothing :
    (name : String) (i : Option ℤ) (s : Client)
    → s.thread ≡ none
    → AllOrNothing name s (take_service name i s)
unfolding take_service
take_service-AllOrNothing name none s e = inr (λ f. absurd (ground (arith, f)), refl)
take_service-AllOrNothing name (some i) s e =
    let x = take_index name (python_index s.services.cnt i) s in
    go (leb_ℤ (pos s.services.cnt) i) refl
  where
    go :
        (b : Bool)
        → leb_ℤ (pos s.services.cnt) i ≡ b
        → AllOrNothing name s (
            if b
            then (err (PyError.name_error "cnt"), s)
            else take_index name (python_index s.services.cnt i) s)
    go true f = inr (λ g. absurd (ground (arith, g)), refl)
    go false f =
        take_index-AllOrNothing name (python_index s.services.cnt i) s e
          (λ k g. python_index-bound s.services.cnt i k f g)

module _ (T : TextModule) where
  by_suffix-AllOrNothing :
      (name : String) (o : Option String) (s : Client)
      → s.thread ≡ none
      → AllOrNothing name s (by_suffix T name o s)
  unfolding by_suffix
  by_suffix-AllOrNothing name none s e = inr (λ f. absurd (ground (arith, f)), refl)
  by_suffix-AllOrNothing name (some last) s e = take_service-AllOrNothing name (T.int_of last) s e

  -- A registration returns 0, where the thread was not registered and has then a service of an index
  -- below the count, no action and no request, its message being offered to the server; or it returns
  -- another code or raises, and changes nothing.
  pub register-AllOrNothing :
      (name : String) (s : Client) → AllOrNothing name s (clib_register_client T name s)
  unfolding clib_register_client register_on
  register-AllOrNothing name s = go s.thread refl
    where
      go : (o : Option ThreadLocal) → s.thread ≡ o → AllOrNothing name s (register_on T o name s)
      go none e = by_suffix-AllOrNothing name (T.behind_last name) s e
      go (some t) e = inr (λ f. absurd (ground (arith, f)), refl)
