-- ===== src/Common/Config/Required.antt =====
-- The required attributes of the global RC file in python_plugins/src/common.py.
use sonic_device_health_prtm.Prelude.{
  List, String, ◌≡◌, All, ok, true, false, ◌∷◌, some, arith, [], eq_iff, refl, Bool-cases, Result,
  Result-cases, subst, inr, Option-cases, inl, err, PyError, none,
}
use sonic_device_health_prtm.Common.Config.{
  Config, checked, get_global_rc, has_all, read_rc, public_of, load_rc, starts_with, Files,
  required, names_of,
}
use sonic_device_health_prtm.Json.{
  find, Json, truthy, obj, Fields, field, arr, bool, int, end, text, null, item,
}

-- The cache is empty or has every required attribute.
abbrev pub IsComplete : Config → Type 0
IsComplete c = truthy (obj c.rc_data) ≡ true → has_all required c.rc_data ≡ true

find-public_of :
    (n : String) (d : Fields) → starts_with n "_" ≡ false → find n (public_of d) ≡ find n d
unfolding find public_of
find-public_of n end h = refl
find-public_of n (field k v d) h = ground (arith, find-public_of n d h, eq_iff k n)

has_all-public_of :
    (ns : List String) (d : Fields)
    → All (λ n. starts_with n "_" ≡ false) ns
    → has_all ns d ≡ true
    → has_all ns (public_of d) ≡ true
unfolding has_all
has_all-public_of [] d plain h = refl
has_all-public_of (n ∷ ns) d plain h =
    ground (arith, find-public_of n d plain.0, has_all-public_of ns d plain.1)

-- What is kept of a file has the required attributes: none of them starts with "_".
checked-has_all : (v : Json) (d : Fields) → checked v ≡ ok (some d) → has_all required d ≡ true
unfolding checked
checked-has_all (obj e) d h = elim (Bool-cases (has_all required e)) [
  | inl complete ↦
      subst (λ x. has_all required x ≡ true) (kept complete)
        (has_all-public_of required e (refl, (refl, (refl, (refl, (refl, tt))))) complete)
  | inr short ↦ absurd (ground (arith, h, short))
]
  where
    kept : has_all required e ≡ true → public_of e ≡ d
    kept complete = ground (arith, h, complete)
checked-has_all (arr vs) d h = elim (Option-cases (names_of vs)) [
  | inl odd ↦ absurd (ground (arith, h, odd))
  | inr (names, e) ↦ elim (Bool-cases (has_all required names)) [
    | inl full ↦ absurd (ground (arith, h, e, full))
    | inr short ↦ absurd (ground (arith, h, e, short))
  ]
]
checked-has_all null d h = absurd (ground (arith, h))
checked-has_all (bool _) d h = absurd (ground (arith, h))
checked-has_all (int _) d h = absurd (ground (arith, h))
checked-has_all (text _) d h = absurd (ground (arith, h))

load_rc-has_all :
    (fs : Files) (fl : String) (d : Fields)
    → load_rc fs fl ≡ ok (some d)
    → has_all required d ≡ true
unfolding load_rc
load_rc-has_all fs fl d h = elim (Result-cases (fs.load fl)) [
  | inr (x, e) ↦ absurd (ground (arith, h, e))
  | inl (v, e) ↦ checked-has_all v d (ground (arith, h, e))
]

-- `d[n]` returns for each of the names.
abbrev pub HasItems : List String → Fields → Type 0
HasItems ns d = All (λ n. (v : Json) × (item n d ≡ ok v)) ns

has_all-HasItems : (ns : List String) (d : Fields) → has_all ns d ≡ true → HasItems ns d
unfolding has_all item
has_all-HasItems [] d h = tt
has_all-HasItems (n ∷ ns) d h = elim (Option-cases (find n d)) [
  | inl missing ↦ absurd (ground (arith, h, missing))
  | inr (v, e) ↦ ((v, ground (arith, e)), has_all-HasItems ns d (ground (arith, h)))
]

get_global_rc-IsComplete :
    (fs : Files) (c : Config)
    → IsComplete c
    → IsComplete (get_global_rc fs c).1
      × ((d : Fields) → (get_global_rc fs c).0 ≡ ok d → truthy (obj d) ≡ true → HasItems required d)
unfolding get_global_rc read_rc
get_global_rc-IsComplete fs c complete = elim (Bool-cases (truthy (obj c.rc_data))) [
  | inl cached ↦
      ended (ok c.rc_data, c) (ground (arith, cached)) complete
        (λ d e t. ground (arith, e, complete cached))
  | inr fresh ↦ elim (Bool-cases (fs.exists c.rc_file)) [
    | inr missing ↦
        ended (err (PyError.raised "Sorry, global rc file missing; break"), c)
          (ground (arith, fresh, missing)) complete (λ d e t. absurd (ground (arith, e)))
    | inl there ↦ elim (Result-cases (load_rc fs c.rc_file)) [
      | inr (x, e) ↦
          ended (err x, c) (ground (arith, fresh, there, e)) complete
            (λ d f t. absurd (ground (arith, f)))
      | inl (none, e) ↦
          ended (ok end, c) (ground (arith, fresh, there, e)) complete
            (λ d f t. absurd (ground (arith, f, t)))
      | inl (some v, e) ↦
          let full = load_rc-has_all fs c.rc_file v e in
          ended (ok v, record c { rc_data = v }) (ground (arith, fresh, there, e)) (λ _. full)
            (λ d f t. ground (arith, f, full))
    ]
  ]
]
  where
    ended :
        (x : Result Fields × Config)
        → x ≡ get_global_rc fs c
        → IsComplete x.1
        → ((d : Fields) → x.0 ≡ ok d → truthy (obj d) ≡ true → has_all required d ≡ true)
        → IsComplete (get_global_rc fs c).1
          × ((d : Fields)
              → (get_global_rc fs c).0 ≡ ok d
              → truthy (obj d) ≡ true
              → HasItems required d)
    ended x e held gives =
        subst
          (λ y.
            IsComplete y.1
            × ((d : Fields) → y.0 ≡ ok d → truthy (obj d) ≡ true → HasItems required d))
          e (held, λ d f t. has_all-HasItems required d (gives d f t))

-- When the cache is complete and `get_global_rc` returns an object that is not empty, indexing it by
-- an attribute that the RC file is required to have raises no KeyError, and the cache is complete
-- again.
pub get_global_rc-HasItems :
    (fs : Files) (c : Config) (d : Fields)
    → IsComplete c
    → (get_global_rc fs c).0 ≡ ok d
    → truthy (obj d) ≡ true
    → IsComplete (get_global_rc fs c).1 × HasItems required d
get_global_rc-HasItems fs c d complete e t =
    let (held, gives) = get_global_rc-IsComplete fs c complete in (held, gives d e t)
