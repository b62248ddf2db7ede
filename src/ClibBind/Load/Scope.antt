-- ===== src/ClibBind/Load/Scope.antt =====
-- When `c_lib_init` of python_plugins/src/clib_bind.py succeeds, and that it cannot in production.
use sonic_device_health_prtm.Prelude.{
  Option, none, some, Bool, true, false, String, List, [], ◌∷◌, ◌≡◌, refl, All, Result, ok, err,
  arith, eq_refl, Bool-cases, subst, sym, inl, inr, Option-cases,
}
use sonic_device_health_prtm.ClibBind.Load.{
  Dll, Binding, is_in, Prototype, bind_all, load_production, c_lib_init, clib_bind_names,
  prototypes,
}

-- The types of the first function mention `c_int`.
load-lacks :
    (scope : List String) (lib : Dll) (b : Binding)
    → is_in "c_int" scope ≡ false
    → ((load_production scope lib b).0 ≡ false) × ((load_production scope lib b).1.dll ≡ false)
unfolding bind_all
load-lacks scope lib b lacks = ground (arith, lacks)

-- Outside the test mode `c_lib_init` returns False and leaves no library behind, whatever library is
-- found: `c_int` is not a name of the module.
pub production_init_fails :
    (found : Option Dll) (test_init : Result Bool) (b : Binding)
    → b.dll ≡ false
    → b.gvars.test_run ≡ false
    → ((c_lib_init clib_bind_names found test_init b).0 ≡ ok false)
      × ((c_lib_init clib_bind_names found test_init b).1.dll ≡ false)
unfolding c_lib_init
production_init_fails none test_init b d t = ground arith
production_init_fails (some lib) test_init b d t =
    ground (arith, load-lacks clib_bind_names lib b refl)

is_in-keeps :
    (k n : String) (bound : List String) → is_in k bound ≡ true → is_in k (n ∷ bound) ≡ true
is_in-keeps k n bound h = ground arith

bind_all-keeps :
    (scope : List String) (lib : Dll) (k : String) (ps : List Prototype) (bound : List String)
    → is_in k bound ≡ true
    → is_in k (bind_all scope lib ps bound).1 ≡ true
unfolding bind_all
bind_all-keeps scope lib k [] bound h = h
bind_all-keeps scope lib k (p ∷ ps) bound h =
    ground (arith, is_in-keeps k p.symbol bound h, bind_all-keeps scope lib k ps (p.symbol ∷ bound))

abbrev succeeded : Result (Unit {0}) → Bool
succeeded (ok _) = true
succeeded (err _) = false

bind_all-step :
    (scope : List String) (lib : Dll) (p : Prototype) (ps : List Prototype) (bound : List String)
    → succeeded (bind_all scope lib (p ∷ ps) bound).0 ≡ true
    → bind_all scope lib (p ∷ ps) bound ≡ bind_all scope lib ps (p.symbol ∷ bound)
unfolding bind_all
bind_all-step scope lib p ps bound h = ground arith

bind_all-sets :
    (scope : List String) (lib : Dll) (ps : List Prototype) (bound : List String)
    → succeeded (bind_all scope lib ps bound).0 ≡ true
    → All (λ p. is_in p.symbol (bind_all scope lib ps bound).1 ≡ true) ps
bind_all-sets scope lib [] bound h = tt
bind_all-sets scope lib (p ∷ ps) bound h =
    let step = bind_all-step scope lib p ps bound h in
    subst (λ x. All (λ q. is_in q.symbol x.1 ≡ true) (p ∷ ps)) (sym step)
      (
        bind_all-keeps scope lib p.symbol ps (p.symbol ∷ bound) (simp eq_refl),
        bind_all-sets scope lib ps (p.symbol ∷ bound) (ground (arith, step)),
      )

abbrev AllBound : Binding → Type 0
AllBound b = (b.dll ≡ true) × All (λ p. is_in p.symbol b.bound ≡ true) prototypes

load-AllBound :
    (scope : List String) (lib : Dll) (b : Binding)
    → (load_production scope lib b).0 ≡ true
    → AllBound (load_production scope lib b).1
load-AllBound scope lib b h = ground (arith, bind_all-sets scope lib prototypes b.bound)

-- The first call of `c_lib_init` that returns True leaves the library set and a pointer for every
-- function that a wrapper calls, in the test mode and out of it.
pub init_sets_pointers :
    (scope : List String) (found : Option Dll) (test_init : Result Bool) (b : Binding)
    → b.dll ≡ false
    → (c_lib_init scope found test_init b).0 ≡ ok true
    → ((c_lib_init scope found test_init b).1.dll ≡ true)
      × All (λ p. is_in p.symbol (c_lib_init scope found test_init b).1.bound ≡ true) prototypes
unfolding c_lib_init
init_sets_pointers scope found test_init b d h = elim (Bool-cases b.gvars.test_run) [
  | inl testing ↦ ground arith
  | inr live ↦ elim (Option-cases found) [
    | inl missing ↦ ground arith
    | inr (lib, e) ↦ ground (arith, load-AllBound scope lib b)
  ]
]
