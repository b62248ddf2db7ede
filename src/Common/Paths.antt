-- ===== src/Common/Paths.antt =====
-- Paths of python_plugins/src/common.py: `syspath_append`, and `os.path.join` as the calls use it.
pub mod Plain
use Prim.Native.Char.{code}
use sonic_device_health_prtm.Prelude.{
  List, String, ◌≡◌, if◌then◌else◌, Bool, ◌++◌, ◌∷◌, true, [], str_eq, false, Bool-cases, ◌==◌,
  arith, ◌||◌, concat, inl, eq_iff, inr, refl, eq_refl, starts_with, subst, sym,
}

-- `path.endswith("/")`
unfoldable pub ends_slash : String → Bool
ends_slash String.[] = false
ends_slash (String.◌∷◌ c s) =
    let rest = ends_slash s in if str_eq s "" then code c == b'/' else rest

-- `path[0:-1]`
unfoldable pub drop_last : String → String
drop_last String.[] = ""
drop_last (String.◌∷◌ c s) = let rest = drop_last s in if str_eq s "" then "" else String.◌∷◌ c rest

-- `os.path.join(a, b)`
unfoldable pub path_join : String → String → String
unfolding ends_slash
path_join a b =
    if starts_with b "/"
    then b
    else (if str_eq a "" || ends_slash a then concat a b else concat a (concat "/" b))

after_slash : String → String → String
after_slash best String.[] = best
after_slash best (String.◌∷◌ c s) = after_slash (if code c == b'/' then s else best) s

-- `os.path.basename`: what stands behind the last slash.
unfoldable pub basename : String → String
unfolding after_slash
basename path = after_slash path path

-- `path in sys.path`
unfoldable pub is_on : String → List String → Bool
is_on path [] = false
is_on path (p ∷ ps) = str_eq p path || is_on path ps

-- The path that `syspath_append` looks for.
abbrev pub plain_path : String → String
plain_path path = if ends_slash path then drop_last path else path

-- `syspath_append`, on `sys.path`.
unfoldable pub syspath_append : String → List String → List String
unfolding is_on
syspath_append path ps = if is_on (plain_path path) ps then ps else ps ++ (plain_path path ∷ [])

-- Each path stands in the list once.
unfoldable pub IsUnique : List String → Type 0
unfolding is_on
IsUnique [] = Unit {0}
IsUnique (p ∷ ps) = (is_on p ps ≡ false) × IsUnique ps

is_on-append :
    (p q : String) (ps : List String) → is_on p (ps ++ (q ∷ [])) ≡ (is_on p ps || str_eq q p)
unfolding is_on
is_on-append p q [] = ground arith
is_on-append p q (r ∷ ps) = ground (arith, is_on-append p q ps)

append-IsUnique :
    (q : String) (ps : List String) → is_on q ps ≡ false → IsUnique ps → IsUnique (ps ++ (q ∷ []))
unfolding is_on IsUnique
append-IsUnique q [] h u = (refl, tt)
append-IsUnique q (p ∷ ps) h u = (
  ground (arith, is_on-append p q ps, h, u.0, eq_iff p q, eq_iff q p),
  append-IsUnique q ps (ground (arith, h)) u.1,
)

-- What is on the path stays on it.
pub is_on-syspath_append :
    (q path : String) (ps : List String)
    → is_on q ps ≡ true
    → is_on q (syspath_append path ps) ≡ true
unfolding syspath_append
is_on-syspath_append q path ps h = ground (arith, h, is_on-append q (plain_path path) ps)

-- `syspath_append` keeps the entries unique, leaves the path, without its ending slash, among them,
-- and changes nothing when it is called again.
pub syspath_append_once :
    (path : String) (ps : List String)
    → IsUnique ps
    → IsUnique (syspath_append path ps)
      × (is_on (plain_path path) (syspath_append path ps) ≡ true)
      × (syspath_append path (syspath_append path ps) ≡ syspath_append path ps)
unfolding syspath_append
syspath_append_once path ps u = elim (Bool-cases (is_on (plain_path path) ps)) [
  | inl there ↦
      let same : syspath_append path ps ≡ ps = ground (arith, there) in
      (subst IsUnique (sym same) u, ground (arith, there), ground (arith, there, same))
  | inr new ↦
      let added = is_on-append (plain_path path) (plain_path path) ps in
      let more : syspath_append path ps ≡ ps ++ (plain_path path ∷ []) = ground (arith, new) in
      (
        subst IsUnique (sym more) (append-IsUnique (plain_path path) ps new u),
        ground (arith, new, added, eq_refl (plain_path path)),
        ground (arith, new, added, eq_refl (plain_path path)),
      )
]
