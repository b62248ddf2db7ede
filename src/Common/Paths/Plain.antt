-- ===== src/Common/Paths/Plain.antt =====
-- The path that `syspath_append` of python_plugins/src/common.py puts on the search path, described by
-- the texts alone.
use Prim.Native.Char.{Char, code}
use text.Mathlib.TextEquality.{Char-path}
use text.Mathlib.TextLemmas.{cons-append, append-ne-nil_of_right_ne-nil, cons≢nil}
use sonic_device_health_prtm.Prelude.{
  String, ◌≡◌, ◌≢◌, ◌⊎◌, inl, inr, true, if◌then◌else◌, str_eq, eq_iff, Bool-cases, concat, refl,
  sym, ap, ◌∙◌, subst, arith,
}
use sonic_device_health_prtm.Common.Paths.{ends_slash, drop_last, plain_path}

-- `q` is the path less the slash that it ends in, if any.
abbrev pub IsPlain : String → String → Type 0
IsPlain q path = (path ≡ concat q "/") ⊎ ((q ≡ path) × ((r : String) → path ≢ concat r "/"))

-- A path that ends in a slash is its rest with the slash.
ends_slash-concat : (s : String) → ends_slash s ≡ true → s ≡ concat (drop_last s) "/"
unfolding ends_slash drop_last
ends_slash-concat String.[] h = absurd (ground (arith, h))
ends_slash-concat (String.◌∷◌ c s) h = elim (Bool-cases (str_eq s "")) [
  | inl last ↦
      let slash : code c ≡ b'/' = ground (arith, last, h) in
      ap (λ t. String.◌∷◌ c t) ((eq_iff s "").0 last)
      ∙ ap (λ d. String.◌∷◌ d "") (Char-path c "/" slash)
      ∙ ap (λ b. concat (if b then "" else String.◌∷◌ c (drop_last s)) "/") (sym last)
  | inr more ↦
      ap (λ t. String.◌∷◌ c t) (ends_slash-concat s (ground (arith, more, h)))
      ∙ sym (cons-append c (drop_last s) "/")
      ∙ ap (λ b. concat (if b then "" else String.◌∷◌ c (drop_last s)) "/") (sym more)
]

ends_slash-cons :
    (c : Char) (s : String) → s ≢ "" → ends_slash s ≡ true → ends_slash (String.◌∷◌ c s) ≡ true
unfolding ends_slash
ends_slash-cons c s some h = elim (Bool-cases (str_eq s "")) [
  | inl none ↦ absurd (some ((eq_iff s "").0 none))
  | inr more ↦ ground (arith, more, h)
]

concat-ends_slash : (r : String) → ends_slash (concat r "/") ≡ true
unfolding ends_slash
concat-ends_slash String.[] = refl
concat-ends_slash (String.◌∷◌ c r) =
    ap ends_slash (cons-append c r "/")
    ∙ ends_slash-cons c (concat r "/") (append-ne-nil_of_right_ne-nil r cons≢nil)
        (concat-ends_slash r)

pub plain_path-IsPlain : (path : String) → IsPlain (plain_path path) path
plain_path-IsPlain path = elim (Bool-cases (ends_slash path)) [
  | inl slash ↦
      subst (λ b. IsPlain (if b then drop_last path else path) path) (sym slash)
        (inl (ends_slash-concat path slash))
  | inr bare ↦
      subst (λ b. IsPlain (if b then drop_last path else path) path) (sym bare)
        (inr (refl, λ r e. absurd (ground (arith, bare, ap ends_slash e ∙ concat-ends_slash r))))
]
