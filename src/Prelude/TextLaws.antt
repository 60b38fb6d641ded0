-- ===== src/Prelude/TextLaws.antt =====
-- What `strip_suffix('*')`, `strip_prefix` and `starts_with` decide.
use Prim.Native.Nat.{ℕ}
use Prim.Native.Char.{Char, code}
use Prim.Native.String.{String, ◌++◌}
use mathlib.Core.Bool.{true}
use mathlib.Core.Option.{some}
use mathlib.Core.Path.{◌≡◌, refl, ap}
use mathlib.Core.Logic.{◌↔◌, inl, inr}
use native.Mathlib.Omega.{arith}
use text.Mathlib.TextEquality.{Char-path}
use text.Mathlib.TextLemmas.{nil-append, cons-append}
use attow_nexus.Prelude.Tests.{eqb, Bool-cases, Option-cases}
use attow_nexus.Prelude.Text.{strip_star, strip_prefix, has_prefix}

eqb→eq : (a b : ℕ) → eqb a b ≡ true → a ≡ b
eqb→eq a b h = ground arith

eqb_refl : (a : ℕ) → eqb a a ≡ true
eqb_refl a = ground arith

abbrev star : Char
star = "*"

strip_star_sound : (s r : String) → strip_star s ≡ some r → s ≡ r ++ "*"
unfolding strip_star
strip_star_sound String.[] r h = cc
strip_star_sound (String.◌∷◌ c String.[]) r h = elim (Bool-cases (eqb (code c) b'*')) [
  | inl same ↦
      let e : c ≡ star = Char-path c star (eqb→eq (code c) b'*' same) in
      let empty : "" ≡ r = ground (arith, same) in rw (← empty, e)
  | inr other ↦ ground (arith, other)
]
strip_star_sound (String.◌∷◌ c (String.◌∷◌ d s)) r h =
    elim (Option-cases (strip_star (String.◌∷◌ d s))) [
      | inl missing ↦ cc (missing)
      | inr (t, e) ↦
          let split : String.◌∷◌ c t ≡ r = ground (arith, e) in
          rw (← split, cons-append c t "*")
            (ap (String.◌∷◌ c) (strip_star_sound (String.◌∷◌ d s) t e))
    ]

strip_star-cons :
    (c : Char) (s r : String)
    → strip_star s ≡ some r
    → strip_star (String.◌∷◌ c s) ≡ some (String.◌∷◌ c r)
unfolding strip_star
strip_star-cons c String.[] r h = cc
strip_star-cons c (String.◌∷◌ d s) r h = rw h

strip_star-append : (r : String) → strip_star (r ++ "*") ≡ some r
unfolding strip_star
strip_star-append String.[] = refl
strip_star-append (String.◌∷◌ c r) =
    rw (cons-append c r "*") (strip_star-cons c (r ++ "*") r (strip_star-append r))

pub strip_star_iff : (s r : String) → (strip_star s ≡ some r) ↔ (s ≡ r ++ "*")
strip_star_iff s r = (strip_star_sound s r, λ e. rw e (strip_star-append r))

strip_prefix_sound : (p s r : String) → strip_prefix p s ≡ some r → s ≡ p ++ r
unfolding strip_prefix
strip_prefix_sound String.[] s r h = cc (nil-append r)
strip_prefix_sound (String.◌∷◌ c p) String.[] r h = cc
strip_prefix_sound (String.◌∷◌ c p) (String.◌∷◌ d s) r h =
    elim (Bool-cases (eqb (code c) (code d))) [
      | inl same ↦
          let e : c ≡ d = Char-path c d (eqb→eq (code c) (code d) same) in
          rw (e, cons-append d p r)
            (ap (String.◌∷◌ d) (strip_prefix_sound p s r (ground (arith, same))))
      | inr other ↦ ground (arith, other)
    ]

strip_prefix-append : (p r : String) → strip_prefix p (p ++ r) ≡ some r
unfolding strip_prefix
strip_prefix-append String.[] r = rw (nil-append r)
strip_prefix-append (String.◌∷◌ c p) r =
    rw (cons-append c p r, eqb_refl (code c)) (strip_prefix-append p r)

pub strip_prefix_iff : (p s r : String) → (strip_prefix p s ≡ some r) ↔ (s ≡ p ++ r)
strip_prefix_iff p s r = (strip_prefix_sound p s r, λ e. rw e (strip_prefix-append p r))

-- `starts_with` holds exactly when the text is the prefix and a rest.
pub has_prefix_iff : (p s : String) → (has_prefix p s ≡ true) ↔ ((r : String) × (s ≡ p ++ r))
unfolding has_prefix
has_prefix_iff p s = (
  λ h. elim (Option-cases (strip_prefix p s)) [
    | inl missing ↦ cc (missing)
    | inr (r, e) ↦ (r, strip_prefix_sound p s r e)
  ],
  λ (r, e). rw ((strip_prefix_iff p s r).1 e, has_prefix),
)
