-- ===== src/Prelude/Lists.antt =====
-- Lists under the library's names: lengths over the native numbers, membership as a test on texts.
use Prim.Native.Nat.{ℕ, suc, ◌+◌}
use Prim.Native.String.{String}
use mathlib.Core.Path.{◌≡◌, refl}
use mathlib.Core.Logic.{◌⊎◌, inl, inr}
use mathlib.Core.Bool.{Bool, true, false, ◌||◌, ◌&&◌}
use mathlib.Core.Option.{Option, none, some}
use mathlib.Core.List.{List, [], ◌∷◌, ◌++◌}
use native.Mathlib.Omega.{arith}
use text.Mathlib.Text.{◌==◌}
use text.Mathlib.TextEquality.{eq_iff}
use text.Mathlib.TextPositions.{eq_refl}
use attow_nexus.Prelude.Tests.{if◌then◌else◌, Bool-cases}

module _ {ℓ} {A : Type ℓ} where
  abbrev pub length : List A → ℕ
  length [] = 0
  length (x ∷ xs) = suc (length xs)

  pub length-append : (xs ys : List A) → length (xs ++ ys) ≡ length xs + length ys
  length-append [] ys = omega arith
  length-append (x ∷ xs) ys = omega (arith, length-append xs ys)

  abbrev pub is_empty : List A → Bool
  is_empty [] = true
  is_empty (x ∷ xs) = false

  -- `iter().any(p)`
  abbrev pub any : (A → Bool) → List A → Bool
  any p [] = false
  any p (x ∷ xs) = p x || any p xs

  -- `iter().filter(p)`
  abbrev pub filter : (A → Bool) → List A → List A
  filter p [] = []
  filter p (x ∷ xs) = if p x then x ∷ filter p xs else filter p xs

  -- `iter().find(p)`
  abbrev pub find : (A → Bool) → List A → Option A
  find p [] = none
  find p (x ∷ xs) = if p x then some x else find p xs

  pub List-cases : (xs : List A) → (xs ≡ []) ⊎ ((x : A) × (rest : List A) × (xs ≡ x ∷ rest))
  List-cases [] = inl refl
  List-cases (x ∷ xs) = inr (x, xs, refl)

-- `contains` of a `Vec<String>` or a `HashSet<String>`
unfoldable pub contains : String → List String → Bool
contains x [] = false
contains x (y ∷ ys) = y == x || contains x ys

pub contains-append :
    (x : String) (ys zs : List String) → contains x (ys ++ zs) ≡ (contains x ys || contains x zs)
unfolding contains
contains-append x [] zs = refl
contains-append x (y ∷ ys) zs = ground (arith, contains-append x ys zs)

pub contains_head : (x : String) (ys : List String) → contains x (x ∷ ys) ≡ true
unfolding contains
contains_head x ys = ground (arith, eq_refl x)

pub contains_tail :
    (x y : String) (ys : List String) → contains x ys ≡ true → contains x (y ∷ ys) ≡ true
unfolding contains
contains_tail x y ys h = ground arith

pub contains-cons_cases :
    (x y : String) (ys : List String)
    → contains x (y ∷ ys) ≡ true
    → (y ≡ x) ⊎ (contains x ys ≡ true)
unfolding contains
contains-cons_cases x y ys h = elim (Bool-cases (y == x)) [
  | inl same ↦ inl ((eq_iff y x).0 same)
  | inr other ↦ inr (ground arith)
]

pub contains_single : (x y : String) → contains x (y ∷ []) ≡ true → y ≡ x
unfolding contains
contains_single x y h = ground (arith, eq_iff y x)

pub contains_last : (x : String) (ys : List String) → contains x (ys ++ x ∷ []) ≡ true
contains_last x ys = ground (arith, contains-append x ys (x ∷ []), contains_head x [])

pub contains-nil {ℓ} : {A : Type ℓ} (x : String) → contains x [] ≡ true → A
unfolding contains
contains-nil x h = cc

pub contains_middle : (x : String) (xs ys : List String) → contains x (xs ++ x ∷ ys) ≡ true
contains_middle x xs ys = ground (arith, contains-append x xs (x ∷ ys), contains_head x ys)

-- `==` of two `Vec<String>`
unfoldable pub texts_eq : List String → List String → Bool
texts_eq [] [] = true
texts_eq (x ∷ xs) (y ∷ ys) = x == y && texts_eq xs ys
texts_eq _ _ = false
