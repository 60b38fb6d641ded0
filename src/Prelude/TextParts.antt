-- ===== src/Prelude/TextParts.antt =====
-- What `contains` answers on a text that begins with a known one.
use Prim.Native.Char.{code}
use Prim.Native.String.{String, ◌++◌}
use mathlib.Core.Bool.{Bool, true, false, ◌&&◌}
use mathlib.Core.Option.{none}
use mathlib.Core.Path.{◌≡◌, refl, sym, ap, ◌∙◌}
use mathlib.Core.Logic.{inl, inr}
use native.Mathlib.Omega.{arith}
use text.Mathlib.TextLemmas.{nil-append, cons-append}
use attow_nexus.Prelude.Tests.{eqb, if◌then◌else◌, Bool-cases}
use attow_nexus.Prelude.Text.{strip_prefix, has_prefix, has_part}

-- the texts differ at a place that both have
abbrev pub differs : String → String → Bool
differs (String.◌∷◌ c p) (String.◌∷◌ d s) = if eqb (code c) (code d) then differs p s else true
differs _ _ = false

-- the part differs from all that begins inside the text
abbrev pub is_clear : String → String → Bool
is_clear part String.[] = true
is_clear part (String.◌∷◌ c s) = differs part (String.◌∷◌ c s) && is_clear part s

strip_prefix-differs : (p s t : String) → differs p s ≡ true → strip_prefix p (s ++ t) ≡ none
unfolding strip_prefix
strip_prefix-differs String.[] s t h = cc
strip_prefix-differs (String.◌∷◌ c p) String.[] t h = cc
strip_prefix-differs (String.◌∷◌ c p) (String.◌∷◌ d s) t h =
    rw (cons-append d s t) (elim (Bool-cases (eqb (code c) (code d))) [
      | inl same ↦ rw same (strip_prefix-differs p s t (ground (arith, h, same)))
      | inr other ↦ rw other refl
    ])

has_prefix-differs : (p s t : String) → differs p s ≡ true → has_prefix p (s ++ t) ≡ false
unfolding has_prefix
has_prefix-differs p s t h = rw (has_prefix, strip_prefix-differs p s t h) refl

pub has_part-append :
    (part s t : String) → is_clear part s ≡ true → has_part part (s ++ t) ≡ has_part part t
unfolding has_part
has_part-append part String.[] t h = ap (has_part part) (nil-append t)
has_part-append part (String.◌∷◌ c s) t h =
    let differ : differs part (String.◌∷◌ c s) ≡ true = ground (arith, h) in
    let rest : is_clear part s ≡ true = ground (arith, h) in
    let starts : has_prefix part (String.◌∷◌ c (s ++ t)) ≡ false =
      ap (has_prefix part) (sym (cons-append c s t))
      ∙ has_prefix-differs part (String.◌∷◌ c s) t differ in
    rw (cons-append c s t, starts) (has_part-append part s t rest)

pub has_part_of_prefix : (part s : String) → has_prefix part s ≡ true → has_part part s ≡ true
unfolding has_part
has_part_of_prefix part String.[] h = h
has_part_of_prefix part (String.◌∷◌ c s) h = rw h refl

pub append_append : (r s t : String) → (r ++ s) ++ t ≡ r ++ (s ++ t)
append_append String.[] s t = rw (nil-append s, nil-append (s ++ t)) refl
append_append (String.◌∷◌ c r) s t =
    rw (cons-append c r s, cons-append c (r ++ s) t, cons-append c r (s ++ t))
      (ap (String.◌∷◌ c) (append_append r s t))
