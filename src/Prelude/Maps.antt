-- ===== src/Prelude/Maps.antt =====
-- `HashMap<String, V>` as an association list: the order of the entries stands for the order in
-- which the map is iterated, which the language leaves open.
use Prim.Native.String.{String}
use mathlib.Core.Path.{◌≡◌, refl}
use mathlib.Core.Bool.{Bool, true, false}
use mathlib.Core.Option.{Option, none, some}
use mathlib.Core.Option
use mathlib.Core.List.{List, [], ◌∷◌, map}
use native.Mathlib.Omega.{arith}
use text.Mathlib.Text.{◌==◌}
use text.Mathlib.TextEquality.{eq_iff}
use attow_nexus.Prelude.Tests.{if◌then◌else◌}

abbrev pub Assoc {ℓ} : Type ℓ → Type ℓ
Assoc V = List (String × V)

module _ {ℓ} {V : Type ℓ} where
  abbrev pub keys : Assoc V → List String
  keys = map (λ e. e.0)

  -- `get`
  unfoldable pub lookup : String → Assoc V → Option V
  lookup k [] = none
  lookup k ((j, v) ∷ m) = if j == k then some v else lookup k m

  unfoldable pub contains_key : String → Assoc V → Bool
  contains_key k [] = false
  contains_key k ((j, v) ∷ m) = if j == k then true else contains_key k m

  -- `insert`: the value of a present key is replaced
  unfoldable pub insert : String → V → Assoc V → Assoc V
  insert key v [] = (key, v) ∷ []
  insert key v ((j, w) ∷ rest) = if j == key then (key, v) ∷ rest else (j, w) ∷ insert key v rest

  unfoldable pub remove : String → Assoc V → Assoc V
  remove k [] = []
  remove k ((j, w) ∷ m) = let rest = remove k m in if j == k then rest else (j, w) ∷ rest

  -- `if let Some(v) = get_mut(k) { *v = f(v) }`
  unfoldable pub update : String → (V → V) → Assoc V → Assoc V
  update k f [] = []
  update k f ((j, w) ∷ m) = if j == k then (j, f w) ∷ m else (j, w) ∷ update k f m

  pub lookup-insert :
      (key asked : String) (v : V) (m : Assoc V)
      → lookup asked (insert key v m) ≡ (if key == asked then some v else lookup asked m)
  unfolding lookup insert
  lookup-insert key asked v [] = refl
  lookup-insert key asked v ((i, w) ∷ m) =
      ground (arith, lookup-insert key asked v m, eq_iff key asked, eq_iff i asked, eq_iff i key)

  pub lookup-remove :
      (k j : String) (m : Assoc V) → lookup j (remove k m) ≡ (if k == j then none else lookup j m)
  unfolding lookup remove
  lookup-remove k j [] = ground arith
  lookup-remove k j ((i, w) ∷ m) =
      ground (arith, eq_iff k j, eq_iff i k, eq_iff i j, lookup-remove k j m)

  pub lookup-update :
      (k j : String) (f : V → V) (m : Assoc V)
      → lookup j (update k f m) ≡ (if k == j then Option.map f (lookup j m) else lookup j m)
  unfolding lookup update
  lookup-update k j f [] = ground arith
  lookup-update k j f ((i, w) ∷ m) =
      ground (arith, eq_iff k j, eq_iff i k, eq_iff i j, lookup-update k j f m)

  pub contains_key-eq-true :
      (k : String) (m : Assoc V)
      → contains_key k m ≡ elim (lookup k m) [ none ↦ false | some v ↦ true ]
  unfolding lookup contains_key
  contains_key-eq-true k [] = refl
  contains_key-eq-true k ((i, w) ∷ m) = ground (arith, contains_key-eq-true k m)

-- `get(k).unwrap_or_default()` of a list
unfoldable pub or_nil {ℓ} : {A : Type ℓ} → Option (List A) → List A
or_nil none = []
or_nil (some xs) = xs

pub ruleset assoc_laws = (lookup-insert, lookup-remove, lookup-update)
