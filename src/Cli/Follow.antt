-- ===== src/Cli/Follow.antt =====
-- `subscribe` of cli/src/main.rs: one round of its loop.
pub mod Laws
use attow_nexus.Prelude.{ℕ, zero, suc, List, [], ◌∷◌, length}
use attow_nexus.Json.{Value, Items, array, nil, cons}

-- `iter().skip(n)`
unfoldable pub skip : {A : Type 0} → ℕ → List A → List A
skip zero xs = xs
skip (suc n) [] = []
skip (suc n) (x ∷ xs) = skip n xs

-- What is printed of the items, and how many have been seen.
unfoldable pub follow : {A : Type 0} → ℕ → List A → List A × ℕ
follow seen items = (skip seen items, length items)

list_of : Items → List Value
list_of nil = []
list_of (cons value items) = value ∷ list_of items

-- `if let Some(items) = value.as_array()`
pub poll : ℕ → Value → List Value × ℕ
unfolding list_of
poll seen (array items) = follow seen (list_of items)
poll seen _ = ([], seen)
