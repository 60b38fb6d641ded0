-- ===== src/Json.antt =====
-- JSON values as the daemon matches on them, and the operations on objects that it calls. An object
-- is a list of entries in the order of the keys, as `serde_json::Map` (a `BTreeMap` here) keeps it.
pub mod Laws
pub mod Order
use Prim.Native.Nat.{Ordering}
use Prim.Native.String.{compare}
use attow_nexus.Prelude.{
  ℕ, String, Bool, true, false, ◌&&◌, Option, none, some, ◌==◌, eqb, if◌then◌else◌, List, [], ◌∷◌,
}

-- A float stands for its value; the two zeros are one value, as they are under `==`.
pub data Number : Type 0 where
  pos_int : ℕ → Number
  neg_int : ℕ → Number
  float : ℕ → Number

mutual
  pub data Value : Type 0 where
    null : Value
    bool : Bool → Value
    number : Number → Value
    string : String → Value
    array : Items → Value
    object : Fields → Value

  pub data Items : Type 0 where
    nil : Items
    cons : Value → Items → Items

  pub data Fields : Type 0 where
    end : Fields
    field : String → Value → Fields → Fields

-- `map.get(key)`
unfoldable pub get : String → Fields → Option Value
get k end = none
get k (field j v fs) = if j == k then some v else get k fs

-- `map.contains_key(key)`
unfoldable pub has_key : String → Fields → Bool
has_key k end = false
has_key k (field j v fs) = if j == k then true else has_key k fs

-- `map.insert(key, value)`, at the key's place in the order
unfoldable pub insert : String → Value → Fields → Fields
insert k v end = field k v end
insert k v (field j w fs) = elim (compare k j) [
  | Ordering.lt ↦ field k v (field j w fs)
  | Ordering.eq ↦ field k v fs
  | Ordering.gt ↦ field j w (insert k v fs)
]

abbrev pub number_eq : Number → Number → Bool
number_eq (pos_int a) (pos_int b) = eqb a b
number_eq (neg_int a) (neg_int b) = eqb a b
number_eq (float a) (float b) = eqb a b
number_eq _ _ = false

abbrev pub bool_eq : Bool → Bool → Bool
bool_eq true b = b
bool_eq false true = false
bool_eq false false = true

-- `before == after`
unfoldable mutual
  pub value_eq : Value → Value → Bool
  value_eq null null = true
  value_eq (bool a) (bool b) = bool_eq a b
  value_eq (number a) (number b) = number_eq a b
  value_eq (string a) (string b) = a == b
  value_eq (array a) (array b) = items_eq a b
  value_eq (object a) (object b) = fields_eq a b
  value_eq _ _ = false

  pub items_eq : Items → Items → Bool
  items_eq nil nil = true
  items_eq (cons a as') (cons b bs) = value_eq a b && items_eq as' bs
  items_eq _ _ = false

  pub fields_eq : Fields → Fields → Bool
  fields_eq end end = true
  fields_eq (field j a fs) (field k b gs) = j == k && (value_eq a b && fields_eq fs gs)
  fields_eq _ _ = false

-- the `json!` macro on an object literal
abbrev pub json : List (String × Value) → Value
json fields = object (build fields)
  where
    build : List (String × Value) → Fields
    build [] = end
    build ((k, v) ∷ fs) = insert k v (build fs)
