-- ===== src/Json/Laws.antt =====
-- Equations of `get`, `has_key`, `insert` and `==`, and objects whose keys are distinct.
use attow_nexus.Prelude.{
  String, ◌≡◌, refl, ap, ◌↔◌, true, false, ◌&&◌, none, some, ◌==◌, eq_iff, eq_refl, if◌then◌else◌,
  arith, &&-parts,
}
use attow_nexus.Json.{
  Number, pos_int, neg_int, float, number_eq, Value, Items, Fields, null, bool, number, string,
  array, object, nil, cons, end, field, get, has_key, insert, value_eq, items_eq, fields_eq,
}

pub get-insert :
    (k j : String) (v : Value) (fs : Fields)
    → get j (insert k v fs) ≡ (if k == j then some v else get j fs)
unfolding get insert
get-insert k j v end = ground (arith, eq_iff k j)
get-insert k j v (field i w fs) =
    ground (arith, eq_iff k j, eq_iff i j, eq_iff k i, get-insert k j v fs)

pub has_key-get :
    (k : String) (fs : Fields) → has_key k fs ≡ elim (get k fs) [ none ↦ false | some v ↦ true ]
unfolding get has_key
has_key-get k end = refl
has_key-get k (field j v fs) = ground (arith, has_key-get k fs)

number_eq_refl : (n : Number) → number_eq n n ≡ true
number_eq_refl (pos_int a) = ground arith
number_eq_refl (neg_int a) = ground arith
number_eq_refl (float a) = ground arith

number_eq_sound : (m n : Number) → number_eq m n ≡ true → m ≡ n
number_eq_sound (pos_int a) (pos_int b) h = ground arith
number_eq_sound (neg_int a) (neg_int b) h = ground arith
number_eq_sound (float a) (float b) h = ground arith
number_eq_sound _ _ h = cc

mutual
  unfolding value_eq items_eq fields_eq

  value_eq_refl : (v : Value) → value_eq v v ≡ true
  value_eq_refl null = refl
  value_eq_refl (bool true) = refl
  value_eq_refl (bool false) = refl
  value_eq_refl (number n) = number_eq_refl n
  value_eq_refl (string s) = eq_refl s
  value_eq_refl (array xs) = items_eq_refl xs
  value_eq_refl (object fs) = fields_eq_refl fs

  items_eq_refl : (xs : Items) → items_eq xs xs ≡ true
  items_eq_refl nil = refl
  items_eq_refl (cons x xs) = ground (arith, value_eq_refl x, items_eq_refl xs)

  fields_eq_refl : (fs : Fields) → fields_eq fs fs ≡ true
  fields_eq_refl end = refl
  fields_eq_refl (field k v fs) = ground (arith, eq_refl k, value_eq_refl v, fields_eq_refl fs)

mutual
  unfolding value_eq items_eq fields_eq

  value_eq_sound : (v w : Value) → value_eq v w ≡ true → v ≡ w
  value_eq_sound null null h = refl
  value_eq_sound (bool true) (bool true) h = refl
  value_eq_sound (bool false) (bool false) h = refl
  value_eq_sound (number a) (number b) h = ap number (number_eq_sound a b h)
  value_eq_sound (string a) (string b) h = ap string ((eq_iff a b).0 h)
  value_eq_sound (array a) (array b) h = ap array (items_eq_sound a b h)
  value_eq_sound (object a) (object b) h = ap object (fields_eq_sound a b h)
  value_eq_sound _ _ h = cc

  items_eq_sound : (xs ys : Items) → items_eq xs ys ≡ true → xs ≡ ys
  items_eq_sound nil nil h = refl
  items_eq_sound (cons x xs) (cons y ys) h =
      let (first, rest) = &&-parts (value_eq x y) (items_eq xs ys) h in
      λ i. cons (value_eq_sound x y first i) (items_eq_sound xs ys rest i)
  items_eq_sound _ _ h = cc

  fields_eq_sound : (fs gs : Fields) → fields_eq fs gs ≡ true → fs ≡ gs
  fields_eq_sound end end h = refl
  fields_eq_sound (field j a fs) (field k b gs) h =
      let (keys, others) = &&-parts (j == k) (value_eq a b && fields_eq fs gs) h in
      let (values, rest) = &&-parts (value_eq a b) (fields_eq fs gs) others in
      λ i.
        field ((eq_iff j k).0 keys i) (value_eq_sound a b values i) (fields_eq_sound fs gs rest i)
  fields_eq_sound _ _ h = cc

-- `==` on values is equality.
pub value_eq_iff : (v w : Value) → (value_eq v w ≡ true) ↔ (v ≡ w)
value_eq_iff v w = (value_eq_sound v w, λ e. rw e (value_eq_refl w))
