-- ===== src/Tests/Codec.antt =====
-- An encoding of commits for the examples: the id and the parents, each text ended by a zero.
use Prim.Native.Nat.{Ordering, compare}
use Prim.Native.Char.{Char, char, code, nul, IsLt, IsScalar}
use text.Mathlib.TextEquality.{Char-path}
use attow_nexus.Prelude.{ℕ, zero, suc, String, ◌≡◌, refl, List, [], ◌∷◌, ◌++◌, Option, none, some}
use attow_nexus.Platform.{Platform}
use attow_nexus.Proto.{Commit}
use attow_nexus.Ledger.Replay.Written.{IsParentCodec}
use attow_nexus.Tests.Data.{platform, commit_of}

abbrev Both : Ordering → Ordering → Type 0
Both Ordering.lt o = IsLt o
Both Ordering.eq _ = ⊥
Both Ordering.gt _ = ⊥

-- `IsScalar` by its three comparisons
abbrev Scalar : Ordering → Ordering → Ordering → Type 0
Scalar Ordering.lt _ _ = Unit
Scalar Ordering.eq o p = Both o p
Scalar Ordering.gt o p = Both o p

IsLt-dec : (o : Ordering) → Dec (IsLt o)
IsLt-dec Ordering.lt = yes tt
IsLt-dec Ordering.eq = no (λ h. h)
IsLt-dec Ordering.gt = no (λ h. h)

both_dec : (o p : Ordering) → Dec (Both o p)
both_dec Ordering.lt p = IsLt-dec p
both_dec Ordering.eq p = no (λ h. h)
both_dec Ordering.gt p = no (λ h. h)

scalar_dec : (o p q : Ordering) → Dec (Scalar o p q)
scalar_dec Ordering.lt p q = yes tt
scalar_dec Ordering.eq p q = both_dec p q
scalar_dec Ordering.gt p q = both_dec p q

from_dec : (n : ℕ) → Dec (IsScalar n) → Char
from_dec n (yes h) = char n h
from_dec n (no _) = nul

of_code : ℕ → Char
of_code n = from_dec n (scalar_dec (compare n 55296) (compare 57343 n) (compare n 1114112))

of_code-code : (c : Char) → of_code (code c) ≡ c
unfolding of_code from_dec
of_code-code (char n h) = go (scalar_dec (compare n 55296) (compare 57343 n) (compare n 1114112))
  where
    go : (d : Dec (IsScalar n)) → from_dec n d ≡ char n h
    go (yes h') = Char-path (char n h') (char n h) refl
    go (no other) = absurd (other h)

write_text : String → List ℕ
write_text String.[] = zero ∷ []
write_text (String.◌∷◌ c s) = suc (code c) ∷ write_text s

write_texts : List String → List ℕ
write_texts [] = []
write_texts (s ∷ rest) = write_text s ++ write_texts rest

push : Char → List String → List String
push c [] = []
push c (s ∷ rest) = String.◌∷◌ c s ∷ rest

read_texts : List ℕ → List String
read_texts [] = []
read_texts (zero ∷ bytes) = "" ∷ read_texts bytes
read_texts (suc n ∷ bytes) = push (of_code n) (read_texts bytes)

read-write_text :
    (s : String) (bytes : List ℕ) → read_texts (write_text s ++ bytes) ≡ s ∷ read_texts bytes
unfolding read_texts write_text push
read-write_text String.[] bytes = refl
read-write_text (String.◌∷◌ c s) bytes = rw (read-write_text s bytes, of_code-code c) refl

read-write_texts : (l : List String) → read_texts (write_texts l) ≡ l
unfolding read_texts write_texts
read-write_texts [] = refl
read-write_texts (s ∷ rest) = rw (read-write_text s (write_texts rest), read-write_texts rest) refl

commit_named : List String → Option Commit
commit_named [] = none
commit_named (id ∷ parents) = some (commit_of id parents)

pub encode : Commit → List ℕ
encode c = write_texts (c.commit_id ∷ c.parent_commit_ids)

pub decode : List ℕ → Option Commit
decode bytes = commit_named (read_texts bytes)

pub decode-encode :
    (c : Commit) → decode (encode c) ≡ some (commit_of c.commit_id c.parent_commit_ids)
unfolding decode encode commit_named
decode-encode c = rw (read-write_texts (c.commit_id ∷ c.parent_commit_ids)) refl

abbrev pub encoder : Platform
encoder = record platform { encode_commit = encode; decode_commit = decode }

pub encoder-IsParentCodec : IsParentCodec encoder
encoder-IsParentCodec = record {
  keeps = λ c. (commit_of c.commit_id c.parent_commit_ids, decode-encode c, refl, refl);
}
