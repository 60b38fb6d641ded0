-- ===== src/Tests/Comparing.antt =====
-- An example of a comparison of two commits.
use attow_nexus.Prelude.{◌≡◌, ◌↔◌, refl, ap, subst, false, none, some, List, [], ◌∷◌, ℕ}
use attow_nexus.Platform.{Platform}
use attow_nexus.Json.{Value, null, string, object, field, end}
use attow_nexus.Json.Order.{IsOrdered, AreOrdered}
use attow_nexus.Proto.{Payload, Commit}
use attow_nexus.Ledger.Diff.{diff_commits}
use attow_nexus.Ledger.Diff.Alike.{IsOrdering, IsAlike, diff_commits-IsAlike}
use attow_nexus.Tests.Data.{platform, commit_of}

-- an object for a text, and null for the empty one
abbrev parsed : List ℕ → Value
parsed [] = null
parsed (b ∷ bytes) = object (field "goal" (string "read") (field "plan" null end))

-- the platform of the examples, with this parser
abbrev parser : Platform
parser = record platform { from_slice = λ bytes. some (parsed bytes) }

parsed-IsOrdered : (bytes : List ℕ) → IsOrdered (parsed bytes)
unfolding IsOrdered AreOrdered
parsed-IsOrdered [] = tt
parsed-IsOrdered (b ∷ bytes) = ((refl, tt), tt, (tt, tt, tt))

parser-IsOrdering : IsOrdering parser
parser-IsOrdering = record {
  ordered = λ bytes v e.
      subst IsOrdered (ap (λ found. elim found [ some w ↦ w | none ↦ null ]) e)
        (parsed-IsOrdered bytes);
}

abbrev planned : Payload
planned = record {
  encoding = 2;
  content = b'{' ∷ [];
  struct_data = none;
  size_bytes = 1;
  content_hash = "hash";
  compressed = false;
  artifact_ref = "";
}

abbrev first : Commit
first = record (commit_of "a" []) { state_delta = some planned; tags = "plan" ∷ [] }

abbrev second : Commit
second = record (commit_of "b" ("a" ∷ [])) { state_delta = some planned; summary = "done" }

diff_commits-IsAlike_example :
    ((diff_commits parser first second).entries ≡ []) ↔ IsAlike parser first second
diff_commits-IsAlike_example = diff_commits-IsAlike parser first second parser-IsOrdering
