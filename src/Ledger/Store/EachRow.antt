-- ===== src/Ledger/Store/EachRow.antt =====
-- On the rows of the table of commits of daemon/src/ledger/sqlite_store.rs, sorted as `list_commits` sorts them.
use attow_nexus.Prelude.{
  String, ◌≡◌, refl, sym, ◌∙◌, subst, inl, inr, true, false, ◌||◌, some, List, [], ◌∷◌, map, ◌==◌,
  eq_iff, eq_refl, contains, Assoc, lookup, contains_key, contains_key-eq-true, place, sort, arith,
  Bool-cases,
}
use mathlib.Core.Bool.{false≢true}
use attow_nexus.Ledger.Replay.History.{IsUnique}
use attow_nexus.Ledger.Store.Rows.{CommitRow, commit_before}

abbrev pub names : List (String × CommitRow) → List String
names = map (λ r. r.0)

pub contains-names :
    (id : String) (rows : Assoc CommitRow) → contains id (names rows) ≡ contains_key id rows
unfolding contains contains_key
contains-names id [] = refl
contains-names id ((j, row) ∷ rows) = ground (arith, contains-names id rows)

-- the predicate holds of each row with its key
unfoldable pub AllOf : (String → CommitRow → Type 0) → List (String × CommitRow) → Type 0
AllOf Q [] = Unit
AllOf Q ((id, row) ∷ rows) = Q id row × AllOf Q rows

module _ (Q : String → CommitRow → Type 0) where
  pub AllOf-lookup :
      (rows : Assoc CommitRow)
      → IsUnique (names rows)
      → ((id : String) (row : CommitRow) → lookup id rows ≡ some row → Q id row)
      → AllOf Q rows
  unfolding AllOf lookup
  AllOf-lookup [] u h = tt
  AllOf-lookup ((id, row) ∷ rows) (fresh, u) h = (
    h id row (rw (eq_refl id) refl),
    AllOf-lookup rows u (λ j r found. h j r (rw (apart j r found) found)),
  )
    where
      apart : (j : String) (r : CommitRow) → lookup j rows ≡ some r → (id == j) ≡ false
      apart j r found =
          let there : contains j (names rows) ≡ true =
            contains-names j rows ∙ (ground (arith, contains_key-eq-true j rows, found)) in
          elim (Bool-cases (id == j)) [
            | inl same ↦ absurd (
                false≢true (
                  sym fresh
                  ∙ subst (λ k. contains k (names rows) ≡ true) (sym ((eq_iff id j).0 same)) there))
            | inr other ↦ other
          ]

  AllOf-place :
      (r : String × CommitRow) (rows : List (String × CommitRow))
      → Q r.0 r.1
      → AllOf Q rows
      → AllOf Q (place commit_before r rows)
  unfolding AllOf place
  AllOf-place r [] a b = (a, tt)
  AllOf-place r (q ∷ rows) a b = elim (Bool-cases (commit_before r q)) [
    | inl before ↦ rw before (a, b)
    | inr after ↦ rw after (b.0, AllOf-place r rows a b.1)
  ]

  pub AllOf-sort :
      (rows : List (String × CommitRow)) → AllOf Q rows → AllOf Q (sort commit_before rows)
  unfolding AllOf sort
  AllOf-sort [] a = tt
  AllOf-sort (r ∷ rows) (a, b) = AllOf-place r (sort commit_before rows) a (AllOf-sort rows b)

mem-place :
    (r : String × CommitRow) (rows : List (String × CommitRow)) (id : String)
    → contains id (names (place commit_before r rows)) ≡ (r.0 == id || contains id (names rows))
unfolding place contains
mem-place r [] id = ground arith
mem-place r (q ∷ rows) id = elim (Bool-cases (commit_before r q)) [
  | inl before ↦ rw before (ground arith)
  | inr after ↦ rw after (ground (arith, mem-place r rows id))
]

pub mem-sort :
    (rows : List (String × CommitRow)) (id : String)
    → contains id (names (sort commit_before rows)) ≡ contains id (names rows)
unfolding sort contains
mem-sort [] id = refl
mem-sort (r ∷ rows) id =
    rw (mem-place r (sort commit_before rows) id, mem-sort rows id) (ground arith)
