-- ===== src/Ledger/Store/Listing.antt =====
-- On `list_commits` of daemon/src/ledger/sqlite_store.rs: which commits it lists.
use attow_nexus.Prelude.{
  String, Bool, ◌≡◌, refl, sym, ◌∙◌, ap, inl, inr, true, false, ◌&&◌, Option, none, some, List, [],
  ◌∷◌, ◌==◌, eq_iff, contains, filter, lookup, contains_key, contains_key-eq-true, sort, ok, arith,
  Bool-cases, if◌then◌else◌,
}
use attow_nexus.Platform.{Platform}
use attow_nexus.Proto.{Commit}
use attow_nexus.Ledger.Replay.History.{ids, IsUnique}
use attow_nexus.Ledger.Store.Rows.{CommitRow, Store, commit_before}
use attow_nexus.Ledger.Store.Calls.{decode_row, decode_rows, selects, list_commits}
use attow_nexus.Ledger.Store.Laws.{IsReadable, disk_healthy, view}
use attow_nexus.Ledger.Store.EachRow.{
  names, contains-names, AllOf, AllOf-lookup, AllOf-sort, mem-sort,
}

-- each of the commits is the one held under its id
abbrev pub AreHeld : (String → Option Commit) → List Commit → Type 0
AreHeld held [] = Unit
AreHeld held (c ∷ cs) = (held c.commit_id ≡ some c) × AreHeld held cs

-- whether the test holds of the commit, if there is one
abbrev pub chosen : (Commit → Bool) → Option Commit → Bool
chosen test none = false
chosen test (some c) = test c

module _ (held : String → Option Commit) (test : Commit → Bool) where
  AreHeld-filter : (cs : List Commit) → AreHeld held cs → AreHeld held (filter test cs)
  AreHeld-filter [] a = tt
  AreHeld-filter (c ∷ cs) (a, b) = elim (Bool-cases (test c)) [
    | inl on ↦ rw on (a, AreHeld-filter cs b)
    | inr off ↦ rw off (AreHeld-filter cs b)
  ]

  contains-filter :
      (cs : List Commit) (id : String)
      → AreHeld held cs
      → contains id (ids (filter test cs)) ≡ (contains id (ids cs) && chosen test (held id))
  unfolding contains
  contains-filter [] id a = refl
  contains-filter (c ∷ cs) id (a, b) =
      let rest = contains-filter cs id b in
      elim (Bool-cases (c.commit_id == id)) [
        | inl same ↦
            let found : held id ≡ some c = ap held (sym ((eq_iff c.commit_id id).0 same)) ∙ a in
            at_head (test c) refl same found rest
        | inr other ↦ elim (Bool-cases (test c)) [
          | inl on ↦ rw on (rw other rest)
          | inr off ↦ rw off (rw other rest)
        ]
      ]
    where
      at_head :
          (taken : Bool)
          → test c ≡ taken
          → (c.commit_id == id) ≡ true
          → held id ≡ some c
          → contains id (ids (filter test cs)) ≡ (contains id (ids cs) && chosen test (held id))
          → contains id (ids (if taken then c ∷ filter test cs else filter test cs))
            ≡ (contains id (ids (c ∷ cs)) && chosen test (held id))
      at_head true e same found rest = rw (same, found) (ground (arith, e))
      at_head false e same found rest = rw (rest, same, found) (ground (arith, e))

chosen_all :
    (f g h : Commit → Bool) (listed : Bool) (here : Option Commit)
    → ((c : Commit) → here ≡ some c → listed ≡ true)
    → (((listed && chosen f here) && chosen g here) && chosen h here)
      ≡ chosen (λ c. f c && (g c && h c)) here
chosen_all f g h listed none there = ground arith
chosen_all f g h listed (some c) there = rw (there c refl) (ground arith)

-- what the three filters ask of a commit
abbrev pub is_selected : Option String → Option String → Option String → Commit → Bool
is_selected run thread channel c =
    selects run c.run_id && (selects thread c.thread_id && selects channel c.channel)

module _ (p : Platform) where
  view_key :
      (s : Store) (id : String) (c : Commit)
      → view p s id ≡ some c
      → contains_key id s.commits ≡ true
  view_key s id c e = contains_key-eq-true id s.commits ∙ by_row (lookup id s.commits) e
    where
      by_row :
          (found : Option CommitRow)
          → (◌≡◌) {A = Option Commit}
              (elim found [ none ↦ none | some row ↦ p.decode_commit row.proto ])
              (some c)
          → elim found as (λ _. Bool) [ none ↦ false | some row ↦ true ] ≡ true
      by_row none h = cc
      by_row (some row) h = refl

  -- the row decodes, to the commit that is held under its key
  abbrev Decodes : (String → Option Commit) → String → CommitRow → Type 0
  Decodes held id row =
      (c : Commit) × (p.decode_commit row.proto ≡ some c) × (c.commit_id ≡ id) × (held id ≡ some c)

  decode_rows-AreHeld :
      (held : String → Option Commit) (rows : List (String × CommitRow))
      → AllOf (Decodes held) rows
      → (cs : List Commit) × (decode_rows p rows ≡ ok cs) × (ids cs ≡ names rows) × AreHeld held cs
  unfolding AllOf decode_rows decode_row
  decode_rows-AreHeld held [] a = ([], refl, refl, tt)
  decode_rows-AreHeld held ((id, row) ∷ rows) ((c, decoded, name, here), b) =
      let (cs, all, same, there) = decode_rows-AreHeld held rows b in
      (
        c ∷ cs,
        rw (decode_rows, decode_row, decoded, all) refl,
        rw (name, same) refl,
        (ap held name ∙ here, there),
      )

  -- On a readable store with unique keys, a listing succeeds and changes nothing. A commit id is listed
  -- exactly when the store holds a commit under it whose run, thread and channel are the ones
  -- asked for, where those are given; and the commits that are listed are those that the store holds.
  pub list_commits-view :
      (run thread channel : Option String) (s : Store)
      → IsReadable p s
      → IsUnique (names s.commits)
      → (cs : List Commit) × (list_commits p run thread channel s ≡ (ok cs, s))
        × AreHeld (view p s) cs
        × ((id : String)
            → contains id (ids cs) ≡ chosen (is_selected run thread channel) (view p s id))
  unfolding list_commits
  list_commits-view run thread channel s r u =
      let q : (id : String) (row : CommitRow)
          → lookup id s.commits ≡ some row
          → Decodes (view p s) id row =
        λ id row found.
          let (c, decoded, name) = r.decodes id row found in
          (c, decoded, name, rw (view, found) decoded) in
      let (cs, decoded, same, held) =
        decode_rows-AreHeld (view p s) (sort commit_before s.commits) (
          AllOf-sort (Decodes (view p s)) s.commits
            (AllOf-lookup (Decodes (view p s)) s.commits u q)) in
      let by_run = AreHeld-filter (view p s) (λ c. selects run c.run_id) cs held in
      let by_thread = AreHeld-filter (view p s) (λ c. selects thread c.thread_id) _ by_run in
      (
        filter (λ c. selects channel c.channel)
            (filter (λ c. selects thread c.thread_id) (filter (λ c. selects run c.run_id) cs)),
        rw (disk_healthy s r.no_faults, decoded) refl,
        AreHeld-filter (view p s) (λ c. selects channel c.channel) _ by_thread,
        λ id.
            contains-filter (view p s) (λ c. selects channel c.channel) _ id by_thread
            ∙ ap (λ x. x && chosen (λ c. selects channel c.channel) (view p s id))
                (contains-filter (view p s) (λ c. selects thread c.thread_id) _ id by_run)
            ∙ ap
                (λ x.
                  (x && chosen (λ c. selects thread c.thread_id) (view p s id))
                  && chosen (λ c. selects channel c.channel) (view p s id))
                (contains-filter (view p s) (λ c. selects run c.run_id) cs id held)
            ∙ chosen_all (λ c. selects run c.run_id) (λ c. selects thread c.thread_id)
                (λ c. selects channel c.channel) _ (view p s id)
                (λ c e.
                  rw same
                    (mem-sort s.commits id ∙ contains-names id s.commits ∙ view_key s id c e)),
      )
