-- ===== src/Ledger/Replay/Total.antt =====
-- On `replay` of daemon/src/ledger/replay.rs as a whole: the ancestry, its order and the result.
use attow_nexus.Prelude.{
  suc, String, ◌≡◌, refl, sym, ◌∙◌, ap, subst, ◌⊎◌, inl, inr, ◌↔◌, Bool, true, false, ◌&&◌, ◌||◌,
  not, List, [], ◌∷◌, ◌++◌, ◌==◌, eqb, eq_iff, length, contains, contains_head, contains-nil,
  contains_single, contains_key, ok, arith, Bool-cases, place, sort,
}
use mathlib.Core.List.{append-nil, append_assoc}
use attow_nexus.Platform.{Platform}
use attow_nexus.Proto.{Commit}
use attow_nexus.Proto.Messages.{ReplayRequest, ReplayResult}
use attow_nexus.Dag.Walk.{Reach}
use attow_nexus.Dag.Ancestry.{unseen-nil}
use attow_nexus.Ledger.Store.Rows.{Store}
use attow_nexus.Ledger.Replay.History.{ids, IsUnique, IsHistory, graph, length-graph}
use attow_nexus.Ledger.Replay.Gather.{Gathers, gather}
use attow_nexus.Ledger.Replay.{
  Replayed, nothing, ancestry_commits, replay_commit, replay_all, replay_before, replay_result,
  replay,
}

module _ (le : Commit → Commit → Bool) where
  mem-place :
      (c : Commit) (cs : List Commit) (x : String)
      → contains x (ids (place le c cs)) ≡ (c.commit_id == x || contains x (ids cs))
  unfolding place contains
  mem-place c [] x = ground arith
  mem-place c (d ∷ cs) x = elim (Bool-cases (le c d)) [
    | inl before ↦ rw before (ground arith)
    | inr after ↦ rw after (ground (arith, mem-place c cs x))
  ]

  mem-sort : (cs : List Commit) (x : String) → contains x (ids (sort le cs)) ≡ contains x (ids cs)
  unfolding sort contains
  mem-sort [] x = refl
  mem-sort (c ∷ cs) x = rw (mem-place c (sort le cs) x, mem-sort cs x) (ground arith)

  IsUnique-place :
      (c : Commit) (cs : List Commit)
      → contains c.commit_id (ids cs) ≡ false
      → IsUnique (ids cs)
      → IsUnique (ids (place le c cs))
  unfolding place contains
  IsUnique-place c [] new u = (refl, tt)
  IsUnique-place c (d ∷ cs) new (fresh, u) = elim (Bool-cases (le c d)) [
    | inl before ↦ rw before (new, (fresh, u))
    | inr after ↦ rw after (
      mem-place c cs d.commit_id
          ∙ ground (arith, eq_iff c.commit_id d.commit_id, eq_iff d.commit_id c.commit_id),
      IsUnique-place c cs (ground arith) u,
    )
  ]

  IsUnique-sort : (cs : List Commit) → IsUnique (ids cs) → IsUnique (ids (sort le cs))
  unfolding sort
  IsUnique-sort [] u = tt
  IsUnique-sort (c ∷ cs) (fresh, u) =
      IsUnique-place c (sort le cs) (mem-sort cs c.commit_id ∙ fresh) (IsUnique-sort cs u)

module _ (p : Platform) where
  provenance-replay_all :
      (r : Replayed) (cs : List Commit) → (replay_all p r cs).provenance ≡ r.provenance ++ ids cs
  unfolding replay_all replay_commit
  provenance-replay_all r [] = sym (append-nil r.provenance)
  provenance-replay_all r (c ∷ cs) =
      provenance-replay_all (replay_commit p r c) cs
      ∙ append_assoc r.provenance (c.commit_id ∷ []) (ids cs)

  -- the traversal of a stored ancestry returns
  ancestry_commits_ends :
      (s : Store) (id : String)
      → IsHistory p s
      → contains_key id s.commits ≡ true
      → (all : List Commit) × (ancestry_commits p id s ≡ (ok all, s))
        × Gathers (graph p s.commits) (id ∷ []) [] all
  unfolding ancestry_commits contains
  ancestry_commits_ends s id h stored =
      gather p s (suc (length s.commits)) [] id [] h stored refl
        (λ z on. absurd (contains-nil z on))
        (omega (arith, unseen-nil (graph p s.commits), length-graph p s.commits))

  -- On a store that can be read, with an acyclic parent graph that is closed under parents, a
  -- replay of a stored commit ends with a result, unless tools are to be executed again without
  -- confirmation. It changes nothing, and its provenance names the commit and its ancestors, each
  -- once, and nothing else.
  pub replay_total :
      (s : Store) (request : ReplayRequest)
      → IsHistory p s
      → contains_key request.commit_id s.commits ≡ true
      → (eqb request.mode 3 && not request.confirm_reexecute_tools) ≡ false
      → (result : ReplayResult) × (replay p request s ≡ (ok result, s))
        × ((x : String)
            → contains x result.provenance_commit_ids ≡ true
              ↔ Reach (graph p s.commits) x request.commit_id)
        × IsUnique result.provenance_commit_ids
  unfolding replay replay_result contains
  replay_total s request h stored allowed =
      let (all, done, g) = ancestry_commits_ends s request.commit_id h stored in
      let sorted = sort replay_before all in
      let names : (replay_all p nothing sorted).provenance ≡ ids sorted =
        provenance-replay_all nothing sorted in
      (
        replay_result p request (replay_all p nothing sorted),
        rw (allowed, done) refl,
        (λ x. (
          λ on.
              reached x
                (g.sound x (sym (mem-sort replay_before all x) ∙ ap (contains x) (sym names) ∙ on)),
          λ w.
              ap (contains x) names
              ∙ mem-sort replay_before all x
              ∙ g.complete x request.commit_id (contains_head request.commit_id []) w,
        )),
        rw names (IsUnique-sort replay_before all (g.unique tt)),
      )
    where
      reached :
          (x : String)
          → (contains x [] ≡ true)
            ⊎ ((y : String) × (contains y (request.commit_id ∷ []) ≡ true)
                × Reach (graph p s.commits) x y)
          → Reach (graph p s.commits) x request.commit_id
      reached x found = elim found [
        | inl none_yet ↦ absurd (contains-nil x none_yet)
        | inr (y, on, w) ↦
            subst (λ z. Reach (graph p s.commits) x z)
              (sym (contains_single y request.commit_id on)) w
      ]
