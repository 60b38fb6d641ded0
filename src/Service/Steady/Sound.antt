-- ===== src/Service/Steady/Sound.antt =====
-- On the store and the graph together: the history that both hold, over every run.
use attow_nexus.Prelude.{
  String, ◌≡◌, refl, sym, ◌∙◌, ap, subst, ◌↔◌, Bool, true, false, List, [], ◌==◌, eq_iff,
  if◌then◌else◌, contains, lookup, contains_key, Assoc, ok,
}
use attow_nexus.Platform.{Platform}
use attow_nexus.Proto.{Commit}
use attow_nexus.Dag.{DagIndex, parents_of, append}
use attow_nexus.Dag.Walk.{Reach, here, step, parents_of-insert}
use attow_nexus.Dag.Append.{IsWellFormed, append-IsWellFormed, append-eq-ok}
use attow_nexus.Ledger.Store.Calls.{write_commit}
use attow_nexus.Ledger.Store.Laws.{IsReadable}
use attow_nexus.Ledger.Replay.History.{IsHistory, graph}
use attow_nexus.Ledger.Replay.Written.{
  row_parents, IsParentCodec, parents_of-graph, written_row, written_decodes,
}
use attow_nexus.Service.State.{App}
use attow_nexus.Service.Commits.Persist.{IsInSync}
use attow_nexus.Service.Steady.{IsHealthy, Step, kept, added, Step-IsHealthy}

Reach-same :
    {m n : Assoc (List String)} {t x : String}
    → ((id : String) → parents_of m id ≡ parents_of n id)
    → Reach m t x
    → Reach n t x
Reach-same same here = here
Reach-same {t} same (step {x} {y} e w) =
    step (ap (contains y) (sym (same x)) ∙ e) (Reach-same same w)

module _ (p : Platform) {Chan : Type 0} where
  -- The store can be read, the graph is acyclic and closed under parents, and both hold the same
  -- commits with the same parents.
  pub record IsSound (s : App Chan) : Type 0 where
    pub readable : IsReadable p s.store
    pub sync : IsInSync s
    pub formed : IsWellFormed s.dag
    pub agree :
        (id : String) → parents_of s.dag.parents id ≡ row_parents p (lookup id s.store.commits)

  -- No commit that the graph holds gets other parents, which would take two contents with one hash.
  abbrev pub IsFaithful : App Chan → App Chan → Type 0
  IsFaithful s t =
      (id : String)
      → contains_key id s.dag.parents ≡ true
      → parents_of t.dag.parents id ≡ parents_of s.dag.parents id

  stored_parents :
      (s : App Chan)
      → IsSound s
      → (id : String) → parents_of s.dag.parents id ≡ parents_of (graph p s.store.commits) id
  stored_parents s sound id = sound.agree id ∙ sym (parents_of-graph p s.store.commits id)

  -- walks in the rows are walks in the graph
  pub Reach-stored :
      (s : App Chan)
      → IsSound s
      → (t x : String) → Reach (graph p s.store.commits) t x ↔ Reach s.dag.parents t x
  Reach-stored s sound t x =
      (Reach-same (λ id. sym (stored_parents s sound id)), Reach-same (stored_parents s sound))

  pub IsSound-IsHistory : (s : App Chan) → IsSound s → IsHistory p s.store
  IsSound-IsHistory s sound = record {
    readable = sound.readable;
    acyclic = record {
      no_cycle = λ x y e w.
          sound.formed.acyclic.no_cycle x y (ap (contains y) (stored_parents s sound x) ∙ e)
            ((Reach-stored s sound x y).0 w);
    };
    known = λ x y e.
        sym (sound.sync y)
        ∙ sound.formed.known x y (ap (contains y) (stored_parents s sound x) ∙ e);
  }

  keep_IsSound :
      (s t : App Chan)
      → t.store.faults ≡ []
      → t.store.commits ≡ s.store.commits
      → t.dag ≡ s.dag
      → IsSound s
      → IsHealthy t
      → IsSound t
  keep_IsSound s t healthy table graph sound in_sync = record {
    readable = record {
      no_faults = healthy;
      decodes = λ id row found. sound.readable.decodes id row (ap (lookup id) (sym table) ∙ found);
    };
    sync = in_sync.1;
    formed = subst (λ d. IsWellFormed d) (sym graph) sound.formed;
    agree = λ id.
        ap (λ d. parents_of d.parents id) graph
        ∙ sound.agree id
        ∙ ap (λ rows. row_parents p (lookup id rows)) (sym table);
  }

  module _ (codec : IsParentCodec p) where
    add_agrees :
        (s t : App Chan) (c : Commit) (dag : DagIndex)
        → append c.commit_id c.parent_commit_ids s.dag ≡ ok dag
        → t.dag ≡ dag
        → t.store.commits ≡ (write_commit p c s.store).commits
        → IsFaithful s t
        → IsSound s
        → (id : String) → parents_of t.dag.parents id ≡ row_parents p (lookup id t.store.commits)
    add_agrees s t c dag accepted graph table faithful sound id =
        by_test (contains_key c.commit_id s.store.commits) refl (c.commit_id == id) refl
      where
        -- the graph after the commit
        now :
            parents_of t.dag.parents id
            ≡ (if c.commit_id == id then c.parent_commit_ids else parents_of s.dag.parents id)
        now =
            let (_, parents, _, _, _) =
              append-eq-ok c.commit_id c.parent_commit_ids s.dag dag accepted in
            ap (λ d. parents_of d.parents id) graph
            ∙ ap (λ m. parents_of m id) parents
            ∙ parents_of-insert s.dag.parents c.commit_id id c.parent_commit_ids

        by_test :
            (taken : Bool)
            → contains_key c.commit_id s.store.commits ≡ taken
            → (same : Bool) → (c.commit_id == id) ≡ same
            → parents_of t.dag.parents id ≡ row_parents p (lookup id t.store.commits)
        by_test true e true same =
            faithful id (
              ap (λ i. contains_key i s.dag.parents) (sym ((eq_iff c.commit_id id).0 same))
              ∙ sound.sync c.commit_id
              ∙ e)
            ∙ sound.agree id
            ∙ sym (written_row p codec c s.store id true e)
            ∙ ap (λ rows. row_parents p (lookup id rows)) (sym table)
        by_test true e false other =
            now
            ∙ rw other (sound.agree id)
            ∙ sym (written_row p codec c s.store id true e)
            ∙ ap (λ rows. row_parents p (lookup id rows)) (sym table)
        by_test false e same which =
            now
            ∙ rw (sound.agree id) refl
            ∙ sym (written_row p codec c s.store id false e)
            ∙ ap (λ rows. row_parents p (lookup id rows)) (sym table)

    pub Step-IsSound : (s t : App Chan) → Step p s t → IsFaithful s t → IsSound s → IsSound t
    Step-IsSound s t (kept (healthy, table, graph)) faithful sound =
        keep_IsSound s t healthy table graph sound (
          Step-IsHealthy p s t (kept (healthy, table, graph))
            (sound.readable.no_faults, sound.sync))
    Step-IsSound s t (added c dag accepted graph table healthy) faithful sound = record {
      readable = record {
        no_faults = healthy;
        decodes = λ id row found.
            written_decodes p codec c s.store id row sound.readable
              (ap (lookup id) (sym table) ∙ found);
      };
      sync =
          (Step-IsHealthy p s t (added c dag accepted graph table healthy)
            (sound.readable.no_faults, sound.sync)).1;
      formed =
          subst (λ d. IsWellFormed d) (sym graph)
            (append-IsWellFormed c.commit_id c.parent_commit_ids s.dag dag sound.formed accepted);
      agree = add_agrees s t c dag accepted graph table faithful sound;
    }
