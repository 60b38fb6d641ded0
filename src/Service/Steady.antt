-- ===== src/Service/Steady.antt =====
-- On the operations of `AppState` in daemon/src/grpc/service.rs together: the graph and the store.
pub mod Parts
pub mod Reads
pub mod Writes
pub mod Reached
pub mod Sound
pub mod History
use attow_nexus.Prelude.Exec.{Exec, ◌>>=◌, ◌>>◌, pure, continue}
use attow_nexus.Prelude.{
  String, ◌≡◌, refl, sym, ◌∙◌, ap, List, [], Result, ok, err, contains_key, Bool, true, false,
  if◌then◌else◌, ◌||◌, ◌==◌,
}
use attow_nexus.Platform.{Platform}
use attow_nexus.Proto.{Commit}
use attow_nexus.Dag.{DagIndex, append}
use attow_nexus.Dag.Startup.{contains_key-append}
use attow_nexus.Ledger.Store.Rows
use attow_nexus.Ledger.Store.{insert_or_ignore}
use attow_nexus.Ledger.Store.Steady.{IsSteady}
use attow_nexus.Ledger.Store.Calls.{commit_row, write_commit}
use attow_nexus.Service.State.{App, on_store}
use attow_nexus.Service.Commits.Persist.{IsInSync, contains_key-write_commit}

module _ {Chan : Type 0} where
  -- no call of the database fails, and the graph is in step with the store
  abbrev pub IsHealthy : App Chan → Type 0
  IsHealthy s = (s.store.faults ≡ []) × IsInSync s

  -- still no call fails, and the graph and the table of commits are the same
  abbrev pub IsSame : App Chan → App Chan → Type 0
  IsSame s t = (t.store.faults ≡ []) × (t.store.commits ≡ s.store.commits) × (t.dag ≡ s.dag)

  pub IsSame-trans : (s t u : App Chan) → IsSame s t → IsSame t u → IsSame s u
  IsSame-trans s t u (_, commits, dag) (healthy, commits', dag') =
      (healthy, commits' ∙ commits, dag' ∙ dag)

  -- a method that leaves both as they are
  abbrev pub IsQuiet : {R : Type 0} → (App Chan → R × App Chan) → Type 0
  IsQuiet m = (s : App Chan) → s.store.faults ≡ [] → IsSame s (m s).1

  pub IsQuiet-continue :
      {A B : Type 0} (r : Result A) (f : A → Exec (App Chan) B) (s t : App Chan)
      → IsSame s t
      → ((a : A) → IsQuiet (f a))
      → IsSame s (continue r f t).1
  IsQuiet-continue (ok a) f s t first second = IsSame-trans s t (f a t).1 first (second a t first.0)
  IsQuiet-continue (err e) f s t first second = first

  pub IsQuiet-bind :
      {A B : Type 0} (m : Exec (App Chan) A) (f : A → Exec (App Chan) B)
      → IsQuiet m
      → ((a : A) → IsQuiet (f a))
      → IsQuiet (m >>= f)
  IsQuiet-bind m f first second s h = IsQuiet-continue (m s).0 f s (m s).1 (first s h) second

  pub IsQuiet-if :
      {A : Type 0} (b : Bool) (m n : Exec (App Chan) A)
      → IsQuiet m
      → IsQuiet n
      → IsQuiet (if b then m else n)
  IsQuiet-if true m n left right s h = left s h
  IsQuiet-if false m n left right s h = right s h

  pub IsSame-if :
      {A : Type 0} (b : Bool) (s : App Chan) (x y : Result A × App Chan)
      → IsSame s x.1
      → IsSame s y.1
      → IsSame s (if b then x else y).1
  IsSame-if true s x y left right = left
  IsSame-if false s x y left right = right

  pub IsQuiet-on_store : {A : Type 0} (m : Exec Rows.Store A) → IsSteady m → IsQuiet (on_store m)
  IsQuiet-on_store m steady s h = let (h', same) = steady s.store h in (h', same, refl)

module _ (p : Platform) {Chan : Type 0} where
  -- What a request may do to the graph and the table of commits: nothing, or append one commit to
  -- the one and write it to the other.
  pub data Step (s t : App Chan) : Type 0 where
    kept : IsSame s t → Step s t
    added :
        (c : Commit) (dag : DagIndex)
        → append c.commit_id c.parent_commit_ids s.dag ≡ ok dag
        → t.dag ≡ dag
        → t.store.commits ≡ (write_commit p c s.store).commits
        → t.store.faults ≡ []
        → Step s t

  abbrev pub IsStep : {R : Type 0} → (App Chan → R × App Chan) → Type 0
  IsStep m = (s : App Chan) → s.store.faults ≡ [] → Step s (m s).1

  pub Step-healthy : (s t : App Chan) → Step s t → t.store.faults ≡ []
  Step-healthy s t (kept same) = same.0
  Step-healthy s t (added c dag accepted graph table healthy) = healthy

  pub Step-then : (s t u : App Chan) → Step s t → IsSame t u → Step s u
  Step-then s t u (kept same) after = kept (IsSame-trans s t u same after)
  Step-then s t u (added c dag accepted graph table healthy) (healthy', table', graph') =
      added c dag accepted (graph' ∙ graph) (table' ∙ table) healthy'

  pub same-Step : (s t u : App Chan) → IsSame s t → Step t u → Step s u
  unfolding write_commit
  same-Step s t u before (kept after) = kept (IsSame-trans s t u before after)
  same-Step s t u (_, table', graph') (added c dag accepted graph table healthy) =
      added c dag (ap (append c.commit_id c.parent_commit_ids) (sym graph') ∙ accepted) graph
        (table ∙ ap (insert_or_ignore c.commit_id (commit_row p c)) table') healthy

  pub Step-continue :
      {A B : Type 0} (r : Result A) (f : A → Exec (App Chan) B) (s t : App Chan)
      → IsSame s t
      → ((a : A) → IsStep (f a))
      → Step s (continue r f t).1
  Step-continue (ok a) f s t first second = same-Step s t (f a t).1 first (second a t first.0)
  Step-continue (err e) f s t first second = kept first

  Step-continue_quiet :
      {A B : Type 0} (r : Result A) (f : A → Exec (App Chan) B) (s t : App Chan)
      → Step s t
      → ((a : A) → IsQuiet (f a))
      → Step s (continue r f t).1
  Step-continue_quiet (ok a) f s t first second =
      Step-then s t (f a t).1 first (second a t (Step-healthy s t first))
  Step-continue_quiet (err e) f s t first second = first

  pub IsStep-after :
      {A B : Type 0} (m : Exec (App Chan) A) (f : A → Exec (App Chan) B)
      → IsQuiet m
      → ((a : A) → IsStep (f a))
      → IsStep (m >>= f)
  IsStep-after m f first second s h = Step-continue (m s).0 f s (m s).1 (first s h) second

  pub IsStep-before :
      {A B : Type 0} (m : Exec (App Chan) A) (f : A → Exec (App Chan) B)
      → IsStep m
      → ((a : A) → IsQuiet (f a))
      → IsStep (m >>= f)
  IsStep-before m f first second s h = Step-continue_quiet (m s).0 f s (m s).1 (first s h) second

  pub IsStep-if :
      {A : Type 0} (b : Bool) (m n : Exec (App Chan) A)
      → IsStep m
      → IsStep n
      → IsStep (if b then m else n)
  IsStep-if true m n left right s h = left s h
  IsStep-if false m n left right s h = right s h

  pub IsQuiet-IsStep : {R : Type 0} (m : App Chan → R × App Chan) → IsQuiet m → IsStep m
  IsQuiet-IsStep m quiet s h = kept (quiet s h)

  -- what is in step stays in step
  pub Step-IsHealthy : (s t : App Chan) → Step s t → IsHealthy s → IsHealthy t
  Step-IsHealthy s t (kept (healthy, table, graph)) (_, sync) = (
    healthy,
    λ id. ap (λ d. contains_key id d.parents) graph ∙ sync id ∙ ap (contains_key id) (sym table),
  )
  Step-IsHealthy s t (added c dag accepted graph table healthy) (_, sync) = (
    healthy,
    λ id.
        ap (λ d. contains_key id d.parents) graph
        ∙ contains_key-append c.commit_id id c.parent_commit_ids s.dag dag accepted
        ∙ ap (λ b. c.commit_id == id || b) (sync id)
        ∙ sym (contains_key-write_commit p c id s.store)
        ∙ ap (contains_key id) (sym table),
  )
