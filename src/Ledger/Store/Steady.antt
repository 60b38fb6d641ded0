-- ===== src/Ledger/Store/Steady.antt =====
-- The methods of the store that leave the table of commits as it is.
use attow_nexus.Prelude.Exec.{Exec, lift, ◌>>=◌, continue}
use attow_nexus.Prelude.{
  ℕ, String, ◌≡◌, refl, ◌∙◌, Bool, true, false, Option, none, some, List, [], ◌==◌, Result, ok, err,
  if◌then◌else◌, sort,
}
use attow_nexus.Platform.{Platform}
use attow_nexus.Proto.{LoopWarning, Commit}
use attow_nexus.Ledger.Store.{disk}
use attow_nexus.Ledger.Store.Rows
use attow_nexus.Ledger.Store.Rows.{Store, commit_before}
use attow_nexus.Ledger.Store.Laws.{disk_healthy}
use attow_nexus.Ledger.Store.Calls.{get_commit, decode_rows, list_commits}
use attow_nexus.Ledger.Store.Heads.{get_head, set_head, write_head, append_event, list_runs}
use attow_nexus.Ledger.Store.Artifacts.{
  maybe_compress, put_artifact, append_loop_warning, list_loop_warnings,
}

-- a method of the store that fails only by itself, and leaves the table of commits as it is
abbrev pub IsSteady : {A : Type 0} → Exec Rows.Store A → Type 0
IsSteady m =
    (s : Rows.Store) → s.faults ≡ [] → ((m s).1.faults ≡ []) × ((m s).1.commits ≡ s.commits)

module _ {A B : Type 0} where
  pub IsSteady-bind :
      (m : Exec Rows.Store A) (f : A → Exec Rows.Store B)
      → IsSteady m
      → ((a : A) → IsSteady (f a))
      → IsSteady (m >>= f)
  IsSteady-bind m f first second s h =
      let (h', same) = first s h in by_result (m s).0 (m s).1 h' same
    where
      by_result :
          (r : Result A) (t : Rows.Store)
          → t.faults ≡ []
          → t.commits ≡ s.commits
          → ((continue r f t).1.faults ≡ []) × ((continue r f t).1.commits ≡ s.commits)
      by_result (ok a) t h' same = let (h'', same') = second a t h' in (h'', same' ∙ same)
      by_result (err e) t h' same = (h', same)

pub IsSteady-if :
    {A : Type 0} (b : Bool) (m n : Exec Store A)
    → IsSteady m
    → IsSteady n
    → IsSteady (if b then m else n)
IsSteady-if true m n left right s h = left s h
IsSteady-if false m n left right s h = right s h

-- the two reads of a rollback, of which either may find nothing
pub IsSteady-found :
    {A : Type 0} (found : Option Commit) (missing : Exec Store A) (f : Commit → Exec Store A)
    → IsSteady missing
    → ((c : Commit) → IsSteady (f c))
    → IsSteady (elim found [ none ↦ missing | some c ↦ f c ])
IsSteady-found none missing f left right s h = left s h
IsSteady-found (some c) missing f left right s h = right c s h

pub disk-IsSteady : IsSteady disk
disk-IsSteady s h = rw (disk_healthy s h) (h, refl)

pub set_head-IsSteady :
    (run thread agent channel id : String) → IsSteady (set_head run thread agent channel id)
unfolding set_head write_head
set_head-IsSteady run thread agent channel id =
    IsSteady-bind disk _ disk-IsSteady (λ _ s h. (h, refl))

module _ (p : Platform) where
  pub get_head-IsSteady :
      (run thread agent channel : String) → IsSteady (get_head run thread agent channel)
  unfolding get_head
  get_head-IsSteady run thread agent channel =
      IsSteady-bind disk _ disk-IsSteady (λ _ s h. (h, refl))

  pub append_loop_warning-IsSteady : (w : LoopWarning) → IsSteady (append_loop_warning p w)
  unfolding append_loop_warning
  append_loop_warning-IsSteady w = IsSteady-bind disk _ disk-IsSteady (λ _ s h. (h, refl))

  pub put_artifact-IsSteady :
      (bytes : List ℕ) (media : String) → IsSteady (put_artifact p bytes media)
  unfolding put_artifact disk
  put_artifact-IsSteady bytes media s h =
      by_result (maybe_compress p bytes s.compression_threshold_bytes) refl
    where
      by_result :
          (r : Result (List ℕ × Bool))
          → maybe_compress p bytes s.compression_threshold_bytes ≡ r
          → ((put_artifact p bytes media s).1.faults ≡ [])
            × ((put_artifact p bytes media s).1.commits ≡ s.commits)
      by_result (ok (stored, compressed)) e = rw h (rw e (refl, refl))
      by_result (err message) e = rw h (rw e (refl, refl))

  pub get_commit-IsSteady : (id : String) → IsSteady (get_commit p id)
  unfolding get_commit
  get_commit-IsSteady id = IsSteady-bind disk _ disk-IsSteady (λ _ s h. (h, refl))

  pub append_event-IsSteady : (kind text : String) → IsSteady (append_event p kind text)
  unfolding append_event
  append_event-IsSteady kind text = IsSteady-bind disk _ disk-IsSteady (λ _ s h.
      IsSteady-if (kind == "rollback") _ _ (IsSteady-bind disk _ disk-IsSteady (λ _ t g. (g, refl)))
        (λ t g. (g, refl)) _ h)

  pub list_commits-IsSteady :
      (run thread channel : Option String) → IsSteady (list_commits p run thread channel)
  unfolding list_commits
  list_commits-IsSteady run thread channel = IsSteady-bind disk _ disk-IsSteady (λ _ s.
      IsSteady-bind (lift (decode_rows p (sort commit_before s.commits))) _ (λ t g. (g, refl))
        (λ _ t g. (g, refl)) s)

  pub list_loop_warnings-IsSteady : IsSteady (list_loop_warnings p)
  unfolding list_loop_warnings
  list_loop_warnings-IsSteady = IsSteady-bind disk _ disk-IsSteady (λ _ s h. (h, refl))

pub list_runs-IsSteady : IsSteady list_runs
unfolding list_runs
list_runs-IsSteady = IsSteady-bind disk _ disk-IsSteady (λ _ s h. (h, refl))
