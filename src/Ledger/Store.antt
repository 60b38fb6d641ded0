-- ===== src/Ledger/Store.antt =====
-- daemon/src/ledger/store.rs, sqlite_store.rs, head.rs and util/compression.rs: the tables of the
-- SQLite database and the artifact directory. A call of the database or of the file system takes the
-- next entry of `faults`: `some e` makes it fail with the message `e`.
pub mod Rows
pub mod Calls
pub mod Heads
pub mod Artifacts
pub mod Laws
pub mod EachRow
pub mod Listing
pub mod RoundTrip
pub mod Recount
pub mod Steady
use attow_nexus.Prelude.Exec.{Exec, pure, bail, lift, gets, modify, ◌>>=◌, ◌>>◌}
use attow_nexus.Prelude.{
  ℕ, suc, ◌+◌, String, ◌<>◌, Bool, true, false, ◌&&◌, not, Option, none, some, List, [], ◌∷◌, ◌++◌,
  ◌==◌, if◌then◌else◌, ltb, length, any, filter, map, Assoc, lookup, insert, contains_key, update,
  Result, ok, err, ok_or, ℤ, pos, as_i64, sort, concat,
}
use attow_nexus.Platform.{Platform}
use attow_nexus.Proto.{Timestamp, ArtifactRef, Commit, LoopWarning, RunSummary}
use Rows.{
  CommitRow, HeadRow, RunRow, ChannelRow, DeltaRow, ArtifactRow, SideEffectRow, WarningRow, Store,
  commit_before, warning_before, run_before,
}

-- One call of the database or of the file system.
unfoldable pub disk : Exec Store Unit
disk s = elim s.faults [
  | [] ↦ (ok tt, s)
  | none ∷ faults ↦ (ok tt, record s { faults = faults })
  | some e ∷ faults ↦ (err e, record s { faults = faults })
]

-- INSERT OR IGNORE INTO, on the primary key
unfoldable pub insert_or_ignore {ℓ} : {V : Type ℓ} → String → V → Assoc V → Assoc V
insert_or_ignore k v m = if contains_key k m then m else insert k v m

pub pair_in : String × String → List (String × String) → Bool
pair_in (a, b) = any (λ e. e.0 == a && e.1 == b)

unfoldable pub add_parents : String → List String → List (String × String) → List (String × String)
unfolding pair_in
add_parents id [] table = table
add_parents id (parent ∷ rest) table =
    add_parents id rest (if pair_in (id, parent) table then table else table ++ (id, parent) ∷ [])

-- The upsert of `runs`. The column is an `INTEGER` of SQLite, which a run of fewer than 2 ^ 63 commits does
-- not leave.
unfoldable pub count_run : String → ℤ → Assoc RunRow → Assoc RunRow
count_run run at runs =
    if contains_key run runs
    then update run (λ r. record { last_commit_at = at; commit_count = r.commit_count + 1 }) runs
    else insert run (record { last_commit_at = at; commit_count = 1 }) runs

unfoldable pub add_channel : String → Assoc ChannelRow → Assoc ChannelRow
unfolding insert_or_ignore
add_channel channel table =
    update channel (λ r. record r { durable_count = r.durable_count + 1 })
      (insert_or_ignore channel (record { durable_count = 0; ephemeral_count = 0 }) table)

-- `wall_time.map(|t| t.seconds).unwrap_or_default()`
unfoldable pub seconds_of : Option Timestamp → ℤ
seconds_of none = pos 0
seconds_of (some t) = t.seconds

-- `head_key`: the parts joined by U+001F
unfoldable pub head_key : String → String → String → String → String
head_key run thread agent channel =
    concat (run ∷ "\u{1f}" ∷ thread ∷ "\u{1f}" ∷ agent ∷ "\u{1f}" ∷ channel ∷ [])
