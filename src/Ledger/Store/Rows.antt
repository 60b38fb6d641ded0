-- ===== src/Ledger/Store/Rows.antt =====
-- The rows of the tables of sqlite_store.rs, and the orders of its ORDER BY clauses.
use Prim.Native.Nat.{Ordering}
use Prim.Native.String.{compare}
use attow_nexus.Prelude.{ℕ, String, Bool, true, false, Option, List, if◌then◌else◌, Assoc, ℤ, leb_ℤ}

pub record CommitRow : Type 0 where
  pub delta_id : String
  pub run_id : String
  pub thread_id : String
  pub agent_id : String
  pub channel : String
  pub logical_clock : ℤ
  pub wall_time_seconds : ℤ
  pub tags_json : String
  pub content_hash : String
  pub proto : List ℕ

pub record HeadRow : Type 0 where
  pub run_id : String
  pub thread_id : String
  pub agent_id : String
  pub channel : String
  pub commit_id : String

pub record RunRow : Type 0 where
  pub last_commit_at : ℤ
  pub commit_count : ℕ

pub record ChannelRow : Type 0 where
  pub durable_count : ℕ
  pub ephemeral_count : ℕ

pub record DeltaRow : Type 0 where
  pub commit_id : String
  pub run_id : String
  pub agent_id : String
  pub channel : String
  pub durable : Bool
  pub wall_time_seconds : ℤ

pub record ArtifactRow : Type 0 where
  pub content_hash : String
  pub path : String
  pub size_bytes : ℕ
  pub media_type : String
  pub compressed : Bool

pub record SideEffectRow : Type 0 where
  pub commit_id : String
  pub kind : String
  pub reversible : Bool
  pub compensating_action_available : Bool

pub record WarningRow : Type 0 where
  pub run_id : String
  pub agent_id : String
  pub channel : String
  pub severity : ℕ
  pub last_seen_seconds : ℤ
  pub proto : List ℕ

-- A table is keyed by its primary key. `ticks` counts the readings of the clock.
pub record Store : Type 0 where
  pub commits : Assoc CommitRow
  pub commit_parents : List (String × String)
  pub heads : Assoc HeadRow
  pub runs : Assoc RunRow
  pub channels : Assoc ChannelRow
  pub deltas : Assoc DeltaRow
  pub artifacts : Assoc ArtifactRow
  pub files : Assoc (List ℕ)
  pub tool_calls : Assoc (String × String)
  pub tool_results : List (String × String × Bool)
  pub side_effects : Assoc SideEffectRow
  pub loop_warnings : Assoc WarningRow
  pub audit_events : List (String × String × ℕ)
  pub rollback_events : List (String × ℕ)
  pub artifact_dir : String
  pub compression_threshold_bytes : ℕ
  pub ticks : ℕ
  pub faults : List (Option String)

eq_ℤ : ℤ → ℤ → Bool
eq_ℤ a b = if leb_ℤ a b then leb_ℤ b a else false

-- ORDER BY logical_clock ASC, wall_time_seconds ASC, commit_id ASC
unfoldable pub commit_before : String × CommitRow → String × CommitRow → Bool
unfolding eq_ℤ
commit_before (i, a) (j, b) =
    if eq_ℤ a.logical_clock b.logical_clock
    then (if eq_ℤ a.wall_time_seconds b.wall_time_seconds
        then elim (compare i j) [ Ordering.gt ↦ false | _ ↦ true ]
        else leb_ℤ a.wall_time_seconds b.wall_time_seconds)
    else leb_ℤ a.logical_clock b.logical_clock

-- ORDER BY last_commit_at DESC
unfoldable pub run_before : String × RunRow → String × RunRow → Bool
run_before (i, a) (j, b) = leb_ℤ b.last_commit_at a.last_commit_at

-- ORDER BY last_seen_seconds DESC
unfoldable pub warning_before : String × WarningRow → String × WarningRow → Bool
warning_before (i, a) (j, b) = leb_ℤ b.last_seen_seconds a.last_seen_seconds
