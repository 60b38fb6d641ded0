-- ===== src/LoopDetection.antt =====
-- daemon/src/loop_detection/: a sliding window of fingerprints for each run, agent and channel.
pub mod Window
use attow_nexus.Prelude.{
  ℕ, suc, ◌+◌, String, Bool, true, false, not, Option, none, some, List, [], ◌∷◌, ◌++◌, map, ◌==◌,
  eqb, ltb, leb, if◌then◌else◌, length, filter, find, Assoc, lookup, insert, or_nil, concat, join,
}
use mathlib.Core.List.{reverse}
use attow_nexus.Platform.{Platform}
use attow_nexus.Proto.{Commit, LoopWarning, ToolResult, Payload, Timestamp}
use attow_nexus.Ledger.Rollback.{new_id}

-- `LoopSeverity`, as the number that the warning carries
unfoldable pub severity_for_repetitions : ℕ → ℕ
severity_for_repetitions n = if leb n 2 then 1 else if leb n 4 then 2 else 3

error_codes : List ToolResult → List String
error_codes [] = []
error_codes (r ∷ rs) = elim r.error [ none ↦ error_codes rs | some e ↦ e.code ∷ error_codes rs ]

payload_hash : Option Payload → String
payload_hash none = ""
payload_hash (some payload) = payload.content_hash

pub record FingerprintEntry : Type 0 where
  pub fingerprint : String
  pub commit_id : String

pub record LoopDetector : Type 0 where
  pub window_size : ℕ
  pub windows : Assoc (List FingerprintEntry)
  pub ticks : ℕ

-- `LoopDetector::default()`
abbrev pub default : LoopDetector
default = record { window_size = 12; windows = []; ticks = 0 }

unfoldable pub window_key : Commit → String
window_key c = concat (c.run_id ∷ "|" ∷ c.agent_id ∷ "|" ∷ c.channel ∷ [])

-- `window.iter().filter(..).count() + 1`
pub repetitions : String → List FingerprintEntry → ℕ
repetitions fp window = suc (length (filter (λ e. e.fingerprint == fp) window))

-- the latest entry of the window with another fingerprint
pub stable_commit : String → List FingerprintEntry → String
stable_commit fp window = elim (find (λ e. not (e.fingerprint == fp)) (reverse window)) [
  | none ↦ ""
  | some e ↦ e.commit_id
]

-- `pop_front` of a full window, then `push_back`
pub slide : ℕ → List FingerprintEntry → FingerprintEntry → List FingerprintEntry
slide size [] entry = entry ∷ []
slide size (oldest ∷ window) entry =
    (if eqb (suc (length window)) size then window else oldest ∷ window) ++ entry ∷ []

module _ (p : Platform) where
  pub fingerprint : Commit → String
  unfolding error_codes payload_hash
  fingerprint c = p.blake3_hex (
      p.as_bytes (
        join "|" (
          c.objective
          ∷ c.summary
          ∷ payload_hash c.state_delta
          ∷ join "," (map (λ tool. tool.name) c.tool_calls)
          ∷ join "," (error_codes c.tool_results)
          ∷ p.debug_list c.parent_commit_ids
          ∷ [])))

  -- The identifier is taken after the clock is read.
  warn : Commit → String → ℕ → String → ℕ → LoopWarning
  warn c fp count stable ticks =
      let at = p.now ticks in
      record {
        warning_id = new_id p "loop" (suc ticks);
        run_id = c.run_id;
        agent_id = c.agent_id;
        channel = c.channel;
        severity = severity_for_repetitions count;
        fingerprint = fp;
        repetition_count = count;
        first_seen = some at;
        last_seen = some at;
        suggested_stable_commit_id = stable;
        message = "Repeated captured context and tool pattern detected in the sliding window.";
      }

  pub inspect : Commit → LoopDetector → Option LoopWarning × LoopDetector
  unfolding warn
  inspect c d =
      let window = or_nil (lookup (window_key c) d.windows) in
      let fp = fingerprint c in
      let count = repetitions fp window in
      let windows =
        insert (window_key c)
          (slide d.window_size window (record { fingerprint = fp; commit_id = c.commit_id }))
          d.windows in
      if ltb count 3 then (none, record d { windows = windows }) else (
        some (warn c fp count (stable_commit fp window) d.ticks),
        record d { windows = windows; ticks = suc (suc d.ticks) },
      )
