-- ===== src/Platform.antt =====
-- What the daemon calls and does not implement: hashing, codecs, compression, identifiers, the clock
-- and the formatting of lists. The state of a component counts the identifiers and the clock readings
-- that it has taken, and the n-th of each is a function here.
use attow_nexus.Prelude.{ℕ, String, Bool, Option, List, Result, ok, ◌≡◌}
use attow_nexus.Proto.{Timestamp, Commit, LoopWarning}
use attow_nexus.Json.{Value}

pub record Platform : Type 0 where
  -- blake3::hash(bytes).to_hex()
  pub blake3_hex : List ℕ → String
  -- prost: encode_to_vec, decode
  pub encode_commit : Commit → List ℕ
  pub decode_commit : List ℕ → Option Commit
  pub encode_warning : LoopWarning → List ℕ
  pub decode_warning : List ℕ → Option LoopWarning
  -- serde_json: to_vec, to_string, from_slice, from_str
  pub to_vec : Value → List ℕ
  pub to_json_text : Value → String
  pub tags_text : List String → String
  pub from_slice : List ℕ → Option Value
  pub from_str : String → Option Value
  -- str::as_bytes, String::from_utf8_lossy, str::from_utf8
  pub as_bytes : String → List ℕ
  pub from_utf8_lossy : List ℕ → String
  pub from_utf8 : List ℕ → Option String
  -- regex: Regex::new(source).is_match(text) and .replace_all(text, marker)
  pub is_match : String → String → Bool
  pub replace_all : String → String → String → String
  -- zstd::stream::encode_all, decode_all
  pub zstd_encode : List ℕ → Result (List ℕ)
  pub zstd_decode : List ℕ → Result (List ℕ)
  -- uuid::Uuid::new_v4().simple(), SystemTime::now()
  pub uuid : ℕ → String
  pub now : ℕ → Timestamp
  pub millis : ℕ → ℕ
  -- `{:?}` of a list of texts
  pub debug_list : List String → String

-- What was compressed decompresses to what it was.
pub record IsCompressor (p : Platform) : Type 0 where
  pub zstd_round_trip :
      (bytes stored : List ℕ) → p.zstd_encode bytes ≡ ok stored → p.zstd_decode stored ≡ ok bytes
