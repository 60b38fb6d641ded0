-- ===== src/Config.antt =====
-- daemon/src/config.rs: the settings, where they come from, and the network policy. A `SocketAddr` is its
-- text and whether its IP is a loopback address; a `PathBuf` is a text.
pub mod Policy
pub mod Load
use attow_nexus.Prelude.{ℕ, String, Bool, Option}

pub record SocketAddr : Type 0 where
  pub text : String
  pub is_loopback : Bool

pub record Config : Type 0 where
  pub data_dir : String
  pub bind_mode : String
  pub grpc_addr : SocketAddr
  pub uds_path : String
  pub windows_pipe_name : String
  pub http_addr : SocketAddr
  pub metrics_addr : SocketAddr
  pub auth_token : Option String
  pub require_auth : Bool
  pub allow_remote : Bool
  pub store : String
  pub sqlite_path : String
  pub rocksdb_path : String
  pub artifact_dir : String
  pub compression_threshold_bytes : ℕ
  pub max_inline_payload_bytes : ℕ
  pub persist_ephemeral : Bool
  pub redaction_enabled : Bool
  pub encryption_at_rest : Bool
  pub loop_detection_enabled : Bool
  pub mcp_enabled : Bool
  pub otel_enabled : Bool
  pub cluster_enabled : Bool
  pub cluster_role : String
  pub cluster_primary_addr : Option String
  pub cluster_shared_token : Option String
