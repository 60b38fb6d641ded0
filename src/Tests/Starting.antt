-- ===== src/Tests/Starting.antt =====
-- Examples for the settings and the start.
use attow_nexus.Prelude.{
  String, ◌≡◌, refl, ◌↔◌, true, false, none, some, List, [], ◌∷◌, ◌==◌, if◌then◌else◌, contains, ok,
  subst, sort, place, strip_prefix, ne_of_test,
}
use attow_nexus.Proto.{Commit}
use attow_nexus.Config.{Config}
use attow_nexus.Config.Policy.{validate_network_policy, validate_network_policy-eq-ok}
use attow_nexus.Config.Load.{
  Environment, setting, truthy, is_blank, file_value, env_or, env_bool, env_usize, optional_env,
  expand_tilde, home, address, settings, from_env,
}
use attow_nexus.Config.Load.Laws.{from_env-require_auth}
use attow_nexus.Dag.Append.{IsWellFormed}
use attow_nexus.Dag.Startup.{IsLoadable, done, next}
use attow_nexus.Ledger.Store.Calls.{
  list_all_commits, list_commits, decode_rows, decode_row, selects,
}
use attow_nexus.Ledger.Store.Rows.{commit_before}
use attow_nexus.Ledger.Store.{disk}
use attow_nexus.Proto.Messages.{BroadcastDelta}
use attow_nexus.Service.State.{App}
use attow_nexus.Service.Commits.Persist.{IsInSync}
use attow_nexus.Startup.{prepare, start}
use attow_nexus.Startup.Laws.{start-IsInSync}
use attow_nexus.Tests.Data.{platform, store, config, address as local, commit_a, commit_b}
use attow_nexus.Tests.Storage.{store-IsReadable}

abbrev both : List Commit
both = commit_a ∷ commit_b ∷ []

both_listed : list_all_commits platform store ≡ (ok both, store)
unfolding list_all_commits list_commits decode_rows decode_row disk sort place commit_before selects
both_listed = refl

both-IsLoadable : IsLoadable [] both
unfolding contains
both-IsLoadable =
    next (ne_of_test "a" "" refl) refl (λ p on. on)
      (next (ne_of_test "b" "" refl) refl (λ p on. on) done)

policy : validate_network_policy config ≡ ok tt
policy =
    (validate_network_policy-eq-ok config).1
      ((λ remote. (refl, refl, refl)), λ tcp auth. ("token", refl))

start-IsInSync_example :
    (app : App (List BroadcastDelta)) × (start platform (ok tt) false config (ok store) ≡ ok app)
    × IsInSync app
    × IsWellFormed app.dag
    × (app.store ≡ store)
    × (app.grants ≡ [])
unfolding contains prepare
start-IsInSync_example =
    start-IsInSync platform (ok tt) false config store refl policy store-IsReadable
      (refl, (refl, tt))
      (λ cs listed.
        let same : both ≡ cs = cc (both_listed, listed) in
        subst (IsLoadable []) same both-IsLoadable)

abbrev environment : Environment
environment = record {
  var = λ key. if key == "NEXUS_REQUIRE_AUTH" then some "off" else none;
  var_os = λ key. none;
  nexus_toml = none;
  parse_addr = λ text. some local;
  join = λ dir rest. rest;
  windows = true;
}

abbrev loaded : Config
loaded = record {
  data_dir = "~/.nexus";
  bind_mode = "tcp";
  grpc_addr = local;
  uds_path = "/tmp/nexus.sock";
  windows_pipe_name = "\\\\.\\pipe\\nexus";
  http_addr = local;
  metrics_addr = local;
  auth_token = none;
  require_auth = false;
  allow_remote = false;
  store = "sqlite";
  sqlite_path = "~/.nexus/nexus.sqlite";
  rocksdb_path = "~/.nexus/rocksdb";
  artifact_dir = "~/.nexus/artifacts";
  compression_threshold_bytes = 4096;
  max_inline_payload_bytes = 65536;
  persist_ephemeral = false;
  redaction_enabled = true;
  encryption_at_rest = false;
  loop_detection_enabled = true;
  mcp_enabled = false;
  otel_enabled = false;
  cluster_enabled = false;
  cluster_role = "primary";
  cluster_primary_addr = none;
  cluster_shared_token = none;
}

from_env-require_auth_example :
    ((loaded.require_auth ≡ false) ↔ (
      (v : String) × (setting environment "NEXUS_REQUIRE_AUTH" ≡ some v)
      × (contains v truthy ≡ false)))
    × ((loaded.allow_remote ≡ true) ↔ (
        (v : String) × (setting environment "NEXUS_ALLOW_REMOTE" ≡ some v)
        × (contains v truthy ≡ true)))
    × ((t : String)
        → (loaded.auth_token ≡ some t)
          ↔ ((setting environment "NEXUS_AUTH_TOKEN" ≡ some t) × (is_blank t ≡ false)))
unfolding from_env settings setting file_value env_or env_bool env_usize optional_env contains
    expand_tilde home strip_prefix address
from_env-require_auth_example = from_env-require_auth environment loaded refl
