-- ===== src/Metrics.antt =====
-- daemon/src/observability/metrics.rs: the counters of the daemon, each an atomic `u64`.
use attow_nexus.Prelude.{ℕ, String, [], ◌∷◌, ◌+◌, ◌%◌, ◌^◌, concat, to_string}

pub record Metrics : Type 0 where
  pub agents_connected : ℕ
  pub channels_total : ℕ
  pub subscriptions_total : ℕ
  pub deltas_total : ℕ
  pub ephemeral_deltas_total : ℕ
  pub durable_deltas_total : ℕ
  pub commits_total : ℕ
  pub broadcast_latency_ms : ℕ
  pub store_append_latency_ms : ℕ
  pub grpc_request_latency_ms : ℕ
  pub http_request_latency_ms : ℕ
  pub replay_latency_ms : ℕ
  pub diff_latency_ms : ℕ
  pub loop_warnings_total : ℕ
  pub backpressure_events_total : ℕ
  pub dropped_ephemeral_total : ℕ
  pub artifacts_total : ℕ
  pub errors_total : ℕ
  pub memory_bytes : ℕ

-- `Metrics::default()`
abbrev pub default : Metrics
default = record {
  agents_connected = 0;
  channels_total = 0;
  subscriptions_total = 0;
  deltas_total = 0;
  ephemeral_deltas_total = 0;
  durable_deltas_total = 0;
  commits_total = 0;
  broadcast_latency_ms = 0;
  store_append_latency_ms = 0;
  grpc_request_latency_ms = 0;
  http_request_latency_ms = 0;
  replay_latency_ms = 0;
  diff_latency_ms = 0;
  loop_warnings_total = 0;
  backpressure_events_total = 0;
  dropped_ephemeral_total = 0;
  artifacts_total = 0;
  errors_total = 0;
  memory_bytes = 0;
}

-- `Counter::add`; `Counter::inc` is `inc64`, `store` and `load` are a write and a read of the field
unfoldable pub add : ℕ → ℕ → ℕ
add counter value = (counter + value) % 2 ^ 64

pub record MetricsSummary : Type 0 where
  pub nexus_agents_connected : ℕ
  pub nexus_channels_total : ℕ
  pub nexus_subscriptions_total : ℕ
  pub nexus_deltas_total : ℕ
  pub nexus_ephemeral_deltas_total : ℕ
  pub nexus_durable_deltas_total : ℕ
  pub nexus_commits_total : ℕ
  pub nexus_loop_warnings_total : ℕ
  pub nexus_backpressure_events_total : ℕ
  pub nexus_dropped_ephemeral_total : ℕ
  pub nexus_artifacts_total : ℕ
  pub nexus_errors_total : ℕ
  pub nexus_memory_bytes : ℕ

pub summary : Metrics → MetricsSummary
summary m = record {
  nexus_agents_connected = m.agents_connected;
  nexus_channels_total = m.channels_total;
  nexus_subscriptions_total = m.subscriptions_total;
  nexus_deltas_total = m.deltas_total;
  nexus_ephemeral_deltas_total = m.ephemeral_deltas_total;
  nexus_durable_deltas_total = m.durable_deltas_total;
  nexus_commits_total = m.commits_total;
  nexus_loop_warnings_total = m.loop_warnings_total;
  nexus_backpressure_events_total = m.backpressure_events_total;
  nexus_dropped_ephemeral_total = m.dropped_ephemeral_total;
  nexus_artifacts_total = m.artifacts_total;
  nexus_errors_total = m.errors_total;
  nexus_memory_bytes = m.memory_bytes;
}

-- `# TYPE {name} gauge\n{name} {value}\n`
gauge : String → ℕ → String
gauge name value = concat ("# TYPE " ∷ name ∷ " gauge\n" ∷ name ∷ " " ∷ to_string value ∷ "\n" ∷ [])

pub prometheus : Metrics → String
unfolding gauge summary
prometheus m =
    let s = summary m in
    concat (
      gauge "nexus_agents_connected" s.nexus_agents_connected
      ∷ gauge "nexus_channels_total" s.nexus_channels_total
      ∷ gauge "nexus_subscriptions_total" s.nexus_subscriptions_total
      ∷ gauge "nexus_deltas_total" s.nexus_deltas_total
      ∷ gauge "nexus_ephemeral_deltas_total" s.nexus_ephemeral_deltas_total
      ∷ gauge "nexus_durable_deltas_total" s.nexus_durable_deltas_total
      ∷ gauge "nexus_commits_total" s.nexus_commits_total
      ∷ gauge "nexus_loop_warnings_total" s.nexus_loop_warnings_total
      ∷ gauge "nexus_backpressure_events_total" s.nexus_backpressure_events_total
      ∷ gauge "nexus_dropped_ephemeral_total" s.nexus_dropped_ephemeral_total
      ∷ gauge "nexus_artifacts_total" s.nexus_artifacts_total
      ∷ gauge "nexus_errors_total" s.nexus_errors_total
      ∷ gauge "nexus_memory_bytes" s.nexus_memory_bytes
      ∷ [])
