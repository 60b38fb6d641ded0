-- ===== src/Startup.antt =====
-- daemon/src/lib.rs: what `run` does before it listens, and `Config::prepare`.
pub mod Stored
pub mod Laws
use attow_nexus.Prelude.{
  String, Bool, true, false, ◌&&◌, not, List, [], ◌==◌, if◌then◌else◌, Result, ok, err, ◌>>=◌,
}
use attow_nexus.Platform.{Platform}
use attow_nexus.Config.{Config}
use attow_nexus.Config.Policy.{validate_network_policy}
use attow_nexus.Metrics
use attow_nexus.Dag.{DagIndex, from_commits}
use attow_nexus.Bus.State
use attow_nexus.Bus.State.{Bus}
use attow_nexus.LoopDetection
use attow_nexus.Ledger.Store.Rows.{Store}
use attow_nexus.Ledger.Store.Calls.{list_all_commits}
use attow_nexus.Service.State.{App}

-- `.context(..)`
context : {A : Type 0} → String → Result A → Result A
context message (ok a) = ok a
context message (err e) = err message

-- `made` is the result of the three `create_dir_all`, `built` is `cfg!(feature = "rocksdb-store")`.
unfoldable pub prepare : Result (Unit {0}) → Bool → Config → Result (Unit {0})
prepare made built config = made >>= λ _.
    if config.store == "rocksdb" && not built
    then err "NEXUS_STORE=rocksdb requires building with --features rocksdb-store"
    else ok tt

-- `AppState::new`
unfoldable pub new_state : {Chan : Type 0} → Config → Bus Chan → Store → DagIndex → App Chan
new_state config bus store dag = record {
  config = config;
  bus = bus;
  store = store;
  dag = dag;
  loop_detector = LoopDetection.default;
  grants = [];
  ticks = 0;
}

module _ (p : Platform) {Chan : Type 0} where
  -- the state from an open store
  load : Config → Store → Result (App Chan)
  unfolding context
  load config store =
      let (commits, after) = list_all_commits p store in
      do
        found ← context "load commits" commits
        dag ← context "rebuild DAG index" (from_commits found)
        ok (new_state config (State.new Metrics.default) after dag)

  -- `opened` is what `SqliteStore::open` has answered.
  pub start : Result (Unit {0}) → Bool → Config → Result Store → Result (App Chan)
  unfolding load
  start made built config opened = prepare made built config >>= λ _.
      validate_network_policy config >>= λ _. context "open SQLite store" opened >>= load config
