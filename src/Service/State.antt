-- ===== src/Service/State.antt =====
-- `AppState`, and the actions of its parts as actions of the whole.
use attow_nexus.Prelude.Exec.{Exec}
use attow_nexus.Prelude.{ℕ, suc, List, Assoc, ok}
use attow_nexus.Proto.{PermissionScope}
use attow_nexus.Config.{Config}
use attow_nexus.Metrics.{Metrics}
use attow_nexus.Dag.{DagIndex}
use attow_nexus.Bus.State.{Bus}
use attow_nexus.LoopDetection.{LoopDetector}
use attow_nexus.Ledger.Store.Rows.{Store}

-- The metrics stand in the bus, which shares them. `ticks` counts identifiers and clock readings.
pub record App (Chan : Type 0) : Type 0 where
  pub config : Config
  pub bus : Bus Chan
  pub store : Store
  pub dag : DagIndex
  pub loop_detector : LoopDetector
  pub grants : Assoc (List PermissionScope)
  pub ticks : ℕ

module _ {Chan : Type 0} where
  -- a call of the store
  abbrev pub on_store : {A : Type 0} → Exec Store A → Exec (App Chan) A
  on_store m s = let (r, store) = m s.store in (r, record s { store = store })

  -- a call of the bus
  abbrev pub on_bus : (Bus Chan → Bus Chan) → Exec (App Chan) Unit
  on_bus f s = (ok tt, record s { bus = f s.bus })

  abbrev pub on_metrics : (Metrics → Metrics) → Exec (App Chan) Unit
  on_metrics f s = (ok tt, record s { bus = record s.bus { metrics = f s.bus.metrics } })

  -- the next identifier or reading of the clock
  abbrev pub tick : Exec (App Chan) ℕ
  tick s = (ok s.ticks, record s { ticks = suc s.ticks })
