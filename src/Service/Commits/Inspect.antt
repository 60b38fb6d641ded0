-- ===== src/Service/Commits/Inspect.antt =====
-- On `inspect_loop` of daemon/src/grpc/service.rs when no call of the database fails.
use attow_nexus.Prelude.{
  ◌≡◌, refl, Bool, true, false, Option, none, some, [], ok, if◌then◌else◌, Result,
}
use attow_nexus.Platform.{Platform}
use attow_nexus.Proto.{Commit, LoopWarning}
use attow_nexus.Bus.State.{Mpsc}
use attow_nexus.Ledger.Store.Laws.{disk_healthy}
use attow_nexus.Ledger.Store.Artifacts.{append_loop_warning}
use attow_nexus.LoopDetection.{inspect}
use attow_nexus.Service.State.{App}
use attow_nexus.Service.Commits.{handle_warning, detect, broadcast_loop_warning, inspect_loop}

module _ (p : Platform) {Chan : Type 0} (mpsc : Mpsc Chan) where
  -- it succeeds, and leaves the graph, the commits and the heads
  abbrev pub IsSettled : App Chan → Result (Unit {0}) × App Chan → Type 0
  IsSettled s after =
      (after.0 ≡ ok tt)
      × (after.1.store.faults ≡ [])
      × (after.1.dag ≡ s.dag)
      × (after.1.store.commits ≡ s.store.commits)
      × (after.1.store.heads ≡ s.store.heads)

  handle_warning-IsSettled :
      (w : Option LoopWarning) (s : App Chan)
      → s.store.faults ≡ []
      → IsSettled s (handle_warning p mpsc w s)
  unfolding handle_warning append_loop_warning broadcast_loop_warning
  handle_warning-IsSettled none s h = (refl, h, refl, refl, refl)
  handle_warning-IsSettled (some w) s h = rw (disk_healthy s.store h) (refl, h, refl, refl, refl)

  IsSettled-if :
      (b : Bool) (s : App Chan) (x y : Result (Unit {0}) × App Chan)
      → IsSettled s x
      → IsSettled s y
      → IsSettled s (if b then x else y)
  IsSettled-if true s x y left right = left
  IsSettled-if false s x y left right = right

  pub inspect_loop-IsSettled :
      (c : Commit) (s : App Chan) → s.store.faults ≡ [] → IsSettled s (inspect_loop p mpsc c s)
  unfolding inspect_loop detect
  inspect_loop-IsSettled c s h =
      let (warning, detector) = inspect p c s.loop_detector in
      IsSettled-if s.config.loop_detection_enabled s
        (handle_warning p mpsc warning (record s { loop_detector = detector })) (ok tt, s)
        (handle_warning-IsSettled warning (record s { loop_detector = detector }) h)
        (refl, h, refl, refl, refl)
