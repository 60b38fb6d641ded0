-- ===== src/Tests/Client.antt =====
-- Examples for the command line.
use attow_nexus.Prelude.{◌≡◌, true, ◌&&◌, some, [], ◌∷◌, eqb, if◌then◌else◌, length}
use attow_nexus.Tests.Data.{app, mpsc, delta_of}
use attow_nexus.Bus.Calls.{recent, broadcast, delta_info}
use attow_nexus.Cli.Follow.{follow}
use attow_nexus.Cli.Follow.Laws.{oldest_on, follow-broadcast}

follow-broadcast_example :
    (follow
      (length (recent (some "plans") app.bus))
      (recent (some "plans") (broadcast mpsc (delta_of true) "a" app.bus))).0
    ≡ (if eqb (length app.bus.recent_deltas) 256 && oldest_on "plans" app.bus.recent_deltas
        then []
        else delta_info (delta_of true) "a" ∷ [])
follow-broadcast_example = follow-broadcast mpsc (delta_of true) "a" app.bus
