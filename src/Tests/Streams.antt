-- ===== src/Tests/Streams.antt =====
-- Examples for the gRPC interface and the operations behind it.
use attow_nexus.Prelude.{refl, Option, none, some, List, [], ◌∷◌}
use attow_nexus.Proto.Messages
use attow_nexus.Proto.Messages.{ClientEvent, heartbeat, shutdown}
use attow_nexus.Tests.Data.{mpsc}
use attow_nexus.Tests.Publishing.{asked, recorder, plain}
use attow_nexus.Grpc.Status.{status, internal, Answer, response, failure}
use attow_nexus.Grpc.Calls.{publish_delta}
use attow_nexus.Grpc.Stream.{open_stream}
use attow_nexus.Grpc.Stream.Laws.{IsServed, open_stream-IsServed}

abbrev talk : List (Answer (Option ClientEvent))
talk =
    response (some (heartbeat (record { agent_id = "agent"; run_id = "run"; at = none })))
    ∷ response none
    ∷ response (some (Messages.publish_delta asked))
    ∷ response (some (shutdown "done"))
    ∷ failure (status internal "connection reset")
    ∷ []

open_stream-IsServed_example :
    IsServed recorder mpsc "0.1.0" talk plain
      (open_stream recorder mpsc "0.1.0" talk plain).0
      (open_stream recorder mpsc "0.1.0" talk plain).1
open_stream-IsServed_example = open_stream-IsServed recorder mpsc "0.1.0" talk plain refl
