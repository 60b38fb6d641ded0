-- ===== src/Service/Steady/Reached.antt =====
-- On every run of the daemon: requests over HTTP and gRPC, and messages of streams, in any order.
use attow_nexus.Prelude.{String, Option}
use attow_nexus.Platform.{Platform}
use attow_nexus.Proto.Messages.{ClientEvent}
use attow_nexus.Bus.State.{Bus, Mpsc}
use attow_nexus.Service.State.{App}
use attow_nexus.Service.Steady.{IsHealthy, Step-IsHealthy}
use attow_nexus.Http.Routes.{Request, serve}
use attow_nexus.Http.Routes.Steps.{serve-IsStep}
use attow_nexus.Grpc.Stream.{on_event}
use attow_nexus.Grpc.Steps.{Rpc, invoke, invoke-Step, on_event-IsStep}

module _ (p : Platform) {Chan : Type 0} (mpsc : Mpsc Chan) (version : String) where
  -- The states that lead from one to the other by requests over HTTP, calls over gRPC and messages of
  -- streams, whatever each answers; between them the queues of the subscribers are read.
  pub data Reached (s : App Chan) : App Chan → Type 0 where
    here : Reached s s
    served :
        {t : App Chan}
        → Reached s t
        → (header : Option String) (request : Request)
        → Reached s (serve p mpsc version header request t).1
    called :
        {t : App Chan}
        → Reached s t
        → (header : Option String) (rpc : Rpc) → Reached s (invoke p mpsc version header rpc t)
    streamed :
        {t : App Chan}
        → Reached s t
        → (message : Option ClientEvent) → Reached s (on_event p mpsc version message t).1
    received : {t : App Chan} → Reached s t → (bus : Bus Chan) → Reached s (record t { bus = bus })

  -- While no call of the database fails, requests over HTTP and gRPC and messages of streams, in any
  -- number and order, accepted or refused, leave the graph in step with the store: a commit is in
  -- the graph exactly when it is stored.
  pub Reached-IsHealthy : {s t : App Chan} → IsHealthy s → Reached s t → IsHealthy t
  Reached-IsHealthy h here = h
  Reached-IsHealthy h (served {t} run header request) =
      let before = Reached-IsHealthy h run in
      Step-IsHealthy p t _ (serve-IsStep p mpsc version header request t before.0) before
  Reached-IsHealthy h (called {t} run header rpc) =
      let before = Reached-IsHealthy h run in
      Step-IsHealthy p t _ (invoke-Step p mpsc version header rpc t before.0) before
  Reached-IsHealthy h (streamed {t} run message) =
      let before = Reached-IsHealthy h run in
      Step-IsHealthy p t _ (on_event-IsStep p mpsc version message t before.0) before
  Reached-IsHealthy h (received {t} run bus) = Reached-IsHealthy h run
