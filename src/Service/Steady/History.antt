-- ===== src/Service/Steady/History.antt =====
-- On replays after any run of the daemon: ledger/replay.rs reads the rows, and agrees with the graph.
use attow_nexus.Prelude.{
  String, ◌≡◌, refl, sym, ◌∙◌, ◌↔◌, true, false, ◌&&◌, not, eqb, contains, contains_key, ok,
}
use attow_nexus.Platform.{Platform}
use attow_nexus.Proto.Messages.{ReplayRequest, ReplayResult}
use attow_nexus.Dag.{ancestry}
use attow_nexus.Dag.Ancestry.{mem-ancestry}
use attow_nexus.Ledger.Replay.History.{IsUnique}
use attow_nexus.Ledger.Replay.Written.{IsParentCodec}
use attow_nexus.Ledger.Replay.Total.{replay_total}
use attow_nexus.Bus.State.{Mpsc}
use attow_nexus.Service.State.{App}
use attow_nexus.Service.Publish.{replay_inner}
use attow_nexus.Service.Steady.Sound.{
  IsSound, IsFaithful, IsSound-IsHistory, Step-IsSound, Reach-stored,
}
use attow_nexus.Service.Steady.Reached.{Reached, here, served, called, streamed, received}
use attow_nexus.Http.Routes.{serve}
use attow_nexus.Http.Routes.Steps.{serve-IsStep}
use attow_nexus.Grpc.Stream.{on_event}
use attow_nexus.Grpc.Steps.{invoke, invoke-Step, on_event-IsStep}

module _ (p : Platform) {Chan : Type 0} (mpsc : Mpsc Chan) (version : String) where
  -- In no step does a commit of the graph get other parents.
  abbrev pub IsFaithfulRun : {s t : App Chan} → Reached p mpsc version s t → Type 0
  IsFaithfulRun here = Unit
  IsFaithfulRun (served {t} run header request) =
      IsFaithfulRun run × IsFaithful p t (serve p mpsc version header request t).1
  IsFaithfulRun (called {t} run header rpc) =
      IsFaithfulRun run × IsFaithful p t (invoke p mpsc version header rpc t)
  IsFaithfulRun (streamed {t} run message) =
      IsFaithfulRun run × IsFaithful p t (on_event p mpsc version message t).1
  IsFaithfulRun (received run bus) = IsFaithfulRun run

  module _ (codec : IsParentCodec p) where
    pub Reached-IsSound :
        {s t : App Chan}
        → IsSound p s
        → (run : Reached p mpsc version s t) → IsFaithfulRun run
        → IsSound p t
    Reached-IsSound sound here faithful = sound
    Reached-IsSound sound (served {t} run header request) (before, now) =
        let h = Reached-IsSound sound run before in
        Step-IsSound p codec t _ (serve-IsStep p mpsc version header request t h.readable.no_faults)
          now h
    Reached-IsSound sound (called {t} run header rpc) (before, now) =
        let h = Reached-IsSound sound run before in
        Step-IsSound p codec t _ (invoke-Step p mpsc version header rpc t h.readable.no_faults) now
          h
    Reached-IsSound sound (streamed {t} run message) (before, now) =
        let h = Reached-IsSound sound run before in
        Step-IsSound p codec t _ (on_event-IsStep p mpsc version message t h.readable.no_faults) now
          h
    Reached-IsSound sound (received run bus) faithful =
        let h = Reached-IsSound sound run faithful in
        record { readable = h.readable; sync = h.sync; formed = h.formed; agree = h.agree }

    -- From a state whose readable store and well-formed graph hold the same commits with the same
    -- parents, after any run of requests and messages in which no call of the database fails and no
    -- commit gets other parents, a replay of a commit of the graph, that is not an unconfirmed
    -- re-execution of tools, ends with a result and changes nothing. Its provenance, which is read
    -- from the rows, names exactly the commits that the graph lists as the ancestry, each once.
    pub replay-Reached :
        {s t : App Chan} (request : ReplayRequest)
        → IsSound p s
        → (run : Reached p mpsc version s t) → IsFaithfulRun run
        → contains_key request.commit_id t.dag.parents ≡ true
        → (eqb request.mode 3 && not request.confirm_reexecute_tools) ≡ false
        → (result : ReplayResult) × (replay_inner p request t ≡ (ok result, t))
          × ((x : String)
              → contains x result.provenance_commit_ids ≡ true
                ↔ contains x (ancestry t.dag request.commit_id) ≡ true)
          × IsUnique result.provenance_commit_ids
    unfolding replay_inner
    replay-Reached {t} request sound run faithful there allowed =
        let h = Reached-IsSound sound run faithful in
        let (result, done, named, unique) =
          replay_total p t.store request (IsSound-IsHistory p t h)
            (sym (h.sync request.commit_id) ∙ there) allowed in
        (
          result,
          rw done refl,
          (λ x. (
            λ on.
                (mem-ancestry t.dag request.commit_id x).1
                  ((Reach-stored p t h x request.commit_id).0 ((named x).0 on)),
            λ on. (named x).1 (
                (Reach-stored p t h x request.commit_id).1
                  ((mem-ancestry t.dag request.commit_id x).0 on)),
          )),
          unique,
        )
