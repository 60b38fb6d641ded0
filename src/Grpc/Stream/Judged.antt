-- ===== src/Grpc/Stream/Judged.antt =====
-- On the events of `open_stream` of daemon/src/grpc/service.rs: each message is answered by its reply, or refused.
use attow_nexus.Prelude.{String, ◌≡◌, refl, Option, none, some, [], Result, ok, err}
use attow_nexus.Platform.{Platform}
use attow_nexus.Proto.Messages.{
  PublishDeltaRequest, PublishDeltaResponse, ClientEvent, heartbeat, publish_delta, subscribe,
  unsubscribe, checkpoint, record_tool_started, record_tool_finished, record_side_effect, shutdown,
  ServerEvent, checkpoint_committed,
}
use attow_nexus.Bus.State.{Mpsc}
use attow_nexus.Service.State.{App}
use attow_nexus.Service.Publish.{publish_delta_inner}
use attow_nexus.Service.Publish.Answered.{IsAnswered, Holds, publish_delta_inner-Ensures}
use attow_nexus.Grpc.Status.{status, internal, Answer, response, failure}
use attow_nexus.Grpc.Stream.{publish, on_event}
use attow_nexus.Grpc.Stream.Replies.{request_of, IsNotice, IsReply, IsRefusal}

module _ (p : Platform) {Chan : Type 0} (mpsc : Mpsc Chan) (version : String) where
  -- what is to be shown of the answer to a message that asks for this
  unfoldable pub IsOutcome :
      (Answers : ServerEvent → App Chan → Type 0) (m : Option ClientEvent) (s : App Chan)
      → Answer ServerEvent × App Chan
      → Type 0
  IsOutcome Answers m s (response event, after) = Answers event after
  IsOutcome Answers m s (failure st, after) = IsRefusal p mpsc version m s st after

  abbrev pub IsJudged : Option ClientEvent → App Chan → Answer ServerEvent × App Chan → Type 0
  IsJudged m = IsOutcome (IsReply m) m

  publish-IsOutcome :
      (m : Option ClientEvent) (request : PublishDeltaRequest) (s : App Chan)
      → request_of m ≡ some request
      → s.store.faults ≡ []
      → IsOutcome (IsNotice request) m s (publish p mpsc version request s)
  unfolding publish IsOutcome
  publish-IsOutcome m request s asked h =
      by_result (publish_delta_inner p mpsc version request s) refl
        (publish_delta_inner-Ensures p mpsc version request s h)
    where
      by_result :
          (x : Result PublishDeltaResponse × App Chan)
          → publish_delta_inner p mpsc version request s ≡ x
          → Holds (λ r t. IsAnswered request r.commit_id t) x
          → IsOutcome (IsNotice request) m s (
            elim x.0 [
              | ok r ↦ response (checkpoint_committed r.commit_id r.delta_id)
              | err message ↦ failure (status internal message)
            ],
            x.1,
          )
      by_result (ok r, t) e answered = (r.commit_id, r.delta_id, refl, answered)
      by_result (err message, t) e _ = (request, message, asked, e, refl)

  -- Each message is answered by its reply, or asks for a publication that fails.
  pub on_event-IsJudged :
      (m : Option ClientEvent) (s : App Chan)
      → s.store.faults ≡ []
      → IsJudged m s (on_event p mpsc version m s)
  unfolding on_event IsOutcome
  on_event-IsJudged none s h = refl
  on_event-IsJudged (some (publish_delta request)) s h =
      publish-IsOutcome (some (publish_delta request)) request s refl h
  on_event-IsJudged (some (checkpoint request)) s h =
      publish-IsOutcome (some (checkpoint request)) request s refl h
  on_event-IsJudged (some (heartbeat r)) s h = refl
  on_event-IsJudged (some (shutdown r)) s h = refl
  on_event-IsJudged (some (subscribe r)) s h = refl
  on_event-IsJudged (some (unsubscribe r)) s h = refl
  on_event-IsJudged (some (record_tool_started r)) s h = refl
  on_event-IsJudged (some (record_tool_finished r)) s h = refl
  on_event-IsJudged (some (record_side_effect r)) s h = refl
