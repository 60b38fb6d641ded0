-- ===== src/Grpc/Stream.antt =====
-- `open_stream` of `NexusGrpc`, and `ack` of daemon/src/grpc/stream.rs.
pub mod Replies
pub mod Judged
pub mod Laws
use attow_nexus.Prelude.{String, ◌<>◌, false, Option, none, some, List, [], ◌∷◌, ok, err}
use attow_nexus.Platform.{Platform}
use attow_nexus.Proto.Messages.{
  PublishDeltaRequest, ClientEvent, heartbeat, publish_delta, subscribe, unsubscribe, checkpoint,
  record_tool_started, record_tool_finished, record_side_effect, shutdown, ServerEvent, ack,
  checkpoint_committed, error,
}
use attow_nexus.Bus.Presence
use attow_nexus.Bus.State.{Mpsc}
use attow_nexus.Service.State.{App}
use attow_nexus.Service.Publish.{publish_delta_inner}
use attow_nexus.Grpc.Status.{Status, Answer, response, failure, status, internal}

-- What the stream has sent, and the status that has ended it, if one has.
pub record Sent : Type 0 where
  pub events : List ServerEvent
  pub ended : Option Status

-- `yield`, and the rest of the stream; `?` ends it
send :
    {Chan : Type 0} → Answer ServerEvent × App Chan → (App Chan → Sent × App Chan) → Sent × App Chan
send (response event, s) go_on =
    let (sent, last) = go_on s in
    (record { events = event ∷ sent.events; ended = sent.ended }, last)
send (failure refused, s) go_on = (record { events = []; ended = some refused }, s)

module _ (p : Platform) {Chan : Type 0} (mpsc : Mpsc Chan) (version : String) where
  -- `publish_delta_inner` with its errors as internal ones
  unfoldable pub publish : PublishDeltaRequest → App Chan → Answer ServerEvent × App Chan
  publish request s =
      let (result, after) = publish_delta_inner p mpsc version request s in
      (
        elim result [
          | ok r ↦ response (checkpoint_committed r.commit_id r.delta_id)
          | err message ↦ failure (status internal message)
        ],
        after,
      )

  -- The answer to a message of the client; a message may lack its event.
  unfoldable pub on_event : Option ClientEvent → App Chan → Answer ServerEvent × App Chan
  unfolding publish
  on_event none s = (
    response (
        error (record {
          code = "empty_event";
          message = "client event did not contain an event";
          retryable = false;
          metadata = none;
        })),
    s,
  )
  on_event (some (heartbeat h)) s = (
    response (ack h.agent_id "heartbeat accepted"),
    record s { bus = Presence.heartbeat p h.agent_id s.bus },
  )
  on_event (some (publish_delta request)) s = publish request s
  on_event (some (checkpoint request)) s = publish request s
  on_event (some (shutdown reason)) s =
      (response (ack "shutdown" ("shutdown requested: " <> reason)), s)
  on_event (some _) s = (response (ack "event" "event accepted"), s)

  -- What `inbound.message().await` gives, in its order, until the stream is closed: a message, or the status
  -- of a failure, which ends the stream as a message that fails does.
  pub open_stream : List (Answer (Option ClientEvent)) → App Chan → Sent × App Chan
  unfolding send
  open_stream [] s = (record { events = []; ended = none }, s)
  open_stream (failure broken ∷ rest) s = (record { events = []; ended = some broken }, s)
  open_stream (response message ∷ rest) s = send (on_event message s) (open_stream rest)
