-- ===== src/Grpc/Stream/Replies.antt =====
-- On the events of `open_stream` of daemon/src/grpc/service.rs: which one answers which message.
use attow_nexus.Prelude.{
  String, ◌<>◌, ◌≡◌, ap, ◌∙◌, inl, inr, false, Option, none, some, List, [], ◌∷◌, err, contains_key,
  arith,
}
use attow_nexus.Platform.{Platform}
use attow_nexus.Proto.Messages.{
  PublishDeltaRequest, ClientEvent, heartbeat, publish_delta, subscribe, unsubscribe, checkpoint,
  record_tool_started, record_tool_finished, record_side_effect, shutdown, ServerEvent, ack,
  checkpoint_committed, error,
}
use attow_nexus.Bus.State.{Mpsc}
use attow_nexus.Dag.Startup.{contains_key-append}
use attow_nexus.Service.State.{App}
use attow_nexus.Service.Commits.Persist.{contains_key-write_commit}
use attow_nexus.Service.Publish.{publish_delta_inner}
use attow_nexus.Service.Publish.Answered.{IsStored, IsAnswered}
use attow_nexus.Service.Steady.{Step, kept, added}
use attow_nexus.Grpc.Status.{Status, status, internal}

-- the publication that a message asks for
abbrev pub request_of : Option ClientEvent → Option PublishDeltaRequest
request_of (some (publish_delta request)) = some request
request_of (some (checkpoint request)) = some request
request_of _ = none

module _ {Chan : Type 0} where
  -- what stays stored from one state to the other
  abbrev pub Keeps : App Chan → App Chan → Type 0
  Keeps s t = (id : String) → IsStored id s → IsStored id t

  module _ (p : Platform) where
    pub Step-Keeps : (s t : App Chan) → Step p s t → Keeps s t
    Step-Keeps s t (kept (healthy, table, graph)) id (in_graph, in_table) = (
      ap (λ d. contains_key id d.parents) graph ∙ in_graph,
      ap (contains_key id) table ∙ in_table,
    )
    Step-Keeps s t (added c dag accepted graph table healthy) id (in_graph, in_table) = (
      ap (λ d. contains_key id d.parents) graph
          ∙ contains_key-append c.commit_id id c.parent_commit_ids s.dag dag accepted
          ∙ rw in_graph (ground arith),
      ap (contains_key id) table
          ∙ contains_key-write_commit p c id s.store
          ∙ rw in_table (ground arith),
    )

module _ {Chan : Type 0} where
  -- The event of a commit: when the stream has ended, the graph and the store hold what it names; it may name
  -- nothing for a delta that is not durable.
  abbrev pub IsNotice : PublishDeltaRequest → ServerEvent → App Chan → Type 0
  IsNotice request event last =
      (commit_id : String) × (delta_id : String) × (event ≡ checkpoint_committed commit_id delta_id)
      × IsAnswered request commit_id last

  -- Which event answers a message, in a stream that ends in this state.
  abbrev pub IsReply : Option ClientEvent → ServerEvent → App Chan → Type 0
  IsReply none event last =
      event
      ≡ error (record {
        code = "empty_event";
        message = "client event did not contain an event";
        retryable = false;
        metadata = none;
      })
  IsReply (some (heartbeat h)) event last = event ≡ ack h.agent_id "heartbeat accepted"
  IsReply (some (publish_delta request)) event last = IsNotice request event last
  IsReply (some (checkpoint request)) event last = IsNotice request event last
  IsReply (some (shutdown reason)) event last =
      event ≡ ack "shutdown" ("shutdown requested: " <> reason)
  IsReply (some (subscribe r)) event last = event ≡ ack "event" "event accepted"
  IsReply (some (unsubscribe r)) event last = event ≡ ack "event" "event accepted"
  IsReply (some (record_tool_started r)) event last = event ≡ ack "event" "event accepted"
  IsReply (some (record_tool_finished r)) event last = event ≡ ack "event" "event accepted"
  IsReply (some (record_side_effect r)) event last = event ≡ ack "event" "event accepted"

  -- one reply for each message, in their order
  pub data AreReplies (last : App Chan)
      : List (Option ClientEvent) → List ServerEvent → Type 0 where
    no_more : AreReplies last [] []
    then_reply :
        {m : Option ClientEvent} {ms : List (Option ClientEvent)} {e : ServerEvent}
        {es : List ServerEvent}
        → IsReply m e last
        → AreReplies last ms es
        → AreReplies last (m ∷ ms) (e ∷ es)

  IsAnswered-kept :
      (request : PublishDeltaRequest) (commit_id : String) (s t : App Chan)
      → Keeps s t
      → IsAnswered request commit_id s
      → IsAnswered request commit_id t
  IsAnswered-kept request commit_id s t keep (inl brief) = inl brief
  IsAnswered-kept request commit_id s t keep (inr stored) = inr (keep commit_id stored)

  IsNotice-kept :
      (request : PublishDeltaRequest) (event : ServerEvent) (s t : App Chan)
      → Keeps s t
      → IsNotice request event s
      → IsNotice request event t
  IsNotice-kept request event s t keep (commit_id, delta_id, e, a) =
      (commit_id, delta_id, e, IsAnswered-kept request commit_id s t keep a)

  pub IsReply-kept :
      (m : Option ClientEvent) (event : ServerEvent) (s t : App Chan)
      → Keeps s t
      → IsReply m event s
      → IsReply m event t
  IsReply-kept (some (publish_delta request)) event s t keep r =
      IsNotice-kept request event s t keep r
  IsReply-kept (some (checkpoint request)) event s t keep r = IsNotice-kept request event s t keep r
  IsReply-kept none event s t keep r = r
  IsReply-kept (some (heartbeat h)) event s t keep r = r
  IsReply-kept (some (shutdown h)) event s t keep r = r
  IsReply-kept (some (subscribe h)) event s t keep r = r
  IsReply-kept (some (unsubscribe h)) event s t keep r = r
  IsReply-kept (some (record_tool_started h)) event s t keep r = r
  IsReply-kept (some (record_tool_finished h)) event s t keep r = r
  IsReply-kept (some (record_side_effect h)) event s t keep r = r

module _ (p : Platform) {Chan : Type 0} (mpsc : Mpsc Chan) (version : String) where
  -- The message asks for a publication, which fails; the status is the internal one with its error.
  abbrev pub IsRefusal : Option ClientEvent → App Chan → Status → App Chan → Type 0
  IsRefusal m s st after =
      (request : PublishDeltaRequest) × (e : String) × (request_of m ≡ some request)
      × (publish_delta_inner p mpsc version request s ≡ (err e, after))
      × (st ≡ status internal e)
