-- ===== src/Grpc/Stream/Laws.antt =====
-- On `open_stream` of daemon/src/grpc/service.rs: what a client has been told when the stream ends.
use attow_nexus.Prelude.{
  String, ◌≡◌, refl, sym, ap, subst, ◌∙◌, Option, none, some, List, [], ◌∷◌, ◌++◌, map,
}
use attow_nexus.Platform.{Platform}
use attow_nexus.Proto.Messages.{ClientEvent, ServerEvent}
use attow_nexus.Bus.State.{Mpsc}
use attow_nexus.Service.State.{App}
use attow_nexus.Service.Publish.Answered.{IsStored}
use attow_nexus.Service.Steady.{Step, Step-healthy}
use attow_nexus.Grpc.Status.{Status, Answer, response, failure}
use attow_nexus.Grpc.Stream.{Sent, send, on_event, open_stream}
use attow_nexus.Grpc.Steps.{on_event-IsStep}
use attow_nexus.Grpc.Stream.Replies.{
  IsReply, AreReplies, no_more, then_reply, IsRefusal, Keeps, Step-Keeps, IsReply-kept,
}
use attow_nexus.Grpc.Stream.Judged.{IsOutcome, IsJudged, on_event-IsJudged}

module _ (p : Platform) {Chan : Type 0} (mpsc : Mpsc Chan) (version : String) where
  answer-then :
      (message : Option ClientEvent) (rest : List (Answer (Option ClientEvent)))
      {event : ServerEvent} (s : App Chan) {after : App Chan}
      → on_event p mpsc version message s ≡ (response event, after)
      → open_stream p mpsc version (response message ∷ rest) s ≡ (
        record {
          events = event ∷ (open_stream p mpsc version rest after).0.events;
          ended = (open_stream p mpsc version rest after).0.ended;
        },
        (open_stream p mpsc version rest after).1,
      )
  unfolding open_stream send
  answer-then message rest s e = rw e refl

  stop-then :
      (message : Option ClientEvent) (rest : List (Answer (Option ClientEvent))) {status : Status}
      (s : App Chan) {after : App Chan}
      → on_event p mpsc version message s ≡ (failure status, after)
      → open_stream p mpsc version (response message ∷ rest) s
        ≡ (record { events = []; ended = some status }, after)
  unfolding open_stream send
  stop-then message rest s e = rw e refl

  open_stream-Keeps :
      (items : List (Answer (Option ClientEvent))) (s : App Chan)
      → s.store.faults ≡ []
      → Keeps s (open_stream p mpsc version items s).1
  unfolding open_stream
  open_stream-Keeps [] s h id held = held
  open_stream-Keeps (failure broken ∷ rest) s h id held = held
  open_stream-Keeps (response m ∷ rest) s h id held =
      by_answer (on_event p mpsc version m s) refl (on_event-IsStep p mpsc version m s h)
        (λ after g kept_id. open_stream-Keeps rest after g id kept_id)
    where
      by_answer :
          (r : Answer ServerEvent × App Chan)
          → on_event p mpsc version m s ≡ r
          → Step p s r.1
          → ((after : App Chan)
              → after.store.faults ≡ []
              → IsStored id after
              → IsStored id (open_stream p mpsc version rest after).1)
          → IsStored id (open_stream p mpsc version (response m ∷ rest) s).1
      by_answer (response event, after) e step rest_keeps =
          subst (λ x. IsStored id x.1) (sym (answer-then m rest s e))
            (rest_keeps after (Step-healthy p s after step) (Step-Keeps p s after step id held))
      by_answer (failure st, after) e step rest_keeps =
          subst (λ x. IsStored id x.1) (sym (stop-then m rest s e))
            (Step-Keeps p s after step id held)

  -- Why a stream ends in this state, given what is left of its messages and the state before them: the client
  -- has closed it, it broke, or a publication failed. What comes after is not done.
  abbrev pub IsEnd :
      List (Answer (Option ClientEvent)) → App Chan → Option Status → App Chan → Type 0
  IsEnd [] mid ended last = (ended ≡ none) × (last ≡ mid)
  IsEnd (failure broken ∷ rest) mid ended last = (ended ≡ some broken) × (last ≡ mid)
  IsEnd (response m ∷ rest) mid ended last =
      (st : Status) × (ended ≡ some st) × IsRefusal p mpsc version m mid st last

  -- The messages that a stream has answered, what it has left, and the state between them.
  pub record IsServed (items : List (Answer (Option ClientEvent))) (s : App Chan) (sent : Sent)
      (last : App Chan) : Type 0 where
    pub taken : List (Option ClientEvent)
    pub left : List (Answer (Option ClientEvent))
    pub mid : App Chan
    pub split : items ≡ map response taken ++ left
    pub before :
        open_stream p mpsc version (map response taken) s
        ≡ (record { events = sent.events; ended = none }, mid)
    pub replies : AreReplies last taken sent.events
    pub end : IsEnd left mid sent.ended last

  IsServed-cons :
      (m : Option ClientEvent) (rest : List (Answer (Option ClientEvent))) (event : ServerEvent)
      (s after : App Chan) (sent : Sent) (last : App Chan)
      → on_event p mpsc version m s ≡ (response event, after)
      → IsReply m event last
      → IsServed rest after sent last
      → IsServed
          (response m ∷ rest)
          s
          (record { events = event ∷ sent.events; ended = sent.ended })
          last
  IsServed-cons m rest event s after sent last first reply tail = record {
    taken = m ∷ tail.taken;
    left = tail.left;
    mid = tail.mid;
    split = ap (λ l. response m ∷ l) tail.split;
    before = answer-then m (map response tail.taken) s first ∙ rw tail.before refl;
    replies = then_reply reply tail.replies;
    end = tail.end;
  }

  IsServed-stop :
      (item : Answer (Option ClientEvent)) (rest : List (Answer (Option ClientEvent)))
      (s : App Chan) (st : Status) (last : App Chan)
      → IsEnd (item ∷ rest) s (some st) last
      → IsServed (item ∷ rest) s (record { events = []; ended = some st }) last
  unfolding open_stream
  IsServed-stop item rest s st last end = record {
    taken = [];
    left = item ∷ rest;
    mid = s;
    split = refl;
    before = refl;
    replies = no_more;
    end = end;
  }

  -- While no database call fails, a stream answers its messages one by one, each with the event that fits it,
  -- until the client closes it, until it breaks, whose status then ends it, or until a publication fails,
  -- which ends it with that error as an internal status; nothing that comes after is done. A
  -- heartbeat is acknowledged to its agent, a shutdown with its reason, a message without an event is an
  -- error, and any other is acknowledged. A publication or checkpoint is answered with the id of a
  -- commit, which the graph and the store hold when the stream has ended; the id may be empty
  -- only for a delta that is not durable.
  pub open_stream-IsServed :
      (items : List (Answer (Option ClientEvent))) (s : App Chan)
      → s.store.faults ≡ []
      → IsServed items s
          (open_stream p mpsc version items s).0
          (open_stream p mpsc version items s).1
  unfolding open_stream IsOutcome
  open_stream-IsServed [] s h = record {
    taken = [];
    left = [];
    mid = s;
    split = refl;
    before = refl;
    replies = no_more;
    end = (refl, refl);
  }
  open_stream-IsServed (failure broken ∷ rest) s h =
      IsServed-stop (failure broken) rest s broken s (refl, refl)
  open_stream-IsServed (response m ∷ rest) s h =
      by_answer (on_event p mpsc version m s) refl (on_event-IsJudged p mpsc version m s h)
        (on_event-IsStep p mpsc version m s h) (open_stream-IsServed rest)
    where
      Goal : Sent × App Chan → Type 0
      Goal x = IsServed (response m ∷ rest) s x.0 x.1

      by_answer :
          (r : Answer ServerEvent × App Chan)
          → on_event p mpsc version m s ≡ r
          → IsJudged p mpsc version m s r
          → Step p s r.1
          → ((after : App Chan)
              → after.store.faults ≡ []
              → IsServed rest after
                  (open_stream p mpsc version rest after).0
                  (open_stream p mpsc version rest after).1)
          → Goal (open_stream p mpsc version (response m ∷ rest) s)
      by_answer (response event, after) e reply step served =
          let g = Step-healthy p s after step in
          subst Goal (sym (answer-then m rest s e)) (
            IsServed-cons m rest event s after _ _ e
              (IsReply-kept m event after _ (open_stream-Keeps rest after g) reply)
              (served after g))
      by_answer (failure st, after) e refused step served =
          subst Goal (sym (stop-then m rest s e))
            (IsServed-stop (response m) rest s st after (st, refl, refused))
