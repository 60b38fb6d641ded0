-- ===== src/Bus/Calls/Reach.antt =====
-- On `broadcast` of daemon/src/bus/mod.rs: which subscriptions a delta reaches, and what becomes of them.
use attow_nexus.Prelude.{
  ◌≡◌, refl, ◌∙◌, inl, inr, String, Bool, true, false, Option, none, some, [], ◌∷◌, lookup, update,
  lookup-update, lookup-remove, eq_refl, eq_iff, ◌==◌, arith, Bool-cases, Assoc, inc64,
  if◌then◌else◌,
}
use attow_nexus.Proto.Messages.{StateDelta, BroadcastDelta}
use attow_nexus.Bus.Pattern.{filter_matches}
use attow_nexus.Bus.State.{SendOutcome, sent, full, closed, Mpsc, Subscription, Bus}
use attow_nexus.Bus.Calls.{
  update_channel, push_recent, record_drop, set_sender, targets, settle, deliver, broadcast,
}

lookup-update_present :
    {V : Type 0} (k id : String) (f : V → V) (v : V) (m : Assoc V)
    → lookup k m ≡ some v
    → lookup id (update k f m) ≡ (if k == id then some (f v) else lookup id m)
lookup-update_present k id f v m h = ground (arith, lookup-update k id f m, eq_iff k id, h)

lookup-update_twice :
    {V : Type 0} (k id : String) (f g : V → V) (v : V) (m : Assoc V)
    → lookup k m ≡ some v
    → lookup id (update k g (update k f m)) ≡ (if k == id then some (g (f v)) else lookup id m)
lookup-update_twice k id f g v m h = ground (
  arith,
  lookup-update_present k k f v m h,
  lookup-update_present k id f v m h,
  lookup-update k id g (update k f m),
  eq_iff k id,
  eq_refl k,
)

keys_differ :
    {V : Type 0} (k j : String) (v : V) (m : Assoc V)
    → lookup k m ≡ none
    → lookup j m ≡ some v
    → (k == j) ≡ false
keys_differ k j v m h e = ground (arith, eq_iff k j, h, e)

module _ {Chan : Type 0} where
  -- Every subscription stands under its own id, and under it alone, as in a `HashMap`.
  abbrev pub IsKeyed : Assoc (Subscription Chan) → Type 0
  IsKeyed [] = Unit
  IsKeyed ((k, sub) ∷ subs) = (sub.subscriber_id ≡ k) × (lookup k subs ≡ none) × IsKeyed subs

  module _ (mpsc : Mpsc Chan) where
    -- What the answer of a queue makes of its subscription.
    abbrev pub answered :
        Bool → BroadcastDelta → SendOutcome × Chan → Subscription Chan → Option (Subscription Chan)
    answered durable message (sent, chan) sub = some (record sub { sender = chan })
    answered true message (full, chan) sub = some (record sub { sender = mpsc.send message chan })
    answered false message (full, chan) sub =
        some (record sub { sender = chan; dropped_count = inc64 sub.dropped_count })
    answered durable message (closed, chan) sub = none

    -- What a broadcast of this message makes of a subscription.
    abbrev pub after_broadcast :
        StateDelta → BroadcastDelta → Subscription Chan → Option (Subscription Chan)
    after_broadcast delta message sub =
        if filter_matches sub.filter delta.channel delta.durable
        then answered delta.durable message (mpsc.try_send message sub.sender) sub
        else some sub

    lookup-settle :
        (durable : Bool) (message : BroadcastDelta) (k id : String) (answer : SendOutcome × Chan)
        (sub : Subscription Chan) (b : Bus Chan)
        → lookup k b.subscriptions ≡ some sub
        → lookup id (settle mpsc durable message k answer b).subscriptions
          ≡ (if k == id then answered durable message answer sub else lookup id b.subscriptions)
    unfolding settle set_sender record_drop
    lookup-settle durable message k id (sent, chan) sub b h = lookup-update_present k id _ sub _ h
    lookup-settle true message k id (full, chan) sub b h = lookup-update_present k id _ sub _ h
    lookup-settle false message k id (full, chan) sub b h =
        lookup-update_twice k id _ _ sub b.subscriptions h
    lookup-settle durable message k id (closed, chan) sub b h = lookup-remove k id b.subscriptions

    lookup-deliver :
        (delta : StateDelta) (message : BroadcastDelta) (subs : Assoc (Subscription Chan))
        (b : Bus Chan)
        → IsKeyed subs
        → ((k : String) (sub : Subscription Chan)
            → lookup k subs ≡ some sub
            → lookup k b.subscriptions ≡ some sub)
        → (id : String)
        → lookup id (deliver mpsc delta.durable message (targets delta subs) b).subscriptions
          ≡ elim (lookup id subs) [
            | none ↦ lookup id b.subscriptions
            | some sub ↦ after_broadcast delta message sub
          ]
    unfolding deliver targets lookup
    lookup-deliver delta message [] b keyed there id = refl
    lookup-deliver delta message ((k, sub) ∷ subs) b (own, alone, keyed) there id =
        elim (Bool-cases (filter_matches sub.filter delta.channel delta.durable)) [
          | inl matches ↦ rw matches (
              simp own
                (after_head matches (lookup-deliver delta message subs sent_to keyed kept id)))
          | inr other ↦
              rw other (past_head other (lookup-deliver delta message subs b keyed below id))
        ]
      where
        answer : SendOutcome × Chan
        answer = mpsc.try_send message sub.sender

        sent_to : Bus Chan
        sent_to = settle mpsc delta.durable message k answer b

        here : lookup k b.subscriptions ≡ some sub
        here = there k sub (rw (eq_refl k) refl)

        below :
            (j : String) (other : Subscription Chan)
            → lookup j subs ≡ some other
            → lookup j b.subscriptions ≡ some other
        below j other e = there j other (rw (keys_differ k j other subs alone e) e)

        kept :
            (j : String) (other : Subscription Chan)
            → lookup j subs ≡ some other
            → lookup j sent_to.subscriptions ≡ some other
        kept j other e =
            lookup-settle delta.durable message k j answer sub b here
            ∙ rw (keys_differ k j other subs alone e) (below j other e)

        after_head :
            filter_matches sub.filter delta.channel delta.durable ≡ true
            → lookup id
                (deliver mpsc delta.durable message (targets delta subs) sent_to).subscriptions
              ≡ elim (lookup id subs) [
                | none ↦ lookup id sent_to.subscriptions
                | some other ↦ after_broadcast delta message other
              ]
            → lookup id
                (deliver mpsc delta.durable message (targets delta subs) sent_to).subscriptions
              ≡ elim (if k == id then some sub else lookup id subs) [
                | none ↦ lookup id b.subscriptions
                | some other ↦ after_broadcast delta message other
              ]
        after_head matches e = ground (
          arith,
          e,
          matches,
          alone,
          eq_iff k id,
          lookup-settle delta.durable message k id answer sub b here,
        )

        past_head :
            filter_matches sub.filter delta.channel delta.durable ≡ false
            → lookup id (deliver mpsc delta.durable message (targets delta subs) b).subscriptions
              ≡ elim (lookup id subs) [
                | none ↦ lookup id b.subscriptions
                | some other ↦ after_broadcast delta message other
              ]
            → lookup id (deliver mpsc delta.durable message (targets delta subs) b).subscriptions
              ≡ elim (if k == id then some sub else lookup id subs) [
                | none ↦ lookup id b.subscriptions
                | some other ↦ after_broadcast delta message other
              ]
        past_head other e = ground (arith, e, other, alone, eq_iff k id, here)

    -- When the subscriptions stand under their own ids, a broadcast leaves each as it was unless its
    -- filter takes the channel and the durability of the delta; else its queue is offered the message
    -- once, and the answer decides: it is taken, or a full queue waits for room for a durable message and
    -- counts any other as dropped, or a closed queue ends the subscription. There are no new
    -- subscriptions.
    pub lookup-broadcast :
        (delta : StateDelta) (commit_id id : String) (b : Bus Chan)
        → IsKeyed b.subscriptions
        → lookup id (broadcast mpsc delta commit_id b).subscriptions
          ≡ elim (lookup id b.subscriptions) [
            | none ↦ none
            | some sub ↦
                after_broadcast delta
                  (record { delta = some delta; commit_id = commit_id; redacted = true })
                  sub
          ]
    unfolding broadcast push_recent update_channel
    lookup-broadcast delta commit_id id b keyed =
        let message : BroadcastDelta = record {
          delta = some delta;
          commit_id = commit_id;
          redacted = true;
        } in
        let b' = push_recent delta commit_id (update_channel delta b) in
        lookup-deliver delta message b.subscriptions b' keyed (λ k sub e. e) id
        ∙ by_found (lookup id b.subscriptions) _ (after_broadcast delta message) refl
      where
        by_found :
            (found same : Option (Subscription Chan))
            (f : Subscription Chan → Option (Subscription Chan))
            → same ≡ found
            → (elim found as (λ _. Option (Subscription Chan)) [ none ↦ same | some sub ↦ f sub ])
              ≡ elim found as (λ _. Option (Subscription Chan)) [ none ↦ none | some sub ↦ f sub ]
        by_found none same f e = e
        by_found (some sub) same f e = refl
