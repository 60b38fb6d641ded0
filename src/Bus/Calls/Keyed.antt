-- ===== src/Bus/Calls/Keyed.antt =====
-- On the table of subscriptions of daemon/src/bus/mod.rs: each stands under its own id.
use attow_nexus.Prelude.{
  ◌≡◌, refl, inl, inr, String, Bool, true, false, [], ◌∷◌, ℕ, List, lookup, insert, update, remove,
  lookup-insert, lookup-remove, lookup-update, eq_iff, ◌==◌, arith, Bool-cases, Assoc, ◌∙◌,
}
use attow_nexus.Proto.Messages.{StateDelta, SubscriptionFilter, BroadcastDelta}
use attow_nexus.Bus.State.{SendOutcome, sent, full, closed, Mpsc, Subscription, Bus}
use attow_nexus.Bus.Calls.{
  update_channel, push_recent, record_drop, set_sender, settle, deliver, broadcast, subscribe,
}
use attow_nexus.Bus.Calls.Reach.{IsKeyed}

module _ {Chan : Type 0} where
  insert-IsKeyed :
      (id : String) (sub : Subscription Chan) (subs : Assoc (Subscription Chan))
      → sub.subscriber_id ≡ id
      → IsKeyed subs
      → IsKeyed (insert id sub subs)
  unfolding insert lookup
  insert-IsKeyed id sub [] own keyed = (own, refl, tt)
  insert-IsKeyed id sub ((k, other) ∷ subs) own (its, alone, keyed) = elim (Bool-cases (k == id)) [
    | inl same ↦ rw same (own, ground (arith, alone, (eq_iff k id).0 same), keyed)
    | inr differ ↦ rw differ (
      its,
      ground (arith, lookup-insert id k sub subs, alone, differ, eq_iff k id, eq_iff id k),
      insert-IsKeyed id sub subs own keyed,
    )
  ]

  pub update-IsKeyed :
      (id : String) (f : Subscription Chan → Subscription Chan) (subs : Assoc (Subscription Chan))
      → ((sub : Subscription Chan) → (f sub).subscriber_id ≡ sub.subscriber_id)
      → IsKeyed subs
      → IsKeyed (update id f subs)
  unfolding update lookup
  update-IsKeyed id f [] own keyed = tt
  update-IsKeyed id f ((k, other) ∷ subs) own (its, alone, keyed) = elim (Bool-cases (k == id)) [
    | inl same ↦ rw same (own other ∙ its, alone, keyed)
    | inr differ ↦ rw differ (
      its,
      ground (arith, lookup-update id k f subs, alone, differ, eq_iff k id, eq_iff id k),
      update-IsKeyed id f subs own keyed,
    )
  ]

  remove-IsKeyed :
      (id : String) (subs : Assoc (Subscription Chan)) → IsKeyed subs → IsKeyed (remove id subs)
  unfolding remove lookup
  remove-IsKeyed id [] keyed = tt
  remove-IsKeyed id ((k, other) ∷ subs) (its, alone, keyed) = elim (Bool-cases (k == id)) [
    | inl same ↦ rw same (remove-IsKeyed id subs keyed)
    | inr differ ↦ rw differ (
      its,
      ground (arith, lookup-remove id k subs, alone, differ, eq_iff k id, eq_iff id k),
      remove-IsKeyed id subs keyed,
    )
  ]

  module _ (mpsc : Mpsc Chan) where
    settle-IsKeyed :
        (durable : Bool) (message : BroadcastDelta) (id : String) (answer : SendOutcome × Chan)
        (b : Bus Chan)
        → IsKeyed b.subscriptions
        → IsKeyed (settle mpsc durable message id answer b).subscriptions
    unfolding settle set_sender record_drop
    settle-IsKeyed durable message id (sent, chan) b keyed =
        update-IsKeyed id _ _ (λ sub. refl) keyed
    settle-IsKeyed true message id (full, chan) b keyed = update-IsKeyed id _ _ (λ sub. refl) keyed
    settle-IsKeyed false message id (full, chan) b keyed =
        update-IsKeyed id _ _ (λ sub. refl) (update-IsKeyed id _ _ (λ sub. refl) keyed)
    settle-IsKeyed durable message id (closed, chan) b keyed = remove-IsKeyed id _ keyed

    deliver-IsKeyed :
        (durable : Bool) (message : BroadcastDelta) (subs : List (String × Chan)) (b : Bus Chan)
        → IsKeyed b.subscriptions
        → IsKeyed (deliver mpsc durable message subs b).subscriptions
    unfolding deliver
    deliver-IsKeyed durable message [] b keyed = keyed
    deliver-IsKeyed durable message ((id, chan) ∷ rest) b keyed =
        deliver-IsKeyed durable message rest _ (settle-IsKeyed durable message id _ b keyed)

    pub broadcast-IsKeyed :
        (delta : StateDelta) (commit_id : String) (b : Bus Chan)
        → IsKeyed b.subscriptions
        → IsKeyed (broadcast mpsc delta commit_id b).subscriptions
    unfolding broadcast push_recent update_channel
    broadcast-IsKeyed delta commit_id b keyed = deliver-IsKeyed delta.durable _ _ _ keyed

    pub subscribe-IsKeyed :
        (id : String) (filter : SubscriptionFilter) (capacity : ℕ) (b : Bus Chan)
        → IsKeyed b.subscriptions
        → IsKeyed (subscribe mpsc id filter capacity b).subscriptions
    unfolding subscribe
    subscribe-IsKeyed id filter capacity b keyed = insert-IsKeyed id _ _ refl keyed
