-- ===== src/Cli/Follow/Laws.antt =====
-- On the loop of `subscribe` in cli/src/main.rs over the deltas that daemon/src/bus/mod.rs keeps.
use attow_nexus.Prelude.{
  suc, String, ◌≡◌, refl, sym, inl, inr, Bool, true, false, ◌&&◌, some, List, [], ◌∷◌, ◌++◌, ◌==◌,
  eqb, eq_refl, eq_iff, if◌then◌else◌, length, filter, Bool-cases,
}
use attow_nexus.Proto.Messages.{StateDelta}
use attow_nexus.Bus.State.{Mpsc, Bus, DeltaInfo}
use attow_nexus.Bus.Calls.{push_ring, pop_front, delta_info, recent, broadcast}
use attow_nexus.Bus.Calls.Delivery.{recent_deltas-broadcast}
use attow_nexus.Cli.Follow.{skip, follow}

skip-append : {A : Type 0} (xs ys : List A) → skip (length xs) (xs ++ ys) ≡ ys
unfolding skip
skip-append [] ys = refl
skip-append (x ∷ xs) ys = skip-append xs ys

skip-longer : {A : Type 0} (xs : List A) (y : A) → skip (suc (length xs)) (xs ++ y ∷ []) ≡ []
unfolding skip
skip-longer [] y = refl
skip-longer (x ∷ xs) y = skip-longer xs y

-- the test of `recent` for a channel
abbrev filter_channel : String → List DeltaInfo → List DeltaInfo
filter_channel channel = filter (λ d. channel == d.channel)

filter-append :
    (channel : String) (xs : List DeltaInfo) (d : DeltaInfo)
    → filter_channel channel (xs ++ d ∷ []) ≡ (
        if channel == d.channel
        then filter_channel channel xs ++ d ∷ []
        else filter_channel channel xs)
filter-append channel [] d = refl
filter-append channel (x ∷ xs) d = elim (Bool-cases (channel == x.channel)) [
  | inl on ↦
      rw (on, filter-append channel xs d)
        (elim (Bool-cases (channel == d.channel)) [
          | inl here ↦ rw here refl
          | inr off ↦ rw off refl
        ])
  | inr other ↦ rw (other, filter-append channel xs d) refl
]

-- whether the oldest delta is one of the channel
abbrev pub oldest_on : String → List DeltaInfo → Bool
oldest_on channel [] = false
oldest_on channel (d ∷ ds) = channel == d.channel

follow-push_ring :
    (channel : String) (ring : List DeltaInfo) (d : DeltaInfo)
    → channel ≡ d.channel
    → (follow (length (filter_channel channel ring)) (filter_channel channel (push_ring ring d))).0
      ≡ (if eqb (length ring) 256 && oldest_on channel ring then [] else d ∷ [])
unfolding follow push_ring pop_front skip
follow-push_ring channel [] d same = rw (sym same, eq_refl channel) refl
follow-push_ring channel (x ∷ xs) d same = elim (Bool-cases (eqb (length (x ∷ xs)) 256)) [
  | inr room ↦
      rw (room, filter-append channel (x ∷ xs) d, on_channel)
        (skip-append (filter_channel channel (x ∷ xs)) (d ∷ []))
  | inl is_full ↦ elim (Bool-cases (channel == x.channel)) [
    | inl oldest ↦
        rw (is_full, oldest, filter-append channel xs d, on_channel)
          (skip-longer (filter_channel channel xs) d)
    | inr other ↦
        rw (is_full, other, filter-append channel xs d, on_channel)
          (skip-append (filter_channel channel xs) (d ∷ []))
  ]
]
  where
    on_channel : (channel == d.channel) ≡ true
    on_channel = (eq_iff channel d.channel).1 same

module _ {Chan : Type 0} (mpsc : Mpsc Chan) where
  -- A client that has seen all recent deltas of a channel and looks again after one broadcast there
  -- prints that delta, unless the daemon's ring of 256 is full and its oldest delta is one of the
  -- channel: then it prints nothing, and has missed the delta.
  pub follow-broadcast :
      (delta : StateDelta) (commit_id : String) (b : Bus Chan)
      → (follow
          (length (recent (some delta.channel) b))
          (recent (some delta.channel) (broadcast mpsc delta commit_id b))).0
        ≡ (if eqb (length b.recent_deltas) 256 && oldest_on delta.channel b.recent_deltas
            then []
            else delta_info delta commit_id ∷ [])
  unfolding recent delta_info
  follow-broadcast delta commit_id b =
      rw (recent_deltas-broadcast mpsc delta commit_id b)
        (follow-push_ring delta.channel b.recent_deltas (delta_info delta commit_id) refl)
