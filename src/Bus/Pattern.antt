-- ===== src/Bus/Pattern.antt =====
-- `channel_pattern_matches` and `filter_matches` of daemon/src/bus/mod.rs, `scope_matches` of
-- daemon/src/auth/permissions.rs: a name, a prefix with a star, or the star.
use attow_nexus.Prelude.{
  ◌≡◌, ◌↔◌, inl, inr, ◌<>◌, Bool-cases, Option-cases, strip_star_iff, has_prefix_iff, eq_iff, arith,
  String, Bool, true, false, none, some, ◌&&◌, ◌||◌, not, ◌==◌, if◌then◌else◌, any, strip_star,
  has_prefix,
}
use mathlib.Core.Bool.{false≢true}
use attow_nexus.Proto.Messages.{SubscriptionFilter}

unfoldable pub channel_pattern_matches : String → String → Bool
channel_pattern_matches pattern_ channel =
    if pattern_ == "*" || pattern_ == channel
    then true
    else elim (strip_star pattern_) [ some prefix ↦ has_prefix prefix channel | none ↦ false ]

pub filter_matches : SubscriptionFilter → String → Bool → Bool
filter_matches filter channel durable =
    if filter.durable_only && not durable
    then false
    else any (λ pattern_. channel_pattern_matches pattern_ channel) filter.channel_patterns

-- What a pattern or a scope stands for: everything, one name, or the names with a prefix.
pub data Covers (pattern_ name : String) : Type 0 where
  everything : pattern_ ≡ "*" → Covers pattern_ name
  exactly : pattern_ ≡ name → Covers pattern_ name
  below :
      (prefix rest : String)
      → pattern_ ≡ prefix <> "*"
      → name ≡ prefix <> rest
      → Covers pattern_ name

-- A channel pattern matches exactly the channels that it covers.
pub channel_pattern_matches-Covers :
    (pattern_ channel : String)
    → (channel_pattern_matches pattern_ channel ≡ true) ↔ Covers pattern_ channel
unfolding channel_pattern_matches
channel_pattern_matches-Covers pattern_ channel = (sound, complete)
  where
    sound : channel_pattern_matches pattern_ channel ≡ true → Covers pattern_ channel
    sound h = elim (Bool-cases (pattern_ == "*")) [
      | inl all ↦ everything ((eq_iff pattern_ "*").0 all)
      | inr some_of ↦ elim (Bool-cases (pattern_ == channel)) [
        | inl same ↦ exactly ((eq_iff pattern_ channel).0 same)
        | inr other ↦ elim (Option-cases (strip_star pattern_)) [
          | inl plain ↦ absurd (false≢true (ground (arith, some_of, other, plain)))
          | inr (prefix, e) ↦
              let (rest, split) =
                (has_prefix_iff prefix channel).0 (ground (arith, some_of, other, e)) in
              below prefix rest ((strip_star_iff pattern_ prefix).0 e) split
        ]
      ]
    ]

    complete : Covers pattern_ channel → channel_pattern_matches pattern_ channel ≡ true
    complete (everything e) = ground (arith, (eq_iff pattern_ "*").1 e)
    complete (exactly e) = ground (arith, (eq_iff pattern_ channel).1 e)
    complete (below prefix rest e split) = ground (
      arith,
      (strip_star_iff pattern_ prefix).1 e,
      (has_prefix_iff prefix channel).1 (rest, split),
    )
