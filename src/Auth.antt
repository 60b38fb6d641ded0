-- ===== src/Auth.antt =====
-- daemon/src/auth/: scopes, grants and bearer tokens. The authorization header is what
-- `headers.get(AUTHORIZATION)` and `to_str` have made of the request: a text, or nothing.
pub mod Laws
use attow_nexus.Prelude.{
  ℕ, String, ◌<>◌, Bool, true, false, Option, none, some, List, [], ◌∷◌, ◌==◌, ◌||◌, eqb,
  if◌then◌else◌, length, is_empty, any, strip_star, strip_prefix, has_prefix,
}
use Prim.Native.Nat.{bit_or, bit_xor}
use attow_nexus.Platform.{Platform}
use attow_nexus.Config.{Config}
use attow_nexus.Proto.{PermissionScope}

unfoldable pub channel_write : String → String
channel_write pattern_ = "channel:write:" <> pattern_

unfoldable pub channel_checkpoint : String → String
channel_checkpoint pattern_ = "channel:checkpoint:" <> pattern_

unfoldable pub scope_matches : String → String → Bool
scope_matches scope required =
    if scope == "*" || scope == required
    then true
    else elim (strip_star scope) [ some prefix ↦ has_prefix prefix required | none ↦ false ]

pub grant_requested : Config → List PermissionScope → List PermissionScope
grant_requested config requested =
    if config.require_auth
    then (if is_empty requested
        then "channel:read:*" ∷ "channel:write:*" ∷ "channel:checkpoint:*" ∷ "ledger:read:*" ∷ []
        else requested)
    else "*" ∷ []

unfoldable pub is_allowed : Config → List PermissionScope → String → Bool
is_allowed config granted required =
    if config.require_auth then any (λ scope. scope_matches scope required) granted else true

-- The fold over the zipped bytes; the second list is as long as the first.
fold_bytes : ℕ → List ℕ → List ℕ → ℕ
fold_bytes acc (a ∷ as') (b ∷ bs) = fold_bytes (bit_or acc (bit_xor a b)) as' bs
fold_bytes acc _ _ = acc

pub constant_time_eq : List ℕ → List ℕ → Bool
unfolding fold_bytes
constant_time_eq a b = if eqb (length a) (length b) then eqb (fold_bytes 0 a b) 0 else false

pub data Access : Type 0 where
  granted unauthorized forbidden : Access

module _ (p : Platform) where
  -- `validate_http`; `validate_grpc` has the same branches, with gRPC statuses
  unfoldable pub compare_tokens : Option String → Option String → Access
  compare_tokens none header = unauthorized
  compare_tokens (some expected) none = unauthorized
  compare_tokens (some expected) (some header) = elim (strip_prefix "Bearer " header) [
    | none ↦ unauthorized
    | some actual ↦
        if constant_time_eq (p.as_bytes actual) (p.as_bytes expected) then granted else forbidden
  ]

  unfoldable pub validate : Option String → Config → Access
  unfolding compare_tokens
  validate header config =
      if config.require_auth then compare_tokens config.auth_token header else granted
