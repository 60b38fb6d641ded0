-- ===== src/Grpc/Status/Laws.antt =====
-- On the token checks of daemon/src/auth/token.rs, and the codes of `to_status`.
use attow_nexus.Prelude.{
  String, ◌≡◌, refl, inl, inr, ◌↔◌, Option, none, some, Bool-cases, Option-cases, strip_prefix,
}
use attow_nexus.Platform.{Platform}
use attow_nexus.Config.{Config}
use attow_nexus.Auth.{validate, compare_tokens, granted, constant_time_eq}
use attow_nexus.Grpc.Status.{status, unauthenticated, check_bearer, validate_grpc}

-- Both interfaces admit the same authorization headers: the gRPC interceptor passes a request
-- exactly when the HTTP guard grants it.
pub validate_grpc-validate :
    (p : Platform) (header : Option String) (config : Config)
    → (validate_grpc p header config ≡ none) ↔ (validate p header config ≡ granted)
unfolding validate_grpc check_bearer validate compare_tokens
validate_grpc-validate p header config = elim (Bool-cases config.require_auth) [
  | inr free ↦ rw free (λ h. refl, λ h. refl)
  | inl auth ↦ rw auth (by_token config.auth_token header)
]
  where
    by_token :
        (token header : Option String)
        → ((elim token [
          | none ↦ some (status unauthenticated "auth token required")
          | some expected ↦ check_bearer p expected header
        ])
            ≡ none)
          ↔ (compare_tokens p token header ≡ granted)
    by_token none header = (λ h. cc, λ h. cc)
    by_token (some expected) none = (λ h. cc, λ h. cc)
    by_token (some expected) (some text) = elim (Option-cases (strip_prefix "Bearer " text)) [
      | inl other ↦ rw (check_bearer, compare_tokens, other) (λ h. cc, λ h. cc)
      | inr (actual, e) ↦
          elim (Bool-cases (constant_time_eq (p.as_bytes actual) (p.as_bytes expected))) [
            | inl same ↦ rw (check_bearer, compare_tokens, e, same) (λ h. refl, λ h. refl)
            | inr differ ↦ rw (check_bearer, compare_tokens, e, differ) (λ h. cc, λ h. cc)
          ]
    ]
