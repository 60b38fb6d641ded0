-- ===== src/Grpc/Status.antt =====
-- `to_status`, the token check of the interceptor, and the order in which a method does its steps.
pub mod Laws
use attow_nexus.Prelude.Exec.{Exec}
use attow_nexus.Prelude.{
  String, Bool, true, false, Option, none, some, ok, err, if◌then◌else◌, has_part, strip_prefix,
}
use attow_nexus.Platform.{Platform}
use attow_nexus.Config.{Config}
use attow_nexus.Auth.{constant_time_eq}

pub data Code : Type 0 where
  unauthenticated permission_denied not_found invalid_argument internal : Code

pub record Status : Type 0 where
  pub code : Code
  pub message : String

-- `Result<Response<T>, Status>`
pub data Answer (A : Type 0) : Type 0 where
  response : A → Answer A
  failure : Status → Answer A

unfoldable pub status : Code → String → Status
status code message = record { code = code; message = message }

unfoldable pub code_of : String → Code
code_of message =
    if has_part "not found" message
    then not_found
    else if has_part "permission denied" message
    then permission_denied
    else if has_part "invalid" message
    then invalid_argument
    else internal

unfoldable pub to_status : String → Status
unfolding code_of
to_status message = status (code_of message) message

-- `.map(Response::new).map_err(to_status)`
unfoldable pub call : {S A : Type 0} → Exec S A → S → Answer A × S
call m s =
    let (result, after) = m s in
    (elim result [ ok a ↦ response a | err message ↦ failure (to_status message) ], after)

module _ (p : Platform) where
  unfoldable check_bearer : String → Option String → Option Status
  check_bearer expected none = some (status unauthenticated "bearer token required")
  check_bearer expected (some header) = elim (strip_prefix "Bearer " header) [
    | none ↦ some (status unauthenticated "bearer token required")
    | some actual ↦
        if constant_time_eq (p.as_bytes actual) (p.as_bytes expected)
        then none
        else some (status permission_denied "invalid bearer token")
  ]

  -- The status of a refused request; the header is the entry `authorization` with `to_str`.
  unfoldable pub validate_grpc : Option String → Config → Option Status
  unfolding check_bearer
  validate_grpc header config =
      if config.require_auth
      then (elim config.auth_token [
        | none ↦ some (status unauthenticated "auth token required")
        | some expected ↦ check_bearer expected header
      ])
      else none

  -- A method behind `AuthInterceptor`.
  unfoldable pub intercept :
      {S A : Type 0} → (S → Config) → Option String → (S → Answer A × S) → S → Answer A × S
  intercept config_of header method s = elim (validate_grpc header (config_of s)) [
    | none ↦ method s
    | some refused ↦ (failure refused, s)
  ]
