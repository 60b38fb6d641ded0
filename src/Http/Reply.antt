-- ===== src/Http/Reply.antt =====
-- `ApiResult` and `internal_error`.
use attow_nexus.Prelude.{String, if◌then◌else◌, has_part}

pub data StatusCode : Type 0 where
  bad_request unauthorized forbidden not_found internal_server_error : StatusCode

-- `Result<T, (StatusCode, String)>`
pub data ApiResult (A : Type 0) : Type 0 where
  reply : A → ApiResult A
  refusal : StatusCode → String → ApiResult A

infixl 5 ◌>>=◌ ◌>>◌
abbrev pub ◌>>=◌ : {A B : Type 0} → ApiResult A → (A → ApiResult B) → ApiResult B
reply a >>= f = f a
refusal code message >>= f = refusal code message

abbrev pub ◌>>◌ : {A B : Type 0} → ApiResult A → ApiResult B → ApiResult B
first >> second = first >>= λ _. second

unfoldable pub status_of : String → StatusCode
status_of message =
    if has_part "not found" message
    then not_found
    else if has_part "permission denied" message
    then forbidden
    else internal_server_error

unfoldable pub internal_error : {A : Type 0} → String → ApiResult A
unfolding status_of
internal_error message = refusal (status_of message) message
