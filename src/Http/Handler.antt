-- ===== src/Http/Handler.antt =====
-- The order in which a handler does its steps, and `guard`.
use attow_nexus.Prelude.Exec.{Exec}
use attow_nexus.Prelude.{String, Option, ok, err, ◌≡◌, refl}
use attow_nexus.Platform.{Platform}
use attow_nexus.Auth
use attow_nexus.Auth.{validate}
use attow_nexus.Service.State.{App}
use attow_nexus.Http.Reply.{ApiResult, reply, refusal, unauthorized, forbidden, internal_error}

abbrev pub Handler : Type 0 → Type 0 → Type 0
Handler S A = S → ApiResult A × S

module _ {S A : Type 0} where
  abbrev pub answer : A → Handler S A
  answer a s = (reply a, s)

  abbrev pub given : ApiResult A → Handler S A
  given r s = (r, s)

module _ {S A B : Type 0} where
  abbrev pub and_then : ApiResult A → (A → Handler S B) → Handler S B
  and_then (reply a) f s = f a s
  and_then (refusal code message) f s = (refusal code message, s)

  infixl 5 ◌>>=◌ ◌>>◌
  abbrev pub ◌>>=◌ : Handler S A → (A → Handler S B) → Handler S B
  ◌>>=◌ first f s = let (result, after) = first s in and_then result f after

  abbrev pub ◌>>◌ : Handler S A → Handler S B → Handler S B
  first >> second = first >>= λ _. second

-- `.map_err(internal_error)?`
unfoldable pub call : {S A : Type 0} → Exec S A → Handler S A
call m s =
    let (result, after) = m s in
    (elim result [ ok a ↦ reply a | err message ↦ internal_error message ], after)

-- the header is `headers.get(AUTHORIZATION)` with `to_str`
unfoldable pub guard : {Chan : Type 0} → Platform → Option String → Handler (App Chan) Unit
guard p header s = elim (validate p header s.config) [
  | Auth.granted ↦ (reply tt, s)
  | Auth.unauthorized ↦
      (refusal unauthorized "request is not authorized for this local Attow Nexus daemon", s)
  | Auth.forbidden ↦
      (refusal forbidden "request is not authorized for this local Attow Nexus daemon", s)
]

pub call-ok :
    {S A : Type 0} (m : Exec S A) {a : A} {s after : S}
    → m s ≡ (ok a, after)
    → call m s ≡ (reply a, after)
unfolding call
call-ok m e = rw e refl

pub call-err :
    {S A : Type 0} (m : Exec S A) {message : String} {s after : S}
    → m s ≡ (err message, after)
    → call m s ≡ (internal_error message, after)
unfolding call
call-err m e = rw e refl
