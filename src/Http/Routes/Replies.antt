-- ===== src/Http/Routes/Replies.antt =====
-- On the answers of `commit` and `checkpoint` of daemon/src/http/api.rs, and their statuses.
use attow_nexus.Prelude.{
  String, ◌≡◌, refl, Option, none, some, ok, err, ok_or, has_part, has_prefix, strip_prefix,
}
use attow_nexus.Platform.{Platform}
use attow_nexus.Json.{Value}
use attow_nexus.Proto.{Commit}
use attow_nexus.Auth
use attow_nexus.Auth.{validate}
use attow_nexus.Bus.State.{Mpsc}
use attow_nexus.Ledger.Store.Laws.{view, IsReadable, get_commit-view}
use attow_nexus.Service.State.{App}
use attow_nexus.Service.Publish.{get_commit_inner}
use attow_nexus.Http.Reply.{ApiResult, reply, refusal, status_of, internal_error, not_found}
use attow_nexus.Http.Handler.{call, guard, and_then, answer}
use attow_nexus.Http.Render.{commit_detail}
use attow_nexus.Http.Handlers.{commit}

module _ (p : Platform) {Chan : Type 0} (mpsc : Mpsc Chan) (version : String) where
  guard_passes :
      (header : Option String) (s : App Chan)
      → validate p header s.config ≡ Auth.granted
      → guard p header s ≡ (reply tt, s)
  unfolding guard
  guard_passes header s e = rw (guard, e) refl

  call_get_commit :
      (id : String) (s : App Chan)
      → IsReadable p s.store
      → call (get_commit_inner p id) s ≡ (
        elim (view p s.store id) [ none ↦ refusal not_found "commit not found" | some c ↦ reply c ],
        s,
      )
  unfolding call get_commit_inner internal_error status_of has_part has_prefix strip_prefix
  call_get_commit id s readable =
      rw (get_commit-view p id s.store readable) (by_view (view p s.store id))
    where
      by_view :
          (found : Option Commit)
          → ◌≡◌ {A = ApiResult Commit × App Chan}
              (
                elim (ok_or found "commit not found") [
                  | ok a ↦ reply a
                  | err message ↦ internal_error message
                ],
                s,
              )
              (elim found [ none ↦ refusal not_found "commit not found" | some c ↦ reply c ], s)
      by_view none = refl
      by_view (some c) = refl

  -- On a store that can be read, a granted request for a commit is answered with the commit's
  -- details when the store holds it, and with the status 404 when not; nothing has changed.
  pub commit_answers :
      (header : Option String) (id : String) (s : App Chan)
      → validate p header s.config ≡ Auth.granted
      → IsReadable p s.store
      → commit p mpsc version header id s ≡ (
        elim (view p s.store id) [
          | none ↦ refusal not_found "commit not found"
          | some c ↦ reply (commit_detail p c)
        ],
        s,
      )
  unfolding commit
  commit_answers header id s granted readable =
      rw (guard_passes header s granted, call_get_commit id s readable)
        (by_view (view p s.store id))
    where
      by_view :
          (found : Option Commit)
          → ◌≡◌ {A = ApiResult Value × App Chan}
              (and_then
                (elim found [ none ↦ refusal not_found "commit not found" | some c ↦ reply c ])
                (λ c. answer (commit_detail p c))
                s)
              (
                elim found [
                  | none ↦ refusal not_found "commit not found"
                  | some c ↦ reply (commit_detail p c)
                ],
                s,
              )
      by_view none = refl
      by_view (some c) = refl
