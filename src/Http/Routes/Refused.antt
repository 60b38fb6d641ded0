-- ===== src/Http/Routes/Refused.antt =====
-- On `guard` of daemon/src/http/api.rs in the handlers of all routes.
use attow_nexus.Prelude.{
  String, ◌<>◌, ◌≡◌, ◌≢◌, refl, ◌⊎◌, inl, inr, Bool, true, false, Option, some,
}
use attow_nexus.Platform.{Platform}
use attow_nexus.Auth
use attow_nexus.Auth.{Access, validate}
use attow_nexus.Auth.Laws.{validate-granted}
use attow_nexus.Bus.State.{Mpsc}
use attow_nexus.Service.State.{App}
use attow_nexus.Http.Reply.{StatusCode, ApiResult, refusal, unauthorized, forbidden}
use attow_nexus.Http.Handler.{guard}
use attow_nexus.Http.Handlers.{
  agents, register_agent, channels, channel_snapshot, channel_deltas, publish_delta,
  universal_event, checkpoint, runs, run_commits, commit, diff_query, replay, fork, rollback,
  loop_warnings, metrics_summary,
}
use attow_nexus.Http.Routes.{
  Request, get_health, get_agents, get_channels, get_runs, get_loop_warnings, get_metrics_summary,
  get_events_stream, post_register, get_snapshot, get_deltas, get_run_commits, get_commit,
  post_delta, post_event, post_checkpoint, get_diff, post_replay, post_fork, post_rollback, serve,
}

-- all routes but two
abbrev pub is_guarded : Request → Bool
is_guarded get_health = false
is_guarded get_events_stream = false
is_guarded _ = true

abbrev pub unanswered : String
unanswered = "request is not authorized for this local Attow Nexus daemon"

-- what is refused, with its status
abbrev pub IsRefused : {S A : Type 0} → ApiResult A × S → S → Type 0
IsRefused result s =
    (code : StatusCode) × ((code ≡ unauthorized) ⊎ (code ≡ forbidden))
    × (result ≡ (refusal code unanswered, s))

module _ (p : Platform) {Chan : Type 0} where
  guard_refuses :
      (header : Option String) (s : App Chan)
      → validate p header s.config ≢ Auth.granted
      → IsRefused (guard p header s) s
  unfolding guard
  guard_refuses header s other = by_access (validate p header s.config) refl
    where
      by_access :
          (access : Access) → validate p header s.config ≡ access → IsRefused (guard p header s) s
      by_access Auth.granted e = absurd (other e)
      by_access Auth.unauthorized e = (unauthorized, inl refl, rw (guard, e) refl)
      by_access Auth.forbidden e = (forbidden, inr refl, rw (guard, e) refl)

  -- each of those routes begins with the guard
  stops :
      (mpsc : Mpsc Chan) (version : String) (header : Option String) (request : Request)
      (s : App Chan) (code : StatusCode)
      → is_guarded request ≡ true
      → guard p header s ≡ (refusal code unanswered, s)
      → serve p mpsc version header request s ≡ (refusal code unanswered, s)
  unfolding serve agents register_agent channels channel_snapshot channel_deltas publish_delta
      universal_event checkpoint runs run_commits commit diff_query replay fork rollback
      loop_warnings metrics_summary
  stops mpsc version header get_health s code guarded refused = cc
  stops mpsc version header get_events_stream s code guarded refused = cc
  stops mpsc version header get_agents s code guarded refused = rw refused refl
  stops mpsc version header get_channels s code guarded refused = rw refused refl
  stops mpsc version header get_runs s code guarded refused = rw refused refl
  stops mpsc version header get_loop_warnings s code guarded refused = rw refused refl
  stops mpsc version header get_metrics_summary s code guarded refused = rw refused refl
  stops mpsc version header (post_register body) s code guarded refused = rw refused refl
  stops mpsc version header (get_snapshot channel) s code guarded refused = rw refused refl
  stops mpsc version header (get_deltas channel) s code guarded refused = rw refused refl
  stops mpsc version header (get_run_commits run) s code guarded refused = rw refused refl
  stops mpsc version header (get_commit id) s code guarded refused = rw refused refl
  stops mpsc version header (post_delta body) s code guarded refused = rw refused refl
  stops mpsc version header (post_event body) s code guarded refused = rw refused refl
  stops mpsc version header (post_checkpoint body) s code guarded refused = rw refused refl
  stops mpsc version header (get_diff query) s code guarded refused = rw refused refl
  stops mpsc version header (post_replay body) s code guarded refused = rw refused refl
  stops mpsc version header (post_fork body) s code guarded refused = rw refused refl
  stops mpsc version header (post_rollback body) s code guarded refused = rw refused refl

  -- With authentication, and when no other text has the bytes of the configured token, a request whose
  -- authorization header is not the word Bearer, a space and that token is refused on every route
  -- but those of the health and of the event stream, as unauthorized or forbidden, and nothing
  -- has changed.
  pub serve-IsRefused :
      (mpsc : Mpsc Chan) (version : String) (header : Option String) (request : Request)
      (s : App Chan)
      → is_guarded request ≡ true
      → s.config.require_auth ≡ true
      → ((text expected : String)
          → s.config.auth_token ≡ some expected
          → p.as_bytes text ≡ p.as_bytes expected
          → text ≡ expected)
      → ((expected : String)
          → s.config.auth_token ≡ some expected
          → header ≢ some ("Bearer " <> expected))
      → IsRefused (serve p mpsc version header request s) s
  serve-IsRefused mpsc version header request s guarded auth injective wrong =
      let (code, which, refused) = guard_refuses header s (λ e.
        let (expected, token, right) = (validate-granted p header s.config injective auth).0 e in
        wrong expected token right) in
      (code, which, stops mpsc version header request s code guarded refused)
