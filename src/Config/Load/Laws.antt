-- ===== src/Config/Load/Laws.antt =====
-- On `from_env` of daemon/src/config.rs: what turns authentication off, or remote binding on.
use attow_nexus.Prelude.{
  String, ◌≡◌, refl, sym, ◌∙◌, ap, inl, inr, ◌↔◌, true, false, some, contains, Result, ok, err,
  ◌>>=◌, Bool-cases, Option-cases, arith,
}
use attow_nexus.Config.{SocketAddr, Config}
use attow_nexus.Config.Load.{
  Environment, setting, truthy, is_blank, optional_env, env_bool, address, settings, from_env,
}

from_result :
    {A B : Type 0} (r : Result A) (f : A → Result B) (b : B)
    → (r >>= f) ≡ ok b
    → (a : A) × (f a ≡ ok b)
from_result (ok a) f b h = (a, h)
from_result (err e) f b h = cc

-- the settings that an accepted environment has given
from_env-eq-ok :
    (env : Environment) (c : Config)
    → from_env env ≡ ok c
    → (grpc http metrics : SocketAddr) × (settings env grpc http metrics ≡ c)
unfolding from_env
from_env-eq-ok env c h =
    let (grpc, h1) = from_result (address env "NEXUS_GRPC_ADDR" "127.0.0.1:7821") _ c h in
    let (http, h2) = from_result (address env "NEXUS_HTTP_ADDR" "127.0.0.1:7822") _ c h1 in
    let (metrics, h3) = from_result (address env "NEXUS_METRICS_ADDR" "127.0.0.1:7823") _ c h2 in
    (grpc, http, metrics, cc)

env_bool-true :
    (env : Environment) (key : String)
    → (env_bool env key false ≡ true)
      ↔ ((v : String) × (setting env key ≡ some v) × (contains v truthy ≡ true))
unfolding env_bool
env_bool-true env key = elim (Option-cases (setting env key)) [
  | inl missing ↦ rw (env_bool, missing) (λ h. cc, λ (v, e, _). cc)
  | inr (value, found) ↦
      rw (env_bool, found)
        (
          λ h. (value, refl, h),
          λ (v, e, listed). let same : value ≡ v = cc in ap (λ x. contains x truthy) same ∙ listed,
        )
]

env_bool-false :
    (env : Environment) (key : String)
    → (env_bool env key true ≡ false)
      ↔ ((v : String) × (setting env key ≡ some v) × (contains v truthy ≡ false))
unfolding env_bool
env_bool-false env key = elim (Option-cases (setting env key)) [
  | inl missing ↦ rw (env_bool, missing) (λ h. cc, λ (v, e, _). cc)
  | inr (value, found) ↦
      rw (env_bool, found)
        (
          λ h. (value, refl, h),
          λ (v, e, listed). let same : value ≡ v = cc in ap (λ x. contains x truthy) same ∙ listed,
        )
]

optional_env_iff :
    (env : Environment) (key t : String)
    → (optional_env env key ≡ some t) ↔ ((setting env key ≡ some t) × (is_blank t ≡ false))
unfolding optional_env
optional_env_iff env key t = elim (Option-cases (setting env key)) [
  | inl missing ↦ rw (optional_env, missing) (λ h. cc, λ (e, _). cc)
  | inr (value, found) ↦ elim (Bool-cases (is_blank value)) [
    | inl blank ↦
        rw (optional_env, found, blank) (λ h. cc, λ (e, full). ground (arith, blank, full, e))
    | inr full ↦
        rw (optional_env, found, full)
          (λ h. (h, let same : value ≡ t = cc in ap is_blank (sym same) ∙ full), λ (e, _). e)
  ]
]

-- Authentication is off only in a daemon whose setting NEXUS_REQUIRE_AUTH is there and is not one of
-- the words for true; remote binding is on only when NEXUS_ALLOW_REMOTE is there and is one of them; and
-- a token is always a setting that is not blank.
pub from_env-require_auth :
    (env : Environment) (c : Config)
    → from_env env ≡ ok c
    → ((c.require_auth ≡ false) ↔ (
        (v : String) × (setting env "NEXUS_REQUIRE_AUTH" ≡ some v) × (contains v truthy ≡ false)))
      × ((c.allow_remote ≡ true) ↔ (
          (v : String) × (setting env "NEXUS_ALLOW_REMOTE" ≡ some v) × (contains v truthy ≡ true)))
      × ((t : String)
          → (c.auth_token ≡ some t)
            ↔ ((setting env "NEXUS_AUTH_TOKEN" ≡ some t) × (is_blank t ≡ false)))
unfolding settings
from_env-require_auth env c h =
    let (grpc, http, metrics, made) = from_env-eq-ok env c h in
    rw (← made) (
      env_bool-false env "NEXUS_REQUIRE_AUTH",
      env_bool-true env "NEXUS_ALLOW_REMOTE",
      optional_env_iff env "NEXUS_AUTH_TOKEN",
    )
