-- ===== src/Config/Policy.antt =====
-- `validate_network_policy`: what the daemon refuses to bind to, and when it wants a token.
use attow_nexus.Prelude.{
  String, ◌<>◌, Bool, true, false, ◌&&◌, Option, none, some, List, [], ◌∷◌, ◌==◌, if◌then◌else◌,
  Result, ok, err, ◌≡◌, ◌↔◌, eq_iff, arith,
}
use attow_nexus.Config.{SocketAddr, Config}

-- The loop over the three addresses.
check_addresses : List (String × SocketAddr) → Result (Unit {0})
check_addresses [] = ok tt
check_addresses ((name, addr) ∷ rest) =
    if addr.is_loopback
    then check_addresses rest
    else err (name <> " must bind to a loopback address unless NEXUS_ALLOW_REMOTE=true")

token_policy : String → Bool → Option String → Result (Unit {0})
token_policy mode required none =
    if mode == "tcp" && required
    then err "TCP mode requires NEXUS_AUTH_TOKEN unless NEXUS_REQUIRE_AUTH=false"
    else ok tt
token_policy mode required (some token) = ok tt

pub validate_network_policy : Config → Result (Unit {0})
unfolding check_addresses token_policy
validate_network_policy c =
    elim (if c.allow_remote
      then ok tt
      else check_addresses (
          ("NEXUS_GRPC_ADDR", c.grpc_addr)
          ∷ ("NEXUS_HTTP_ADDR", c.http_addr)
          ∷ ("NEXUS_METRICS_ADDR", c.metrics_addr)
          ∷ [])) [ err e ↦ err e | ok _ ↦ token_policy c.bind_mode c.require_auth c.auth_token ]

-- The policy passes exactly when every address is loopback or remote binding is allowed, and a TCP
-- daemon that requires authentication has a token.
pub validate_network_policy-eq-ok :
    (c : Config)
    → (validate_network_policy c ≡ ok tt) ↔ (
        (c.allow_remote ≡ false
          → (c.grpc_addr.is_loopback ≡ true)
            × (c.http_addr.is_loopback ≡ true)
            × (c.metrics_addr.is_loopback ≡ true))
        × (c.bind_mode ≡ "tcp"
            → c.require_auth ≡ true
            → (token : String) × (c.auth_token ≡ some token)))
unfolding validate_network_policy
validate_network_policy-eq-ok c = ground (arith, eq_iff c.bind_mode "tcp")
