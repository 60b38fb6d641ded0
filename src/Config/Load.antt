-- ===== src/Config/Load.antt =====
-- `Config::from_env`: a setting is a variable of the environment, or else an entry of nexus.toml, or
-- else its default.
pub mod Laws
use Prim.Native.Char.{Char, code}
use Prim.Native.String
use attow_nexus.Prelude.{
  ℕ, zero, suc, ◌+◌, ◌*◌, ◌-◌, ◌^◌, String, ◌<>◌, Bool, true, false, ◌&&◌, ◌||◌, not, Option, none,
  some, List, [], ◌∷◌, ◌==◌, eqb, ltb, leb, if◌then◌else◌, any, contains, Assoc, lookup, Result, ok,
  err, ok_or, ◌>>=◌, ℤ, pos, negsuc, strip_prefix, to_string,
}
use attow_nexus.Config.{SocketAddr, Config}

-- `toml::Value`; the other kinds give no setting
pub data TomlValue : Type 0 where
  text : String → TomlValue
  integer : ℤ → TomlValue
  boolean : Bool → TomlValue
  float datetime array table : TomlValue

-- What is read from outside: the variables that are set, as texts (`env::var`) or as the system has them
-- (`env::var_os`), the parsed nexus.toml if there is one,
-- `str::parse::<SocketAddr>` and `PathBuf::join`, and `cfg!(windows)`.
pub record Environment : Type 0 where
  pub var : String → Option String
  pub var_os : String → Option String
  pub nexus_toml : Option (Assoc TomlValue)
  pub parse_addr : String → Option SocketAddr
  pub join : String → String → String
  pub windows : Bool

abbrev letters : List (Char × Char)
letters =
    ("A", "a")
    ∷ ("B", "b")
    ∷ ("C", "c")
    ∷ ("D", "d")
    ∷ ("E", "e")
    ∷ ("F", "f")
    ∷ ("G", "g")
    ∷ ("H", "h")
    ∷ ("I", "i")
    ∷ ("J", "j")
    ∷ ("K", "k")
    ∷ ("L", "l")
    ∷ ("M", "m")
    ∷ ("N", "n")
    ∷ ("O", "o")
    ∷ ("P", "p")
    ∷ ("Q", "q")
    ∷ ("R", "r")
    ∷ ("S", "s")
    ∷ ("T", "t")
    ∷ ("U", "u")
    ∷ ("V", "v")
    ∷ ("W", "w")
    ∷ ("X", "x")
    ∷ ("Y", "y")
    ∷ ("Z", "z")
    ∷ []

lower_char : List (Char × Char) → Char → Char
lower_char [] c = c
lower_char ((upper, lower) ∷ rest) c =
    if eqb (code c) (code upper) then lower else lower_char rest c

-- `to_ascii_lowercase`
lowercase : String → String
unfolding lower_char
lowercase String.[] = ""
lowercase (String.◌∷◌ c s) = String.◌∷◌ (lower_char letters c) (lowercase s)

toml_text : TomlValue → Option String
toml_text (text t) = some t
toml_text (integer (pos n)) = some (to_string n)
toml_text (integer (negsuc n)) = some ("-" <> to_string (suc n))
toml_text (boolean true) = some "true"
toml_text (boolean false) = some "false"
toml_text _ = none

-- `char::is_whitespace`
is_whitespace : ℕ → Bool
is_whitespace c =
    (leb 9 c && leb c 13)
    || eqb c 32
    || eqb c 133
    || eqb c 160
    || eqb c 5760
    || (leb 8192 c && leb c 8202)
    || eqb c 8232
    || eqb c 8233
    || eqb c 8239
    || eqb c 8287
    || eqb c 12288

-- `value.trim().is_empty()`
pub is_blank : String → Bool
unfolding is_whitespace
is_blank String.[] = true
is_blank (String.◌∷◌ c s) = is_whitespace (code c) && is_blank s

-- the digits of `str::parse::<usize>`, after those that make `n`
parse_digits : ℕ → String → Option ℕ
parse_digits n String.[] = some n
parse_digits n (String.◌∷◌ c s) =
    let next = 10 * n + (code c - b'0') in
    let rest = parse_digits next s in
    if leb b'0' (code c) && leb (code c) b'9' && ltb next (2 ^ 64) then rest else none

-- a sign may come first
parse_usize : String → Option ℕ
unfolding parse_digits
parse_usize String.[] = none
parse_usize (String.◌∷◌ c String.[]) = parse_digits 0 (String.◌∷◌ c String.[])
parse_usize (String.◌∷◌ c (String.◌∷◌ d s)) =
    parse_digits 0 (if eqb (code c) b'+' then String.◌∷◌ d s else String.◌∷◌ c (String.◌∷◌ d s))

-- `matches!(value, "1" | "true" | "TRUE" | "yes" | "on")`
abbrev pub truthy : List String
truthy = "1" ∷ "true" ∷ "TRUE" ∷ "yes" ∷ "on" ∷ []

module _ (env : Environment) where
  file_key : String → String
  unfolding lowercase
  file_key key = lowercase (elim (strip_prefix "NEXUS_" key) [ none ↦ key | some rest ↦ rest ])

  unfoldable pub file_value : String → Option String
  unfolding file_key toml_text
  file_value key = elim env.nexus_toml [
    | none ↦ none
    | some config ↦ elim (lookup (file_key key) config) [
      | none ↦ none
      | some value ↦ toml_text value
    ]
  ]

  -- `env::var(key).ok().or_else(|| file_value(key))`
  unfoldable pub setting : String → Option String
  unfolding file_value
  setting key = elim (env.var key) [ some value ↦ some value | none ↦ file_value key ]

  unfoldable pub env_or : String → String → String
  env_or key default = elim (setting key) [ some value ↦ value | none ↦ default ]

  unfoldable pub optional_env : String → Option String
  optional_env key = elim (setting key) [
    | none ↦ none
    | some value ↦ if is_blank value then none else some value
  ]

  unfoldable pub env_bool : String → Bool → Bool
  env_bool key default = elim (setting key) [ none ↦ default | some value ↦ contains value truthy ]

  unfoldable pub env_usize : String → ℕ → ℕ
  unfolding parse_usize
  env_usize key default = elim (setting key) [
    | none ↦ default
    | some value ↦ elim (parse_usize value) [ none ↦ default | some n ↦ n ]
  ]

  -- `USERPROFILE`, or else `HOME`, as the system has them
  unfoldable pub home : Option String
  home = elim (env.var_os "USERPROFILE") [ some dir ↦ some dir | none ↦ env.var_os "HOME" ]

  unfoldable pub expand_tilde : String → String
  unfolding home
  expand_tilde path = elim (strip_prefix "~/" path) [
    | none ↦ path
    | some rest ↦ elim home [ none ↦ path | some dir ↦ env.join dir rest ]
  ]

  -- `.parse().context(..)`
  unfoldable pub address : String → String → Result SocketAddr
  address key default = ok_or (env.parse_addr (env_or key default)) ("parse " <> key)

  -- everything but the three addresses
  unfoldable pub settings : SocketAddr → SocketAddr → SocketAddr → Config
  unfolding expand_tilde
  settings grpc http metrics = record {
    data_dir = expand_tilde (env_or "NEXUS_DATA_DIR" "~/.nexus");
    bind_mode = env_or "NEXUS_BIND_MODE" (if env.windows then "tcp" else "uds");
    grpc_addr = grpc;
    uds_path = expand_tilde (env_or "NEXUS_UDS_PATH" "/tmp/nexus.sock");
    windows_pipe_name = env_or "NEXUS_WINDOWS_PIPE_NAME" "\\\\.\\pipe\\nexus";
    http_addr = http;
    metrics_addr = metrics;
    auth_token = optional_env "NEXUS_AUTH_TOKEN";
    require_auth = env_bool "NEXUS_REQUIRE_AUTH" true;
    allow_remote = env_bool "NEXUS_ALLOW_REMOTE" false;
    store = env_or "NEXUS_STORE" "sqlite";
    sqlite_path = expand_tilde (env_or "NEXUS_SQLITE_PATH" "~/.nexus/nexus.sqlite");
    rocksdb_path = expand_tilde (env_or "NEXUS_ROCKSDB_PATH" "~/.nexus/rocksdb");
    artifact_dir = expand_tilde (env_or "NEXUS_ARTIFACT_DIR" "~/.nexus/artifacts");
    compression_threshold_bytes = env_usize "NEXUS_COMPRESSION_THRESHOLD_BYTES" 4096;
    max_inline_payload_bytes = env_usize "NEXUS_MAX_INLINE_PAYLOAD_BYTES" 65536;
    persist_ephemeral = env_bool "NEXUS_PERSIST_EPHEMERAL" false;
    redaction_enabled = env_bool "NEXUS_REDACTION_ENABLED" true;
    encryption_at_rest = env_bool "NEXUS_ENCRYPTION_AT_REST" false;
    loop_detection_enabled = env_bool "NEXUS_LOOP_DETECTION_ENABLED" true;
    mcp_enabled = env_bool "NEXUS_MCP_ENABLED" false;
    otel_enabled = env_bool "NEXUS_OTEL_ENABLED" false;
    cluster_enabled = env_bool "NEXUS_CLUSTER_ENABLED" false;
    cluster_role = env_or "NEXUS_CLUSTER_ROLE" "primary";
    cluster_primary_addr = optional_env "NEXUS_CLUSTER_PRIMARY_ADDR";
    cluster_shared_token = optional_env "NEXUS_CLUSTER_SHARED_TOKEN";
  }

  unfoldable pub from_env : Result Config
  unfolding address settings
  from_env = do
    grpc ← address "NEXUS_GRPC_ADDR" "127.0.0.1:7821"
    http ← address "NEXUS_HTTP_ADDR" "127.0.0.1:7822"
    metrics ← address "NEXUS_METRICS_ADDR" "127.0.0.1:7823"
    ok (settings grpc http metrics)
