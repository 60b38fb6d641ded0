-- ===== src/Auth/Laws.antt =====
-- On daemon/src/auth/permissions.rs and token.rs.
use Prim.Native.Nat.{bit_or, bit_xor, bit_or-bitwise, bit_xor-bitwise, digits, differ}
use attow_nexus.Prelude.{
  ℕ, zero, suc, ◌+◌, ◌*◌, ◌/◌, ◌%◌, ◌≤◌, max, String, ◌<>◌, ◌≡◌, refl, ap, ◌↔◌, ◌≢◌, Option-cases,
  inl, inr, true, Option, some, List, [], ◌∷◌, length, any, contains, contains_head, contains_tail,
  contains-nil, contains-cons_cases, arith, Bool-cases, ||-cases, sym, ◌∙◌, strip_prefix,
  strip_prefix_iff,
}
use mathlib.Core.Bool.{false≢true}
use attow_nexus.Platform.{Platform}
use attow_nexus.Config.{Config}
use attow_nexus.Proto.{PermissionScope}
use attow_nexus.Bus.Pattern.{channel_pattern_matches, channel_pattern_matches-Covers, Covers}
use attow_nexus.Auth.{
  scope_matches, is_allowed, fold_bytes, constant_time_eq, granted, unauthorized, forbidden,
  compare_tokens, validate,
}

scope_matches_lem : (s r : String) → scope_matches s r ≡ channel_pattern_matches s r
unfolding scope_matches channel_pattern_matches
scope_matches_lem s r = refl

any-Covers :
    (scopes : List PermissionScope) (required : String)
    → any (λ scope. scope_matches scope required) scopes ≡ true
    → (scope : String) × (contains scope scopes ≡ true) × Covers scope required
any-Covers [] required h = absurd (false≢true h)
any-Covers (s ∷ scopes) required h = elim (||-cases (scope_matches s required) _ h) [
  | inl found ↦ (
    s,
    contains_head s scopes,
    (channel_pattern_matches-Covers s required).0 (sym (scope_matches_lem s required) ∙ found),
  )
  | inr later ↦
      let (scope, on, covers) = any-Covers scopes required later in
      (scope, contains_tail scope s scopes on, covers)
]

Covers-any :
    (scopes : List PermissionScope) (required scope : String)
    → contains scope scopes ≡ true
    → Covers scope required
    → any (λ scope. scope_matches scope required) scopes ≡ true
Covers-any [] required scope on covers = contains-nil scope on
Covers-any (s ∷ scopes) required scope on covers = elim (contains-cons_cases scope s scopes on) [
  | inl same ↦
      let found' : scope_matches s required ≡ true =
        scope_matches_lem s required
        ∙ (ap (λ x. channel_pattern_matches x required) same
            ∙ (channel_pattern_matches-Covers scope required).1 covers) in
      ground (arith, found')
  | inr later ↦ ground (arith, Covers-any scopes required scope later covers)
]

-- With authentication a request is allowed exactly when one of the granted scopes covers it.
pub is_allowed-Covers :
    (config : Config) (scopes : List PermissionScope) (required : String)
    → config.require_auth ≡ true
    → (is_allowed config scopes required ≡ true)
      ↔ ((scope : String) × (contains scope scopes ≡ true) × Covers scope required)
unfolding is_allowed
is_allowed-Covers config scopes required auth =
    rw auth (
      any-Covers scopes required,
      λ (scope, on, covers). Covers-any scopes required scope on covers,
    )

distinct : unauthorized ≢ granted
distinct h = cc

distinct' : forbidden ≢ granted
distinct' h = cc

or_zero : (n a b : ℕ) → a ≤ n → digits (λ b. b) max n a b ≡ 0 → (a ≡ 0) × (b ≡ 0)
or_zero zero zero b le h = (refl, h)
or_zero zero (suc a) b le h = absurd (omega arith)
or_zero (suc n) zero b le h = (refl, h)
or_zero (suc n) (suc a) b le h =
    let (x, y) = or_zero n (suc a / 2) (b / 2) (omega arith) (omega (arith, h)) in
    absurd (omega (arith, h, x, y))

differ_zero : (a b : ℕ) → differ a b ≡ 0 → a ≡ b
differ_zero zero b h = sym h
differ_zero (suc a) zero h = h
differ_zero (suc a) (suc b) h = ap suc (differ_zero a b h)

differ_self : (a : ℕ) → differ a a ≡ 0
differ_self zero = refl
differ_self (suc a) = differ_self a

xor_zero : (n a b : ℕ) → a ≤ n → digits (λ b. b) differ n a b ≡ 0 → a ≡ b
xor_zero zero zero b le h = sym h
xor_zero zero (suc a) b le h = absurd (omega arith)
xor_zero (suc n) zero b le h = sym h
xor_zero (suc n) (suc a) b le h =
    let d = digits (λ b. b) differ n (suc a / 2) (b / 2) in
    let e = differ (suc a % 2) (b % 2) in
    let whole : d * 2 + e ≡ 0 = h in
    let x = xor_zero n (suc a / 2) (b / 2) (omega arith) (omega arith) in
    let y = differ_zero (suc a % 2) (b % 2) (omega arith) in omega (arith, x, y)

xor_self : (n a : ℕ) → a ≤ n → digits (λ b. b) differ n a a ≡ 0
xor_self zero zero le = refl
xor_self zero (suc a) le = absurd (omega arith)
xor_self (suc n) zero le = refl
xor_self (suc n) (suc a) le =
    let x = xor_self n (suc a / 2) (omega arith) in
    let y = differ_self (suc a % 2) in rw (x, y) refl

bit_xor_zero : (a b : ℕ) → bit_xor a b ≡ 0 → a ≡ b
bit_xor_zero a b h = xor_zero a a b (omega arith) (sym (bit_xor-bitwise a b) ∙ h)

bit_or_zero : (a b : ℕ) → bit_or a b ≡ 0 → (a ≡ 0) × (b ≡ 0)
bit_or_zero a b h = or_zero a a b (omega arith) (sym (bit_or-bitwise a b) ∙ h)

-- The fold is zero exactly when no pair of bytes differs.
fold_bytes_zero :
    (acc : ℕ) (as' bs : List ℕ)
    → length as' ≡ length bs
    → fold_bytes acc as' bs ≡ 0
    → (acc ≡ 0) × (as' ≡ bs)
unfolding fold_bytes
fold_bytes_zero acc [] [] len h = (h, refl)
fold_bytes_zero acc [] (b ∷ bs) len h = absurd (omega (arith, len))
fold_bytes_zero acc (a ∷ as') [] len h = absurd (omega (arith, len))
fold_bytes_zero acc (a ∷ as') (b ∷ bs) len h =
    let (both, rest) = fold_bytes_zero (bit_or acc (bit_xor a b)) as' bs (omega (arith, len)) h in
    let (x, y) = bit_or_zero acc (bit_xor a b) both in (x, rw (bit_xor_zero a b y, rest) refl)

fold_bytes_self : (as' : List ℕ) → fold_bytes 0 as' as' ≡ 0
unfolding fold_bytes
fold_bytes_self [] = refl
fold_bytes_self (a ∷ as') =
    rw (bit_xor-bitwise a a, xor_self a a (omega arith), bit_or-bitwise 0 0) (fold_bytes_self as')

-- The comparison in constant time answers true exactly for equal lists of bytes.
pub constant_time_eq-true : (as' bs : List ℕ) → (constant_time_eq as' bs ≡ true) ↔ (as' ≡ bs)
unfolding constant_time_eq
constant_time_eq-true as' bs = (sound, complete)
  where
    sound : constant_time_eq as' bs ≡ true → as' ≡ bs
    sound h =
        let len : length as' ≡ length bs = ground arith in
        let zero_fold : fold_bytes 0 as' bs ≡ 0 = ground (arith, len) in
        (fold_bytes_zero 0 as' bs len zero_fold).1

    complete : as' ≡ bs → constant_time_eq as' bs ≡ true
    complete e = rw (← e) (ground (arith, fold_bytes_self as'))

module _ (p : Platform) where
  accepts :
      (expected text : String)
      → strip_prefix "Bearer " text ≡ some expected
      → compare_tokens p (some expected) (some text) ≡ granted
  unfolding compare_tokens
  accepts expected text stripped =
      let same = (constant_time_eq-true (p.as_bytes expected) (p.as_bytes expected)).1 refl in
      rw (compare_tokens, stripped, same) refl

  -- With authentication, and when no other text has the bytes of the configured token, a request is
  -- granted exactly when its authorization header is the word Bearer, a space and that token.
  pub validate-granted :
      (header : Option String) (config : Config)
      → ((s expected : String)
          → config.auth_token ≡ some expected
          → p.as_bytes s ≡ p.as_bytes expected
          → s ≡ expected)
      → config.require_auth ≡ true
      → (validate p header config ≡ granted) ↔ (
          (expected : String) × (config.auth_token ≡ some expected)
          × (header ≡ some ("Bearer " <> expected)))
  unfolding validate compare_tokens
  validate-granted header config injective auth = (sound, complete)
    where
      sound :
          validate p header config ≡ granted
          → (expected : String) × (config.auth_token ≡ some expected)
            × (header ≡ some ("Bearer " <> expected))
      sound h = elim (Option-cases config.auth_token) [
        | inl missing ↦ absurd (distinct (ground (arith, auth, missing)))
        | inr (expected, e) ↦ elim (Option-cases header) [
          | inl missing ↦ absurd (distinct (ground (arith, auth, e, missing)))
          | inr (text, t) ↦ elim (Option-cases (strip_prefix "Bearer " text)) [
            | inl other ↦ absurd (distinct (ground (arith, auth, e, t, other)))
            | inr (actual, a) ↦
                elim (Bool-cases (constant_time_eq (p.as_bytes actual) (p.as_bytes expected))) [
                  | inr differs ↦ absurd (distinct' (ground (arith, auth, e, t, a, differs)))
                  | inl same ↦
                      let eq = injective actual expected e ((constant_time_eq-true _ _).0 same) in
                      let split = (strip_prefix_iff "Bearer " text actual).0 a in
                      (expected, e, t ∙ ap some (split ∙ ap (λ x. "Bearer " <> x) eq))
                ]
          ]
        ]
      ]

      complete :
          ((expected : String) × (config.auth_token ≡ some expected)
            × (header ≡ some ("Bearer " <> expected)))
          → validate p header config ≡ granted
      complete (expected, e, h) =
          let stripped = (strip_prefix_iff "Bearer " ("Bearer " <> expected) expected).1 refl in
          rw (auth, e, h) (accepts expected ("Bearer " <> expected) stripped)
