-- ===== src/Http/Events/Spec.antt =====
-- On `UniversalEventBody::try_from_value` of daemon/src/http/api.rs: what it asks of each field.
use attow_nexus.Prelude.{
  ℕ, String, ◌<>◌, ◌≡◌, refl, sym, ◌∙◌, ap, ◌<◌, ◌^◌, ◌⊎◌, inl, inr, ◌↔◌, Bool, true, false, Option,
  none, some, List, [], ◌∷◌, ◌==◌, contains, arith, Bool-cases, Option-cases,
}
use attow_nexus.Json.{
  Value, Items, Fields, pos_int, neg_int, float, null, bool, number, string, array, object, nil,
  cons, end, get,
}
use attow_nexus.Http.Reply.{ApiResult, reply, refusal, ◌>>=◌}
use attow_nexus.Http.Events.{
  UniversalEventBody, channel_re, id_re, frameworks, event_types, text_or, required_string, require,
  required_id, strings, optional_string_array, is_timestamp, metadata_of,
}

-- a text that is not empty stands under the key
abbrev pub HasText : Fields → String → String → Type 0
HasText obj key text = (get key obj ≡ some (string text)) × ((text == "") ≡ false)

-- the array of the texts
abbrev pub items_of : List String → Items
items_of [] = nil
items_of (t ∷ ts) = cons (string t) (items_of ts)

-- no value, or an array of texts
abbrev pub HasTexts : Fields → String → List String → Type 0
HasTexts obj key texts =
    ((get key obj ≡ none) × (texts ≡ [])) ⊎ (get key obj ≡ some (array (items_of texts)))

-- What the object of an event holds, and which body that is.
pub record IsEvent (is_match : String → String → Bool) (obj : Fields) (body : UniversalEventBody)
    : Type 0 where
  pub version : get "schema_version" obj ≡ some (string "nexus.universal.v1")
  pub run : HasText obj "run_id" body.run_id × (is_match id_re body.run_id ≡ true)
  pub thread : HasText obj "thread_id" body.thread_id × (is_match id_re body.thread_id ≡ true)
  pub agent : HasText obj "agent_id" body.agent_id × (is_match id_re body.agent_id ≡ true)
  pub event : (id : String) × HasText obj "event_id" id × (is_match id_re id ≡ true)
  pub framework :
      HasText obj "framework" body.framework × (contains body.framework frameworks ≡ true)
  pub event_type :
      HasText obj "event_type" body.event_type × (contains body.event_type event_types ≡ true)
  pub channel : HasText obj "channel" body.channel × (is_match channel_re body.channel ≡ true)
  pub timestamp :
      (n : ℕ) × (get "timestamp_ms" obj ≡ some (number (pos_int n))) × (0 < n) × (n < 2 ^ 63)
  pub tags : HasTexts obj "tags" body.tags
  pub parents : HasTexts obj "parent_commit_ids" body.parent_commit_ids
  pub metadata :
      ((get "metadata" obj ≡ none) × (body.metadata ≡ object end))
      ⊎ ((fs : Fields) × (get "metadata" obj ≡ some (object fs)) × (body.metadata ≡ object fs))

pub inverse :
    {A B : Type 0} (r : ApiResult A) (f : A → ApiResult B) (b : B)
    → (r >>= f) ≡ reply b
    → (a : A) × (r ≡ reply a) × (f a ≡ reply b)
inverse (reply a) f b h = (a, refl, h)
inverse (refusal code message) f b h = cc

text_or_iff :
    (display : String) (v : Option Value) (t : String)
    → (text_or display v ≡ reply t) ↔ ((v ≡ some (string t)) × ((t == "") ≡ false))
unfolding text_or
text_or_iff display none t = (λ h. cc, λ h. cc)
text_or_iff display (some null) t = (λ h. cc, λ h. cc)
text_or_iff display (some (bool b)) t = (λ h. cc, λ h. cc)
text_or_iff display (some (number b)) t = (λ h. cc, λ h. cc)
text_or_iff display (some (array b)) t = (λ h. cc, λ h. cc)
text_or_iff display (some (object b)) t = (λ h. cc, λ h. cc)
text_or_iff display (some (string u)) t = (
  λ h. elim (Bool-cases (u == "")) [
    | inl empty ↦ ground (arith, empty)
    | inr full ↦
        let same : u ≡ t = ground (arith, full) in
        (ap (λ x. some (string x)) same, ap (λ x. x == "") (sym same) ∙ full)
  ],
  λ (e, full). let same : u ≡ t = cc in rw (same, full) refl,
)

pub require_iff : (b : Bool) (message : String) → (require b message ≡ reply tt) ↔ (b ≡ true)
unfolding require
require_iff true message = (λ h. refl, λ h. refl)
require_iff false message = (λ h. cc, λ h. cc)

strings_iff : (items : Items) (ts : List String) → (strings items ≡ some ts) ↔ (items ≡ items_of ts)
unfolding strings
strings_iff items ts = (sound items ts, λ e. rw e (complete ts))
  where
    complete : (ts : List String) → strings (items_of ts) ≡ some ts
    complete [] = refl
    complete (t ∷ ts) = rw (complete ts) refl

    sound : (items : Items) (ts : List String) → strings items ≡ some ts → items ≡ items_of ts
    sound nil ts h = let e : [] ≡ ts = cc in rw (← e) refl
    sound (cons null items) ts h = cc
    sound (cons (bool b) items) ts h = cc
    sound (cons (number b) items) ts h = cc
    sound (cons (array b) items) ts h = cc
    sound (cons (object b) items) ts h = cc
    sound (cons (string t) items) ts h = elim (Option-cases (strings items)) [
      | inl missing ↦ ground (arith, missing)
      | inr (rest, e) ↦
          let same : t ∷ rest ≡ ts = ground (arith, e) in
          rw (← same) (ap (cons (string t)) (sound items rest e))
    ]

pub array_iff :
    (v : Option Value) (key : String) (ts : List String)
    → (optional_string_array v key ≡ reply ts)
      ↔ (((v ≡ none) × (ts ≡ [])) ⊎ (v ≡ some (array (items_of ts))))
unfolding optional_string_array
array_iff none key ts = (λ h. inl (refl, cc), λ h. elim h [ inl (_, e) ↦ rw e refl | inr e ↦ cc ])
array_iff (some null) key ts = (λ h. cc, λ h. elim h [ inl (e, _) ↦ cc | inr e ↦ cc ])
array_iff (some (bool b)) key ts = (λ h. cc, λ h. elim h [ inl (e, _) ↦ cc | inr e ↦ cc ])
array_iff (some (number b)) key ts = (λ h. cc, λ h. elim h [ inl (e, _) ↦ cc | inr e ↦ cc ])
array_iff (some (string b)) key ts = (λ h. cc, λ h. elim h [ inl (e, _) ↦ cc | inr e ↦ cc ])
array_iff (some (object b)) key ts = (λ h. cc, λ h. elim h [ inl (e, _) ↦ cc | inr e ↦ cc ])
array_iff (some (array items)) key ts = (
  λ h. elim (Option-cases (strings items)) [
    | inl missing ↦ ground (arith, missing)
    | inr (us, e) ↦
        let same : us ≡ ts = ground (arith, e) in
        inr (ap (λ x. some (array x)) ((strings_iff items ts).0 (e ∙ ap some same)))
  ],
  λ h. elim h [
    | inl (e, _) ↦ cc
    | inr e ↦
        let same : items ≡ items_of ts = cc in
        rw (optional_string_array, (strings_iff items ts).1 same) refl
  ],
)

pub timestamp_iff :
    (v : Option Value)
    → (is_timestamp v ≡ true) ↔ ((n : ℕ) × (v ≡ some (number (pos_int n))) × (0 < n) × (n < 2 ^ 63))
unfolding is_timestamp
timestamp_iff none = (λ h. cc, λ (n, e, _, _). cc)
timestamp_iff (some null) = (λ h. cc, λ (n, e, _, _). cc)
timestamp_iff (some (bool b)) = (λ h. cc, λ (n, e, _, _). cc)
timestamp_iff (some (string b)) = (λ h. cc, λ (n, e, _, _). cc)
timestamp_iff (some (array b)) = (λ h. cc, λ (n, e, _, _). cc)
timestamp_iff (some (object b)) = (λ h. cc, λ (n, e, _, _). cc)
timestamp_iff (some (number (neg_int n))) = (λ h. cc, λ (n, e, _, _). cc)
timestamp_iff (some (number (float n))) = (λ h. cc, λ (n, e, _, _). cc)
timestamp_iff (some (number (pos_int n))) = (
  λ h. (n, refl, ground (arith, h), ground (arith, h)),
  λ (m, e, low, high). let same : n ≡ m = cc in rw same (ground (arith, low, high)),
)

pub metadata_iff :
    (v : Option Value) (m : Value)
    → (metadata_of v ≡ reply m) ↔ (
        ((v ≡ none) × (m ≡ object end))
        ⊎ ((fs : Fields) × (v ≡ some (object fs)) × (m ≡ object fs)))
unfolding metadata_of
metadata_iff none m =
    (λ h. inl (refl, cc), λ h. elim h [ inl (_, e) ↦ rw e refl | inr (fs, e, _) ↦ cc ])
metadata_iff (some null) m = (λ h. cc, λ h. elim h [ inl (e, _) ↦ cc | inr (fs, e, _) ↦ cc ])
metadata_iff (some (bool b)) m = (λ h. cc, λ h. elim h [ inl (e, _) ↦ cc | inr (fs, e, _) ↦ cc ])
metadata_iff (some (number b)) m = (λ h. cc, λ h. elim h [ inl (e, _) ↦ cc | inr (fs, e, _) ↦ cc ])
metadata_iff (some (string b)) m = (λ h. cc, λ h. elim h [ inl (e, _) ↦ cc | inr (fs, e, _) ↦ cc ])
metadata_iff (some (array b)) m = (λ h. cc, λ h. elim h [ inl (e, _) ↦ cc | inr (fs, e, _) ↦ cc ])
metadata_iff (some (object gs)) m = (
  λ h. inr (gs, refl, cc),
  λ h. elim h [ inl (e, _) ↦ cc | inr (fs, e, f) ↦ let same : gs ≡ fs = cc in rw (same, f) refl ],
)

pub required_string_iff :
    (obj : Fields) (key display t : String)
    → (required_string obj key display ≡ reply t) ↔ HasText obj key t
unfolding required_string
required_string_iff obj key display t = text_or_iff display (get key obj) t

pub reply_inj : {A : Type 0} {a b : A} → reply a ≡ reply b → a ≡ b
reply_inj h = cc

pub id_iff :
    (is_match : String → String → Bool) (obj : Fields) (key t : String)
    → (required_id is_match obj key ≡ reply t) ↔ (HasText obj key t × (is_match id_re t ≡ true))
unfolding required_id required_string
id_iff is_match obj key t = (
  λ h.
      let (u, text, rest) = inverse (text_or ("UniversalAgentEvent." <> key) (get key obj)) _ t h in
      let (_, matched, last) = inverse (require (is_match id_re u) _) _ t rest in
      let same : u ≡ t = cc in
      (
        (text_or_iff _ (get key obj) t).0 (text ∙ ap reply same),
        ap (is_match id_re) (sym same) ∙ (require_iff (is_match id_re u) _).0 matched,
      ),
  λ (text, matched).
      rw ((text_or_iff ("UniversalAgentEvent." <> key) (get key obj) t).1 text, matched) refl,
)
