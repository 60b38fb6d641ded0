-- ===== src/LoopDetection/Window.antt =====
-- On `inspect` and its window in daemon/src/loop_detection/detector.rs.
use attow_nexus.Prelude.{
  ℕ, suc, ◌+◌, ◌≤◌, ◌<◌, ◌≡◌, ◌≢◌, refl, ◌∙◌, ap, inl, inr, ◌↔◌, String, Bool, true, false, Option,
  none, some, List, [], ◌∷◌, ◌++◌, ◌==◌, eqb, ltb, if◌then◌else◌, length, length-append, lookup,
  insert, lookup-insert, eq_refl, eq_iff, or_nil, arith, Bool-cases,
}
use attow_nexus.Platform.{Platform}
use attow_nexus.Proto.{Commit, LoopWarning}
use attow_nexus.LoopDetection.{
  FingerprintEntry, LoopDetector, default, window_key, repetitions, slide, fingerprint, inspect,
  warn, stable_commit,
}

-- A window that is not over its size stays so.
pub slide-bound :
    (size : ℕ) (window : List FingerprintEntry) (entry : FingerprintEntry)
    → 0 < size
    → length window ≤ size
    → length (slide size window entry) ≤ size
unfolding slide
slide-bound size [] entry pos h = omega (arith, pos)
slide-bound size (e ∷ window) entry pos h = elim (Bool-cases (eqb (suc (length window)) size)) [
  | inl is_full ↦ rw is_full (omega (arith, length-append window (entry ∷ []), h))
  | inr room ↦ rw room (
      let below : suc (length window) ≢ size = ground (arith, room) in
      omega (arith, length-append window (entry ∷ []), h, below))
]

repetitions-append :
    (fp : String) (window : List FingerprintEntry) (entry : FingerprintEntry)
    → repetitions fp (window ++ entry ∷ [])
      ≡ repetitions fp window + (if entry.fingerprint == fp then 1 else 0)
unfolding repetitions
repetitions-append fp [] entry = ground arith
repetitions-append fp (e ∷ window) entry = ground (arith, repetitions-append fp window entry)

slide_room :
    (size : ℕ) (window : List FingerprintEntry) (entry : FingerprintEntry)
    → length window < size
    → slide size window entry ≡ window ++ entry ∷ []
unfolding slide
slide_room size [] entry h = refl
slide_room size (e ∷ window) entry h = ground (arith, h)

none-some : (w : LoopWarning) → (◌≡◌) {A = Option LoopWarning} none (some w) → ⊥
none-some w h = cc

less : {n : ℕ} → ltb n 3 ≡ true → ¬ (3 ≤ n)
less few many = ground (arith, few, many)

module _ (p : Platform) where
  -- the window that a detector keeps for a commit
  abbrev pub window_of : Commit → LoopDetector → List FingerprintEntry
  window_of c d = or_nil (lookup (window_key c) d.windows)

  inspect-windows :
      (c : Commit) (d : LoopDetector)
      → ((inspect p c d).1.windows
          ≡ insert
              (window_key c)
              (slide d.window_size
                (window_of c d)
                (record { fingerprint = fingerprint p c; commit_id = c.commit_id }))
              d.windows)
  unfolding inspect
  inspect-windows c d = elim (Bool-cases (ltb (repetitions (fingerprint p c) (window_of c d)) 3)) [
    | inl few ↦ rw few refl
    | inr many ↦ rw many refl
  ]

  window_of-inspect :
      (c e : Commit) (d : LoopDetector)
      → window_of e (inspect p c d).1 ≡ (
          if window_key c == window_key e
          then slide d.window_size
              (window_of c d)
              (record { fingerprint = fingerprint p c; commit_id = c.commit_id })
          else window_of e d)
  unfolding or_nil
  window_of-inspect c e d =
      let entry : FingerprintEntry = record {
        fingerprint = fingerprint p c;
        commit_id = c.commit_id;
      } in
      rw (inspect-windows c d) (
        rw
          (lookup-insert (window_key c) (window_key e) (slide d.window_size (window_of c d) entry)
            d.windows)
          (by_test (window_key c == window_key e) (slide d.window_size (window_of c d) entry)
            (lookup (window_key e) d.windows)))
    where
      by_test :
          (same : Bool) (xs : List FingerprintEntry) (other : Option (List FingerprintEntry))
          → or_nil (if same then some xs else other) ≡ (if same then xs else or_nil other)
      by_test true xs other = refl
      by_test false xs other = refl

  -- Inspecting a commit warns exactly when it and the entries of its window with its fingerprint are
  -- three or more.
  pub inspect-warns :
      (c : Commit) (d : LoopDetector)
      → ((w : LoopWarning) × ((inspect p c d).0 ≡ some w))
        ↔ (3 ≤ repetitions (fingerprint p c) (window_of c d))
  unfolding inspect
  inspect-warns c d = elim (Bool-cases (ltb (repetitions (fingerprint p c) (window_of c d)) 3)) [
    | inl few ↦ (λ (w, h). absurd (none-some w (rw few at h)), λ many. absurd (less few many))
    | inr many ↦ (
      λ h. ground (arith, many),
      λ h. (
        warn p c (fingerprint p c) (repetitions (fingerprint p c) (window_of c d))
            (stable_commit (fingerprint p c) (window_of c d)) d.ticks,
        rw many refl,
      ),
    )
  ]

  -- `inspect` of the commits in order
  pub inspect_all : List Commit → LoopDetector → LoopDetector
  inspect_all [] d = d
  inspect_all (c ∷ cs) d = inspect_all cs (inspect p c d).1

  -- `cs` are commits of the run, agent and channel of `c` with its fingerprint
  pub data IsRepeated (c : Commit) : List Commit → Type 0 where
    none_yet : IsRepeated c []
    again :
        {e : Commit} {cs : List Commit}
        → window_key e ≡ window_key c
        → fingerprint p e ≡ fingerprint p c
        → IsRepeated c cs
        → IsRepeated c (e ∷ cs)

  window_size-inspect :
      (c : Commit) (d : LoopDetector) → (inspect p c d).1.window_size ≡ d.window_size
  unfolding inspect
  window_size-inspect c d =
      elim (Bool-cases (ltb (repetitions (fingerprint p c) (window_of c d)) 3)) [
        | inl few ↦ rw few refl
        | inr many ↦ rw many refl
      ]

  abbrev entry_of : Commit → FingerprintEntry
  entry_of e = record { fingerprint = fingerprint p e; commit_id = e.commit_id }

  -- one more commit of the same kind, while the window has room
  window_of-again :
      (c e : Commit) (d : LoopDetector)
      → window_key e ≡ window_key c
      → length (window_of c d) < d.window_size
      → window_of c (inspect p e d).1 ≡ window_of c d ++ entry_of e ∷ []
  window_of-again c e d same room =
      window_of-inspect e c d
      ∙ (rw same (
          rw (eq_refl (window_key c)) (slide_room d.window_size (window_of c d) (entry_of e) room)))

  repetitions-inspect_all :
      (c : Commit) (cs : List Commit) (d : LoopDetector)
      → IsRepeated c cs
      → length (window_of c d) + length cs ≤ d.window_size
      → repetitions (fingerprint p c) (window_of c (inspect_all cs d))
        ≡ repetitions (fingerprint p c) (window_of c d) + length cs
  unfolding inspect_all
  repetitions-inspect_all c [] d none_yet room = omega arith
  repetitions-inspect_all c (e ∷ cs) d (again key fp rest) room =
      let d' = (inspect p e d).1 in
      let grown = window_of-again c e d key (omega (arith, room)) in
      let size = window_size-inspect e d in
      let longer = ap length grown ∙ length-append (window_of c d) (entry_of e ∷ []) in
      let more =
        ap (repetitions (fingerprint p c)) grown
        ∙ repetitions-append (fingerprint p c) (window_of c d) (entry_of e) in
      let one : (◌≡◌) {A = ℕ} (if fingerprint p e == fingerprint p c then 1 else 0) 1 =
        ground (arith, fp, eq_iff (fingerprint p e) (fingerprint p c)) in
      let later = repetitions-inspect_all c cs d' rest (omega (arith, room, size, longer)) in
      omega (arith, later, more, one)

  -- From an empty detector, after up to twelve commits of the same run, agent, channel and fingerprint,
  -- inspecting one more warns exactly when two or more came before.
  pub inspect-third :
      (c : Commit) (cs : List Commit)
      → IsRepeated c cs
      → length cs ≤ 12
      → ((w : LoopWarning) × ((inspect p c (inspect_all cs default)).0 ≡ some w)) ↔ (2 ≤ length cs)
  unfolding or_nil lookup repetitions
  inspect-third c cs same few =
      let count = repetitions-inspect_all c cs default same (omega (arith, few)) in
      let (warns, due) = inspect-warns c (inspect_all cs default) in
      (λ w. omega (arith, count, warns w), λ h. due (omega (arith, count, h)))
