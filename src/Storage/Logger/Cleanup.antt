-- ===== src/Storage/Logger/Cleanup.antt =====
-- src/storage/logger.rs: which files the cleanup removes.
use home_guard.Prelude.{
  ℕ, ◌-◌, ◌≤◌, ◌<◌, ◌≡◌, refl, sym, ap, ◌∙◌, Bool, true, false, ◌&&◌, Bool-cases, Option-cases, inl,
  inr, Option, none, some, List, [], ◌∷◌, if◌then◌else◌, ◌==◌, nat_eq, list_eq, beq_iff, ltb,
  length, le→ltb_false, All, In, here, there, map, beq_false, arith, get_elem?, get_elem?-lt, ◌⊎◌,
}
use mathlib.Core.Option.{get_or}
use home_guard.Prelude.Map.{lookup, remove, lookup-remove, lookup-cons, lookup-nil}
use home_guard.Prelude.Text.{Text, bytes}
use home_guard.Prelude.Utf8.{is_utf8, is_char_boundary}
use home_guard.Crates.Chrono.{Chrono}
use home_guard.Storage.Logger.{
  Files, Disk, AccessLogger, starts_with, ends_with, date_of, is_old, remove_old, cleanup_old_logs,
}

module _ (C : Chrono) (D : Disk) where
  -- The name is a string that looks like that of a log file, but has no character that begins at its
  -- byte 17: it is shorter, or a character lies across.
  pub record IsShort (name : Text) : Type 0 where
    pub prefix : starts_with (bytes "access-") name ≡ true
    pub suffix : ends_with (bytes ".log") name ≡ true
    pub utf8 : is_utf8 name ≡ true
    pub short :
        (length name < 17) ⊎ ((c : ℕ) × (get_elem? name 17 ≡ some c) × (128 ≤ c) × (c < 192))

  not_a_boundary :
      (name : Text)
      → (length name < 17) ⊎ ((c : ℕ) × (get_elem? name 17 ≡ some c) × (128 ≤ c) × (c < 192))
      → is_char_boundary 17 name ≡ false
  unfolding is_char_boundary
  not_a_boundary name (inr (c, at, low, high)) = rw (is_char_boundary, at) (ground arith)
  not_a_boundary name (inl short) = elim (Option-cases (get_elem? name 17)) [
    | inl nothing ↦
        rw (is_char_boundary, nothing) (beq_false (length name) 17 (λ same. omega arith))
    | inr (c, at) ↦ absurd (omega (arith, get_elem?-lt name 17 at))
  ]

  date_of-IsShort : (name : Text) → IsShort name → date_of C D name ≡ none
  unfolding date_of
  date_of-IsShort name s = elim (Bool-cases (is_char_boundary 7 name)) [
    | inl starts ↦
        rw (date_of, s.utf8, s.prefix, s.suffix, starts, not_a_boundary name s.short) refl
    | inr within ↦ rw (date_of, s.utf8, s.prefix, s.suffix, within) refl
  ]

  -- The slice of the name does not panic.
  abbrev pub IsSafe : Text → Type 0
  IsSafe name = (date : Option ℕ) × (date_of C D name ≡ some date)

  -- The cleanup removes the file of the name.
  unfoldable pub is_gone : ℕ → Text → Bool
  unfolding date_of
  is_gone cutoff name = is_old C D cutoff (get_or (date_of C D name) none) && D.removes name

  step_of :
      (cutoff : ℕ) (name : Text) (lines : List Text) (entries fs : Files) (date : Option ℕ)
      → date_of C D name ≡ some date
      → remove_old C D cutoff ((name, lines) ∷ entries) fs
        ≡ remove_old C D cutoff entries (if is_gone cutoff name then remove name fs else fs)
  unfolding remove_old is_gone
  step_of cutoff name lines entries fs date safe = rw (remove_old, safe)

  remove_old-some :
      (cutoff : ℕ) (entries fs : Files)
      → All (λ f. IsSafe f.0) entries
      → (out : Files) × (remove_old C D cutoff entries fs ≡ some out)
  unfolding remove_old
  remove_old-some cutoff [] fs h = (fs, refl)
  remove_old-some cutoff ((name, lines) ∷ entries) fs ((date, safe), h) =
      let next = if is_gone cutoff name then remove name fs else fs in
      let (out, run) = remove_old-some cutoff entries next h in
      (out, step_of cutoff name lines entries fs date safe ∙ run)

  -- What becomes of one file of the name in a step.
  lookup_step :
      (cutoff : ℕ) (name asked : Text) (fs : Files)
      → lookup asked (if is_gone cutoff name then remove name fs else fs)
        ≡ (if is_gone cutoff name && (name == asked) then none else lookup asked fs)
  lookup_step cutoff name asked fs = elim (Bool-cases (is_gone cutoff name)) [
    | inr stays ↦ rw stays
    | inl goes ↦ rw goes (lookup-remove name asked fs)
  ]

  next_kept :
      (cutoff : ℕ) (name asked : Text) (fs : Files)
      → is_gone cutoff asked ≡ false
      → lookup asked (if is_gone cutoff name then remove name fs else fs) ≡ lookup asked fs
  next_kept cutoff name asked fs stays = elim (Bool-cases (is_gone cutoff name)) [
    | inr left ↦ rw left
    | inl goes ↦ elim (Bool-cases (name == asked)) [
      | inl same ↦
          let equal = (beq_iff name asked).0 same in
          absurd (cc (sym goes ∙ ap (is_gone cutoff) equal ∙ stays))
      | inr other ↦ rw (goes, lookup-remove name asked fs, other)
    ]
  ]

  next_none :
      (cutoff : ℕ) (name asked : Text) (fs : Files)
      → lookup asked fs ≡ none
      → lookup asked (if is_gone cutoff name then remove name fs else fs) ≡ none
  next_none cutoff name asked fs nothing = elim (Bool-cases (is_gone cutoff name)) [
    | inr left ↦ rw left nothing
    | inl goes ↦ elim (Bool-cases (name == asked)) [
      | inl same ↦ rw (goes, lookup-remove name asked fs, same)
      | inr other ↦ rw (goes, lookup-remove name asked fs, other) nothing
    ]
  ]

  module _ (cutoff : ℕ) (asked : Text) where
    kept :
        (entries fs out : Files)
        → All (λ f. IsSafe f.0) entries
        → remove_old C D cutoff entries fs ≡ some out
        → is_gone cutoff asked ≡ false
        → lookup asked out ≡ lookup asked fs
    unfolding remove_old
    kept [] fs out h run stays = ap (lookup asked) (sym (cc run))
    kept ((name, lines) ∷ entries) fs out ((date, safe), h) run stays =
        let next = if is_gone cutoff name then remove name fs else fs in
        kept entries next out h (sym (step_of cutoff name lines entries fs date safe) ∙ run) stays
        ∙ next_kept cutoff name asked fs stays

    still_none :
        (entries fs out : Files)
        → All (λ f. IsSafe f.0) entries
        → remove_old C D cutoff entries fs ≡ some out
        → lookup asked fs ≡ none
        → lookup asked out ≡ none
    unfolding remove_old
    still_none [] fs out h run nothing = ap (lookup asked) (sym (cc run)) ∙ nothing
    still_none ((name, lines) ∷ entries) fs out ((date, safe), h) run nothing =
        let next = if is_gone cutoff name then remove name fs else fs in
        still_none entries next out h (sym (step_of cutoff name lines entries fs date safe) ∙ run)
          (next_none cutoff name asked fs nothing)

    gone :
        (entries fs out : Files) (v : List Text)
        → All (λ f. IsSafe f.0) entries
        → remove_old C D cutoff entries fs ≡ some out
        → is_gone cutoff asked ≡ true
        → lookup asked entries ≡ some v
        → lookup asked out ≡ none
    gone [] fs out v h run goes found = cc (sym found ∙ lookup-nil asked)
    gone ((name, lines) ∷ entries) fs out v ((date, safe), h) run goes found =
        let next = if is_gone cutoff name then remove name fs else fs in
        let run' = sym (step_of cutoff name lines entries fs date safe) ∙ run in
        elim (Bool-cases (name == asked)) [
          | inl same ↦
              let equal = (beq_iff name asked).0 same in
              let goes' = ap (is_gone cutoff) equal ∙ goes in
              let first : lookup asked next ≡ none =
                rw goes' (lookup-remove name asked fs ∙ rw same refl) in
              still_none entries next out h run' first
          | inr other ↦ gone entries next out v h run' goes (rest other)
        ]
      where
        rest : (name == asked) ≡ false → lookup asked entries ≡ some v
        rest other = rw other at (sym (lookup-cons asked name lines entries) ∙ found)

  pub cleanup_old_logs_lem :
      (today : ℕ) (l : AccessLogger) (fs : Files)
      → All (λ f. IsSafe f.0) fs
      → 0 < l.retention_days
      → l.retention_days ≤ today
      → D.lists ≡ true
      → (out : Files) × (cleanup_old_logs C D today l fs ≡ some out)
        × ((name : Text)
            → lookup name out
              ≡ (if is_gone (today - l.retention_days) name then none else lookup name fs))
  unfolding cleanup_old_logs
  cleanup_old_logs_lem today l fs safe some_days reach listed =
      let cutoff = today - l.retention_days in
      let (out, run) = remove_old-some cutoff fs fs safe in
      let days : (l.retention_days == 0) ≡ false =
        beq_false l.retention_days 0 (λ none_left. omega arith) in
      let reaches : ltb today l.retention_days ≡ false =
        le→ltb_false today l.retention_days reach in
      (
        out,
        simp (cleanup_old_logs, days, reaches, listed) run,
        λ name. elim (Bool-cases (is_gone cutoff name)) [
          | inr stays ↦ rw stays (kept cutoff name fs fs out safe run stays)
          | inl goes ↦ rw goes (elim (Option-cases (lookup name fs)) [
            | inl nothing ↦ still_none cutoff name fs fs out safe run nothing
            | inr (v, found) ↦ gone cutoff name fs fs out v safe run goes found
          ])
        ],
      )

  remove_old-IsShort :
      (cutoff : ℕ) (name : Text) (entries fs : Files)
      → In name (map (λ f. f.0) entries)
      → IsShort name
      → remove_old C D cutoff entries fs ≡ none
  unfolding remove_old
  remove_old-IsShort cutoff name [] fs i short = elim i [ ]
  remove_old-IsShort cutoff name ((n, lines) ∷ entries) fs (here same) short =
      let panics = ap (date_of C D) same ∙ date_of-IsShort name short in rw (remove_old, panics)
  remove_old-IsShort cutoff name ((n, lines) ∷ entries) fs (there i) short =
      elim (Option-cases (date_of C D n)) [
        | inl panics ↦ rw (remove_old, panics)
        | inr (date, safe) ↦
            rw (remove_old, safe) (remove_old-IsShort cutoff name entries _ i short)
      ]

  -- A file whose name is a string that begins and ends like a log file's, but is shorter than 17
  -- bytes or has a character across its byte 17, makes the cleanup panic, when there is a retention and the directory can be read.
  pub cleanup_old_logs-IsShort :
      (today : ℕ) (l : AccessLogger) (fs : Files) (name : Text)
      → In name (map (λ f. f.0) fs)
      → IsShort name
      → 0 < l.retention_days
      → D.lists ≡ true
      → cleanup_old_logs C D today l fs ≡ none
  unfolding cleanup_old_logs
  cleanup_old_logs-IsShort today l fs name i short some_days listed =
      let days : (l.retention_days == 0) ≡ false =
        beq_false l.retention_days 0 (λ none_left. omega arith) in
      elim (Bool-cases (ltb today l.retention_days)) [
        | inl before ↦ rw (cleanup_old_logs, days, before)
        | inr reaches ↦
            rw (cleanup_old_logs, days, reaches, listed)
              (remove_old-IsShort (today - l.retention_days) name fs fs i short)
      ]
