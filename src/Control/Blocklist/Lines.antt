-- ===== src/Control/Blocklist/Lines.antt =====
-- What a line of a blocklist stands for, apart from the way src/control/blocklist.rs reads it.
use mathlib.Core.Path.{subst}
use home_guard.Prelude.{
  ℕ, ◌≡◌, ◌≢◌, ◌⊎◌, refl, sym, ap, ◌∙◌, inl, inr, Bool, true, false, Bool-cases, Option-cases, some,
  List, [], ◌∷◌, ◌==◌, nat_eq, beq_iff, In, here, there,
}
use home_guard.Prelude.Text.{Text, to_lowercase, trim}
use home_guard.Control.Blocklist.{parse_line}
use home_guard.Control.Blocklist.Loading.{entries}

-- A trimmed line stands for a suffix when it begins with a dot, or a star and a dot: for the rest, in
-- lower case. A line that does not, is not empty and does not begin with `#` stands for itself, in
-- lower case.
abbrev pub StandsFor : Text → Text × Bool → Type 0
StandsFor t (d, true) = (s : Text) × ((t ≡ b'.' ∷ s) ⊎ (t ≡ b'*' ∷ b'.' ∷ s)) × (d ≡ to_lowercase s)
StandsFor t (d, false) =
    (d ≡ to_lowercase t)
    × (t ≢ [])
    × ((s : Text) → t ≢ b'#' ∷ s)
    × ((s : Text) → t ≢ b'.' ∷ s)
    × ((s : Text) → t ≢ b'*' ∷ b'.' ∷ s)

head_is_not : (c x : ℕ) (s : Text) → (c == x) ≡ false → (t : Text) → c ∷ s ≢ x ∷ t
head_is_not c x s other t h = let same : c ≡ x = cc h in cc ((beq_iff c x).1 same, other)

exact :
    (c : ℕ) (s : Text)
    → (c == b'#') ≡ false
    → (c == b'.') ≡ false
    → ((t : Text) → c ∷ s ≢ b'*' ∷ b'.' ∷ t)
    → StandsFor (c ∷ s) (to_lowercase (c ∷ s), false)
exact c s not_hash not_dot no_star =
    (refl, (λ h. cc h), head_is_not c b'#' s not_hash, head_is_not c b'.' s not_dot, no_star)

plain_line :
    (c : ℕ) (s : Text) (e : Text × Bool)
    → (c == b'#') ≡ false
    → (c == b'.') ≡ false
    → parse_line (c ∷ s) ≡ some e
    → StandsFor (c ∷ s) e
unfolding parse_line
plain_line c [] e not_hash not_dot h = elim (Bool-cases (c == b'*')) [
  | inl star ↦
      let found : (to_lowercase (c ∷ []), false) ≡ e = cc (rw (not_hash, not_dot, star) at h) in
      subst (StandsFor (c ∷ [])) found (exact c [] not_hash not_dot (λ t k. cc k))
  | inr other ↦
      let found : (to_lowercase (c ∷ []), false) ≡ e = cc (rw (not_hash, not_dot, other) at h) in
      subst (StandsFor (c ∷ [])) found (exact c [] not_hash not_dot (λ t k. cc k))
]
plain_line c (d ∷ t) e not_hash not_dot h = elim (Bool-cases (c == b'*')) [
  | inl star ↦ elim (Bool-cases (d == b'.')) [
    | inl dot ↦
        let found : (to_lowercase t, true) ≡ e = cc (rw (not_hash, not_dot, star, dot) at h) in
        let same : c ∷ d ∷ t ≡ b'*' ∷ b'.' ∷ t =
          cc ((beq_iff c b'*').0 star, (beq_iff d b'.').0 dot) in
        subst (StandsFor (c ∷ d ∷ t)) found (t, inr same, refl)
    | inr more ↦
        let found : (to_lowercase (c ∷ d ∷ t), false) ≡ e =
          cc (rw (not_hash, not_dot, star, more) at h) in
        subst (StandsFor (c ∷ d ∷ t)) found (
          exact c (d ∷ t) not_hash not_dot
            (λ u k. let tail : d ∷ t ≡ b'.' ∷ u = cc k in head_is_not d b'.' t more u tail))
  ]
  | inr other ↦
      let found : (to_lowercase (c ∷ d ∷ t), false) ≡ e = cc (rw (not_hash, not_dot, other) at h) in
      subst (StandsFor (c ∷ d ∷ t)) found
        (exact c (d ∷ t) not_hash not_dot (λ u. head_is_not c b'*' (d ∷ t) other (b'.' ∷ u)))
]

parse_line→StandsFor : (t : Text) (e : Text × Bool) → parse_line t ≡ some e → StandsFor t e
unfolding parse_line
parse_line→StandsFor [] e h = absurd (cc h)
parse_line→StandsFor (c ∷ s) e h = elim (Bool-cases (c == b'#')) [
  | inl hash ↦ absurd (cc (rw hash at h))
  | inr not_hash ↦ elim (Bool-cases (c == b'.')) [
    | inl dot ↦
        let found : (to_lowercase s, true) ≡ e = cc (rw (not_hash, dot) at h) in
        subst (StandsFor (c ∷ s)) found (s, inl (ap (λ x. x ∷ s) ((beq_iff c b'.').0 dot)), refl)
    | inr not_dot ↦ plain_line c s e not_hash not_dot h
  ]
]

is_not : (c x : ℕ) (s : Text) → ((t : Text) → c ∷ s ≢ x ∷ t) → (c == x) ≡ false
is_not c x s never = elim (Bool-cases (c == x)) [
  | inr other ↦ other
  | inl same ↦ absurd (never s (ap (λ y. y ∷ s) ((beq_iff c x).0 same)))
]

exact_line :
    (t : Text) → StandsFor t (to_lowercase t, false) → parse_line t ≡ some (to_lowercase t, false)
unfolding parse_line
exact_line [] (same, some_byte, no_hash, no_dot, no_star) = absurd (some_byte refl)
exact_line (c ∷ []) (same, some_byte, no_hash, no_dot, no_star) =
    let hash = is_not c b'#' [] no_hash in
    let dot = is_not c b'.' [] no_dot in
    elim (Bool-cases (c == b'*')) [
      | inl star ↦ rw (hash, dot, star) refl
      | inr other ↦ rw (hash, dot, other) refl
    ]
exact_line (c ∷ d ∷ t) (same, some_byte, no_hash, no_dot, no_star) =
    let hash = is_not c b'#' (d ∷ t) no_hash in
    let dot = is_not c b'.' (d ∷ t) no_dot in
    elim (Bool-cases (c == b'*')) [
      | inr other ↦ rw (hash, dot, other) refl
      | inl star ↦
          let more : (d == b'.') ≡ false =
            is_not d b'.' t (λ u k. no_star u (cc ((beq_iff c b'*').0 star, k))) in
          rw (hash, dot, star, more) refl
    ]

StandsFor→parse_line : (t : Text) (e : Text × Bool) → StandsFor t e → parse_line t ≡ some e
unfolding parse_line
StandsFor→parse_line t (d, true) (s, inl dotted, same) =
    ap parse_line dotted ∙ ap (λ x. some (x, true)) (sym same)
StandsFor→parse_line t (d, true) (s, inr starred, same) =
    ap parse_line starred ∙ ap (λ x. some (x, true)) (sym same)
StandsFor→parse_line t (d, false) (same, full, no_hash, no_dot, no_star) =
    exact_line t (refl, full, no_hash, no_dot, no_star) ∙ ap (λ x. some (x, false)) (sym same)

-- The entries of a file are those that its lines stand for.
pub entries-StandsFor :
    (lines : List Text) (e : Text × Bool)
    → In e (entries lines)
    → (line : Text) × In line lines × StandsFor (trim line) e
unfolding entries
entries-StandsFor [] e i = elim i [ ]
entries-StandsFor (line ∷ lines) e i = elim (Option-cases (parse_line (trim line))) [
  | inl skipped ↦
      let j : In e (entries lines) = rw (entries, skipped) at i in
      let (line', k, s) = entries-StandsFor lines e j in (line', there k, s)
  | inr (f, parsed) ↦
      let j : In e (f ∷ entries lines) = rw (entries, parsed) at i in
      let later = entries-StandsFor lines e in
      elim j [
        | here same ↦ (line, here refl, parse_line→StandsFor (trim line) e (parsed ∙ ap some same))
        | there k ↦ (let (line', l, s) = later k in (line', there l, s))
      ]
]

pub StandsFor-entries :
    (lines : List Text) (line : Text) (e : Text × Bool)
    → In line lines
    → StandsFor (trim line) e
    → In e (entries lines)
unfolding entries
StandsFor-entries [] line e i s = elim i [ ]
StandsFor-entries (l ∷ lines) line e (here same) s =
    let parsed : parse_line (trim l) ≡ some e =
      ap (λ x. parse_line (trim x)) same ∙ StandsFor→parse_line (trim line) e s in
    rw (entries, parsed) (here refl)
StandsFor-entries (l ∷ lines) line e (there i) s = elim (Option-cases (parse_line (trim l))) [
  | inl skipped ↦ rw (entries, skipped) (StandsFor-entries lines line e i s)
  | inr (f, parsed) ↦ rw (entries, parsed) (there (StandsFor-entries lines line e i s))
]
