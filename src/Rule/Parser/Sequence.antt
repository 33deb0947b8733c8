-- ===== src/Rule/Parser/Sequence.antt =====
-- A configuration is loaded line by line, in order.
use mathlib.Core.List.{append_assoc}
use home_guard.Prelude.{
  ◌≡◌, ◌↔◌, refl, sym, ap, ◌∙◌, inl, inr, Option, none, some, List, [], ◌∷◌, ◌++◌, ◌>>=◌,
  Option-cases, In, here, there,
}
use home_guard.Prelude.Text.{Text}
use home_guard.Crates.IpNet.{IpNet}
use home_guard.Rule.Types.{Rule}
use home_guard.Rule.Parser.{load_entry, load_rules}

module _ (N : IpNet) (read : Text → Option (List (Option Text))) where
  -- The rules of two results, in order, or an error if either is one.
  abbrev pub both : Option (List (Rule N)) → Option (List (Rule N)) → Option (List (Rule N))
  both first second = first >>= λ a. second >>= λ b. some (a ++ b)

  both_assoc : (x y z : Option (List (Rule N))) → both x (both y z) ≡ both (both x y) z
  both_assoc none y z = refl
  both_assoc (some a) none z = refl
  both_assoc (some a) (some b) none = refl
  both_assoc (some a) (some b) (some c) = ap some (sym (append_assoc a b c))

  both_nil : (x : Option (List (Rule N))) → both (some []) x ≡ x
  both_nil none = refl
  both_nil (some a) = refl

  -- To load two lists of lines, one after the other, is to load each, rule sets included, and to append
  -- the rules of the second to those of the first; an error in either is an error.
  pub load_rules-append :
      (xs ys : List Text)
      → load_rules N read (xs ++ ys) ≡ both (load_rules N read xs) (load_rules N read ys)
  unfolding load_rules
  load_rules-append [] ys = sym (both_nil (load_rules N read ys))
  load_rules-append (x ∷ xs) ys =
      ap (both (load_entry N read x)) (load_rules-append xs ys)
      ∙ both_assoc (load_entry N read x) (load_rules N read xs) (load_rules N read ys)

  fails_at :
      (lines : List Text)
      → load_rules N read lines ≡ none
      → (line : Text) × In line lines × (load_entry N read line ≡ none)
  unfolding load_rules
  fails_at [] h = absurd (cc h)
  fails_at (x ∷ xs) h = elim (Option-cases (load_entry N read x)) [
    | inl bad ↦ (x, here refl, bad)
    | inr (a, good) ↦ elim (Option-cases (load_rules N read xs)) [
      | inl later ↦ let (line, i, bad) = fails_at xs later in (line, there i, bad)
      | inr (b, fine) ↦ absurd (cc (rw (good, load_rules, fine) at h))
    ]
  ]

  fails_by :
      (lines : List Text) (line : Text)
      → In line lines
      → load_entry N read line ≡ none
      → load_rules N read lines ≡ none
  unfolding load_rules
  fails_by [] line i h = elim i [ ]
  fails_by (x ∷ xs) line (here e) h = rw (ap (load_entry N read) e ∙ h, load_rules) refl
  fails_by (x ∷ xs) line (there i) h = elim (Option-cases (load_entry N read x)) [
    | inl bad ↦ rw (bad, load_rules) refl
    | inr (a, good) ↦ rw (good, load_rules, fails_by xs line i h) refl
  ]

  -- Loading fails exactly when some line of the configuration is an error: a rule that does not parse,
  -- or a rule set that cannot be read or has a line that does not parse.
  pub load_rules-none_iff :
      (lines : List Text)
      → (load_rules N read lines ≡ none)
        ↔ ((line : Text) × In line lines × (load_entry N read line ≡ none))
  load_rules-none_iff lines = (fails_at lines, (λ (line, i, bad). fails_by lines line i bad))
