-- ===== src/Prelude/Trim.antt =====
-- Lower case and the removal of bytes at the end of a text.
use Prim.Native.Nat.{ℕ}
use mathlib.Core.Path.{◌≡◌, refl, sym, ap, ◌∙◌}
use mathlib.Core.Logic.{inl, inr}
use mathlib.Core.List.{[], ◌∷◌}
use native.Mathlib.Omega.{arith}
use home_guard.Prelude.Tests.{if◌then◌else◌, Bool-cases}
use home_guard.Prelude.Classes.{◌==◌, nat_eq}
use home_guard.Prelude.Text.{Text, lower_byte, to_lowercase, trim_end}

-- What is left of a byte before a trimmed rest.
abbrev keep_byte : ℕ → ℕ → Text → Text
keep_byte c x [] = if x == c then [] else x ∷ []
keep_byte c x (y ∷ ys) = x ∷ y ∷ ys

trim_end-cons : (c x : ℕ) (s : Text) → trim_end c (x ∷ s) ≡ keep_byte c x (trim_end c s)
unfolding trim_end
trim_end-cons c x s = go (trim_end c s) refl
  where
    go : (t : Text) → trim_end c s ≡ t → trim_end c (x ∷ s) ≡ keep_byte c x t
    go [] e = rw (e, trim_end) refl
    go (y ∷ ys) e = rw (e, trim_end) refl

pub trim_end_idem : (c : ℕ) (s : Text) → trim_end c (trim_end c s) ≡ trim_end c s
unfolding trim_end
trim_end_idem c [] = refl
trim_end_idem c (x ∷ s) = go (trim_end c s) refl (trim_end_idem c s)
  where
    go :
        (t : Text)
        → trim_end c s ≡ t
        → trim_end c (trim_end c s) ≡ trim_end c s
        → trim_end c (trim_end c (x ∷ s)) ≡ trim_end c (x ∷ s)
    go [] e h = elim (Bool-cases (x == c)) [
      | inl at ↦ rw (trim_end-cons c x s, e, at) refl
      | inr other ↦ rw (trim_end-cons c x s, e, other) (trim_end-cons c x [] ∙ rw other refl)
    ]
    go (y ∷ ys) e h =
        rw (trim_end-cons c x s, e)
          (trim_end-cons c x (y ∷ ys) ∙ ap (keep_byte c x) (ap (trim_end c) (sym e) ∙ h ∙ e))

lower_byte_dot : (x : ℕ) → (lower_byte x == b'.') ≡ (x == b'.')
unfolding lower_byte
lower_byte_dot x = ground arith

pub to_lowercase-trim_end :
    (s : Text) → trim_end b'.' (to_lowercase s) ≡ to_lowercase (trim_end b'.' s)
unfolding to_lowercase trim_end
to_lowercase-trim_end [] = refl
to_lowercase-trim_end (x ∷ s) = go (trim_end b'.' s) refl (to_lowercase-trim_end s)
  where
    go :
        (t : Text)
        → trim_end b'.' s ≡ t
        → trim_end b'.' (to_lowercase s) ≡ to_lowercase (trim_end b'.' s)
        → trim_end b'.' (lower_byte x ∷ to_lowercase s) ≡ to_lowercase (trim_end b'.' (x ∷ s))
    go [] e h = elim (Bool-cases (x == b'.')) [
      | inl at ↦
          trim_end-cons b'.' (lower_byte x) (to_lowercase s) ∙ rw (h, e, lower_byte_dot x, at) refl
      | inr other ↦
          trim_end-cons b'.' (lower_byte x) (to_lowercase s)
          ∙ rw (h, e, lower_byte_dot x, other) refl
    ]
    go (y ∷ ys) e h = trim_end-cons b'.' (lower_byte x) (to_lowercase s) ∙ rw (h, e) refl
