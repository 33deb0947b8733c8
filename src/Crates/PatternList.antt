-- ===== src/Crates/PatternList.antt =====
-- A list of patterns that are looked for one by one meets the laws of `AhoCorasick`.
use mathlib.Core.Path.{subst}
use mathlib.Core.Option.{some-injective}
use home_guard.Prelude.{
  ℕ, zero, suc, ◌+◌, ◌≡◌, refl, sym, ◌⊎◌, ◌∙◌, ap, inl, inr, Bool, true, false, ◌&&◌, ◌||◌, some,
  List, [], ◌∷◌, ◌++◌, arith, if◌then◌else◌, ◌==◌, nat_eq, beq_iff, Bool-cases, get_elem?, In, here,
  there,
}
use home_guard.Prelude.Text.{Text, to_lowercase, Contains}
use home_guard.Crates.AhoCorasick.{AhoCorasick}

unfoldable pub starts_with : Text → Text → Bool
starts_with [] s = true
starts_with (x ∷ p) [] = false
starts_with (x ∷ p) (y ∷ s) = x == y && starts_with p s

unfoldable pub occurs : Text → Text → Bool
occurs p [] = starts_with p []
occurs p (y ∷ s) = starts_with p (y ∷ s) || occurs p s

starts_with_sound : (p s : Text) → starts_with p s ≡ true → (after : Text) × (s ≡ p ++ after)
unfolding starts_with
starts_with_sound [] s h = (s, refl)
starts_with_sound (x ∷ p) [] h = absurd (cc)
starts_with_sound (x ∷ p) (y ∷ s) h =
    let (after, same) = starts_with_sound p s (ground arith) in
    (after, ground (arith, beq_iff x y, same))

starts_with_complete : (p after : Text) → starts_with p (p ++ after) ≡ true
unfolding starts_with
starts_with_complete [] after = refl
starts_with_complete (x ∷ p) after = ground (arith, beq_iff x x, starts_with_complete p after)

occurs_sound : (p s : Text) → occurs p s ≡ true → Contains p s
unfolding occurs
occurs_sound p [] h = let (after, same) = starts_with_sound p [] h in ([], after, same)
occurs_sound p (y ∷ s) h = elim (Bool-cases (starts_with p (y ∷ s))) [
  | inl now ↦ let (after, same) = starts_with_sound p (y ∷ s) now in ([], after, same)
  | inr not_now ↦
      let (before, after, same) = occurs_sound p s (ground (arith, not_now)) in
      (y ∷ before, after, ap (◌∷◌ y) same)
]

occurs_whole : (p s : Text) → starts_with p s ≡ true → occurs p s ≡ true
unfolding occurs
occurs_whole p [] h = h
occurs_whole p (y ∷ s) h = rw h refl

occurs_at : (p before after : Text) → occurs p (before ++ (p ++ after)) ≡ true
unfolding occurs
occurs_at p [] after = occurs_whole p (p ++ after) (starts_with_complete p after)
occurs_at p (y ∷ before) after = ground (arith, occurs_at p before after)

-- The positions, counted from `n`, of the patterns that occur in a text.
unfoldable pub find_from : ℕ → List Text → Text → List ℕ
find_from n [] s = []
find_from n (p ∷ ps) s =
    if occurs (to_lowercase p) (to_lowercase s)
    then n ∷ find_from (suc n) ps s
    else find_from (suc n) ps s

In-head : {i j : ℕ} {l : List ℕ} → In i (j ∷ l) → (j ≡ i) ⊎ In i l
In-head (here e) = inl e
In-head (there m) = inr m

In-find_from :
    (n : ℕ) (ps : List Text) (s : Text) (i : ℕ)
    → In i (find_from n ps s)
    → (k : ℕ) × (i ≡ k + n)
      × (p : Text) × (get_elem? ps k ≡ some p)
      × Contains (to_lowercase p) (to_lowercase s)
unfolding find_from
In-find_from n [] s i m = elim m [ ]
In-find_from n (p ∷ ps) s i m = elim (Bool-cases (occurs (to_lowercase p) (to_lowercase s))) [
  | inl found ↦ elim (In-head (rw found at m)) [
    | inl same ↦ (0, omega arith, p, refl, occurs_sound (to_lowercase p) (to_lowercase s) found)
    | inr more ↦ later (In-find_from (suc n) ps s i more)
  ]
  | inr absent ↦ later (In-find_from (suc n) ps s i (rw absent at m))
]
  where
    later :
        (k : ℕ) × (i ≡ k + suc n)
          × (q : Text) × (get_elem? ps k ≡ some q)
          × Contains (to_lowercase q) (to_lowercase s)
        → (k : ℕ) × (i ≡ k + n)
          × (q : Text) × (get_elem? (p ∷ ps) k ≡ some q)
          × Contains (to_lowercase q) (to_lowercase s)
    later (k, at, q, found, has) = (suc k, omega arith, q, found, has)

find_from_ne :
    (n : ℕ) (ps : List Text) (s : Text) (i : ℕ) (p : Text)
    → get_elem? ps i ≡ some p
    → Contains (to_lowercase p) (to_lowercase s)
    → find_from n ps s ≡ []
    → ⊥
unfolding find_from
find_from_ne n [] s i p at h e = absurd (cc at)
find_from_ne n (q ∷ ps) s zero p at (before, after, same) e =
    let found : occurs (to_lowercase p) (to_lowercase s) ≡ true =
      rw same (occurs_at (to_lowercase p) before after) in
    ground (arith, found, at)
find_from_ne n (q ∷ ps) s (suc i) p at h e =
    elim (Bool-cases (occurs (to_lowercase q) (to_lowercase s))) [
      | inl found ↦ absurd (cc (rw found at e))
      | inr absent ↦ find_from_ne (suc n) ps s i p at h (rw absent at e)
    ]

at_zero :
    (ps : List Text) {p : Text} (k : ℕ) {i : ℕ}
    → i ≡ k + 0
    → get_elem? ps k ≡ some p
    → get_elem? ps i ≡ some p
at_zero ps {p} k e h = subst (λ j. get_elem? ps j ≡ some p) (omega arith) h

pub pattern_list_sound :
    (ps : List Text) (a : List Text) (s : Text) (i : ℕ)
    → some ps ≡ some a
    → In i (find_from 0 a s)
    → (p : Text) × (get_elem? ps i ≡ some p) × Contains (to_lowercase p) (to_lowercase s)
pattern_list_sound ps a s i made m =
    let (k, at, p, found, has) = In-find_from 0 a s i m in
    (p, at_zero ps k at (ap (λ l. get_elem? l k) (some-injective ps a made) ∙ found), has)

pub pattern_list_complete :
    (ps : List Text) (a : List Text) (s : Text) (i : ℕ) (p : Text)
    → some ps ≡ some a
    → get_elem? ps i ≡ some p
    → Contains (to_lowercase p) (to_lowercase s)
    → find_from 0 a s ≡ []
    → ⊥
pattern_list_complete ps a s i p made at has e =
    find_from_ne 0 a s i p (ap (λ l. get_elem? l i) (sym (some-injective ps a made)) ∙ at) has e

abbrev pub pattern_list : AhoCorasick
pattern_list = record {
  Automaton = List Text;
  build = some;
  find_iter = find_from 0;
  find_iter_sound = pattern_list_sound;
  find_iter_complete = pattern_list_complete;
}
