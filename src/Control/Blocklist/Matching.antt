-- ===== src/Control/Blocklist/Matching.antt =====
-- What the tests of a blocklist decide: a domain is listed, or ends in a listed suffix on a label
-- boundary.
use mathlib.Core.Path.{subst}
use home_guard.Prelude.{
  ℕ, ◌≡◌, ◌↔◌, ◌⊎◌, refl, sym, ap, ◌∙◌, inl, inr, true, false, List, [], ◌∷◌, ◌++◌, arith,
  if◌then◌else◌, ◌==◌, nat_eq, list_eq, beq_iff, Bool-cases, In, here, there,
}
use home_guard.Prelude.Text.{Text, split_on, push_head, join}
use home_guard.Control.Blocklist.{contains, any_parent, matches_suffix}

pub contains→In : (s : Text) (xs : List Text) → contains s xs ≡ true → In s xs
unfolding contains
contains→In s [] h = absurd (cc)
contains→In s (x ∷ xs) h = elim (Bool-cases (x == s)) [
  | inl same ↦ here ((beq_iff x s).0 same)
  | inr other ↦ there (contains→In s xs (ground (arith, h, other)))
]

pub In→contains : (s : Text) (xs : List Text) → In s xs → contains s xs ≡ true
unfolding contains
In→contains s [] m = elim m [ ]
In→contains s (x ∷ xs) (here e) = rw ((beq_iff x s).1 e) refl
In→contains s (x ∷ xs) (there m) = ground (arith, In→contains s xs m)

-- A proper parent of the domain, on a label boundary, is a listed suffix.
pub record HasListedParent (suffixes : List Text) (domain : Text) : Type 0 where
  pub parent : Text
  pub front : Text
  pub listed : In parent suffixes
  pub boundary : domain ≡ front ++ b'.' ∷ parent

join-push_head : (c x : ℕ) (ws : List Text) → join c (push_head x ws) ≡ x ∷ join c ws
unfolding join
join-push_head c x [] = refl
join-push_head c x (w ∷ []) = refl
join-push_head c x (w ∷ v ∷ ws) = refl

split_on-cons : (c : ℕ) (s : Text) → (w : Text) × (ws : List Text) × (split_on c s ≡ w ∷ ws)
unfolding split_on
split_on-cons c [] = ([], [], refl)
split_on-cons c (x ∷ xs) =
    let (w, ws, same) = split_on-cons c xs in
    elim (Bool-cases (x == c)) [
      | inl at ↦ ([], split_on c xs, rw at refl)
      | inr other ↦ (x ∷ w, ws, rw (other, same) refl)
    ]

join-split_on : (c : ℕ) (s : Text) → join c (split_on c s) ≡ s
unfolding join split_on
join-split_on c [] = refl
join-split_on c (x ∷ xs) = elim (Bool-cases (x == c)) [
  | inl at ↦
      let (w, ws, same) = split_on-cons c xs in
      rw (at, same)
        (ap (◌∷◌ c) (ap (join c) (sym same) ∙ join-split_on c xs)
          ∙ ap (λ y. y ∷ xs) (sym ((beq_iff x c).0 at)))
  | inr other ↦ rw other (join-push_head c x (split_on c xs) ∙ ap (◌∷◌ x) (join-split_on c xs))
]

any_parent-push_head :
    (ss : List Text) (x : ℕ) (ws : List Text) → any_parent ss (push_head x ws) ≡ any_parent ss ws
unfolding any_parent
any_parent-push_head ss x [] = refl
any_parent-push_head ss x (w ∷ []) = refl
any_parent-push_head ss x (w ∷ v ∷ ws) = refl

any_parent_boundary :
    (ss : List Text) (s : Text)
    → any_parent ss ([] ∷ split_on b'.' s)
      ≡ (if contains s ss then true else any_parent ss (split_on b'.' s))
unfolding any_parent
any_parent_boundary ss s =
    let (w, ws, same) = split_on-cons b'.' s in
    let joined : join b'.' (w ∷ ws) ≡ s = ap (join b'.') (sym same) ∙ join-split_on b'.' s in
    rw (same, joined) refl

any_parent_empty : (ss : List Text) → any_parent ss (split_on b'.' []) ≡ false
unfolding any_parent split_on
any_parent_empty ss = refl

-- One step of the loop, on the text in place of its labels.
any_parent-cons :
    (ss : List Text) (x : ℕ) (s : Text)
    → any_parent ss (split_on b'.' (x ∷ s)) ≡ (
        if x == b'.'
        then (if contains s ss then true else any_parent ss (split_on b'.' s))
        else any_parent ss (split_on b'.' s))
unfolding split_on
any_parent-cons ss x s = elim (Bool-cases (x == b'.')) [
  | inl at ↦ rw at (any_parent_boundary ss s)
  | inr other ↦ rw other (any_parent-push_head ss x (split_on b'.' s))
]

any_parent→HasListedParent :
    (ss : List Text) (s : Text) → any_parent ss (split_on b'.' s) ≡ true → HasListedParent ss s
any_parent→HasListedParent ss [] h = absurd (cc (any_parent_empty ss, h))
any_parent→HasListedParent ss (x ∷ s) h = elim (Bool-cases (x == b'.')) [
  | inl at ↦ elim (Bool-cases (contains s ss)) [
    | inl found ↦ record {
      parent = s;
      front = [];
      listed = contains→In s ss found;
      boundary = ap (λ y. y ∷ s) ((beq_iff x b'.').0 at);
    }
    | inr absent ↦
        push (any_parent→HasListedParent ss s (ground (arith, any_parent-cons ss x s, at, absent)))
  ]
  | inr other ↦
      push (any_parent→HasListedParent ss s (ground (arith, any_parent-cons ss x s, other)))
]
  where
    push : HasListedParent ss s → HasListedParent ss (x ∷ s)
    push p = record {
      parent = p.parent;
      front = x ∷ p.front;
      listed = p.listed;
      boundary = ap (◌∷◌ x) p.boundary;
    }

HasListedParent→any_parent :
    (ss : List Text) (front s : Text)
    → In s ss
    → any_parent ss (split_on b'.' (front ++ b'.' ∷ s)) ≡ true
HasListedParent→any_parent ss [] s m = any_parent-cons ss b'.' s ∙ rw (In→contains s ss m) refl
HasListedParent→any_parent ss (x ∷ front) s m =
    ground
      (arith, any_parent-cons ss x (front ++ b'.' ∷ s), HasListedParent→any_parent ss front s m)

abbrev pub IsListedUnder : List Text → Text → Type 0
IsListedUnder suffixes domain = In domain suffixes ⊎ HasListedParent suffixes domain

-- The suffix test holds exactly of a listed suffix and of what is below one on a label boundary.
pub matches_suffix_iff :
    (domain : Text) (suffixes : List Text)
    → (matches_suffix domain suffixes ≡ true) ↔ IsListedUnder suffixes domain
unfolding matches_suffix
matches_suffix_iff domain suffixes = (to, from)
  where
    to : matches_suffix domain suffixes ≡ true → IsListedUnder suffixes domain
    to h = elim (Bool-cases (contains domain suffixes)) [
      | inl found ↦ inl (contains→In domain suffixes found)
      | inr absent ↦ inr (any_parent→HasListedParent suffixes domain (ground (arith, h, absent)))
    ]

    from : IsListedUnder suffixes domain → matches_suffix domain suffixes ≡ true
    from (inl m) = rw (In→contains domain suffixes m) refl
    from (inr p) =
        let found : any_parent suffixes (split_on b'.' domain) ≡ true =
          subst (λ d. any_parent suffixes (split_on b'.' d) ≡ true) (sym p.boundary)
            (HasListedParent→any_parent suffixes p.front p.parent p.listed) in
        ground (arith, found)
