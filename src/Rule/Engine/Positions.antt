-- ===== src/Rule/Engine/Positions.antt =====
-- Which rule an index stands for: indices of patterns, of matches and of the least candidate.
use mathlib.Core.Path.{subst}
use home_guard.Prelude.{
  ℕ, suc, ◌+◌, ◌≡◌, refl, sym, ap, ◌⊎◌, inl, inr, Bool, true, Option, none, some, List, [], ◌∷◌,
  ◌++◌, arith, Option-cases, Bool-cases, get_elem?, In, here, there, All, min,
}
use home_guard.Crates.IpNet.{IpNet}
use home_guard.Rule.Types.{RuleType, Rule}
use home_guard.Rule.Engine.{minimum}
use home_guard.Rule.Engine.Collect.{indices, pick_at, collect}

min_cases : (j k : ℕ) → (min j k ≡ j) ⊎ (min j k ≡ k)
min_cases j k = grind arith

pub minimum-All : (P : ℕ → Type 0) (is : List ℕ) (i : ℕ) → All P is → minimum is ≡ some i → P i
unfolding minimum
minimum-All P [] i h e = absurd (cc)
minimum-All P (j ∷ is) i h e = elim (Option-cases (minimum is)) [
  | inl alone ↦ subst P (ground (arith, alone)) h.0
  | inr (k, least) ↦ elim (min_cases j k) [
    | inl first ↦ subst P (ground (arith, least, first)) h.0
    | inr later ↦ subst P (ground (arith, least, later)) (minimum-All P is k h.1 least)
  ]
]

In-pick_at :
    {X : Type 0} (o : Option X) (n : ℕ) (l : List (X × ℕ)) (x : X) (i : ℕ)
    → In (x, i) (pick_at o n ++ l)
    → ((o ≡ some x) × (i ≡ n)) ⊎ In (x, i) l
In-pick_at none n l x i m = inr m
In-pick_at (some y) n l x i (here e) = inl (ap (λ p. some p.0) e, sym (ap (λ p. p.1) e))
In-pick_at (some y) n l x i (there m) = inr m

-- An index at which an indexed list lists a pattern is that of a rule of the kind.
module _ (N : IpNet) {X : Type 0} (kind : RuleType N → Option X) where
  pub In-collect :
      (n : ℕ) (rs : List (Rule N)) (x : X) (i : ℕ)
      → In (x, i) (collect N kind n rs)
      → (k : ℕ) × (i ≡ k + n)
        × (r : Rule N) × (get_elem? rs k ≡ some r)
        × (kind r.rule_type ≡ some x)
  unfolding collect
  In-collect n [] x i m = elim m [ ]
  In-collect n (r ∷ rs) x i m =
      elim (In-pick_at (kind r.rule_type) n (collect N kind (suc n) rs) x i m) [
        | inl (same, at) ↦ (0, omega arith, r, refl, same)
        | inr later ↦
            let (k, at, r', found, same) = In-collect (suc n) rs x i later in
            (suc k, omega arith, r', found, same)
      ]

In-head : {i j : ℕ} {l : List ℕ} → In i (j ∷ l) → (j ≡ i) ⊎ In i l
In-head (here e) = inl e
In-head (there m) = inr m

pub In-indices {ℓ} :
    {R : Type ℓ} (q : R → Bool) (n : ℕ) (rs : List R) (i : ℕ)
    → In i (indices n q rs)
    → (k : ℕ) × (i ≡ k + n) × (r : R) × (get_elem? rs k ≡ some r) × (q r ≡ true)
unfolding indices
In-indices q n [] i m = elim m [ ]
In-indices {R} q n (r ∷ rs) i m = elim (Bool-cases (q r)) [
  | inl pass ↦ elim (In-head (rw pass at m)) [
    | inl same ↦ (0, omega arith, r, refl, pass)
    | inr more ↦ later (In-indices q (suc n) rs i more)
  ]
  | inr fail ↦ later (In-indices q (suc n) rs i (rw fail at m))
]
  where
    later :
        (k : ℕ) × (i ≡ k + suc n) × (r' : R) × (get_elem? rs k ≡ some r') × (q r' ≡ true)
        → (k : ℕ) × (i ≡ k + n) × (r' : R) × (get_elem? (r ∷ rs) k ≡ some r') × (q r' ≡ true)
    later (k, at, r', found, pass) = (suc k, omega arith, r', found, pass)
