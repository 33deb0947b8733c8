-- ===== src/Rule/Engine/Collect.antt =====
-- What the loop of `RuleEngine::new` leaves in each list, and the indices that a list stands for.
use mathlib.Core.List.{append_assoc, append-nil}
use home_guard.Prelude.{
  ℕ, suc, ◌≤◌, ◌≡◌, refl, sym, ◌∙◌, ap, Bool, false, ◌||◌, Option, none, some, List, [], ◌∷◌, ◌++◌,
  map, inl, inr, arith, if◌then◌else◌, nat_eq, list_eq, min, keep, Option-cases, Bool-cases,
}
use home_guard.Prelude.Text.{Text}
use home_guard.Crates.IpNet.{IpNet}
use home_guard.Crates.AhoCorasick.{AhoCorasick}
use home_guard.Crates.MaxMind.{MaxMind}
use home_guard.Rule.Types.{
  Policy, RuleType, domain, domain_suffix, domain_keyword, geo_ip, ip_cidr, ip_cidr6, Rule,
}
use home_guard.Rule.Engine.{minimum, Buckets, sort_rule, sort_rules}

-- The positions, counted from `n`, of the elements that pass a test.
unfoldable pub indices {ℓ} : {R : Type ℓ} → ℕ → (R → Bool) → List R → List ℕ
indices n q [] = []
indices n q (r ∷ rs) = if q r then n ∷ indices (suc n) q rs else indices (suc n) q rs

-- The position of the first one.
unfoldable pub first_index {ℓ} : {R : Type ℓ} → ℕ → (R → Bool) → List R → Option ℕ
first_index n q [] = none
first_index n q (r ∷ rs) = if q r then some n else first_index (suc n) q rs

abbrev pub min_option : Option ℕ → Option ℕ → Option ℕ
min_option none b = b
min_option (some i) none = some i
min_option (some i) (some j) = some (min i j)

pub minimum-append : (xs ys : List ℕ) → minimum (xs ++ ys) ≡ min_option (minimum xs) (minimum ys)
unfolding minimum
minimum-append [] ys = refl
minimum-append (x ∷ xs) ys = ground (arith, minimum-append xs ys)

module _ {ℓ} {R : Type ℓ} (q : R → Bool) where
  first_index-le : (n : ℕ) (rs : List R) (i : ℕ) → first_index n q rs ≡ some i → n ≤ i
  unfolding first_index
  first_index-le n [] i h = absurd (cc)
  first_index-le n (r ∷ rs) i h = ground (arith, first_index-le (suc n) rs i)

  pub minimum-indices : (n : ℕ) (rs : List R) → minimum (indices n q rs) ≡ first_index n q rs
  unfolding minimum indices first_index
  minimum-indices n [] = refl
  minimum-indices n (r ∷ rs) = elim (Option-cases (first_index (suc n) q rs)) [
    | inl never ↦ ground (arith, minimum-indices (suc n) rs, never)
    | inr (j, later) ↦
        ground (arith, minimum-indices (suc n) rs, later, first_index-le (suc n) rs j later)
  ]

pub first_index-or {ℓ} :
    {R : Type ℓ} (p q : R → Bool) (n : ℕ) (rs : List R)
    → first_index n (λ r. p r || q r) rs ≡ min_option (first_index n p rs) (first_index n q rs)
unfolding first_index
first_index-or p q n [] = refl
first_index-or p q n (r ∷ rs) = elim (Option-cases (first_index (suc n) p rs)) [
  | inl never ↦ elim (Option-cases (first_index (suc n) q rs)) [
    | inl never' ↦ ground (arith, first_index-or p q (suc n) rs, never, never')
    | inr (j, at) ↦
        ground (arith, first_index-or p q (suc n) rs, never, at, first_index-le q (suc n) rs j at)
  ]
  | inr (i, at) ↦ elim (Option-cases (first_index (suc n) q rs)) [
    | inl never ↦
        ground (arith, first_index-or p q (suc n) rs, at, never, first_index-le p (suc n) rs i at)
    | inr (j, at') ↦ ground (
      arith,
      first_index-or p q (suc n) rs,
      at,
      at',
      first_index-le p (suc n) rs i at,
      first_index-le q (suc n) rs j at',
    )
  ]
]

abbrev pub pick_at {ℓ} : {X : Type ℓ} → Option X → ℕ → List (X × ℕ)
pick_at none n = []
pick_at (some x) n = (x, n) ∷ []

abbrev pub passes {ℓ} : {X : Type ℓ} → (X → Bool) → Option X → Bool
passes p none = false
passes p (some x) = p x

module _ (N : IpNet) where
  -- The patterns of one kind, each with the position of its rule.
  unfoldable pub collect {ℓ} :
      {X : Type ℓ} → (RuleType N → Option X) → ℕ → List (Rule N) → List (X × ℕ)
  collect kind n [] = []
  collect kind n (r ∷ rs) = pick_at (kind r.rule_type) n ++ collect kind (suc n) rs

  pub keep-collect {ℓ} :
      {X : Type ℓ} (p : X → Bool) (kind : RuleType N → Option X) (n : ℕ) (rs : List (Rule N))
      → map (λ e. e.1) (keep (λ e. p e.0) (collect kind n rs))
        ≡ indices n (λ r. passes p (kind r.rule_type)) rs
  unfolding collect indices
  keep-collect p kind n [] = refl
  keep-collect p kind n (r ∷ rs) = elim (Option-cases (kind r.rule_type)) [
    | inl other ↦ rw other (keep-collect p kind (suc n) rs)
    | inr (x, same) ↦ elim (Bool-cases (p x)) [
      | inl pass ↦ rw (same, pass) (ap (◌∷◌ n) (keep-collect p kind (suc n) rs))
      | inr fail ↦ rw (same, fail) (keep-collect p kind (suc n) rs)
    ]
  ]

  abbrev pub as_domain : RuleType N → Option Text
  as_domain (domain d) = some d
  as_domain _ = none

  abbrev pub as_suffix : RuleType N → Option Text
  as_suffix (domain_suffix s) = some s
  as_suffix _ = none

  abbrev pub as_keyword : RuleType N → Option Text
  as_keyword (domain_keyword k) = some k
  as_keyword _ = none

  abbrev pub as_ip_cidr : RuleType N → Option N.Ipv4Net
  as_ip_cidr (ip_cidr c) = some c
  as_ip_cidr _ = none

  abbrev pub as_ip_cidr6 : RuleType N → Option N.Ipv6Net
  as_ip_cidr6 (ip_cidr6 c) = some c
  as_ip_cidr6 _ = none

  abbrev pub as_geo_ip : RuleType N → Option Text
  as_geo_ip (geo_ip c) = some c
  as_geo_ip _ = none

module _ (N : IpNet) (A : AhoCorasick) (G : MaxMind) where
  -- A list of the buckets to which each round appends the patterns of one kind.
  module _ {ℓ} {X : Type ℓ} (kind : RuleType N → Option X) (bucket : Buckets N A G → List (X × ℕ))
      (appends : (n : ℕ) (p : Policy) (t : RuleType N) (b : Buckets N A G)
        → bucket (sort_rule N A G n p t b) ≡ bucket b ++ pick_at (kind t) n) where
    pub sort_rules-collect :
        (n : ℕ) (rs : List (Rule N)) (b : Buckets N A G)
        → bucket (sort_rules N A G n rs b) ≡ bucket b ++ collect N kind n rs
    unfolding sort_rules collect
    sort_rules-collect n [] b = sym (append-nil _)
    sort_rules-collect n (r ∷ rs) b =
        sort_rules-collect (suc n) rs (sort_rule N A G n r.policy r.rule_type b)
        ∙ ap (λ l. l ++ collect N kind (suc n) rs) (appends n r.policy r.rule_type b)
        ∙ append_assoc (bucket b) (pick_at (kind r.rule_type) n) (collect N kind (suc n) rs)

  append_exact :
      (n : ℕ) (p : Policy) (t : RuleType N) (b : Buckets N A G)
      → (sort_rule N A G n p t b).exact_domains ≡ b.exact_domains ++ pick_at (as_domain N t) n
  unfolding sort_rule
  append_exact n p (domain x) b = refl
  append_exact n p t b = sym (append-nil _)

  pub sort_rules-exact :
      (n : ℕ) (rs : List (Rule N)) (b : Buckets N A G)
      → (sort_rules N A G n rs b).exact_domains ≡ b.exact_domains ++ collect N (as_domain N) n rs
  sort_rules-exact = sort_rules-collect (as_domain N) (λ b. b.exact_domains) append_exact

  append_suffixes :
      (n : ℕ) (p : Policy) (t : RuleType N) (b : Buckets N A G)
      → (sort_rule N A G n p t b).suffix_domains ≡ b.suffix_domains ++ pick_at (as_suffix N t) n
  unfolding sort_rule
  append_suffixes n p (domain_suffix x) b = refl
  append_suffixes n p t b = sym (append-nil _)

  pub sort_rules-suffixes :
      (n : ℕ) (rs : List (Rule N)) (b : Buckets N A G)
      → (sort_rules N A G n rs b).suffix_domains ≡ b.suffix_domains ++ collect N (as_suffix N) n rs
  sort_rules-suffixes = sort_rules-collect (as_suffix N) (λ b. b.suffix_domains) append_suffixes

  append_keywords :
      (n : ℕ) (p : Policy) (t : RuleType N) (b : Buckets N A G)
      → (sort_rule N A G n p t b).keywords ≡ b.keywords ++ pick_at (as_keyword N t) n
  unfolding sort_rule
  append_keywords n p (domain_keyword x) b = refl
  append_keywords n p t b = sym (append-nil _)

  pub sort_rules-keywords :
      (n : ℕ) (rs : List (Rule N)) (b : Buckets N A G)
      → (sort_rules N A G n rs b).keywords ≡ b.keywords ++ collect N (as_keyword N) n rs
  sort_rules-keywords = sort_rules-collect (as_keyword N) (λ b. b.keywords) append_keywords

  append_ipv4 :
      (n : ℕ) (p : Policy) (t : RuleType N) (b : Buckets N A G)
      → (sort_rule N A G n p t b).ipv4_cidrs ≡ b.ipv4_cidrs ++ pick_at (as_ip_cidr N t) n
  unfolding sort_rule
  append_ipv4 n p (ip_cidr x) b = refl
  append_ipv4 n p t b = sym (append-nil _)

  pub sort_rules-ipv4 :
      (n : ℕ) (rs : List (Rule N)) (b : Buckets N A G)
      → (sort_rules N A G n rs b).ipv4_cidrs ≡ b.ipv4_cidrs ++ collect N (as_ip_cidr N) n rs
  sort_rules-ipv4 = sort_rules-collect (as_ip_cidr N) (λ b. b.ipv4_cidrs) append_ipv4

  append_ipv6 :
      (n : ℕ) (p : Policy) (t : RuleType N) (b : Buckets N A G)
      → (sort_rule N A G n p t b).ipv6_cidrs ≡ b.ipv6_cidrs ++ pick_at (as_ip_cidr6 N t) n
  unfolding sort_rule
  append_ipv6 n p (ip_cidr6 x) b = refl
  append_ipv6 n p t b = sym (append-nil _)

  pub sort_rules-ipv6 :
      (n : ℕ) (rs : List (Rule N)) (b : Buckets N A G)
      → (sort_rules N A G n rs b).ipv6_cidrs ≡ b.ipv6_cidrs ++ collect N (as_ip_cidr6 N) n rs
  sort_rules-ipv6 = sort_rules-collect (as_ip_cidr6 N) (λ b. b.ipv6_cidrs) append_ipv6

  append_countries :
      (n : ℕ) (p : Policy) (t : RuleType N) (b : Buckets N A G)
      → (sort_rule N A G n p t b).country_rules ≡ b.country_rules ++ pick_at (as_geo_ip N t) n
  unfolding sort_rule
  append_countries n p (geo_ip x) b = refl
  append_countries n p t b = sym (append-nil _)

  pub sort_rules-countries :
      (n : ℕ) (rs : List (Rule N)) (b : Buckets N A G)
      → (sort_rules N A G n rs b).country_rules ≡ b.country_rules ++ collect N (as_geo_ip N) n rs
  sort_rules-countries = sort_rules-collect (as_geo_ip N) (λ b. b.country_rules) append_countries
