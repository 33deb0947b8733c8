-- ===== src/Rule/Domain/Matches.antt =====
-- Every index that `match_all` reports is of a listed domain, suffix or keyword that fits, and no index
-- is read out of bounds.
use mathlib.Core.Path.{subst}
use home_guard.Prelude.{
  ℕ, zero, suc, ◌≡◌, refl, ◌⊎◌, inl, inr, Option, none, some, List, [], ◌∷◌, ◌++◌, arith, ◌==◌,
  nat_eq, list_eq, beq_iff, Option-cases, Bool-cases, get_elem?, In, here, there, All,
}
use home_guard.Prelude.Map
use home_guard.Prelude.Text.{Text, to_lowercase, to_lowercase_idem, Contains}
use home_guard.Crates.AhoCorasick.{AhoCorasick}
use home_guard.Rule.Trie
use home_guard.Rule.Domain.{
  contains, push_new, push_some, push_keywords, add_all_exact, add_all_suffixes, firsts, seconds,
  DomainMatcher, new, with_keywords, build, match_all,
}
use home_guard.Rule.Domain.Suffix.{HasSuffix, match_domain-most_specific}

-- What the map of whole domains finds was listed.
lookup-add_all_exact :
    (rs : List (Text × ℕ)) (k : Text) (m : List (Text × ℕ)) (i : ℕ)
    → Map.lookup k (add_all_exact rs m) ≡ some i
    → ((x : Text) × In (x, i) rs × (to_lowercase x ≡ k)) ⊎ (Map.lookup k m ≡ some i)
unfolding add_all_exact
lookup-add_all_exact [] k m i h = inr h
lookup-add_all_exact ((x, j) ∷ rs) k m i h = elim (lookup-add_all_exact rs k _ i h) [
  | inl (y, listed, same) ↦ inl (y, there listed, same)
  | inr now ↦ elim (Bool-cases (to_lowercase x == k)) [
    | inl same ↦ inl (
      x,
      here (ground (arith, Map.lookup-insert (to_lowercase x) k j m)),
      (beq_iff (to_lowercase x) k).0 same,
    )
    | inr other ↦ inr (ground (arith, Map.lookup-insert (to_lowercase x) k j m))
  ]
]

get_elem?-seconds :
    (ks : List (Text × ℕ)) (n : ℕ) (p : Text)
    → get_elem? (firsts ks) n ≡ some p
    → (i : ℕ) × (get_elem? (seconds ks) n ≡ some i) × In (p, i) ks
get_elem?-seconds [] n p h = absurd (cc)
get_elem?-seconds ((q, i) ∷ ks) zero p h = (i, refl, here (cc h))
get_elem?-seconds ((q, i) ∷ ks) (suc n) p h =
    let (j, at, listed) = get_elem?-seconds ks n p h in (j, at, there listed)

with_keywords_cases :
    (A : AhoCorasick) (ks : List (Text × ℕ)) (m : DomainMatcher A)
    → (with_keywords A ks m ≡ m)
      ⊎ ((ac : A.Automaton) × (A.build (firsts ks) ≡ some ac)
          × (with_keywords A ks m
              ≡ record m { keyword_ac = some ac; keyword_indices = seconds ks }))
unfolding with_keywords
with_keywords_cases A [] m = inl refl
with_keywords_cases A (k ∷ ks) m = elim (Option-cases (A.build (firsts (k ∷ ks)))) [
  | inl failed ↦ inl (rw (failed, with_keywords))
  | inr (ac, made) ↦ inr (ac, made, rw (made, with_keywords))
]

module _ (P : ℕ → Type 0) where
  pub All-append : (xs ys : List ℕ) → All P xs → All P ys → All P (xs ++ ys)
  All-append [] ys h k = k
  All-append (x ∷ xs) ys h k = (h.0, All-append xs ys h.1 k)

  push_new-All : (i : ℕ) (is : List ℕ) → P i → All P is → All P (push_new i is)
  unfolding push_new
  push_new-All i is h k = elim (Bool-cases (contains i is)) [
    | inl old ↦ rw old k
    | inr fresh ↦ rw fresh (All-append is (i ∷ []) k (h, tt))
  ]

  push_keywords-All :
      (ks : List (Text × ℕ)) (found is : List ℕ)
      → ((n : ℕ)
          → In n found
          → (p : Text) × (get_elem? (firsts ks) n ≡ some p) × ((i : ℕ) → In (p, i) ks → P i))
      → All P is
      → (l : List ℕ) × (push_keywords (seconds ks) found is ≡ some l) × All P l
  unfolding push_keywords
  push_keywords-All ks [] is h k = (is, refl, k)
  push_keywords-All ks (n ∷ found) is h k =
      let (p, at, good) = h n (here refl) in
      let (i, at', listed) = get_elem?-seconds ks n p at in
      let (l, run, all) =
        push_keywords-All ks found (push_new i is) (λ m q. h m (there q))
          (push_new-All i is (good i listed) k) in
      (l, rw at' run, all)

  module _ (A : AhoCorasick) (ds ss ks : List (Text × ℕ)) (d : Text)
      (exact : (x : Text) (i : ℕ) → In (x, i) ds → to_lowercase x ≡ to_lowercase d → P i)
      (suffix : (s : Text) (i : ℕ) → In (s, i) ss → HasSuffix (to_lowercase d) s → P i)
      (keyword : (k : Text) (i : ℕ)
        → In (k, i) ks
        → Contains (to_lowercase k) (to_lowercase d)
        → P i) where
    push_exact : All P (push_some (Map.lookup (to_lowercase d) (add_all_exact ds [])) [])
    push_exact = go _ refl
      where
        go :
            (o : Option ℕ)
            → Map.lookup (to_lowercase d) (add_all_exact ds []) ≡ o
            → All P (push_some o [])
        go none e = tt
        go (some i) e = elim (lookup-add_all_exact ds (to_lowercase d) [] i e) [
          | inl (x, listed, same) ↦ push_new-All i [] (exact x i listed same) tt
          | inr empty ↦ absurd (cc (Map.lookup-nil {V = ℕ} (to_lowercase d), empty))
        ]

    push_suffix :
        (is : List ℕ)
        → All P is
        → All P (push_some (Trie.match_domain (to_lowercase d) (add_all_suffixes ss Trie.new)) is)
    push_suffix is k = go _ refl
      where
        go :
            (o : Option ℕ)
            → Trie.match_domain (to_lowercase d) (add_all_suffixes ss Trie.new) ≡ o
            → All P (push_some o is)
        go none e = k
        go (some i) e =
            let (s, listed, has, _) = match_domain-most_specific ss (to_lowercase d) i e in
            push_new-All i is (suffix s i listed has) k

    pub match_all-All : (l : List ℕ) × (match_all A d (build A ds ss ks) ≡ some l) × All P l
    unfolding build match_all new
    match_all-All =
        let found = push_suffix _ push_exact in
        elim (with_keywords_cases A ks (record (new A) {
          exact = add_all_exact ds [];
          suffix_trie = add_all_suffixes ss Trie.new;
        })) [
          | inl plain ↦ rw plain (_, refl, found)
          | inr (ac, made, with_ac) ↦
              rw with_ac
                (push_keywords-All ks (A.find_iter ac (to_lowercase d)) _ (reported ac made) found)
        ]
      where
        reported :
            (ac : A.Automaton)
            → A.build (firsts ks) ≡ some ac
            → (n : ℕ) → In n (A.find_iter ac (to_lowercase d))
            → (p : Text) × (get_elem? (firsts ks) n ≡ some p) × ((i : ℕ) → In (p, i) ks → P i)
        reported ac made n m =
            let (p, at, occurs) = A.find_iter_sound (firsts ks) ac (to_lowercase d) n made m in
            (
              p,
              at,
              λ i listed.
                  keyword p i listed
                    (subst (Contains (to_lowercase p)) (to_lowercase_idem d) occurs),
            )
