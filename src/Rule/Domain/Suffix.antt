-- ===== src/Rule/Domain/Suffix.antt =====
-- The suffix rules of a matcher: the trie answers with the rule of the longest suffix.
use mathlib.Core.List.{reverse-reverse}
use mathlib.Core.Path.{fun_ext}
use home_guard.Prelude.{
  ℕ, ◌≤◌, ◌<◌, ◌≡◌, ◌≢◌, ◌↔◌, refl, sym, ◌∙◌, ap, Option, none, some, List, [], ◌∷◌, ◌++◌, map,
  reverse, inl, inr, arith, if◌then◌else◌, ◌==◌, nat_eq, list_eq, beq_iff, Option-cases, Bool-cases,
  length, In, here, there,
}
use home_guard.Prelude.Text.{Text, split_on, push_head, to_lowercase}
use home_guard.Rule.Trie
use home_guard.Rule.Trie.{SuffixTrie, or_last, rev_labels}
use home_guard.Rule.Trie.Lookup.{
  index_at, longest, path_of, index_at-insert, index_at-new_lem, or_last-none, match_domain-longest,
  longest_none_lem, longest-AtLongest,
}
use home_guard.Rule.Domain.{add_all_suffixes}

-- The last rule whose suffix has the path.
unfoldable pub last_rule : List (Text × ℕ) → List Text → Option ℕ
last_rule [] q = none
last_rule ((s, i) ∷ rest) q = or_last (last_rule rest q) (if path_of s == q then some i else none)

index_at-add_all :
    (rs : List (Text × ℕ)) (t : SuffixTrie) (q : List Text)
    → index_at (add_all_suffixes rs t) q ≡ or_last (last_rule rs q) (index_at t q)
unfolding add_all_suffixes last_rule
index_at-add_all [] t q = refl
index_at-add_all ((s, i) ∷ rest) t q =
    ground (arith, index_at-add_all rest (Trie.insert s i t) q, index_at-insert s i t q)

match_domain-add_all :
    (rs : List (Text × ℕ)) (d : Text)
    → Trie.match_domain d (add_all_suffixes rs Trie.new) ≡ longest (last_rule rs) (path_of d)
match_domain-add_all rs d =
    match_domain-longest d (add_all_suffixes rs Trie.new)
    ∙ ap (λ f. longest f (path_of d)) (fun_ext same)
  where
    same : (q : List Text) → index_at (add_all_suffixes rs Trie.new) q ≡ last_rule rs q
    same q =
        index_at-add_all rs Trie.new q
        ∙ ap (or_last (last_rule rs q)) (index_at-new_lem q)
        ∙ or_last-none _

last_rule_listed :
    (rs : List (Text × ℕ)) (q : List Text) (i : ℕ)
    → last_rule rs q ≡ some i
    → (s : Text) × In (s, i) rs × (path_of s ≡ q)
unfolding last_rule
last_rule_listed [] q i h = absurd (cc)
last_rule_listed ((s, j) ∷ rest) q i h = elim (Option-cases (last_rule rest q)) [
  | inl later ↦
      (s, here (ground (arith, beq_iff (path_of s) q)), ground (arith, beq_iff (path_of s) q))
  | inr (k, later) ↦
      let (t, listed, same) = last_rule_listed rest q i (later ∙ rw later at h) in
      (t, there listed, same)
]

-- A listed rule has a value at its path.
last_rule_found :
    (rs : List (Text × ℕ)) (s : Text) (i : ℕ)
    → In (s, i) rs
    → (j : ℕ) × (last_rule rs (path_of s) ≡ some j)
unfolding last_rule
last_rule_found [] s i m = elim m [ ]
last_rule_found ((t, j) ∷ rest) s i (here e) = elim (Option-cases (last_rule rest (path_of s))) [
  | inl none_later ↦
      (j, ground (arith, none_later, beq_iff (path_of t) (path_of s), ap (λ p. path_of p.0) e))
  | inr (k, later) ↦ (k, rw later refl)
]
last_rule_found ((t, j) ∷ rest) s i (there m) =
    let (k, found) = last_rule_found rest s i m in (k, rw found refl)

split_on_ne : (c : ℕ) (s : Text) → split_on c s ≢ []
unfolding split_on
split_on_ne c [] = cc
split_on_ne c (x ∷ xs) = elim (Bool-cases (x == c)) [
  | inl dot ↦ rw dot cc
  | inr other ↦ rw other (push_head_ne (split_on c xs))
]
  where
    push_head_ne : (ws : List Text) → push_head x ws ≢ []
    push_head_ne [] = cc
    push_head_ne (w ∷ ws) = cc

path_of_ne : (s : Text) → path_of s ≢ []
unfolding path_of rev_labels
path_of_ne s e =
    let none_left : reverse (split_on b'.' s) ≡ [] = map_nil _ e in
    split_on_ne b'.' s (sym (reverse-reverse (split_on b'.' s)) ∙ ap reverse none_left)
  where
    map_nil : (ls : List Text) → map to_lowercase ls ≡ [] → ls ≡ []
    map_nil [] h = refl
    map_nil (l ∷ ls) h = cc

-- `d` has the suffix of rule `i`, on label boundaries, whatever the case.
pub record HasSuffix (d s : Text) : Type 0 where
  pub below : List Text
  pub splits : path_of d ≡ path_of s ++ below

-- Over any list of suffix rules, a match that the trie reports is of a listed rule whose suffix the
-- domain has, and no listed suffix of the domain has more labels.
pub match_domain-most_specific :
    (rs : List (Text × ℕ)) (d : Text) (i : ℕ)
    → Trie.match_domain d (add_all_suffixes rs Trie.new) ≡ some i
    → (s : Text) × In (s, i) rs
      × HasSuffix d s
      × ((t : Text) (j : ℕ)
          → In (t, j) rs
          → HasSuffix d t
          → length (path_of t) ≤ length (path_of s))
match_domain-most_specific rs d i h =
    let a = longest-AtLongest (last_rule rs) (path_of d) i (sym (match_domain-add_all rs d) ∙ h) in
    let (s, listed, same) = last_rule_listed rs a.prefix i a.found in
    (
      s,
      listed,
      record { below = a.rest; splits = rw same a.splits },
      λ t j m u.
          let (k, found) = last_rule_found rs t j m in
          rw same (a.nothing_longer (path_of t) u.below k u.splits found (path_of_ne t)),
    )

-- Over any list of suffix rules, the trie reports no match exactly where the domain has none of the
-- listed suffixes.
pub match_domain-none_iff :
    (rs : List (Text × ℕ)) (d : Text)
    → (Trie.match_domain d (add_all_suffixes rs Trie.new) ≡ none)
      ↔ ((s : Text) (i : ℕ) → In (s, i) rs → ¬ HasSuffix d s)
match_domain-none_iff rs d = (
  λ h s i m u.
      let (k, found) = last_rule_found rs s i m in
      cc (
        found,
        longest_none_lem (last_rule rs) (path_of d) (path_of s) u.below
            (sym (match_domain-add_all rs d) ∙ h) u.splits (path_of_ne s),
      ),
  λ nowhere. elim (Option-cases (Trie.match_domain d (add_all_suffixes rs Trie.new))) [
    | inl h ↦ h
    | inr (i, h) ↦
        let (s, m, u, _) = match_domain-most_specific rs d i h in absurd (nowhere s i m u)
  ],
)

-- Of two suffix rules that both fit a domain, the trie reports the one with more labels, also where the
-- other stands first in the list.
pub match_domain-later_wins :
    (s t d : Text) (i j : ℕ)
    → HasSuffix d s
    → HasSuffix d t
    → length (path_of s) < length (path_of t)
    → Trie.match_domain d (add_all_suffixes ((s, i) ∷ (t, j) ∷ []) Trie.new) ≡ some j
match_domain-later_wins s t d i j hs ht less = go _ refl
  where
    go :
        (o : Option ℕ)
        → Trie.match_domain d (add_all_suffixes ((s, i) ∷ (t, j) ∷ []) Trie.new) ≡ o
        → o ≡ some j
    go none e = absurd ((match_domain-none_iff _ d).0 e s i (here refl) hs)
    go (some k) e =
        let (x, listed, has, most) = match_domain-most_specific _ d k e in
        chosen x k listed (most t j (there (here refl)) ht)
      where
        chosen :
            (x : Text) (k : ℕ)
            → In {A = Text × ℕ} (x, k) ((s, i) ∷ (t, j) ∷ [])
            → length (path_of t) ≤ length (path_of x)
            → some k ≡ some j
        chosen x k (here e) h = absurd (omega (arith, less, h, ap (λ p. length (path_of p.0)) e))
        chosen x k (there (here e)) h = ap (λ p. some p.1) (sym e)
        chosen x k (there (there m)) h = elim m [ ]
