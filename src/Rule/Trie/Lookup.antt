-- ===== src/Rule/Trie/Lookup.antt =====
-- The trie as a function from labels to rule indices, and the match as its longest prefix.
use mathlib.Core.Path.{fun_ext, subst}
use home_guard.Prelude.{
  ℕ, ◌≡◌, refl, sym, ◌∙◌, ap, Option, none, some, List, [], ◌∷◌, map, inl, inr, arith,
  if◌then◌else◌, ◌==◌, nat_eq, list_eq, Option-cases, beq_iff, ◌≢◌, ◌++◌, length, ◌≤◌, suc,
}
use home_guard.Prelude.Text.{Text, to_lowercase}
use home_guard.Rule.Trie.{
  SuffixTrie, node, Children, nil, cons, new, rule_index, children, update_entry, get_child,
  rev_labels, insert_at, or_last, match_from, match_domain, insert,
}

-- The index at the end of a path of labels.
unfoldable pub index_at : SuffixTrie → List Text → Option ℕ
index_at t [] = rule_index t
index_at t (p ∷ ps) = elim (get_child p (children t)) [
  | none ↦ none
  | some child ↦ index_at child ps
]

-- The value at the longest prefix, not empty, that has one.
unfoldable pub longest : (List Text → Option ℕ) → List Text → Option ℕ
longest f [] = none
longest f (p ∷ ps) = or_last (longest (λ q. f (p ∷ q)) ps) (f (p ∷ []))

get_child-update_entry :
    (key k : Text) (f : SuffixTrie → SuffixTrie) (cs : Children)
    → get_child k (update_entry key f cs) ≡ (
        if key == k
        then some (elim (get_child key cs) [ none ↦ f new | some t ↦ f t ])
        else get_child k cs)
unfolding get_child update_entry
get_child-update_entry key k f nil = refl
get_child-update_entry key k f (cons j t cs) =
    ground (arith, beq_iff key k, beq_iff j key, beq_iff j k, get_child-update_entry key k f cs)

index_at-new : (q : List Text) → index_at new q ≡ none
unfolding index_at new get_child
index_at-new [] = refl
index_at-new (p ∷ q) = refl

pub index_at-insert_at :
    (ps : List Text) (i : ℕ) (t : SuffixTrie) (q : List Text)
    → index_at (insert_at ps i t) q ≡ (if map to_lowercase ps == q then some i else index_at t q)
unfolding index_at insert_at
index_at-insert_at [] i (node cs r) [] = refl
index_at-insert_at [] i (node cs r) (p ∷ q) = refl
index_at-insert_at (p ∷ ps) i (node cs r) [] = refl
index_at-insert_at (p ∷ ps) i (node cs r) (k ∷ q) =
    let entry = get_child-update_entry (to_lowercase p) k (insert_at ps i) cs in
    elim (Option-cases (get_child (to_lowercase p) cs)) [
      | inl miss ↦ ground (
        arith,
        entry,
        miss,
        beq_iff (to_lowercase p) k,
        index_at-insert_at ps i new q,
        index_at-new q,
      )
      | inr (child, hit) ↦
          ground (arith, entry, hit, beq_iff (to_lowercase p) k, index_at-insert_at ps i child q)
    ]

longest-none :
    (f : List Text → Option ℕ) (ps : List Text)
    → ((q : List Text) → f q ≡ none)
    → longest f ps ≡ none
unfolding longest
longest-none f [] h = refl
longest-none f (p ∷ ps) h = rw (longest-none (λ q. f (p ∷ q)) ps (λ q. h (p ∷ q)), h (p ∷ []))

or_last_assoc : (a b c : Option ℕ) → or_last (or_last a b) c ≡ or_last a (or_last b c)
or_last_assoc none b c = refl
or_last_assoc (some i) b c = refl

index_at-nil : (t : SuffixTrie) → index_at t [] ≡ rule_index t
unfolding index_at
index_at-nil t = refl

index_at_miss :
    (t : SuffixTrie) (k : Text) (q : List Text)
    → get_child k (children t) ≡ none
    → index_at t (k ∷ q) ≡ none
unfolding index_at
index_at_miss t k q miss = rw (miss, index_at)

index_at_hit :
    (t child : SuffixTrie) (k : Text) (q : List Text)
    → get_child k (children t) ≡ some child
    → index_at t (k ∷ q) ≡ index_at child q
unfolding index_at
index_at_hit t child k q hit = rw (hit, index_at)

-- The loop finds the value at the longest path that starts the labels.
pub match_from-longest :
    (ps : List Text) (t : SuffixTrie) (last : Option ℕ)
    → match_from ps t last ≡ or_last (longest (index_at t) (map to_lowercase ps)) last
unfolding match_from longest
match_from-longest [] t last = refl
match_from-longest (p ∷ ps) t last =
    let k = to_lowercase p in
    elim (Option-cases (get_child k (children t))) [
      | inl miss ↦
          let absent : (q : List Text) → index_at t (k ∷ q) ≡ none =
            λ q. index_at_miss t k q miss in
          rw
            (
              longest-none (λ q. index_at t (k ∷ q)) (map to_lowercase ps) absent,
              absent [],
              miss,
              match_from,
            )
            refl
      | inr (child, hit) ↦
          let below : (λ q. index_at t (k ∷ q)) ≡ index_at child =
            fun_ext (λ q. index_at_hit t child k q hit) in
          rw (below, index_at_hit t child k [] hit, index_at-nil child, hit, match_from)
            (match_from-longest ps child (or_last (rule_index child) last)
              ∙ sym (
                  or_last_assoc (longest (index_at child) (map to_lowercase ps)) (rule_index child)
                    last))
    ]

-- The path of a domain: its labels from the end, in lower case.
unfoldable pub path_of : Text → List Text
path_of domain = map to_lowercase (rev_labels domain)

pub index_at-insert :
    (s : Text) (i : ℕ) (t : SuffixTrie) (q : List Text)
    → index_at (insert s i t) q ≡ (if path_of s == q then some i else index_at t q)
unfolding insert path_of
index_at-insert s i t q = index_at-insert_at (rev_labels s) i t q

pub or_last-none : (a : Option ℕ) → or_last a none ≡ a
or_last-none none = refl
or_last-none (some i) = refl

pub match_domain-longest :
    (d : Text) (t : SuffixTrie) → match_domain d t ≡ longest (index_at t) (path_of d)
unfolding match_domain path_of
match_domain-longest d t = match_from-longest (rev_labels d) t none ∙ or_last-none _

pub index_at-new_lem : (q : List Text) → index_at new q ≡ none
index_at-new_lem = index_at-new

cons_injective : {k l : Text} {ps qs : List Text} → k ∷ ps ≡ l ∷ qs → (k ≡ l) × (ps ≡ qs)
cons_injective e = (cc, cc)

or_last-eq-none : (a b : Option ℕ) → or_last a b ≡ none → (a ≡ none) × (b ≡ none)
or_last-eq-none none b h = (refl, h)
or_last-eq-none (some i) b h = cc

-- `longest` finds nothing only where no prefix, not empty, has a value.
pub longest_none_lem :
    (f : List Text → Option ℕ) (ps q rest : List Text)
    → longest f ps ≡ none
    → ps ≡ q ++ rest
    → q ≢ []
    → f q ≡ none
unfolding longest
longest_none_lem f ps [] rest h e labels = absurd (labels refl)
longest_none_lem f [] (k ∷ q) rest h e labels = cc
longest_none_lem f (p ∷ ps) (k ∷ []) rest h e labels =
    let (same, _) = cons_injective e in
    subst (λ x. f (x ∷ []) ≡ none) same (or_last-eq-none _ _ h).1
longest_none_lem f (p ∷ ps) (k ∷ l ∷ q) rest h e labels =
    let (same, tails) = cons_injective e in
    subst (λ x. f (x ∷ l ∷ q) ≡ none) same
      (longest_none_lem (λ q. f (p ∷ q)) ps (l ∷ q) rest (or_last-eq-none _ _ h).0 tails (cc))

-- What `longest` finds stands at a prefix, and no longer prefix has a value.
pub record AtLongest (f : List Text → Option ℕ) (ps : List Text) (i : ℕ) : Type 0 where
  pub prefix : List Text
  pub rest : List Text
  pub splits : ps ≡ prefix ++ rest
  pub found : f prefix ≡ some i
  pub nothing_longer :
      (q rest' : List Text) (j : ℕ)
      → ps ≡ q ++ rest'
      → f q ≡ some j
      → q ≢ []
      → length q ≤ length prefix

AtLongest-cons :
    (f : List Text → Option ℕ) (p : Text) (ps : List Text) (i : ℕ)
    → AtLongest (λ q. f (p ∷ q)) ps i
    → AtLongest f (p ∷ ps) i
AtLongest-cons f p ps i a = record {
  prefix = p ∷ a.prefix;
  rest = a.rest;
  splits = ap (◌∷◌ p) a.splits;
  found = a.found;
  nothing_longer = bound;
}
  where
    bound :
        (q rest' : List Text) (j : ℕ)
        → p ∷ ps ≡ q ++ rest'
        → f q ≡ some j
        → q ≢ []
        → length q ≤ suc (length a.prefix)
    bound [] rest' j e h labels = omega arith
    bound (k ∷ []) rest' j e h labels = omega arith
    bound (k ∷ l ∷ q) rest' j e h labels =
        let (same, tails) = cons_injective e in
        omega (
          arith,
          a.nothing_longer (l ∷ q) rest' j tails (subst (λ x. f (x ∷ l ∷ q) ≡ some j) (sym same) h)
              (cc),
        )

AtLongest-single :
    (f : List Text → Option ℕ) (p : Text) (ps : List Text) (i : ℕ)
    → longest (λ q. f (p ∷ q)) ps ≡ none
    → f (p ∷ []) ≡ some i
    → AtLongest f (p ∷ ps) i
AtLongest-single f p ps i h e = record {
  prefix = p ∷ [];
  rest = ps;
  splits = refl;
  found = e;
  nothing_longer = bound;
}
  where
    bound :
        (q rest' : List Text) (j : ℕ) → p ∷ ps ≡ q ++ rest' → f q ≡ some j → q ≢ [] → length q ≤ 1
    bound [] rest' j e h labels = omega arith
    bound (k ∷ []) rest' j e h labels = omega arith
    bound (k ∷ l ∷ q) rest' j e g labels =
        let (same, tails) = cons_injective e in
        let absent = longest_none_lem (λ q. f (p ∷ q)) ps (l ∷ q) rest' h tails (cc) in
        absurd (cc (subst (λ x. f (x ∷ l ∷ q) ≡ none) same absent))

pub longest-AtLongest :
    (f : List Text → Option ℕ) (ps : List Text) (i : ℕ) → longest f ps ≡ some i → AtLongest f ps i
unfolding longest
longest-AtLongest f [] i h = absurd (cc)
longest-AtLongest f (p ∷ ps) i h = elim (Option-cases (longest (λ q. f (p ∷ q)) ps)) [
  | inl below ↦ AtLongest-single f p ps i below (rw below at h)
  | inr (j, below) ↦
      AtLongest-cons f p ps i (longest-AtLongest (λ q. f (p ∷ q)) ps i (below ∙ (rw below at h)))
]
