-- ===== src/Rule/Domain.antt =====
-- src/rule/matcher/domain.rs, `DomainMatcher`: a map for whole domains, the trie for suffixes and an
-- automaton for keywords. `none` is a panic: an index out of bounds.
pub mod Suffix
pub mod Matches
use home_guard.Prelude.{
  ℕ, Bool, true, false, ◌&&◌, ◌||◌, Option, none, some, List, [], ◌∷◌, ◌++◌, map, if◌then◌else◌,
  ◌==◌, nat_eq, list_eq, ◌>>=◌, get_elem?, length,
}
use home_guard.Prelude.Map
use home_guard.Prelude.Text.{Text, to_lowercase}
use home_guard.Crates.AhoCorasick.{AhoCorasick}
use home_guard.Rule.Trie
use home_guard.Rule.Trie.{SuffixTrie}

unfoldable pub contains : ℕ → List ℕ → Bool
contains i [] = false
contains i (j ∷ js) = j == i || contains i js

-- `if !matches.contains(&index) { matches.push(index) }`
unfoldable pub push_new : ℕ → List ℕ → List ℕ
unfolding contains
push_new i matches = if contains i matches then matches else matches ++ i ∷ []

abbrev pub push_some : Option ℕ → List ℕ → List ℕ
push_some none matches = matches
push_some (some i) matches = push_new i matches

-- The loop over the keyword matches.
unfoldable pub push_keywords : List ℕ → List ℕ → List ℕ → Option (List ℕ)
push_keywords indices [] matches = some matches
push_keywords indices (pattern ∷ rest) matches = do
  index ← get_elem? indices pattern
  push_keywords indices rest (push_new index matches)

-- The loops of `build`.
unfoldable pub add_all_exact : List (Text × ℕ) → List (Text × ℕ) → List (Text × ℕ)
add_all_exact [] exact = exact
add_all_exact ((domain, index) ∷ rest) exact =
    add_all_exact rest (Map.insert (to_lowercase domain) index exact)

unfoldable pub add_all_suffixes : List (Text × ℕ) → SuffixTrie → SuffixTrie
add_all_suffixes [] t = t
add_all_suffixes ((domain, index) ∷ rest) t = add_all_suffixes rest (Trie.insert domain index t)

abbrev pub firsts : List (Text × ℕ) → List Text
firsts = map (λ p. p.0)

abbrev pub seconds : List (Text × ℕ) → List ℕ
seconds = map (λ p. p.1)

module _ (A : AhoCorasick) where
  pub record DomainMatcher : Type 0 where
    pub exact : List (Text × ℕ)
    pub suffix_trie : SuffixTrie
    pub keyword_ac : Option A.Automaton
    pub keyword_indices : List ℕ

  unfoldable pub new : DomainMatcher
  new = record { exact = []; suffix_trie = Trie.new; keyword_ac = none; keyword_indices = [] }

  -- The keyword part of `build`.
  unfoldable pub with_keywords : List (Text × ℕ) → DomainMatcher → DomainMatcher
  with_keywords [] m = m
  with_keywords (k ∷ ks) m = elim (A.build (firsts (k ∷ ks))) [
    | none ↦ m
    | some ac ↦ record m { keyword_ac = some ac; keyword_indices = seconds (k ∷ ks) }
  ]

  unfoldable pub build : List (Text × ℕ) → List (Text × ℕ) → List (Text × ℕ) → DomainMatcher
  unfolding new
  build exact_domains suffix_domains keywords = with_keywords keywords (record new {
    exact = add_all_exact exact_domains [];
    suffix_trie = add_all_suffixes suffix_domains Trie.new;
  })

  unfoldable pub match_keyword : Text → DomainMatcher → Option (Option ℕ)
  match_keyword domain m = elim m.keyword_ac [
    | none ↦ some none
    | some ac ↦ elim (A.find_iter ac (to_lowercase domain)) [
      | [] ↦ some none
      | pattern ∷ _ ↦ do index ← get_elem? m.keyword_indices pattern; some (some index)
    ]
  ]

  unfoldable pub match_all : Text → DomainMatcher → Option (List ℕ)
  match_all domain m =
      let lower = to_lowercase domain in
      let found = push_some (Map.lookup lower m.exact) [] in
      let found' = push_some (Trie.match_domain lower m.suffix_trie) found in
      elim m.keyword_ac [
        | none ↦ some found'
        | some ac ↦ push_keywords m.keyword_indices (A.find_iter ac lower) found'
      ]

  unfoldable pub match_exact : Text → DomainMatcher → Option ℕ
  match_exact domain m = Map.lookup (to_lowercase domain) m.exact

  unfoldable pub match_suffix : Text → DomainMatcher → Option ℕ
  match_suffix domain m = Trie.match_domain (to_lowercase domain) m.suffix_trie

  unfoldable pub match_domain : Text → DomainMatcher → Option (Option ℕ)
  match_domain domain m =
      let lower = to_lowercase domain in
      elim (Map.lookup lower m.exact) [
        | some index ↦ some (some index)
        | none ↦ elim (Trie.match_domain lower m.suffix_trie) [
          | some index ↦ some (some index)
          | none ↦ match_keyword lower m
        ]
      ]
