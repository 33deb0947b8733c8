-- ===== src/Rule/Trie.antt =====
-- src/rule/matcher/domain.rs, `SuffixTrie`: suffixes of domains, label by label from the end. The
-- children of a node are the entries of its hash map.
pub mod Lookup
use home_guard.Prelude.{
  ℕ, Bool, true, false, ◌&&◌, Option, none, some, List, [], ◌∷◌, reverse, if◌then◌else◌, ◌==◌,
  nat_eq, list_eq,
}
use home_guard.Prelude.Text.{Text, to_lowercase, split_on}

mutual
  pub data SuffixTrie : Type 0 where
    node : Children → Option ℕ → SuffixTrie

  pub data Children : Type 0 where
    nil : Children
    cons : Text → SuffixTrie → Children → Children

unfoldable pub new : SuffixTrie
new = node nil none

abbrev pub rule_index : SuffixTrie → Option ℕ
rule_index (node cs r) = r

abbrev pub children : SuffixTrie → Children
children (node cs r) = cs

-- `entry(key).or_insert_with(SuffixTrie::new)`, with what happens to the entry.
unfoldable pub update_entry : Text → (SuffixTrie → SuffixTrie) → Children → Children
unfolding new
update_entry key f nil = cons key (f new) nil
update_entry key f (cons k t cs) =
    if k == key then cons k (f t) cs else cons k t (update_entry key f cs)

unfoldable pub get_child : Text → Children → Option SuffixTrie
get_child key nil = none
get_child key (cons k t cs) = if k == key then some t else get_child key cs

-- `domain.split('.').rev()`
unfoldable pub rev_labels : Text → List Text
rev_labels domain = reverse (split_on b'.' domain)

-- The loop of `insert`, from the node that it has reached.
unfoldable pub insert_at : List Text → ℕ → SuffixTrie → SuffixTrie
insert_at [] i (node cs r) = node cs (some i)
insert_at (part ∷ parts) i (node cs r) =
    node (update_entry (to_lowercase part) (insert_at parts i) cs) r

unfoldable pub insert : Text → ℕ → SuffixTrie → SuffixTrie
unfolding insert_at rev_labels
insert domain i t = insert_at (rev_labels domain) i t

abbrev pub or_last : Option ℕ → Option ℕ → Option ℕ
or_last (some i) last = some i
or_last none last = last

-- The loop of `match_domain`: the node that it has reached and the last match.
unfoldable pub match_from : List Text → SuffixTrie → Option ℕ → Option ℕ
match_from [] current last = last
match_from (part ∷ parts) current last = elim (get_child (to_lowercase part) (children current)) [
  | none ↦ last
  | some child ↦ match_from parts child (or_last (rule_index child) last)
]

unfoldable pub match_domain : Text → SuffixTrie → Option ℕ
unfolding match_from rev_labels
match_domain domain t = match_from (rev_labels domain) t none

unfoldable pub is_empty : SuffixTrie → Bool
is_empty (node nil none) = true
is_empty (node _ _) = false
