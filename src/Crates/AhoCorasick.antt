-- ===== src/Crates/AhoCorasick.antt =====
-- The crate `aho_corasick`, as the program builds it: several patterns, ASCII letters without case,
-- matches that do not overlap. A pattern is known by its position in the list.
use home_guard.Prelude.{ℕ, ◌≡◌, Option, some, List, [], In, get_elem?}
use home_guard.Prelude.Text.{Text, to_lowercase, Contains}

pub record AhoCorasick : Type 1 where
  pub Automaton : Type 0
  pub build : List Text → Option Automaton
  -- The patterns of the matches in a text, in order.
  pub find_iter : Automaton → Text → List ℕ
  -- A reported pattern occurs in the text.
  pub find_iter_sound :
      (ps : List Text) (a : Automaton) (s : Text) (i : ℕ)
      → build ps ≡ some a
      → In i (find_iter a s)
      → (p : Text) × (get_elem? ps i ≡ some p) × Contains (to_lowercase p) (to_lowercase s)
  -- Where some pattern occurs, a match is reported.
  pub find_iter_complete :
      (ps : List Text) (a : Automaton) (s : Text) (i : ℕ) (p : Text)
      → build ps ≡ some a
      → get_elem? ps i ≡ some p
      → Contains (to_lowercase p) (to_lowercase s)
      → find_iter a s ≡ []
      → ⊥
