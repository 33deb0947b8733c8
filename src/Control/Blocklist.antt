-- ===== src/Control/Blocklist.antt =====
-- src/control/blocklist.rs: domains and suffixes that are blocked for everyone or by category. A
-- hash set is the list of its elements; the file system and the decoding of a file into lines are
-- arguments.
pub mod Matching
pub mod Loading
pub mod Lines
pub mod Entries
pub mod Categories
use home_guard.Prelude.{
  ℕ, ◌+◌, Bool, true, false, ◌&&◌, ◌||◌, Option, none, some, List, [], ◌∷◌, reverse, if◌then◌else◌,
  ◌==◌, nat_eq, list_eq, leb, length,
}
use home_guard.Prelude.Map.{lookup, insert}
use home_guard.Prelude.Text.{Text, to_lowercase, split_on, join, trim}

unfoldable pub contains : Text → List Text → Bool
contains s [] = false
contains s (x ∷ xs) = if x == s then true else contains s xs

-- `HashSet::insert`
abbrev pub add : Text → List Text → List Text
add s xs = if contains s xs then xs else s ∷ xs

pub record BlocklistManager : Type 0 where
  pub global_domains : List Text
  pub global_suffixes : List Text
  pub category_domains : List (Text × List Text)
  pub category_suffixes : List (Text × List Text)

unfoldable pub new : BlocklistManager
new = record {
  global_domains = [];
  global_suffixes = [];
  category_domains = [];
  category_suffixes = [];
}

abbrev pub or_default : Option (List Text) → List Text
or_default none = []
or_default (some l) = l

-- `entry(cat).or_default().insert(domain)`
unfoldable pub insert_under : Text → Text → List (Text × List Text) → List (Text × List Text)
insert_under cat domain m = insert cat (add domain (or_default (lookup cat m))) m

-- What a trimmed line of a blocklist stands for: nothing, or a domain and whether it is a suffix.
unfoldable pub parse_line : Text → Option (Text × Bool)
parse_line [] = none
parse_line (c ∷ s) =
    if c == b'#'
    then none
    else if c == b'.'
    then some (to_lowercase s, true)
    else if c == b'*'
    then star s
    else some (to_lowercase (c ∷ s), false)
  where
    star : Text → Option (Text × Bool)
    star [] = some (to_lowercase (c ∷ []), false)
    star (d ∷ t) =
        if d == b'.' then some (to_lowercase t, true) else some (to_lowercase (c ∷ d ∷ t), false)

-- "Add to appropriate set"
unfoldable pub add_entry : Option Text → Text × Bool → BlocklistManager → BlocklistManager
unfolding insert_under
add_entry (some cat) (domain, true) m = record m {
  category_suffixes = insert_under cat domain m.category_suffixes;
}
add_entry (some cat) (domain, false) m = record m {
  category_domains = insert_under cat domain m.category_domains;
}
add_entry none (domain, true) m = record m { global_suffixes = add domain m.global_suffixes }
add_entry none (domain, false) m = record m { global_domains = add domain m.global_domains }

-- The loop of `load_file` over the lines of the file, `none` for a line that cannot be read: the
-- manager afterwards, and the count unless reading failed.
unfoldable pub load_lines :
    Option Text → List (Option Text) → ℕ → BlocklistManager → BlocklistManager × Option ℕ
unfolding parse_line add_entry trim
load_lines category [] count m = (m, some count)
load_lines category (none ∷ lines) count m = (m, none)
load_lines category (some line ∷ lines) count m = elim (parse_line (trim line)) [
  | none ↦ load_lines category lines count m
  | some entry ↦ load_lines category lines (count + 1) (add_entry category entry m)
]

-- `load_file`: `none` for a file that cannot be opened.
unfoldable pub load_file :
    Option Text → Option (List (Option Text)) → BlocklistManager → BlocklistManager × Option ℕ
unfolding load_lines
load_file category none m = (m, none)
load_file category (some lines) m = load_lines category lines 0 m

-- The loop of `matches_suffix` over the remaining labels.
unfoldable pub any_parent : List Text → List Text → Bool
any_parent suffixes [] = false
any_parent suffixes (part ∷ []) = false
any_parent suffixes (part ∷ next ∷ parts) =
    if contains (join b'.' (next ∷ parts)) suffixes
    then true
    else any_parent suffixes (next ∷ parts)

unfoldable pub matches_suffix : Text → List Text → Bool
unfolding any_parent contains
matches_suffix domain suffixes =
    if contains domain suffixes then true else any_parent suffixes (split_on b'.' domain)

unfoldable pub is_blocked_globally : Text → BlocklistManager → Bool
unfolding matches_suffix contains
is_blocked_globally domain m =
    if contains (to_lowercase domain) m.global_domains
    then true
    else matches_suffix (to_lowercase domain) m.global_suffixes

abbrev pub test_in : (List Text → Bool) → Option (List Text) → Bool
test_in p none = false
test_in p (some l) = p l

unfoldable pub is_in_category : Text → Text → BlocklistManager → Bool
unfolding matches_suffix contains
is_in_category domain category m =
    if test_in (contains (to_lowercase domain)) (lookup category m.category_domains)
    then true
    else test_in (matches_suffix (to_lowercase domain)) (lookup category m.category_suffixes)

unfoldable pub is_in_any_category : Text → List Text → BlocklistManager → Bool
unfolding is_in_category
is_in_any_category domain [] m = false
is_in_any_category domain (cat ∷ categories) m =
    if is_in_category domain cat m then true else is_in_any_category domain categories m

unfoldable pub add_global : Text → BlocklistManager → BlocklistManager
add_global domain m = record m { global_domains = add (to_lowercase domain) m.global_domains }

unfoldable pub add_to_category : Text → Text → BlocklistManager → BlocklistManager
unfolding insert_under
add_to_category domain category m = record m {
  category_domains = insert_under category (to_lowercase domain) m.category_domains;
}

-- The counts for logging.
unfoldable pub global_count : BlocklistManager → ℕ
global_count m = length m.global_domains + length m.global_suffixes

unfoldable pub category_count : BlocklistManager → ℕ
category_count m = length m.category_domains

unfoldable pub category_domain_count : Text → BlocklistManager → ℕ
category_domain_count category m =
    length (or_default (lookup category m.category_domains))
    + length (or_default (lookup category m.category_suffixes))
