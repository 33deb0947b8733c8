-- ===== src/Rule/Parser.antt =====
-- src/rule/parser.rs: rules from their lines. `none` is an error, whose message is left out; the
-- lines of a file are an argument, by its path.
pub mod Sequence
mod Tests
use home_guard.Prelude.{
  ℕ, ◌≡◌, refl, sym, ap, ◌∙◌, inl, inr, Bool, true, false, ◌&&◌, ◌||◌, Option, none, some, List, [],
  ◌∷◌, ◌++◌, map, arith, if◌then◌else◌, ◌==◌, nat_eq, list_eq, take, length, ◌>>=◌, Bool-cases,
  Option-cases,
}
use home_guard.Prelude.Text.{Text, bytes, to_lowercase, to_uppercase, split_on, trim}
use home_guard.Crates.IpNet.{IpNet}
use home_guard.Rule.Types.{
  Policy, RuleOptions, default_options, RuleType, domain, domain_suffix, domain_keyword, geo_ip,
  ip_cidr, ip_cidr6, final, Rule, policy_of, parse_options,
}

unfoldable pub starts_with : Text → Text → Bool
starts_with prefix s = take (length prefix) s == prefix

-- "Skip empty lines and comments"
unfoldable pub is_skipped : Text → Bool
unfolding starts_with
is_skipped s = (s == []) || (starts_with (bytes "#") s || starts_with (bytes "//") s)

-- `splitn(2, ',')`
unfoldable pub split_once : Text → Option (Text × Text)
split_once [] = none
split_once (c ∷ s) = elim (split_once s) [
  | none ↦ if c == b',' then some ([], s) else none
  | some (a, b) ↦ if c == b',' then some ([], s) else some (c ∷ a, b)
]

abbrev pub head_or_empty : List Text → Text
head_or_empty [] = []
head_or_empty (x ∷ xs) = x

module _ (N : IpNet) where
  unfoldable pub rule_type_of : Text → Text → Option (RuleType N)
  rule_type_of name pattern =
      if name == bytes "DOMAIN"
      then some (domain (to_lowercase pattern))
      else if name == bytes "DOMAIN-SUFFIX"
      then some (domain_suffix (to_lowercase pattern))
      else if name == bytes "DOMAIN-KEYWORD"
      then some (domain_keyword (to_lowercase pattern))
      else if name == bytes "IP-CIDR"
      then (N.parse4 pattern >>= λ cidr. some (ip_cidr cidr))
      else if name == bytes "IP-CIDR6"
      then (N.parse6 pattern >>= λ cidr. some (ip_cidr6 cidr))
      else if name == bytes "GEOIP"
      then some (geo_ip (to_uppercase pattern))
      else none

  -- The parts after the type.
  abbrev pub parse_final : List Text → Option (Rule N)
  parse_final [] = none
  parse_final (policy ∷ rest) =
      some (record { rule_type = final; policy = policy_of policy; options = default_options })

  unfoldable pub parse_typed : Text → List Text → Option (Rule N)
  unfolding rule_type_of
  parse_typed name [] = none
  parse_typed name (pattern ∷ []) = none
  parse_typed name (pattern ∷ policy ∷ options) = rule_type_of name pattern >>= λ t. some (record {
    rule_type = t;
    policy = policy_of policy;
    options = parse_options options default_options;
  })

  unfoldable pub parse_parts : List Text → Option (Rule N)
  unfolding parse_typed
  parse_parts [] = none
  parse_parts (name ∷ rest) =
      if to_uppercase name == bytes "FINAL"
      then parse_final rest
      else parse_typed (to_uppercase name) rest

  unfoldable pub parse_rule : Text → Option (Rule N)
  unfolding parse_parts is_skipped
  parse_rule line =
      if is_skipped (trim line) then none else parse_parts (map trim (split_on b',' (trim line)))

  -- The rules of one line: none for a line that is skipped.
  unfoldable pub parse_line : Text → Option (List (Rule N))
  unfolding parse_rule is_skipped
  parse_line line =
      if is_skipped (trim line)
      then some []
      else (parse_rule (trim line) >>= λ rule. some (rule ∷ []))

  unfoldable pub parse_rules : List Text → Option (List (Rule N))
  unfolding parse_line
  parse_rules [] = some []
  parse_rules (line ∷ lines) =
      parse_line line >>= λ rules. parse_rules lines >>= λ rest. some (rules ++ rest)

  -- `reader.lines()`: a line is none where reading fails.
  unfoldable pub load_lines : List (Option Text) → Option (List (Rule N))
  unfolding parse_line
  load_lines [] = some []
  load_lines (line ∷ lines) =
      line >>= λ l. parse_line l >>= λ rules. load_lines lines >>= λ rest. some (rules ++ rest)

  -- `none` for a file that cannot be opened.
  unfoldable pub load_ruleset : Option (List (Option Text)) → Option (List (Rule N))
  unfolding load_lines
  load_ruleset file = file >>= load_lines

  abbrev pub with_policy : Policy → Rule N → Rule N
  with_policy p r = record r { policy = p }

  abbrev pub set_policy : Policy → List (Rule N) → List (Rule N)
  set_policy p [] = []
  set_policy p (r ∷ rs) = with_policy p r ∷ set_policy p rs

  module _ (read : Text → Option (List (Option Text))) where
    -- A trimmed line that starts with `RULE-SET,` in any case.
    unfoldable pub load_set : Text → Option (List (Rule N))
    unfolding split_once load_ruleset
    load_set line = split_once line >>= λ (name, rest). split_once rest >>= λ (path, policy).
        load_ruleset (read (trim path)) >>= λ rules.
        some (set_policy (policy_of (head_or_empty (split_on b',' (trim policy)))) rules)

    unfoldable pub load_entry : Text → Option (List (Rule N))
    unfolding parse_line load_set starts_with is_skipped
    load_entry line =
        if is_skipped (trim line)
        then some []
        else if starts_with (bytes "RULE-SET,") (to_uppercase (trim line))
        then load_set (trim line)
        else (parse_rule (trim line) >>= λ rule. some (rule ∷ []))

    unfoldable pub load_rules : List Text → Option (List (Rule N))
    unfolding load_entry
    load_rules [] = some []
    load_rules (line ∷ lines) =
        load_entry line >>= λ rules. load_rules lines >>= λ rest. some (rules ++ rest)
