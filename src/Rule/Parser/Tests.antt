-- ===== src/Rule/Parser/Tests.antt =====
-- Runs of the parser, and the theorems at inputs.
use home_guard.Prelude.{
  ℕ, ◌≡◌, refl, false, Option, none, some, List, [], ◌∷◌, ◌++◌, nat_eq, list_eq,
}
use home_guard.Prelude.Text.{
  Text, bytes, to_lowercase, to_uppercase, lower_byte, upper_byte, split_on, is_space, trim_start,
  trim,
}
use home_guard.Crates.IpNet.{IpNet}
use home_guard.Rule.Types.{
  direct, reject, proxy, default_options, domain, domain_suffix, final, policy_of, parse_options,
}
use home_guard.Rule.Types.{show_policy}
use home_guard.Rule.Types.Printing.{show_policy-policy_of}
use home_guard.Rule.Parser.{
  starts_with, is_skipped, split_once, rule_type_of, parse_typed, parse_parts, parse_rule,
  parse_line, parse_rules, load_lines, load_ruleset, load_set, load_entry, load_rules,
}

-- No network parses.
abbrev no_nets : IpNet
no_nets = record {
  Ipv4Net = ℕ;
  Ipv6Net = ℕ;
  contains4 = λ n a. false;
  contains6 = λ n a. false;
  show4 = λ n. [];
  show6 = λ n. [];
  parse4 = λ s. none;
  parse6 = λ s. none;
}

-- The one file that there is.
abbrev read : Text → Option (List (Option Text))
read path = some (some (bytes "# ads") ∷ some (bytes "DOMAIN,Ads.com,DIRECT") ∷ [])

program : Unit {0}
unfolding to_lowercase to_uppercase lower_byte upper_byte split_on is_space trim_start trim
    policy_of parse_options starts_with is_skipped split_once rule_type_of parse_typed parse_parts
    parse_rule parse_line parse_rules load_lines load_ruleset load_set load_entry load_rules
program = tt

abbrev xs : List Text
xs = bytes "domain-suffix, Google.com, Proxy" ∷ bytes "// a" ∷ []

abbrev ys : List Text
ys = bytes "RULE-SET, ads.txt, REJECT" ∷ bytes "FINAL,DIRECT" ∷ []

runs :
    (load_rules no_nets read (xs ++ ys)
      ≡ some (
          record {
            rule_type = domain_suffix (bytes "google.com");
            policy = proxy (bytes "PROXY");
            options = default_options;
          }
          ∷ record {
            rule_type = domain (bytes "ads.com");
            policy = reject;
            options = default_options;
          }
          ∷ record { rule_type = final; policy = direct; options = default_options }
          ∷ []))
    × (load_rules no_nets read (bytes "IP-CIDR,1.2.3.4/8,DIRECT" ∷ []) ≡ none)
    × (parse_rule no_nets (bytes "DOMAIN,a.b") ≡ none)
unfolding program
runs = (refl, refl, refl)

show_policy-policy_of_example :
    show_policy (policy_of (bytes "My Proxy")) ≡ to_uppercase (bytes "My Proxy")
show_policy-policy_of_example = show_policy-policy_of (bytes "My Proxy")
