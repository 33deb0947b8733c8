-- ===== src/Rule/Types.antt =====
-- src/rule/types.rs: kinds of rules, policies, rules and the result of a match.
pub mod Printing
use home_guard.Prelude.{
  ℕ, Bool, true, false, List, [], ◌∷◌, ◌++◌, if◌then◌else◌, ◌==◌, nat_eq, list_eq,
}
use home_guard.Prelude.Text.{Text, bytes, to_lowercase, to_uppercase}
use home_guard.Crates.IpNet.{IpNet}

pub data Policy : Type 0 where
  direct reject : Policy
  proxy : Text → Policy

pub record RuleOptions : Type 0 where
  pub no_resolve : Bool

abbrev pub default_options : RuleOptions
default_options = record { no_resolve = false }

module _ (N : IpNet) where
  pub data RuleType : Type 0 where
    domain domain_suffix domain_keyword geo_ip : Text → RuleType
    ip_cidr : N.Ipv4Net → RuleType
    ip_cidr6 : N.Ipv6Net → RuleType
    final : RuleType

  pub record Rule : Type 0 where
    pub rule_type : RuleType
    pub policy : Policy
    pub options : RuleOptions

pub record MatchResult : Type 0 where
  pub policy : Policy
  pub rule_index : ℕ
  pub matched_rule : Text

unfoldable pub show_policy : Policy → Text
show_policy direct = bytes "DIRECT"
show_policy reject = bytes "REJECT"
show_policy (proxy name) = name

-- `Policy::from_str`
unfoldable pub policy_of : Text → Policy
policy_of s =
    let name = to_uppercase s in
    if name == bytes "DIRECT" then direct else if name == bytes "REJECT" then reject else proxy name

unfoldable pub is_reject : Policy → Bool
is_reject reject = true
is_reject _ = false

unfoldable pub is_direct : Policy → Bool
is_direct direct = true
is_direct _ = false

unfoldable pub is_proxy : Policy → Bool
is_proxy (proxy _) = true
is_proxy _ = false

-- `eq_ignore_ascii_case`
abbrev same_ignoring_case : Text → Text → Bool
same_ignoring_case s t = to_lowercase s == to_lowercase t

-- The loop of `RuleOptions::parse`.
unfoldable pub parse_options : List Text → RuleOptions → RuleOptions
parse_options [] opts = opts
parse_options (opt ∷ rest) opts =
    parse_options rest
      (if same_ignoring_case opt (bytes "no-resolve") then record { no_resolve = true } else opts)

module _ (N : IpNet) where
  unfoldable pub show_type : RuleType N → Text
  show_type (domain d) = bytes "DOMAIN," ++ d
  show_type (domain_suffix d) = bytes "DOMAIN-SUFFIX," ++ d
  show_type (domain_keyword k) = bytes "DOMAIN-KEYWORD," ++ k
  show_type (ip_cidr cidr) = bytes "IP-CIDR," ++ N.show4 cidr
  show_type (ip_cidr6 cidr) = bytes "IP-CIDR6," ++ N.show6 cidr
  show_type (geo_ip cc) = bytes "GEOIP," ++ cc
  show_type final = bytes "FINAL"

  unfoldable pub show_rule : Rule N → Text
  show_rule r =
      show_type r.rule_type
      ++ (bytes ","
          ++ (show_policy r.policy ++ (if r.options.no_resolve then bytes ",no-resolve" else [])))
