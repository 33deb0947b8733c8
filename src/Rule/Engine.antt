-- ===== src/Rule/Engine.antt =====
-- src/rule/engine.rs: the engine sorts the rules by kind, builds the matchers and answers with the
-- matching rule of the lowest index. `none` is a panic, or a database that cannot be opened.
pub mod Collect
pub mod Built
pub mod Addresses
pub mod Positions
pub mod Conditions
pub mod Sound
pub mod Sample
pub mod Tests
use home_guard.Prelude.{
  ℕ, suc, Bool, true, false, not, ◌||◌, Option, none, some, List, [], ◌∷◌, ◌++◌, if◌then◌else◌, min,
  ◌>>=◌, get_elem?, length,
}
use home_guard.Prelude.Net.{IpAddr}
use home_guard.Prelude.Text.{Text, bytes, trim_end}
use home_guard.Crates.IpNet.{IpNet}
use home_guard.Crates.AhoCorasick.{AhoCorasick}
use home_guard.Crates.MaxMind.{MaxMind}
use home_guard.Rule.Types.{
  Policy, direct, RuleType, domain, domain_suffix, domain_keyword, geo_ip, ip_cidr, ip_cidr6, final,
  Rule, MatchResult, show_rule, is_reject, is_proxy,
}
use home_guard.Rule.Domain
use home_guard.Rule.Domain.{DomainMatcher}
use home_guard.Rule.Ip
use home_guard.Rule.Ip.{IpMatcher, GeoIpMatcher}

-- `iter().min()`
unfoldable pub minimum : List ℕ → Option ℕ
minimum [] = none
minimum (i ∷ is) = elim (minimum is) [ none ↦ some i | some j ↦ some (min i j) ]

abbrev pub is_some {ℓ} : {A : Type ℓ} → Option A → Bool
is_some none = false
is_some (some a) = true

module _ (N : IpNet) (A : AhoCorasick) (G : MaxMind) where
  pub record Buckets : Type 0 where
    pub exact_domains : List (Text × ℕ)
    pub suffix_domains : List (Text × ℕ)
    pub keywords : List (Text × ℕ)
    pub ipv4_cidrs : List (N.Ipv4Net × ℕ)
    pub ipv6_cidrs : List (N.Ipv6Net × ℕ)
    pub country_rules : List (Text × ℕ)
    pub final_policy : Policy
    pub final_index : ℕ

  -- One round of the loop of `new`.
  unfoldable pub sort_rule : ℕ → Policy → RuleType N → Buckets → Buckets
  sort_rule index policy (domain d) b = record b {
    exact_domains = b.exact_domains ++ (d, index) ∷ [];
  }
  sort_rule index policy (domain_suffix s) b = record b {
    suffix_domains = b.suffix_domains ++ (s, index) ∷ [];
  }
  sort_rule index policy (domain_keyword k) b = record b {
    keywords = b.keywords ++ (k, index) ∷ [];
  }
  sort_rule index policy (ip_cidr cidr) b = record b {
    ipv4_cidrs = b.ipv4_cidrs ++ (cidr, index) ∷ [];
  }
  sort_rule index policy (ip_cidr6 cidr) b = record b {
    ipv6_cidrs = b.ipv6_cidrs ++ (cidr, index) ∷ [];
  }
  sort_rule index policy (geo_ip country) b = record b {
    country_rules = b.country_rules ++ (country, index) ∷ [];
  }
  sort_rule index policy final b = record b { final_policy = policy; final_index = index }

  unfoldable pub sort_rules : ℕ → List (Rule N) → Buckets → Buckets
  sort_rules index [] b = b
  sort_rules index (r ∷ rs) b = sort_rules (suc index) rs (sort_rule index r.policy r.rule_type b)

  abbrev pub no_rules : ℕ → Buckets
  no_rules n = record {
    exact_domains = [];
    suffix_domains = [];
    keywords = [];
    ipv4_cidrs = [];
    ipv6_cidrs = [];
    country_rules = [];
    final_policy = direct;
    final_index = n;
  }

  pub record RuleEngine : Type 0 where
    pub rules : List (Rule N)
    pub domain_matcher : DomainMatcher A
    pub ip_matcher : IpMatcher N
    pub geoip_matcher : GeoIpMatcher G
    pub final_policy : Policy
    pub final_index : ℕ

  unfoldable pub new : List (Rule N) → Option G.FilePath → Option RuleEngine
  new rules geoip_db =
      let b = sort_rules 0 rules (no_rules (length rules)) in
      do
        geoip ← Ip.build G geoip_db b.country_rules
        some (record {
          rules = rules;
          domain_matcher = Domain.build A b.exact_domains b.suffix_domains b.keywords;
          ip_matcher = record { ipv4_cidrs = b.ipv4_cidrs; ipv6_cidrs = b.ipv6_cidrs };
          geoip_matcher = geoip;
          final_policy = b.final_policy;
          final_index = b.final_index;
        })

  unfoldable pub create_match_result : ℕ → RuleEngine → Option MatchResult
  create_match_result index e = do
    rule ← get_elem? e.rules index
    some (record { policy = rule.policy; rule_index = index; matched_rule = show_rule N rule })

  unfoldable pub final_result : RuleEngine → MatchResult
  final_result e = record {
    policy = e.final_policy;
    rule_index = e.final_index;
    matched_rule = bytes "FINAL";
  }

  -- The candidate of the lowest index, or FINAL.
  unfoldable pub pick : List ℕ → RuleEngine → Option MatchResult
  pick candidates e = elim (minimum candidates) [
    | none ↦ some (final_result e)
    | some index ↦ create_match_result index e
  ]

  unfoldable pub match_domain : Text → RuleEngine → Option MatchResult
  match_domain d e = do matches ← Domain.match_all A d e.domain_matcher; pick matches e

  unfoldable pub match_ip : IpAddr → RuleEngine → Option MatchResult
  match_ip ip e =
      pick (Ip.match_all N ip e.ip_matcher ++ Ip.match_all_countries G ip e.geoip_matcher) e

  -- The loops of `match_request` over address matches: a rule with `no-resolve` counts only if the
  -- request has no domain.
  unfoldable pub push_resolved : Bool → List (Rule N) → List ℕ → List ℕ → Option (List ℕ)
  push_resolved has_domain rules [] candidates = some candidates
  push_resolved has_domain rules (index ∷ rest) candidates = do
    rule ← get_elem? rules index
    push_resolved has_domain rules rest (
        if not rule.options.no_resolve || not has_domain
        then candidates ++ index ∷ []
        else candidates)

  abbrev pub domain_candidates : Option Text → RuleEngine → Option (List ℕ)
  domain_candidates none e = some []
  domain_candidates (some d) e = Domain.match_all A d e.domain_matcher

  abbrev pub ip_candidates : Bool → Option IpAddr → RuleEngine → List ℕ → Option (List ℕ)
  ip_candidates has_domain none e candidates = some candidates
  ip_candidates has_domain (some ip) e candidates = do
    candidates' ← push_resolved has_domain e.rules (Ip.match_all N ip e.ip_matcher) candidates
    push_resolved has_domain e.rules (Ip.match_all_countries G ip e.geoip_matcher) candidates'

  unfoldable pub match_request : Option Text → Option IpAddr → RuleEngine → Option MatchResult
  match_request d ip e = do
    candidates ← domain_candidates d e
    candidates' ← ip_candidates (is_some d) ip e candidates
    pick candidates' e

  unfoldable pub is_blocked : Text → RuleEngine → Option Bool
  is_blocked d e = do result ← match_domain d e; some (is_reject result.policy)

  unfoldable pub should_proxy : Text → RuleEngine → Option Bool
  should_proxy d e = do result ← match_domain d e; some (is_proxy result.policy)

  -- The engine as a filter of DNS queries.
  unfoldable pub filter_is_blocked : Text → RuleEngine → Option Bool
  filter_is_blocked d e = is_blocked (trim_end b'.' d) e
