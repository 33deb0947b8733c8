-- ===== src/Rule/Engine/Sample.antt =====
-- The repository's test rules, for tests.
use home_guard.Prelude.{ℕ, ◌/◌, ◌^◌, List, [], ◌∷◌, none, some, ◌==◌, nat_eq, list_eq}
use home_guard.Prelude.Map
use home_guard.Prelude.Text.{bytes, split_on, to_lowercase, to_uppercase}
use home_guard.Crates.IpNet.{IpNet}
use home_guard.Crates.MaxMind.{MaxMind}
use home_guard.Crates.PatternList.{occurs, starts_with, find_from}
use home_guard.Rule.Types.{
  Policy, direct, reject, proxy, RuleType, domain, domain_suffix, domain_keyword, geo_ip, ip_cidr,
  final, Rule, default_options, show_rule, show_type, show_policy,
}
use home_guard.Rule.Trie
use home_guard.Rule.Trie.Lookup.{path_of}
use home_guard.Rule.Domain
use home_guard.Rule.Domain.{add_all_suffixes}
use home_guard.Rule.Ip
use home_guard.Rule.Engine.{
  new, sort_rule, sort_rules, minimum, create_match_result, final_result, pick, push_resolved,
  match_ip, match_domain, match_request,
}

-- An IPv4 network as its address and the number of free bits; no IPv6 network.
abbrev pub nets : IpNet
nets = record {
  Ipv4Net = ℕ × ℕ;
  Ipv6Net = ⊥;
  contains4 = λ net ip. ip / 2 ^ net.1 == net.0 / 2 ^ net.1;
  contains6 = λ net ip. absurd net;
  show4 = λ net. bytes "net";
  show6 = λ net. absurd net;
  parse4 = λ s. none;
  parse6 = λ s. none;
}

-- A database that knows no address.
abbrev pub no_countries : MaxMind
no_countries = record {
  FilePath = Unit {0};
  Reader = Unit {0};
  open_readfile = some;
  iso_code = λ r ip. none;
}

unfoldable pub program : Unit {0}
unfolding new sort_rules sort_rule minimum create_match_result final_result pick push_resolved
    match_ip match_domain match_request show_rule show_type show_policy Domain.build Domain.new
    Domain.with_keywords Domain.match_all Domain.push_new Domain.push_keywords Domain.add_all_exact
    add_all_suffixes Trie.insert Trie.match_domain Trie.new Trie.update_entry Trie.get_child path_of
    Ip.build Ip.add_countries Ip.add_country Ip.match_all Ip.match_every Ip.match_all_countries
    Ip.lookup_country Map.insert Map.lookup to_lowercase to_uppercase split_on occurs starts_with
    find_from
program = tt

abbrev pub rule : RuleType nets → Policy → Rule nets
rule t p = record { rule_type = t; policy = p; options = default_options }

-- `create_test_rules`
abbrev pub rules : List (Rule nets)
rules =
    rule (domain (bytes "blocked.com")) reject
    ∷ rule (domain_suffix (bytes "google.com")) (proxy (bytes "PROXY"))
    ∷ rule (domain_keyword (bytes "facebook")) (proxy (bytes "PROXY"))
    ∷ rule (ip_cidr (0xc0a8_0000, 16)) direct
    ∷ rule (ip_cidr (0x0a00_0000, 24)) direct
    ∷ rule (geo_ip (bytes "CN")) direct
    ∷ rule final direct
    ∷ []
