-- ===== src/Rule/Engine/Built.antt =====
-- What an engine that `new` has built holds, in terms of its rules.
use mathlib.Core.Option.{some-injective}
use home_guard.Prelude.{ℕ, ◌≡◌, sym, ◌∙◌, ap, Option, none, some, List, [], length, >>=-eq-some}
use home_guard.Prelude.Text.{Text}
use home_guard.Crates.IpNet.{IpNet}
use home_guard.Crates.AhoCorasick.{AhoCorasick}
use home_guard.Crates.MaxMind.{MaxMind}
use home_guard.Rule.Types.{Rule}
use home_guard.Rule.Ip
use home_guard.Rule.Ip.{GeoIpMatcher, add_countries}
use home_guard.Rule.Domain
use home_guard.Rule.Domain.{DomainMatcher}
use home_guard.Rule.Engine.{RuleEngine, new, sort_rules, no_rules}
use home_guard.Rule.Engine.Collect.{
  collect, as_domain, as_suffix, as_keyword, as_ip_cidr, as_ip_cidr6, as_geo_ip, sort_rules-exact,
  sort_rules-suffixes, sort_rules-keywords, sort_rules-ipv4, sort_rules-ipv6, sort_rules-countries,
}

module _ (N : IpNet) (A : AhoCorasick) (G : MaxMind) where
  pub record Built (rules : List (Rule N)) (e : RuleEngine N A G) : Type 0 where
    pub rules_kept : e.rules ≡ rules
    pub ipv4 : e.ip_matcher.ipv4_cidrs ≡ collect N (as_ip_cidr N) 0 rules
    pub ipv6 : e.ip_matcher.ipv6_cidrs ≡ collect N (as_ip_cidr6 N) 0 rules
    pub countries :
        e.geoip_matcher.country_rules ≡ add_countries G (collect N (as_geo_ip N) 0 rules) []
    pub domains :
        e.domain_matcher
        ≡ Domain.build A
            (collect N (as_domain N) 0 rules)
            (collect N (as_suffix N) 0 rules)
            (collect N (as_keyword N) 0 rules)

  build_cong :
      {x x' y y' z z' : List (Text × ℕ)}
      → x ≡ x'
      → y ≡ y'
      → z ≡ z'
      → Domain.build A x y z ≡ Domain.build A x' y' z'
  build_cong p q r = cc

  build-countries :
      (db : Option G.FilePath) (rs : List (Text × ℕ)) (m : GeoIpMatcher G)
      → Ip.build G db rs ≡ some m
      → m.country_rules ≡ add_countries G rs []
  unfolding Ip.build
  build-countries none rs m h = cc
  build-countries (some path) rs m h =
      let (reader, _, same) = >>=-eq-some (G.open_readfile path) _ h in
      sym (ap (λ m. m.country_rules) (some-injective _ m same))

  pub new-Built :
      (rules : List (Rule N)) (db : Option G.FilePath) (e : RuleEngine N A G)
      → new N A G rules db ≡ some e
      → Built rules e
  unfolding new
  new-Built rules db e h =
      let start = no_rules N A G (length rules) in
      let b = sort_rules N A G 0 rules start in
      let (geo, opened, same) = >>=-eq-some (Ip.build G db b.country_rules) _ h in
      let same' = some-injective _ e same in
      record {
        rules_kept = ap (λ e. e.rules) (sym same');
        ipv4 = ap (λ e. e.ip_matcher.ipv4_cidrs) (sym same') ∙ sort_rules-ipv4 N A G 0 rules start;
        ipv6 = ap (λ e. e.ip_matcher.ipv6_cidrs) (sym same') ∙ sort_rules-ipv6 N A G 0 rules start;
        countries =
            ap (λ e. e.geoip_matcher.country_rules) (sym same')
            ∙ build-countries db b.country_rules geo opened
            ∙ ap (λ l. add_countries G l []) (sort_rules-countries N A G 0 rules start);
        domains =
            ap (λ e. e.domain_matcher) (sym same')
            ∙ build_cong (sort_rules-exact N A G 0 rules start)
                (sort_rules-suffixes N A G 0 rules start) (sort_rules-keywords N A G 0 rules start);
      }
