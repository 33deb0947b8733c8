-- ===== src/Rule/Ip.antt =====
-- src/rule/matcher/ip.rs and geoip.rs: networks by a linear scan, countries by a database.
use home_guard.Prelude.{
  ℕ, Bool, Option, none, some, List, [], ◌∷◌, ◌++◌, map, if◌then◌else◌, nat_eq, list_eq, ◌>>=◌,
  keep,
}
use mathlib.Core.Option.{get_or}
use home_guard.Prelude.Map
use home_guard.Prelude.Net.{IpAddr, v4, v6}
use home_guard.Prelude.Text.{Text, to_uppercase}
use home_guard.Crates.IpNet.{IpNet}
use home_guard.Crates.MaxMind.{MaxMind}

-- The first network, in the order of the list, that contains the address.
unfoldable pub match_first {ℓ} : {C : Type ℓ} → (C → Bool) → List (C × ℕ) → Option ℕ
match_first contains [] = none
match_first contains ((cidr, index) ∷ rest) =
    if contains cidr then some index else match_first contains rest

-- `filter` and `map` over the networks.
unfoldable pub match_every {ℓ} : {C : Type ℓ} → (C → Bool) → List (C × ℕ) → List ℕ
match_every contains cidrs = map (λ p. p.1) (keep (λ p. contains p.0) cidrs)

module _ (N : IpNet) where
  pub record IpMatcher : Type 0 where
    pub ipv4_cidrs : List (N.Ipv4Net × ℕ)
    pub ipv6_cidrs : List (N.Ipv6Net × ℕ)

  unfoldable pub match_ip : IpAddr → IpMatcher → Option ℕ
  match_ip (v4 ip) m = match_first (λ cidr. N.contains4 cidr ip) m.ipv4_cidrs
  match_ip (v6 ip) m = match_first (λ cidr. N.contains6 cidr ip) m.ipv6_cidrs

  unfoldable pub match_all : IpAddr → IpMatcher → List ℕ
  match_all (v4 ip) m = match_every (λ cidr. N.contains4 cidr ip) m.ipv4_cidrs
  match_all (v6 ip) m = match_every (λ cidr. N.contains6 cidr ip) m.ipv6_cidrs

module _ (G : MaxMind) where
  pub record GeoIpMatcher : Type 0 where
    pub reader : Option G.Reader
    pub country_rules : List (Text × List ℕ)

  -- `entry(country.to_uppercase()).or_default().push(index)`
  unfoldable pub add_country : Text → ℕ → List (Text × List ℕ) → List (Text × List ℕ)
  add_country country index rules =
      let key = to_uppercase country in
      Map.insert key (get_or (Map.lookup key rules) [] ++ index ∷ []) rules

  unfoldable pub add_countries : List (Text × ℕ) → List (Text × List ℕ) → List (Text × List ℕ)
  add_countries [] rules = rules
  add_countries ((country, index) ∷ rest) rules =
      add_countries rest (add_country country index rules)

  -- `none`: the database cannot be opened.
  unfoldable pub build : Option G.FilePath → List (Text × ℕ) → Option GeoIpMatcher
  build none rules = some (record { reader = none; country_rules = add_countries rules [] })
  build (some path) rules = do
    reader ← G.open_readfile path
    some (record { reader = some reader; country_rules = add_countries rules [] })

  unfoldable pub lookup_country : IpAddr → GeoIpMatcher → Option Text
  lookup_country ip m = do reader ← m.reader; code ← G.iso_code reader ip; some (to_uppercase code)

  unfoldable pub match_all_countries : IpAddr → GeoIpMatcher → List ℕ
  match_all_countries ip m = elim (lookup_country ip m) [
    | none ↦ []
    | some country ↦ get_or (Map.lookup country m.country_rules) []
  ]
