-- ===== src/Rule/Engine/Addresses.antt =====
-- `match_ip` is a scan of the rules in their order: the first rule that covers the address answers.
use home_guard.Prelude.{
  ℕ, suc, ◌+◌, ◌≡◌, refl, sym, ◌∙◌, ap, Bool, true, false, ◌||◌, Option, none, some, List, [], ◌∷◌,
  ◌++◌, map, inl, inr, arith, if◌then◌else◌, ◌==◌, nat_eq, list_eq, keep, Option-cases, Bool-cases,
  get_elem?, beq_iff,
}
use mathlib.Core.Path.{subst, fun_ext}
use mathlib.Core.Option.{get_or}
use mathlib.Core.List.{append_assoc, append-nil}
use home_guard.Prelude.Map
use home_guard.Prelude.Net.{IpAddr, v4, v6}
use home_guard.Prelude.Text.{Text, to_uppercase}
use home_guard.Crates.IpNet.{IpNet}
use home_guard.Crates.AhoCorasick.{AhoCorasick}
use home_guard.Crates.MaxMind.{MaxMind}
use home_guard.Rule.Types.{RuleType, ip_cidr, ip_cidr6, geo_ip, Rule, MatchResult, show_rule}
use home_guard.Rule.Ip
use home_guard.Rule.Ip.{match_every, add_country, add_countries, lookup_country}
use home_guard.Rule.Engine.{
  RuleEngine, new, minimum, create_match_result, final_result, pick, match_ip,
}
use home_guard.Rule.Engine.Built.{Built, new-Built}
use home_guard.Rule.Engine.Collect.{
  first_index, indices, minimum-append, minimum-indices, first_index-or, passes, keep-collect,
  as_ip_cidr, as_ip_cidr6, as_geo_ip,
}

module _ (N : IpNet) where
  -- A rule for addresses covers this one; `country` is the country of the address, if it is known.
  unfoldable pub covers : IpAddr → Option Text → RuleType N → Bool
  covers (v4 ip) country (ip_cidr c) = N.contains4 c ip
  covers (v6 ip) country (ip_cidr6 c) = N.contains6 c ip
  covers ip country (geo_ip c) = passes (λ k. to_uppercase c == k) country
  covers ip country _ = false

module _ (G : MaxMind) where
  lookup-add_country :
      (c key : Text) (i : ℕ) (m : List (Text × List ℕ))
      → (to_uppercase c == key) ≡ true
      → get_or (Map.lookup key (add_country G c i m)) [] ≡ get_or (Map.lookup key m) [] ++ i ∷ []
  unfolding add_country
  lookup-add_country c key i m same =
      rw (Map.lookup-insert, same)
        (ap (λ k. get_or (Map.lookup k m) [] ++ i ∷ []) ((beq_iff (to_uppercase c) key).0 same))

  lookup-add_country_ne :
      (c key : Text) (i : ℕ) (m : List (Text × List ℕ))
      → (to_uppercase c == key) ≡ false
      → get_or (Map.lookup key (add_country G c i m)) [] ≡ get_or (Map.lookup key m) []
  unfolding add_country
  lookup-add_country_ne c key i m other = rw (Map.lookup-insert, other)

  -- The rules of a country, in their order.
  lookup-add_countries :
      (rs : List (Text × ℕ)) (key : Text) (m : List (Text × List ℕ))
      → get_or (Map.lookup key (add_countries G rs m)) []
        ≡ get_or (Map.lookup key m) [] ++ map (λ e. e.1) (keep (λ e. to_uppercase e.0 == key) rs)
  unfolding add_countries
  lookup-add_countries [] key m = sym (append-nil _)
  lookup-add_countries ((c, i) ∷ rs) key m =
      let ih = lookup-add_countries rs key (add_country G c i m) in
      let rest = map (λ (e : Text × ℕ). e.1) (keep (λ e. to_uppercase e.0 == key) rs) in
      elim (Bool-cases (to_uppercase c == key)) [
        | inl same ↦ rw same (
            ih
            ∙ ap (λ l. l ++ rest) (lookup-add_country c key i m same)
            ∙ append_assoc _ (i ∷ []) rest)
        | inr other ↦ rw other (ih ∙ ap (λ l. l ++ rest) (lookup-add_country_ne c key i m other))
      ]

-- The tests on a rule that the two matchers make.
module _ (N : IpNet) where
  abbrev pub in_network : IpAddr → RuleType N → Bool
  in_network (v4 a) t = passes (λ c. N.contains4 c a) (as_ip_cidr N t)
  in_network (v6 a) t = passes (λ c. N.contains6 c a) (as_ip_cidr6 N t)

  abbrev pub in_country : Option Text → RuleType N → Bool
  in_country country t = passes (λ c. passes (λ k. to_uppercase c == k) country) (as_geo_ip N t)

  pub covers_lem :
      (ip : IpAddr) (country : Option Text) (t : RuleType N)
      → (in_network ip t || in_country country t) ≡ covers N ip country t
  unfolding covers
  covers_lem (v4 a) country (ip_cidr c) = ground arith
  covers_lem (v4 a) country t = refl
  covers_lem (v6 a) country (ip_cidr6 c) = ground arith
  covers_lem (v6 a) country t = refl

indices_none {ℓ} :
    {R : Type ℓ} (n : ℕ) (q : R → Bool) (rs : List R)
    → ((r : R) → q r ≡ false)
    → indices n q rs ≡ []
unfolding indices
indices_none n q [] h = refl
indices_none n q (r ∷ rs) h = rw (h r) (indices_none (suc n) q rs h)

module _ (N : IpNet) (A : AhoCorasick) (G : MaxMind) where
  -- The first rule of the list that passes the test answers, else FINAL.
  unfoldable pub first_match :
      RuleEngine N A G → (RuleType N → Bool) → ℕ → List (Rule N) → MatchResult
  first_match e q n [] = final_result N A G e
  first_match e q n (r ∷ rs) =
      if q r.rule_type
      then record { policy = r.policy; rule_index = n; matched_rule = show_rule N r }
      else first_match e q (suc n) rs

  abbrev answer : Option ℕ → RuleEngine N A G → Option MatchResult
  answer o e = elim o [
    | none ↦ some (final_result N A G e)
    | some i ↦ create_match_result N A G i e
  ]

  answer-first_index :
      (e : RuleEngine N A G) (q : RuleType N → Bool) (n : ℕ) (rs : List (Rule N))
      → ((k : ℕ) → get_elem? e.rules (k + n) ≡ get_elem? rs k)
      → answer (first_index n (λ r. q r.rule_type) rs) e ≡ some (first_match e q n rs)
  unfolding first_index first_match create_match_result
  answer-first_index e q n [] h = refl
  answer-first_index e q n (r ∷ rs) h = elim (Bool-cases (q r.rule_type)) [
    | inl pass ↦
        let at : get_elem? e.rules n ≡ some r =
          subst (λ k. get_elem? e.rules k ≡ some r) (omega arith) (h 0) in
        rw (pass, at) refl
    | inr fail ↦ rw fail (
        answer-first_index e q (suc n) rs
          (λ k. subst (λ m. get_elem? e.rules m ≡ get_elem? rs k) (omega arith) (h (suc k))))
  ]

  module _ (rules : List (Rule N)) (e : RuleEngine N A G) (b : Built N A G rules e)
      (ip : IpAddr) where
    pub networks :
        Ip.match_all N ip e.ip_matcher ≡ indices 0 (λ r. in_network N ip r.rule_type) rules
    networks = go ip
      where
        go :
            (ip : IpAddr)
            → Ip.match_all N ip e.ip_matcher ≡ indices 0 (λ r. in_network N ip r.rule_type) rules
        go (v4 a) =
            unfold Ip.match_all match_every in
            rw b.ipv4 (keep-collect N (λ c. N.contains4 c a) (as_ip_cidr N) 0 rules)
        go (v6 a) =
            unfold Ip.match_all match_every in
            rw b.ipv6 (keep-collect N (λ c. N.contains6 c a) (as_ip_cidr6 N) 0 rules)

    pub countries :
        Ip.match_all_countries G ip e.geoip_matcher
        ≡ indices 0 (λ r. in_country N (lookup_country G ip e.geoip_matcher) r.rule_type) rules
    countries = elim (Option-cases (lookup_country G ip e.geoip_matcher)) [
      | inl unknown ↦
          unfold Ip.match_all_countries in
          rw (unknown, Ip.match_all_countries)
            (sym (indices_none 0 _ rules (λ r. never (as_geo_ip N r.rule_type))))
      | inr (k, known) ↦
          unfold Ip.match_all_countries in
          rw (known, Ip.match_all_countries, b.countries, lookup-add_countries, Map.lookup-nil)
            (keep-collect N (λ c. to_uppercase c == k) (as_geo_ip N) 0 rules)
    ]
      where
        never : (o : Option Text) → passes (λ c. false) o ≡ false
        never none = refl
        never (some c) = refl

    -- The candidates of `match_ip` stand for the rules that cover the address.
    minimum-candidates :
        minimum (Ip.match_all N ip e.ip_matcher ++ Ip.match_all_countries G ip e.geoip_matcher)
        ≡ first_index 0 (λ r. covers N ip (lookup_country G ip e.geoip_matcher) r.rule_type) rules
    minimum-candidates =
        let country = lookup_country G ip e.geoip_matcher in
        rw (networks, countries, minimum-append, minimum-indices, minimum-indices, ← first_index-or)
          (ap (λ (q : RuleType N → Bool). first_index 0 (λ (r : Rule N). q r.rule_type) rules)
            (fun_ext (covers_lem N ip country)))

  -- Over any rules for which `new` builds an engine, `match_ip` does not panic, and it answers with the
  -- first rule, in the order of the list, whose network contains the address or whose country is that
  -- of the address; where there is none, with FINAL.
  pub match_ip-first_match :
      (ip : IpAddr) (rules : List (Rule N)) (db : Option G.FilePath) (e : RuleEngine N A G)
      → new N A G rules db ≡ some e
      → match_ip N A G ip e
        ≡ some (first_match e (covers N ip (lookup_country G ip e.geoip_matcher)) 0 rules)
  unfolding match_ip pick
  match_ip-first_match ip rules db e built =
      let b = new-Built N A G rules db e built in
      ap (λ o. answer o e) (minimum-candidates rules e b ip)
      ∙ answer-first_index e _ 0 rules
          (λ k. ap (get_elem? e.rules) (omega arith) ∙ ap (λ l. get_elem? l k) b.rules_kept)
