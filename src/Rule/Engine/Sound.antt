-- ===== src/Rule/Engine/Sound.antt =====
-- `match_request` never panics, and a rule that it reports applies to the request.
use mathlib.Core.Path.{subst}
use home_guard.Prelude.{
  ℕ, ◌+◌, ◌≡◌, refl, ◌∙◌, ap, ◌⊎◌, inl, inr, Bool, true, false, not, ◌||◌, Option, none, some, List,
  [], ◌∷◌, ◌++◌, arith, Option-cases, Bool-cases, get_elem?, In, here, there, All,
}
use home_guard.Prelude.Net.{IpAddr}
use home_guard.Prelude.Text.{Text}
use home_guard.Crates.IpNet.{IpNet}
use home_guard.Crates.AhoCorasick.{AhoCorasick}
use home_guard.Crates.MaxMind.{MaxMind}
use home_guard.Rule.Types.{RuleType, Rule, MatchResult, show_rule}
use home_guard.Rule.Ip.{lookup_country}
use home_guard.Rule.Domain
use home_guard.Rule.Domain.Matches.{match_all-All, All-append}
use home_guard.Rule.Engine.{
  RuleEngine, new, minimum, is_some, create_match_result, final_result, pick, push_resolved,
  domain_candidates, ip_candidates, match_request,
}
use home_guard.Rule.Engine.Built.{Built, new-Built}
use home_guard.Rule.Engine.Collect.{indices, as_domain, as_suffix, as_keyword}
use home_guard.Rule.Engine.Positions.{minimum-All, In-collect, In-indices}
use home_guard.Rule.Engine.Addresses.{
  covers, networks, countries, in_network, in_country, covers_lem,
}
use home_guard.Rule.Engine.Conditions.{
  CoversAddress, Applies, Applies-domain, Applies-suffix, Applies-keyword, Applies-address,
}

at_zero :
    {R : Type 0} (rs : List R) (k : ℕ) {i : ℕ} {r : R}
    → i ≡ k + 0
    → get_elem? rs k ≡ some r
    → get_elem? rs i ≡ some r
at_zero rs k {r = r} e h = subst (λ j. get_elem? rs j ≡ some r) (omega arith) h

resolve_test :
    (no_resolve : Bool) (d : Option Text)
    → (not no_resolve || not (is_some d)) ≡ true
    → (no_resolve ≡ false) ⊎ (d ≡ none)
resolve_test false d h = inl refl
resolve_test true none h = inr refl
resolve_test true (some q) h = cc

module _ (N : IpNet) (A : AhoCorasick) (G : MaxMind) where
  -- The index is that of a rule which applies to the request.
  pub record Fits (rules : List (Rule N)) (d : Option Text) (ip : Option IpAddr)
      (country : IpAddr → Option Text) (i : ℕ) : Type 0 where
    pub rule : Rule N
    pub listed : get_elem? rules i ≡ some rule
    pub applies : Applies N d ip country rule.options.no_resolve rule.rule_type

  module _ (rules : List (Rule N)) (e : RuleEngine N A G) (b : Built N A G rules e)
      (d : Option Text) (ip : Option IpAddr) where
    abbrev country_in : IpAddr → Option Text
    country_in a = lookup_country G a e.geoip_matcher

    abbrev Good : ℕ → Type 0
    Good = Fits rules d ip country_in

    domain_part :
        (q : Text)
        → d ≡ some q
        → (l : List ℕ) × (Domain.match_all A q e.domain_matcher ≡ some l) × All Good l
    domain_part q given = rw b.domains (
        match_all-All Good A _ _ _ q
          (λ x i m fits.
            let (k, at, r, found, same) = In-collect N (as_domain N) 0 rules x i m in
            record {
              rule = r;
              listed = at_zero rules k at found;
              applies = Applies-domain N d ip country_in _ r.rule_type q x given same fits;
            })
          (λ x i m fits.
            let (k, at, r, found, same) = In-collect N (as_suffix N) 0 rules x i m in
            record {
              rule = r;
              listed = at_zero rules k at found;
              applies = Applies-suffix N d ip country_in _ r.rule_type q x given same fits;
            })
          (λ x i m fits.
            let (k, at, r, found, same) = In-collect N (as_keyword N) 0 rules x i m in
            record {
              rule = r;
              listed = at_zero rules k at found;
              applies = Applies-keyword N d ip country_in _ r.rule_type q x given same fits;
            }))

    push_resolved-Good :
        (a : IpAddr) (is candidates : List ℕ)
        → ip ≡ some a
        → ((i : ℕ)
            → In i is
            → (r : Rule N) × (get_elem? rules i ≡ some r)
              × (covers N a (country_in a) r.rule_type ≡ true))
        → All Good candidates
        → (l : List ℕ) × (push_resolved N A G (is_some d) rules is candidates ≡ some l) × All Good l
    unfolding push_resolved
    push_resolved-Good a [] candidates given h k = (candidates, refl, k)
    push_resolved-Good a (i ∷ is) candidates given h k =
        let (r, at, covered) = h i (here refl) in
        let next = λ (m : List ℕ) (g : All Good m).
          push_resolved-Good a is m given (λ j p. h j (there p)) g in
        elim (Bool-cases (not r.options.no_resolve || not (is_some d))) [
          | inl counts ↦
              let c : CoversAddress N d ip country_in r.options.no_resolve r.rule_type = record {
                address = a;
                given = given;
                covered = covered;
                resolved = resolve_test _ d counts;
              } in
              let good : Good i = record {
                rule = r;
                listed = at;
                applies = Applies-address N d ip country_in _ r.rule_type c;
              } in
              rw (at, counts)
                (next (candidates ++ i ∷ []) (All-append Good candidates (i ∷ []) k (good, tt)))
          | inr skipped ↦ rw (at, skipped) (next candidates k)
        ]

    covering :
        (a : IpAddr) (q : RuleType N → Bool) (is : List ℕ)
        → ((t : RuleType N) → q t ≡ true → covers N a (country_in a) t ≡ true)
        → is ≡ indices 0 (λ r. q r.rule_type) rules
        → (i : ℕ) → In i is
        → (r : Rule N) × (get_elem? rules i ≡ some r)
          × (covers N a (country_in a) r.rule_type ≡ true)
    covering a q is implies same i m =
        let (k, at, r, found, pass) =
          In-indices (λ (r : Rule N). q r.rule_type) 0 rules i (subst (In i) same m) in
        (r, at_zero rules k at found, implies r.rule_type pass)

    ip_part :
        (candidates : List ℕ)
        → All Good candidates
        → (l : List ℕ) × (ip_candidates N A G (is_some d) ip e candidates ≡ some l) × All Good l
    ip_part candidates k = go ip refl
      where
        go :
            (o : Option IpAddr)
            → ip ≡ o
            → (l : List ℕ) × (ip_candidates N A G (is_some d) o e candidates ≡ some l) × All Good l
        go none given = (candidates, refl, k)
        go (some a) given =
            let c = country_in a in
            let (l, run, good) =
              push_resolved-Good a _ candidates given
                (covering a (in_network N a) _ (λ t p. ground (arith, covers_lem N a c t))
                  (networks N A G rules e b a))
                k in
            let (l', run', good') =
              push_resolved-Good a _ l given
                (covering a (in_country N c) _ (λ t p. ground (arith, covers_lem N a c t))
                  (countries N A G rules e b a))
                good in
            (l', rw (b.rules_kept, run) run', good')

    domains_part : (l : List ℕ) × (domain_candidates N A G d e ≡ some l) × All Good l
    domains_part = go d refl
      where
        go :
            (o : Option Text)
            → d ≡ o
            → (l : List ℕ) × (domain_candidates N A G o e ≡ some l) × All Good l
        go none given = ([], refl, tt)
        go (some q) given = domain_part q given

    pick_sound :
        (candidates : List ℕ)
        → All Good candidates
        → (result : MatchResult) × (pick N A G candidates e ≡ some result)
          × ((result ≡ final_result N A G e)
              ⊎ ((r : Rule N) × (get_elem? rules result.rule_index ≡ some r)
                  × (result.policy ≡ r.policy)
                  × Applies N d ip country_in r.options.no_resolve r.rule_type))
    unfolding pick create_match_result
    pick_sound candidates k = elim (Option-cases (minimum candidates)) [
      | inl empty ↦ (final_result N A G e, rw (empty, pick), inl refl)
      | inr (i, least) ↦
          let f = minimum-All Good candidates i k least in
          let result : MatchResult = record {
            policy = f.rule.policy;
            rule_index = i;
            matched_rule = show_rule N f.rule;
          } in
          let at : get_elem? e.rules i ≡ some f.rule =
            ap (λ l. get_elem? l i) b.rules_kept ∙ f.listed in
          (result, rw (least, pick, at) refl, inr (f.rule, f.listed, refl, f.applies))
    ]

  -- Over any rules for which `new` builds an engine, `match_request` does not panic. It answers with
  -- FINAL, or with the index and the policy of a rule of the list that applies to the request: its
  -- domain, suffix (on label boundaries) or keyword fits the domain, up to case, or it covers the
  -- address, and then it has no `no-resolve` or the request has no domain.
  pub match_request_sound :
      (rules : List (Rule N)) (db : Option G.FilePath) (e : RuleEngine N A G) (d : Option Text)
      (ip : Option IpAddr)
      → new N A G rules db ≡ some e
      → (result : MatchResult) × (match_request N A G d ip e ≡ some result)
        × ((result ≡ final_result N A G e)
            ⊎ ((r : Rule N) × (get_elem? rules result.rule_index ≡ some r)
                × (result.policy ≡ r.policy)
                × Applies N d ip
                    (λ a. lookup_country G a e.geoip_matcher)
                    r.options.no_resolve
                    r.rule_type))
  unfolding match_request
  match_request_sound rules db e d ip built =
      let b = new-Built N A G rules db e built in
      let (l, run, good) = domains_part rules e b d ip in
      let (l', run', good') = ip_part rules e b d ip l good in
      rw (run, run') (pick_sound rules e b d ip l' good')
