-- ===== src/Rule/Engine/Tests.antt =====
-- The rule engine on the repository's test rules, and the theorems at inputs.
use home_guard.Prelude.{
  ℕ, ◌≤◌, ◌≡◌, ◌⊎◌, refl, List, [], ◌∷◌, Option, none, some, In, length, get_elem?, nat_eq, list_eq,
}
use home_guard.Prelude.Net.{v4}
use home_guard.Prelude.Text.{Text, bytes}
use home_guard.Crates.PatternList.{pattern_list}
use home_guard.Rule.Types.{Rule, MatchResult}
use home_guard.Rule.Trie.Lookup.{path_of}
use home_guard.Rule.Domain.Suffix.{HasSuffix, match_domain-most_specific}
use home_guard.Rule.Ip
use home_guard.Rule.Engine.{RuleEngine, new, final_result, match_ip, match_domain, match_request}
use home_guard.Rule.Engine.Addresses.{covers, first_match, match_ip-first_match}
use home_guard.Rule.Engine.Conditions.{Applies}
use home_guard.Rule.Engine.Sound.{match_request_sound}
use home_guard.Rule.Engine.Sample.{nets, no_countries, program, rules}

abbrev index_of : Option MatchResult → Option ℕ
index_of none = none
index_of (some r) = some r.rule_index

abbrev ask : (RuleEngine nets pattern_list no_countries → Option MatchResult) → Option ℕ
ask f = elim (new nets pattern_list no_countries rules none) [
  | none ↦ none
  | some e ↦ index_of (f e)
]

answers :
    (ask (match_domain nets pattern_list no_countries (bytes "BLOCKED.com")) ≡ some 0)
    × (ask (match_domain nets pattern_list no_countries (bytes "www.google.com")) ≡ some 1)
    × (ask (match_domain nets pattern_list no_countries (bytes "my-facebook.org")) ≡ some 2)
    × (ask (match_ip nets pattern_list no_countries (v4 0xc0a8_0101)) ≡ some 3)
    × (ask (match_ip nets pattern_list no_countries (v4 0x0808_0808)) ≡ some 6)
    × (ask (
          match_request nets pattern_list no_countries
            (some (bytes "x.org"))
            (some (v4 0x0a00_0001)))
        ≡ some 4)
unfolding program
answers = (refl, refl, refl, refl, refl, refl)

built :
    (e : RuleEngine nets pattern_list no_countries) × (new nets pattern_list no_countries rules none
      ≡ some e)
unfolding program
built = (_, refl)

match_ip-first_match_example :
    match_ip nets pattern_list no_countries (v4 0xc0a8_0101) built.0
    ≡ some (
        first_match nets pattern_list no_countries built.0
          (covers nets
            (v4 0xc0a8_0101)
            (Ip.lookup_country no_countries (v4 0xc0a8_0101) built.0.geoip_matcher))
          0
          rules)
match_ip-first_match_example =
    match_ip-first_match nets pattern_list no_countries (v4 0xc0a8_0101) rules none built.0 built.1

match_request_sound_example :
    (result : MatchResult) × (match_request nets pattern_list no_countries
        (some (bytes "a.google.com"))
        (some (v4 0x0a00_0001))
        built.0
      ≡ some result)
    × ((result ≡ final_result nets pattern_list no_countries built.0)
        ⊎ ((r : Rule nets) × (get_elem? rules result.rule_index ≡ some r)
            × (result.policy ≡ r.policy)
            × Applies nets
                (some (bytes "a.google.com"))
                (some (v4 0x0a00_0001))
                (λ a. Ip.lookup_country no_countries a built.0.geoip_matcher)
                r.options.no_resolve
                r.rule_type))
match_request_sound_example =
    match_request_sound nets pattern_list no_countries rules none built.0
      (some (bytes "a.google.com")) (some (v4 0x0a00_0001)) built.1

-- `test_suffix_match`
abbrev suffixes : List (Text × ℕ)
suffixes = (bytes "google.com", 0) ∷ (bytes "apple.com", 1) ∷ (bytes "icloud.apple.com", 2) ∷ []

match_domain-most_specific_example :
    (s : Text) × In (s, 2) suffixes
    × HasSuffix (bytes "www.iCloud.apple.com") s
    × ((t : Text) (j : ℕ)
        → In (t, j) suffixes
        → HasSuffix (bytes "www.iCloud.apple.com") t
        → length (path_of t) ≤ length (path_of s))
unfolding program
match_domain-most_specific_example =
    match_domain-most_specific suffixes (bytes "www.iCloud.apple.com") 2 refl
