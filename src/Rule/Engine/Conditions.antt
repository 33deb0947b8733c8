-- ===== src/Rule/Engine/Conditions.antt =====
-- What it means that a rule of src/rule/engine.rs applies to a request.
use mathlib.Core.Path.{subst}
use home_guard.Prelude.{◌≡◌, ◌⊎◌, Bool, true, false, Option, none, some, arith}
use home_guard.Prelude.Net.{IpAddr, v4, v6}
use home_guard.Prelude.Text.{Text, to_lowercase, Contains}
use home_guard.Crates.IpNet.{IpNet}
use home_guard.Rule.Types.{
  RuleType, domain, domain_suffix, domain_keyword, geo_ip, ip_cidr, ip_cidr6, final,
}
use home_guard.Rule.Domain.Suffix.{HasSuffix}
use home_guard.Rule.Engine.Collect.{as_domain, as_suffix, as_keyword}
use home_guard.Rule.Engine.Addresses.{covers}

-- Only rules for addresses cover one.
abbrev IsForAddress : {N : IpNet} → RuleType N → Type 0
IsForAddress (ip_cidr c) = Unit
IsForAddress (ip_cidr6 c) = Unit
IsForAddress (geo_ip c) = Unit
IsForAddress _ = ⊥

covers-IsForAddress :
    (N : IpNet) (a : IpAddr) (country : Option Text) (t : RuleType N)
    → covers N a country t ≡ true
    → IsForAddress t
unfolding covers
covers-IsForAddress N a country (ip_cidr c) h = tt
covers-IsForAddress N a country (ip_cidr6 c) h = tt
covers-IsForAddress N a country (geo_ip c) h = tt
covers-IsForAddress N (v4 a) country t h = cc
covers-IsForAddress N (v6 a) country t h = cc

-- What it means that a rule applies to a request for a domain, an address, or both; `country` gives
-- the country of an address, where it is known.
module _ (N : IpNet) (d : Option Text) (ip : Option IpAddr) (country : IpAddr → Option Text) where
  pub record CoversAddress (no_resolve : Bool) (t : RuleType N) : Type 0 where
    pub address : IpAddr
    pub given : ip ≡ some address
    pub covered : covers N address (country address) t ≡ true
    pub resolved : (no_resolve ≡ false) ⊎ (d ≡ none)

  abbrev pub Applies : Bool → RuleType N → Type 0
  Applies no_resolve (domain x) = (q : Text) × (d ≡ some q) × (to_lowercase x ≡ to_lowercase q)
  Applies no_resolve (domain_suffix s) = (q : Text) × (d ≡ some q) × HasSuffix (to_lowercase q) s
  Applies no_resolve (domain_keyword k) =
      (q : Text) × (d ≡ some q) × Contains (to_lowercase k) (to_lowercase q)
  Applies no_resolve final = ⊥
  Applies no_resolve t = CoversAddress no_resolve t

  pub Applies-domain :
      (n : Bool) (t : RuleType N) (q x : Text)
      → d ≡ some q
      → as_domain N t ≡ some x
      → to_lowercase x ≡ to_lowercase q
      → Applies n t
  Applies-domain n (domain y) q x given same fits = (q, given, ground (arith, same, fits))
  Applies-domain n t q x given same fits = absurd (cc same)

  pub Applies-suffix :
      (n : Bool) (t : RuleType N) (q x : Text)
      → d ≡ some q
      → as_suffix N t ≡ some x
      → HasSuffix (to_lowercase q) x
      → Applies n t
  Applies-suffix n (domain_suffix y) q x given same fits =
      (q, given, subst (HasSuffix (to_lowercase q)) (cc same) fits)
  Applies-suffix n t q x given same fits = absurd (cc same)

  pub Applies-keyword :
      (n : Bool) (t : RuleType N) (q x : Text)
      → d ≡ some q
      → as_keyword N t ≡ some x
      → Contains (to_lowercase x) (to_lowercase q)
      → Applies n t
  Applies-keyword n (domain_keyword y) q x given same fits =
      (q, given, subst (λ k. Contains (to_lowercase k) (to_lowercase q)) (cc same) fits)
  Applies-keyword n t q x given same fits = absurd (cc same)

  pub Applies-address : (n : Bool) (t : RuleType N) → CoversAddress n t → Applies n t
  Applies-address n (ip_cidr c) h = h
  Applies-address n (ip_cidr6 c) h = h
  Applies-address n (geo_ip c) h = h
  Applies-address n t h = absurd (covers-IsForAddress N h.address (country h.address) t h.covered)
