-- ===== src/Config/Validation.antt =====
-- src/config/parser.rs: what a configuration that passes the validation is.
use home_guard.Prelude.{
  ◌≡◌, ◌↔◌, ◌⊎◌, refl, inl, inr, Bool, true, false, Bool-cases, Option, none, some, List, [], ◌∷◌,
  if◌then◌else◌, ◌==◌, nat_eq, list_eq, beq_iff, beq_refl, All, In, here, there,
}
use home_guard.Prelude.Text.{Text}
use home_guard.Config.{
  Config, no_pool, bad_pool, DnsConfig, ShadowsocksConfig, ProxyGroupConfig, ConfigError, is_empty,
  contains, valid_methods, validate_ss_method, ◌or_else◌, ensure, validate_dns,
  validate_shadowsocks, proxy_names, validate_references, validate_groups, validate_config,
}

-- Fake addresses need a network to come from.
abbrev pub IsPool : (Text → Bool) → DnsConfig → Type 0
IsPool parses dns =
    (dns.fake_dns ≡ false)
    ⊎ ((is_empty dns.fake_dns_pool ≡ false) × (parses dns.fake_dns_pool ≡ true))

abbrev pub IsProxy : ShadowsocksConfig → Type 0
IsProxy ss = (is_empty ss.name ≡ false) × (is_empty ss.server ≡ false) × In ss.method valid_methods

abbrev pub IsGroup : List Text → ProxyGroupConfig → Type 0
IsGroup names g = All (λ p. In p names) g.proxies

-- There is a DNS server and, for fake addresses, a network; the proxies are named, have a server and a
-- known method; and the groups refer to proxies and to DIRECT and REJECT alone.
pub record IsValid (parses : Text → Bool) (c : Config) : Type 0 where
  pub upstream : is_empty c.dns.upstream ≡ false
  pub pool : IsPool parses c.dns
  pub proxies : All IsProxy c.proxy.shadowsocks
  pub groups : All (IsGroup (proxy_names c.proxy)) c.proxy.group

contains-In : (name : Text) (names : List Text) → contains name names ≡ true → In name names
unfolding contains
contains-In name [] h = cc h
contains-In name (n ∷ names) h = elim (Bool-cases (n == name)) [
  | inl same ↦ here ((beq_iff n name).0 same)
  | inr other ↦ there (contains-In name names (rw (contains, other) at h))
]

In-contains : (name : Text) (names : List Text) → In name names → contains name names ≡ true
unfolding contains
In-contains name [] i = elim i [ ]
In-contains name (n ∷ names) (here same) = rw (contains, same, beq_refl name)
In-contains name (n ∷ names) (there i) = elim (Bool-cases (n == name)) [
  | inl same ↦ rw (contains, same)
  | inr other ↦ rw (contains, other) (In-contains name names i)
]

both_none : (a b : Option ConfigError) → (a or_else b) ≡ none → (a ≡ none) × (b ≡ none)
both_none none b h = (refl, h)
both_none (some e) b h = cc h

ensure-none : (b : Bool) (e : ConfigError) → ensure b e ≡ none → b ≡ true
ensure-none true e h = refl
ensure-none false e h = cc h

-- A test that reports an error when it holds.
unless_none :
    (b : Bool) (e : ConfigError) (rest : Option ConfigError)
    → (if b then some e else rest) ≡ none
    → (b ≡ false) × (rest ≡ none)
unless_none true e rest h = cc h
unless_none false e rest h = (refl, h)

module _ (parses : Text → Bool) (dns : DnsConfig) where
  dns_iff : (validate_dns parses dns ≡ none) ↔ ((is_empty dns.upstream ≡ false) × IsPool parses dns)
  unfolding validate_dns
  dns_iff = ((λ h. to h), λ (up, pool). from up pool)
    where
      to : validate_dns parses dns ≡ none → (is_empty dns.upstream ≡ false) × IsPool parses dns
      to h =
          let (up, rest) = unless_none (is_empty dns.upstream) _ _ h in
          elim (Bool-cases dns.fake_dns) [
            | inr off ↦ (up, inl off)
            | inl on ↦
                let (pool, net) =
                  unless_none (is_empty dns.fake_dns_pool) no_pool
                    (ensure (parses dns.fake_dns_pool) bad_pool) (rw on at rest) in
                (up, inr (pool, ensure-none (parses dns.fake_dns_pool) _ net))
          ]

      from : is_empty dns.upstream ≡ false → IsPool parses dns → validate_dns parses dns ≡ none
      from up (inl off) = rw (validate_dns, up, off)
      from up (inr (pool, net)) = elim (Bool-cases dns.fake_dns) [
        | inr off ↦ rw (validate_dns, up, off)
        | inl on ↦ rw (validate_dns, up, on, pool, net)
      ]

shadowsocks_iff : (ps : List ShadowsocksConfig) → (validate_shadowsocks ps ≡ none) ↔ All IsProxy ps
unfolding validate_shadowsocks validate_ss_method
shadowsocks_iff [] = ((λ h. tt), λ h. refl)
shadowsocks_iff (ss ∷ rest) =
    let (to, from) = shadowsocks_iff rest in
    (
      (λ h.
          let (name, checks) = unless_none (is_empty ss.name) _ _ h in
          let (server, methods) = unless_none (is_empty ss.server) _ _ checks in
          let (one, more) = both_none (ensure (contains ss.method valid_methods) _) _ methods in
          (
            (
              name,
              server,
              contains-In ss.method valid_methods
                  (ensure-none (contains ss.method valid_methods) _ one),
            ),
            to more,
          )),
      λ ((name, server, method), more).
          rw (validate_shadowsocks, name, server, In-contains ss.method valid_methods method)
            (from more),
    )

references_iff :
    (names : List Text) (group : Text) (ps : List Text)
    → (validate_references names group ps ≡ none) ↔ All (λ p. In p names) ps
unfolding validate_references
references_iff names group [] = ((λ h. tt), λ h. refl)
references_iff names group (p ∷ ps) =
    let (to, from) = references_iff names group ps in
    (
      (λ h.
          let (one, more) = both_none (ensure (contains p names) _) _ h in
          (contains-In p names (ensure-none (contains p names) _ one), to more)),
      λ (i, more). rw (validate_references, In-contains p names i) (from more),
    )

groups_iff :
    (names : List Text) (gs : List ProxyGroupConfig)
    → (validate_groups names gs ≡ none) ↔ All (IsGroup names) gs
unfolding validate_groups
groups_iff names [] = ((λ h. tt), λ h. refl)
groups_iff names (g ∷ gs) =
    let (to, from) = groups_iff names gs in
    let (ref_to, ref_from) = references_iff names g.name g.proxies in
    (
      (λ h.
          let (one, more) = both_none (validate_references names g.name g.proxies) _ h in
          (ref_to one, to more)),
      λ (one, more). rw (validate_groups, ref_from one) (from more),
    )

-- The validation finds nothing wrong exactly with the configurations that are valid.
pub validate_config-IsValid :
    (parses : Text → Bool) (c : Config) → (validate_config parses c ≡ none) ↔ IsValid parses c
unfolding validate_config
validate_config-IsValid parses c =
    let (dns_to, dns_from) = dns_iff parses c.dns in
    let (ss_to, ss_from) = shadowsocks_iff c.proxy.shadowsocks in
    let (gs_to, gs_from) = groups_iff (proxy_names c.proxy) c.proxy.group in
    (
      (λ h.
          let (one, more) = both_none (validate_dns parses c.dns) _ h in
          let (two, three) = both_none (validate_shadowsocks c.proxy.shadowsocks) _ more in
          let (up, pool) = dns_to one in
          record { upstream = up; pool = pool; proxies = ss_to two; groups = gs_to three }),
      λ v.
          rw (validate_config, dns_from (v.upstream, v.pool), ss_from v.proxies) (gs_from v.groups),
    )
