-- ===== src/Outbound/Manager/Members.antt =====
-- src/outbound/manager.rs: what the outbounds and the groups of a manager are made from.
use home_guard.Prelude.{
  ℕ, zero, suc, ◌*◌, ◌≡◌, ◌⊎◌, refl, sym, ap, ◌∙◌, inl, inr, Bool-cases, some, List, [], ◌∷◌, ◌++◌,
  map, ◌==◌, nat_eq, list_eq, beq_iff, length, get_elem?, In, here, there,
}
use mathlib.Core.Option.{get_or}
use home_guard.Prelude.Map.{lookup, lookup-insert}
use home_guard.Prelude.Text.{Text, bytes}
use home_guard.Crates.Ring.{Ring}
use home_guard.Config.{ProxyGroupConfig, select, url_test, fallback}
use home_guard.Outbound.Group.{Outbound}
use home_guard.Outbound.Shadowsocks.Client.{ShadowsocksClient}
use home_guard.Outbound.Manager.Clients.{HasKey}
use home_guard.Outbound.Manager.{
  default_test_url, default_test_interval, Handle, the_direct, the_reject, client, group,
  ProxyGroup, select_group, url_test_group, fallback_group, members, OutboundManager, add_group,
}

pub get_elem?-append {ℓ} :
    {A : Type ℓ} (xs ys : List A) (i : ℕ) (x : A)
    → get_elem? xs i ≡ some x
    → get_elem? (xs ++ ys) i ≡ some x
get_elem?-append [] ys i x h = cc h
get_elem?-append (y ∷ xs) ys zero x h = h
get_elem?-append (y ∷ xs) ys (suc i) x h = get_elem?-append xs ys i x h

pub get_elem?-length {ℓ} :
    {A : Type ℓ} (xs : List A) (x : A) → get_elem? (xs ++ x ∷ []) (length xs) ≡ some x
get_elem?-length [] x = refl
get_elem?-length (y ∷ xs) x = get_elem?-length xs x

pub In-HasKey {ℓ} :
    {V : Type ℓ} (name : Text) (m : List (Text × V)) → In name (map (λ e. e.0) m) → HasKey name m
unfolding lookup
In-HasKey name [] i = elim i [ ]
In-HasKey name ((key, v) ∷ m) (here same) = (v, cc ((beq_iff key name).1 same))
In-HasKey name ((key, v) ∷ m) (there i) = elim (Bool-cases (key == name)) [
  | inl same ↦ (v, rw (lookup, same) refl)
  | inr other ↦ (let (w, found) = In-HasKey name m i in (w, rw (lookup, other) found))
]

module _ (R : Ring) (O : Outbound) (handle : Handle → O.Proxy) where
  abbrev pub name_of : ProxyGroup R O handle → Text
  name_of (select_group g) = g.group_name
  name_of (url_test_group g) = g.name
  name_of (fallback_group g) = g.group_name

  -- The group has the type, the name and the test of the configuration.
  abbrev pub IsGroupOf : ProxyGroupConfig → ProxyGroup R O handle → Type 0
  IsGroupOf c (select_group g) = (c.group_type ≡ select) × (g.group_name ≡ c.name)
  IsGroupOf c (url_test_group g) =
      (c.group_type ≡ url_test)
      × (g.name ≡ c.name)
      × (g.test_url ≡ get_or c.url default_test_url)
      × (g.test_interval ≡ get_or c.interval default_test_interval * 1_000_000_000)
  IsGroupOf c (fallback_group g) =
      (c.group_type ≡ fallback)
      × (g.group_name ≡ c.name)
      × (g.test_url ≡ get_or c.url default_test_url)
      × (g.test_interval ≡ get_or c.interval default_test_interval)

  -- What a name may stand for: the built-in outbounds, the client of that name, or a group of that
  -- name.
  abbrev pub IsBase : List (Text × ShadowsocksClient R) → Text → O.Proxy → Type 0
  IsBase clients name p =
      ((name ≡ bytes "DIRECT") × (p ≡ handle the_direct))
      ⊎ ((name ≡ bytes "REJECT") × (p ≡ handle the_reject))
      ⊎ (HasKey name clients × (p ≡ handle (client name)))

  abbrev pub IsNamed : OutboundManager R O handle → Text → O.Proxy → Type 0
  IsNamed m name p =
      IsBase m.shadowsocks name p
      ⊎ ((i : ℕ) × (g : ProxyGroup R O handle) × (get_elem? m.arena i ≡ some g)
          × (name_of g ≡ name)
          × (p ≡ handle (group i)))

  -- The proxies are those that the names stand for, one for each name, in order.
  abbrev pub AreNamed : OutboundManager R O handle → List Text → List O.Proxy → Type 0
  AreNamed m [] [] = Unit
  AreNamed m [] (p ∷ ps) = ⊥
  AreNamed m (name ∷ names) [] = ⊥
  AreNamed m (name ∷ names) (p ∷ ps) = IsNamed m name p × AreNamed m names ps

  -- The outbound under the name is the group at the index, which is made from a configured group of
  -- that name, and whose proxies are those that its configuration names.
  abbrev pub IsEntry : List ProxyGroupConfig → Text → ℕ → OutboundManager R O handle → Type 0
  IsEntry gs name i m =
      (c : ProxyGroupConfig) × (g : ProxyGroup R O handle) × In c gs
      × (c.name ≡ name)
      × (get_elem? m.arena i ≡ some g)
      × (lookup name m.all_outbounds ≡ some (handle (group i)))
      × IsGroupOf c g
      × AreNamed m c.proxies (members R O handle g)

  pub record IsSound (gs : List ProxyGroupConfig) (m : OutboundManager R O handle) : Type 0 where
    pub named :
        (name : Text) (p : O.Proxy) → lookup name m.all_outbounds ≡ some p → IsNamed m name p
    pub entry : (name : Text) (i : ℕ) → lookup name m.groups ≡ some i → IsEntry gs name i m

  IsNamed-add_group :
      (m : OutboundManager R O handle) (key : Text) (g : ProxyGroup R O handle) (name : Text)
      (p : O.Proxy)
      → IsNamed m name p
      → IsNamed (add_group R O handle key g m) name p
  IsNamed-add_group m key g name p (inl base) = inl base
  IsNamed-add_group m key g name p (inr (i, old, at, called, same)) =
      inr (i, old, get_elem?-append m.arena (g ∷ []) i old at, called, same)

  AreNamed-add_group :
      (m : OutboundManager R O handle) (key : Text) (g : ProxyGroup R O handle) (names : List Text)
      (ps : List O.Proxy)
      → AreNamed m names ps
      → AreNamed (add_group R O handle key g m) names ps
  AreNamed-add_group m key g [] [] h = tt
  AreNamed-add_group m key g [] (p ∷ ps) h = elim h [ ]
  AreNamed-add_group m key g (name ∷ names) [] h = elim h [ ]
  AreNamed-add_group m key g (name ∷ names) (p ∷ ps) (one, more) =
      (IsNamed-add_group m key g name p one, AreNamed-add_group m key g names ps more)

  IsGroupOf-name :
      (c : ProxyGroupConfig) (g : ProxyGroup R O handle) → IsGroupOf c g → name_of g ≡ c.name
  IsGroupOf-name c (select_group g) (type, name) = name
  IsGroupOf-name c (url_test_group g) (type, name, url, interval) = name
  IsGroupOf-name c (fallback_group g) (type, name, url, interval) = name

  pub IsSound-add_group :
      (gs : List ProxyGroupConfig) (m : OutboundManager R O handle) (c : ProxyGroupConfig)
      (g : ProxyGroup R O handle)
      → IsSound gs m
      → In c gs
      → IsGroupOf c g
      → AreNamed m c.proxies (members R O handle g)
      → IsSound gs (add_group R O handle c.name g m)
  IsSound-add_group gs m c g s i made proxies =
      let added : OutboundManager R O handle = add_group R O handle c.name g m in
      let p = handle (group (length m.arena)) in
      let at = get_elem?-length m.arena g in
      record {
        named = λ name q found. elim (Bool-cases (c.name == name)) [
          | inl same ↦
              let here_is : some p ≡ some q =
                rw (lookup-insert c.name name p m.all_outbounds, same) at found in
              let is_p : q ≡ p = cc here_is in
              let called : name_of g ≡ name =
                IsGroupOf-name c g made ∙ (beq_iff c.name name).0 same in
              inr (length m.arena, g, at, called, is_p)
          | inr other ↦
              let old : lookup name m.all_outbounds ≡ some q =
                rw (lookup-insert c.name name p m.all_outbounds, other) at found in
              IsNamed-add_group m c.name g name q (s.named name q old)
        ];
        entry = λ name j found. elim (Bool-cases (c.name == name)) [
          | inl same ↦
              let here_is : some (length m.arena) ≡ some j =
                rw (lookup-insert c.name name (length m.arena) m.groups, same) at found in
              let is_j : length m.arena ≡ j = cc here_is in
              (
                c,
                g,
                i,
                (beq_iff c.name name).0 same,
                ap (get_elem? (m.arena ++ g ∷ [])) (sym is_j) ∙ at,
                rw (lookup-insert c.name name p m.all_outbounds, same)
                    (ap (λ n. some (handle (group n))) is_j),
                made,
                AreNamed-add_group m c.name g c.proxies (members R O handle g) proxies,
              )
          | inr other ↦
              let old : lookup name m.groups ≡ some j =
                rw (lookup-insert c.name name (length m.arena) m.groups, other) at found in
              let (d, k, l, called, at_j, listed, type, names) = s.entry name j old in
              (
                d,
                k,
                l,
                called,
                get_elem?-append m.arena (g ∷ []) j k at_j,
                rw (lookup-insert c.name name p m.all_outbounds, other) listed,
                type,
                AreNamed-add_group m c.name g d.proxies (members R O handle k) names,
              )
        ];
      }
