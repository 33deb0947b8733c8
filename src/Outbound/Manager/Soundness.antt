-- ===== src/Outbound/Manager/Soundness.antt =====
-- src/outbound/manager.rs: a manager is made from its configuration, group by group.
use home_guard.Prelude.{
  ◌≡◌, refl, sym, ap, ◌∙◌, inl, inr, Bool-cases, Option-cases, some, List, [], ◌∷◌, map, ◌==◌,
  nat_eq, list_eq, beq_iff, All, In, here, there,
}
use mathlib.Core.Path.{subst}
use mathlib.Core.Option.{get_or}
use home_guard.Prelude.Map.{lookup, insert, lookup-insert, lookup-nil}
use home_guard.Prelude.Text.{Text, bytes}
use home_guard.Crates.Ring.{Ring}
use home_guard.Config.{ProxyGroupConfig, ProxyGroupType, select, url_test, fallback}
use home_guard.Outbound.Group.{Outbound}
use home_guard.Outbound.Group.Select
use home_guard.Outbound.Group.UrlTest
use home_guard.Outbound.Group.Fallback
use home_guard.Outbound.Shadowsocks.Client.{ShadowsocksClient}
use home_guard.Outbound.Manager.Clients.{HasKey, HasKey-insert}
use home_guard.Outbound.Manager.{
  default_test_url, default_test_interval, Handle, the_direct, the_reject, client, ProxyGroup,
  members, OutboundManager, add_clients, base_outbounds, collect_proxies, make_group, create_group,
  add_group, create_groups,
}
use home_guard.Outbound.Manager.Members.{
  In-HasKey, IsGroupOf, IsBase, IsNamed, AreNamed, IsSound, IsSound-add_group,
}

module _ (R : Ring) (O : Outbound) (handle : Handle → O.Proxy) where
  -- The group that is made has the type of its configuration, and the proxies that it is given.
  make_group-IsGroupOf :
      (c : ProxyGroupConfig) (ps : List O.Proxy)
      → let g =
          make_group R O handle c.group_type c.name ps
            (get_or c.url default_test_url)
            (get_or c.interval default_test_interval) in
        IsGroupOf R O handle c g × (members R O handle g ≡ ps)
  unfolding make_group Select.new UrlTest.new Fallback.new
  make_group-IsGroupOf c ps = go c.group_type refl
    where
      go :
          (t : ProxyGroupType)
          → c.group_type ≡ t
          → let g =
              make_group R O handle t c.name ps
                (get_or c.url default_test_url)
                (get_or c.interval default_test_interval) in
            IsGroupOf R O handle c g × (members R O handle g ≡ ps)
      go select same = ((same, refl), refl)
      go url_test same = ((same, refl, refl, refl), refl)
      go fallback same = ((same, refl, refl, refl), refl)

  collect_proxies-AreNamed :
      (m : OutboundManager R O handle) (names : List Text)
      → ((name : Text) (p : O.Proxy)
          → lookup name m.all_outbounds ≡ some p
          → IsNamed R O handle m name p)
      → All (λ name. HasKey name m.all_outbounds) names
      → AreNamed R O handle m names (collect_proxies R O handle names m.all_outbounds)
  unfolding collect_proxies
  collect_proxies-AreNamed m [] named h = tt
  collect_proxies-AreNamed m (name ∷ names) named ((p, found), h) =
      rw (collect_proxies, found) (named name p found, collect_proxies-AreNamed m names named h)

  create_group-members :
      (c : ProxyGroupConfig) (outbounds : List (Text × O.Proxy)) (g : ProxyGroup R O handle)
      → create_group R O handle c outbounds ≡ some g
      → IsGroupOf R O handle c g
        × (members R O handle g ≡ collect_proxies R O handle c.proxies outbounds)
  unfolding create_group
  create_group-members c outbounds g made = go (collect_proxies R O handle c.proxies outbounds) refl
    where
      go :
          (ps : List O.Proxy)
          → collect_proxies R O handle c.proxies outbounds ≡ ps
          → IsGroupOf R O handle c g
            × (members R O handle g ≡ collect_proxies R O handle c.proxies outbounds)
      go [] same = absurd (cc (rw (create_group, same) at made))
      go (p ∷ ps) same =
          let built =
            make_group R O handle c.group_type c.name (p ∷ ps) (get_or c.url default_test_url)
              (get_or c.interval default_test_interval) in
          let found : some built ≡ some g = rw (create_group, same) at made in
          let is_g : built ≡ g = cc found in
          let (kind, proxies) = make_group-IsGroupOf c (p ∷ ps) in
          (
            subst (IsGroupOf R O handle c) is_g kind,
            ap (members R O handle) (sym is_g) ∙ proxies ∙ sym same,
          )

  still_known :
      (key : Text) (v : O.Proxy) (m : List (Text × O.Proxy)) (names : List Text)
      → All (λ name. HasKey name m) names
      → All (λ name. HasKey name (insert key v m)) names
  still_known key v m [] h = tt
  still_known key v m (n ∷ names) (k, h) =
      (HasKey-insert n key v m (inr k), still_known key v m names h)

  -- Every group of the list refers to known names.
  abbrev pub AreKnown : List ProxyGroupConfig → List (Text × O.Proxy) → Type 0
  AreKnown cs m = All (λ c. All (λ name. HasKey name m) c.proxies) cs

  AreKnown-insert :
      (key : Text) (v : O.Proxy) (m : List (Text × O.Proxy)) (cs : List ProxyGroupConfig)
      → AreKnown cs m
      → AreKnown cs (insert key v m)
  AreKnown-insert key v m [] h = tt
  AreKnown-insert key v m (c ∷ cs) (k, h) =
      (still_known key v m c.proxies k, AreKnown-insert key v m cs h)

  pub create_groups-IsSound :
      (gs cs : List ProxyGroupConfig) (m : OutboundManager R O handle)
      → ((c : ProxyGroupConfig) → In c cs → In c gs)
      → AreKnown cs m.all_outbounds
      → IsSound R O handle gs m
      → IsSound R O handle gs (create_groups R O handle cs m)
  unfolding create_groups
  create_groups-IsSound gs [] m part known s = s
  create_groups-IsSound gs (c ∷ cs) m part (names, known) s =
      elim (Option-cases (create_group R O handle c m.all_outbounds)) [
        | inl failed ↦
            rw (create_groups, failed)
              (create_groups-IsSound gs cs m (λ d i. part d (there i)) known s)
        | inr (g, made) ↦
            let (kind, proxies) = create_group-members c m.all_outbounds g made in
            let named : AreNamed R O handle m c.proxies (members R O handle g) =
              subst (AreNamed R O handle m c.proxies) (sym proxies)
                (collect_proxies-AreNamed m c.proxies s.named names) in
            rw (create_groups, made)
              (create_groups-IsSound gs cs (add_group R O handle c.name g m)
                (λ d i. part d (there i)) (AreKnown-insert c.name _ m.all_outbounds cs known)
                (IsSound-add_group R O handle gs m c g s (part c (here refl)) kind named))
      ]

  add_clients-IsBase :
      (clients cs : List (Text × ShadowsocksClient R)) (m : List (Text × O.Proxy))
      → ((name : Text) → In name (map (λ e. e.0) cs) → HasKey name clients)
      → ((name : Text) (p : O.Proxy) → lookup name m ≡ some p → IsBase R O handle clients name p)
      → (name : Text) (p : O.Proxy) → lookup name (add_clients R O handle cs m) ≡ some p
      → IsBase R O handle clients name p
  unfolding add_clients
  add_clients-IsBase clients [] m keys base name p found = base name p found
  add_clients-IsBase clients ((key, c) ∷ cs) m keys base name p found =
      add_clients-IsBase clients cs (insert key (handle (client key)) m) (λ n i. keys n (there i))
        base' name p found
    where
      base' :
          (n : Text) (q : O.Proxy)
          → lookup n (insert key (handle (client key)) m) ≡ some q
          → IsBase R O handle clients n q
      base' n q at = elim (Bool-cases (key == n)) [
        | inr other ↦ base n q (rw (lookup-insert key n (handle (client key)) m, other) at at)
        | inl same ↦
            let is_q : some (handle (client key)) ≡ some q =
              rw (lookup-insert key n (handle (client key)) m, same) at at in
            let equal : key ≡ n = (beq_iff key n).0 same in
            let is_client : q ≡ handle (client n) = cc (is_q, ap (λ k. handle (client k)) equal) in
            inr (inr (subst (λ k. HasKey k clients) equal (keys key (here refl)), is_client))
      ]

  -- Before the groups, a name stands for a built-in outbound or a client.
  pub base_outbounds-IsBase :
      (clients : List (Text × ShadowsocksClient R)) (name : Text) (p : O.Proxy)
      → lookup name (base_outbounds R O handle clients) ≡ some p
      → IsBase R O handle clients name p
  unfolding base_outbounds
  base_outbounds-IsBase clients =
      add_clients-IsBase clients clients _ (λ name i. In-HasKey name clients i) base
    where
      base :
          (name : Text) (p : O.Proxy)
          → lookup name (
              insert
                (bytes "REJECT")
                (handle the_reject)
                (insert (bytes "DIRECT") (handle the_direct) []))
            ≡ some p
          → IsBase R O handle clients name p
      base name p found = elim (Bool-cases (bytes "REJECT" == name)) [
        | inl same ↦
            let is_p : some (handle the_reject) ≡ some p =
              rw
                (
                  lookup-insert (bytes "REJECT") name (handle the_reject)
                      (insert (bytes "DIRECT") (handle the_direct) []),
                  same,
                )
                at found in
            inr (inl (sym ((beq_iff (bytes "REJECT") name).0 same), cc is_p))
        | inr other ↦
            let rest : lookup name (insert (bytes "DIRECT") (handle the_direct) []) ≡ some p =
              rw
                (
                  lookup-insert (bytes "REJECT") name (handle the_reject)
                      (insert (bytes "DIRECT") (handle the_direct) []),
                  other,
                )
                at found in
            elim (Bool-cases (bytes "DIRECT" == name)) [
              | inl same ↦
                  let is_p : some (handle the_direct) ≡ some p =
                    rw (lookup-insert (bytes "DIRECT") name (handle the_direct) [], same) at rest in
                  inl (sym ((beq_iff (bytes "DIRECT") name).0 same), cc is_p)
              | inr no_other ↦
                  let nothing : lookup name [] ≡ some p =
                    rw (lookup-insert (bytes "DIRECT") name (handle the_direct) [], no_other) at
                      rest in
                  absurd (cc (sym (lookup-nil name) ∙ nothing))
            ]
      ]
