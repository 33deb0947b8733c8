-- ===== src/Outbound/Manager/Groups.antt =====
-- src/outbound/manager.rs: the groups of a valid configuration are there.
use home_guard.Prelude.{
  ℕ, suc, ◌<◌, ◌≡◌, ◌⊎◌, refl, sym, ap, ◌∙◌, inl, inr, Bool, Bool-cases, Option, Option-cases, some,
  List, [], ◌∷◌, ◌==◌, nat_eq, list_eq, beq_iff, length, get_elem?, >>=-eq-some, All, All-In, In,
  here, there, arith,
}
use mathlib.Core.Option.{get_or}
use home_guard.Prelude.Map.{lookup, insert, lookup-insert, lookup-nil}
use home_guard.Prelude.Net.{IpAddr}
use home_guard.Prelude.Text.{Text}
use home_guard.Crates.Ring.{Ring}
use home_guard.Config.{Config, ProxyGroupConfig, proxy_names}
use home_guard.Config.Validation.{IsValid, IsGroup}
use home_guard.Outbound.Group.{Outbound}
use home_guard.Outbound.Manager.Clients.{
  HasKey, HasKey-insert, IsMade, create_clients_lem, base_outbounds_lem,
}
use home_guard.Outbound.Manager.Members.{get_elem?-append, get_elem?-length, IsSound, IsEntry}
use home_guard.Outbound.Manager.Soundness.{AreKnown, create_groups-IsSound, base_outbounds-IsBase}
use home_guard.Outbound.Manager.{
  default_test_url, default_test_interval, Handle, group, ProxyGroup, OutboundManager,
  base_outbounds, collect_proxies, make_group, create_group, add_group, create_groups, from_config,
  get_by_name, get_group,
}

module _ (R : Ring) (O : Outbound) (handle : Handle → O.Proxy)
    (parse : Text → ℕ → Option (IpAddr × ℕ)) where
  -- No name is passed over when all of them are known.
  collect_proxies_lem :
      (names : List Text) (outbounds : List (Text × O.Proxy))
      → All (λ name. HasKey name outbounds) names
      → length (collect_proxies R O handle names outbounds) ≡ length names
  unfolding collect_proxies
  collect_proxies_lem [] outbounds h = refl
  collect_proxies_lem (name ∷ rest) outbounds ((p, found), h) =
      rw (collect_proxies, found) (ap suc (collect_proxies_lem rest outbounds h))

  create_group_lem :
      (config : ProxyGroupConfig) (outbounds : List (Text × O.Proxy))
      → 0 < length config.proxies
      → All (λ name. HasKey name outbounds) config.proxies
      → (g : ProxyGroup R O handle) × (create_group R O handle config outbounds ≡ some g)
  unfolding create_group
  create_group_lem config outbounds some_proxy h =
      go (collect_proxies R O handle config.proxies outbounds) refl
    where
      go :
          (ps : List O.Proxy)
          → collect_proxies R O handle config.proxies outbounds ≡ ps
          → (g : ProxyGroup R O handle) × (create_group R O handle config outbounds ≡ some g)
      go [] same =
          let none_left = collect_proxies_lem config.proxies outbounds h in
          absurd (omega (arith, none_left, ap length same))
      go (p ∷ ps) same = (
        make_group R O handle config.group_type config.name (p ∷ ps)
            (get_or config.url default_test_url) (get_or config.interval default_test_interval),
        rw (create_group, same),
      )

  -- The manager knows a group of the name, and an outbound.
  abbrev Knows : Text → OutboundManager R O handle → Type 0
  Knows name m =
      ((g : ProxyGroup R O handle) × (get_group R O handle name m ≡ some g))
      × ((p : O.Proxy) × (get_by_name R O handle name m ≡ some p))

  add_group-Knows :
      (name key : Text) (g : ProxyGroup R O handle) (m : OutboundManager R O handle)
      → (key ≡ name) ⊎ Knows name m
      → Knows name (add_group R O handle key g m)
  unfolding get_group get_by_name
  add_group-Knows name key g m h = elim (Bool-cases (key == name)) [
    | inl same ↦ (
      (g, rw (lookup-insert key name (length m.arena) m.groups, same) (get_elem?-length m.arena g)),
      HasKey-insert name key _ m.all_outbounds (inl ((beq_iff key name).0 same)),
    )
    | inr other ↦ elim h [
      | inl same ↦ absurd (cc ((beq_iff key name).1 same, other))
      | inr ((old, found), known) ↦
          let (i, at_i, is_old) = >>=-eq-some (lookup name m.groups) _ found in
          (
            (
              old,
              rw (lookup-insert key name (length m.arena) m.groups, other, at_i)
                  (get_elem?-append m.arena (g ∷ []) i old is_old),
            ),
            HasKey-insert name key _ m.all_outbounds (inr known),
          )
    ]
  ]

  create_groups-keeps :
      (gs : List ProxyGroupConfig) (name : Text) (m : OutboundManager R O handle)
      → Knows name m
      → Knows name (create_groups R O handle gs m)
  unfolding create_groups
  create_groups-keeps [] name m k = k
  create_groups-keeps (config ∷ rest) name m k =
      elim (Option-cases (create_group R O handle config m.all_outbounds)) [
        | inl failed ↦ rw (create_groups, failed) (create_groups-keeps rest name m k)
        | inr (g, made) ↦
            rw (create_groups, made)
              (create_groups-keeps rest name (add_group R O handle config.name g m)
                (add_group-Knows name config.name g m (inr k)))
      ]

  -- A group whose proxies are known from the start is made.
  create_groups-makes :
      (gs : List ProxyGroupConfig) (config : ProxyGroupConfig) (m : OutboundManager R O handle)
      → In config gs
      → 0 < length config.proxies
      → All (λ name. HasKey name m.all_outbounds) config.proxies
      → Knows config.name (create_groups R O handle gs m)
  unfolding create_groups
  create_groups-makes [] config m i some_proxy h = elim i [ ]
  create_groups-makes (c ∷ rest) config m (here same) some_proxy h =
      let (g, made) = create_group_lem config m.all_outbounds some_proxy h in
      let made' : create_group R O handle c m.all_outbounds ≡ some g =
        ap (λ t. create_group R O handle t m.all_outbounds) same ∙ made in
      rw (create_groups, made')
        (create_groups-keeps rest config.name _
          (add_group-Knows config.name c.name g m (inl (ap (λ t. t.name) same))))
  create_groups-makes (c ∷ rest) config m (there i) some_proxy h =
      elim (Option-cases (create_group R O handle c m.all_outbounds)) [
        | inl failed ↦ rw (create_groups, failed) (create_groups-makes rest config m i some_proxy h)
        | inr (g, made) ↦
            rw (create_groups, made)
              (create_groups-makes rest config (add_group R O handle c.name g m) i some_proxy
                (still c.name (handle (group (length m.arena))) config.proxies h))
      ]
    where
      still :
          (key : Text) (v : O.Proxy) (names : List Text)
          → All (λ name. HasKey name m.all_outbounds) names
          → All (λ name. HasKey name (insert key v m.all_outbounds)) names
      still key v [] h = tt
      still key v (n ∷ names) (k, h) =
          (HasKey-insert n key v m.all_outbounds (inr k), still key v names h)

  known_names :
      (names base : List Text) (m : List (Text × O.Proxy))
      → ((name : Text) → In name base → HasKey name m)
      → All (λ name. In name base) names
      → All (λ name. HasKey name m) names
  known_names [] base m known h = tt
  known_names (n ∷ names) base m known (i, h) = (known n i, known_names names base m known h)

  known_groups :
      (base : List Text) (gs : List ProxyGroupConfig) (m : List (Text × O.Proxy))
      → ((name : Text) → In name base → HasKey name m)
      → All (IsGroup base) gs
      → AreKnown R O handle gs m
  known_groups base [] m known h = tt
  known_groups base (g ∷ gs) m known (one, more) =
      (known_names g.proxies base m known one, known_groups base gs m known more)

  -- When the configuration is valid and each of its Shadowsocks clients can be made, the manager is
  -- built without a panic, and for every configured group that lists a proxy there is an index: the
  -- group at the index is the one that is found under the name, and its handle is the outbound under
  -- the name. That group is made from a configured group of that name: it has its type, its name and,
  -- for the types that test, its URL and interval or the defaults; and its proxies are, one for each
  -- name and in order, what these names stand for: the direct outbound for DIRECT, the rejecting one
  -- for REJECT, the client of the name, or a group of the name.
  pub from_config-groups :
      (parses : Text → Bool) (config : Config) (g : ProxyGroupConfig)
      → IsValid parses config
      → All (IsMade R O handle parse) config.proxy.shadowsocks
      → In g config.proxy.group
      → 0 < length g.proxies
      → (m : OutboundManager R O handle) × (from_config R O handle parse config.proxy ≡ some m)
        × (i : ℕ) × (get_group R O handle g.name m ≡ get_elem? m.arena i)
        × (get_by_name R O handle g.name m ≡ some (handle (group i)))
        × IsEntry R O handle config.proxy.group g.name i m
  unfolding from_config get_group get_by_name
  from_config-groups parses config g valid made i some_proxy =
      let (clients, run, keys) =
        create_clients_lem R O handle parse config.proxy.shadowsocks [] made in
      let known =
        base_outbounds_lem R O handle parse clients config.proxy.shadowsocks
          (λ name j. keys name (inr j)) in
      let references =
        All-In (IsGroup (proxy_names config.proxy)) config.proxy.group valid.groups i in
      let start : OutboundManager R O handle = record {
        shadowsocks = clients;
        arena = [];
        groups = [];
        all_outbounds = base_outbounds R O handle clients;
      } in
      let m = create_groups R O handle config.proxy.group start in
      let found =
        create_groups-makes config.proxy.group g start i some_proxy
          (known_names g.proxies (proxy_names config.proxy) start.all_outbounds known references) in
      let sound_start : IsSound R O handle config.proxy.group start = record {
        named = λ name p at. inl (base_outbounds-IsBase R O handle clients name p at);
        entry = λ name k at. absurd (cc (sym (lookup-nil name) ∙ at));
      } in
      let sound =
        create_groups-IsSound R O handle config.proxy.group config.proxy.group start (λ c j. j)
          (known_groups (proxy_names config.proxy) config.proxy.group start.all_outbounds known
            valid.groups)
          sound_start in
      let (index, at, is_group) = >>=-eq-some (lookup g.name m.groups) _ found.0.1 in
      let (c, made_group, j, called, there_is, listed, kind, proxies) =
        sound.entry g.name index at in
      (
        m,
        rw (from_config, run),
        index,
        rw at refl,
        listed,
        (c, made_group, j, called, there_is, listed, kind, proxies),
      )
