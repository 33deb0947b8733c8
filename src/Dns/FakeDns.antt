-- ===== src/Dns/FakeDns.antt =====
-- src/dns/fake_dns.rs: fake addresses for domains. An IPv4 address is its number below 2 ^ 32. The
-- methods run one at a time: the compare-and-swap loop then succeeds in its first round.
pub mod Sample
pub mod Invariant
pub mod Allocate
pub mod Reach
pub mod Pool
pub mod Tests
use home_guard.Prelude.{
  ℕ, ◌+◌, ◌-◌, ◌%◌, ◌^◌, min, max, ◌≡◌, Bool, ◌&&◌, Option, none, some, ltb, leb, if◌then◌else◌,
  length, ◌==◌, nat_eq, list_eq,
}
use mathlib.Core.Option.{get_or}
use home_guard.Prelude.Text.{Text, to_lowercase, trim_end}
use home_guard.Crates.DashMap.{DashMap}
use home_guard.Crates.LruCache.{LruCache}

-- The two concurrent maps and the recency list.
pub record Tables : Type 1 where
  pub by_ip : DashMap ℕ Text
  pub by_domain : DashMap Text ℕ
  pub recent : LruCache ℕ (Unit {0})

-- What the crate `ipnet` says of a network: its first and last address, and those of `hosts()`.
pub record Ipv4Net : Type 0 where
  pub network : ℕ
  pub broadcast : ℕ
  pub first_host : Option ℕ
  pub last_host : Option ℕ

abbrev pub dot : ℕ
dot = b'.'

-- The key of a domain: lower case, without the dots at its end.
unfoldable pub normalize : Text → Text
normalize domain = trim_end dot (to_lowercase domain)

module _ (B : Tables) where
  pub record FakeDns : Type 0 where
    pub ip_to_domain : B.by_ip.Table
    pub domain_to_ip : B.by_domain.Table
    pub lru : B.recent.Cache
    pub pool_start : ℕ
    pub pool_end : ℕ
    pub next_ip : ℕ
    pub pool_size : ℕ

  -- The state that `FakeDns::new` builds once the network is parsed.
  unfoldable pub new : Ipv4Net → ℕ → FakeDns
  new net capacity =
      let start = max (get_or net.first_host net.network) ((net.network + 1) % 2 ^ 32) in
      let end = min (get_or net.last_host net.broadcast) ((net.broadcast + 2 ^ 32 - 1) % 2 ^ 32) in
      let size = (end - start + 1) % 2 ^ 32 in
      let limited = min capacity size in
      record {
        ip_to_domain = B.by_ip.empty;
        domain_to_ip = B.by_domain.empty;
        lru = B.recent.new (if limited == 0 then 1000 else limited);
        pool_start = start;
        pool_end = end;
        next_ip = start;
        pool_size = size;
      }

  -- Both tables forget the address; its domain is returned, if it had one.
  unfoldable pub unlink : ℕ → FakeDns → Option Text × FakeDns
  unlink ip s =
      let (old, table) = B.by_ip.take_out ip s.ip_to_domain in
      elim old [
        | none ↦ (none, record s { ip_to_domain = table })
        | some domain ↦ (
          some domain,
          record s {
            ip_to_domain = table;
            domain_to_ip = (B.by_domain.take_out domain s.domain_to_ip).1;
          },
        )
      ]

  -- `lru.len() >= lru.cap()`: the least recently used address loses its domain.
  unfoldable pub evict : FakeDns → FakeDns
  evict s =
      let (oldest, lru) = B.recent.pop_lru s.lru in
      let r = B.recent.view s.lru in
      if leb r.cap (length r.items)
      then elim oldest [
        | none ↦ record s { lru = lru }
        | some (ip, _) ↦ (unlink ip (record s { lru = lru })).1
      ]
      else s

  -- The next address of the pool, with wraparound.
  unfoldable pub advance : FakeDns → ℕ × FakeDns
  advance s =
      let current = s.next_ip in
      (current, record s { next_ip = if leb s.pool_end current then s.pool_start else current + 1 })

  -- The address may still belong to a domain: that mapping goes.
  unfoldable pub reclaim : ℕ → FakeDns → FakeDns
  reclaim ip s =
      let (old, s') = unlink ip s in
      elim (B.by_ip.find ip s.ip_to_domain) [
        | none ↦ s
        | some _ ↦ elim old [ none ↦ s' | some _ ↦ record s' { lru = B.recent.pop ip s.lru } ]
      ]

  unfoldable pub assign : ℕ → Text → FakeDns → FakeDns
  assign ip domain s = record s {
    ip_to_domain = B.by_ip.store ip domain s.ip_to_domain;
    domain_to_ip = B.by_domain.store domain ip s.domain_to_ip;
    lru = B.recent.put ip tt s.lru;
  }

  unfoldable pub allocate_new_ip : Text → FakeDns → ℕ × FakeDns
  allocate_new_ip domain s =
      let (ip, s') = advance (evict s) in (ip, assign ip domain (reclaim ip s'))

  -- A use of the address, in the recency list.
  unfoldable pub touch : ℕ → FakeDns → FakeDns
  touch ip s = record s { lru = (B.recent.get ip s.lru).1 }

  unfoldable pub allocate : Text → FakeDns → ℕ × FakeDns
  allocate domain s =
      let key = normalize domain in
      elim (B.by_domain.find key s.domain_to_ip) [
        | none ↦ allocate_new_ip key s
        | some ip ↦ (ip, touch ip s)
      ]

  unfoldable pub lookup : ℕ → FakeDns → Option Text × FakeDns
  lookup ip s = elim (B.by_ip.find ip s.ip_to_domain) [
    | none ↦ (none, s)
    | some domain ↦ (some domain, touch ip s)
  ]

  unfoldable pub is_fake_ip : ℕ → FakeDns → Bool
  is_fake_ip ip s = leb s.pool_start ip && leb ip s.pool_end

  unfoldable pub clear : FakeDns → FakeDns
  clear s = record s {
    ip_to_domain = B.by_ip.clear s.ip_to_domain;
    domain_to_ip = B.by_domain.clear s.domain_to_ip;
    lru = B.recent.clear s.lru;
  }
