-- ===== src/Dns/FakeDns/Pool.antt =====
-- src/dns/fake_dns.rs: the pool of addresses stays as it is, and an address fits its 32 bits.
use home_guard.Prelude.{
  ℕ, ◌+◌, ◌-◌, ◌^◌, ◌≤◌, ◌<◌, ◌≡◌, inl, inr, refl, false, some, arith, nat_eq, list_eq,
  Option-cases,
}
use home_guard.Prelude.Text.{Text}
use home_guard.Dns.FakeDns.{
  Tables, Ipv4Net, FakeDns, normalize, new, unlink, evict, advance, reclaim, assign,
  allocate_new_ip, touch, allocate, is_fake_ip,
}
use home_guard.Dns.FakeDns.Invariant.{address_of, IsValid}
use home_guard.Dns.FakeDns.Reach.{is_fake_ip-allocate}

module _ (B : Tables) where
  abbrev SamePool : FakeDns B → FakeDns B → Type 0
  SamePool s t = (t.pool_start ≡ s.pool_start) × (t.pool_end ≡ s.pool_end)

  unlink-SamePool : (ip : ℕ) (s : FakeDns B) → SamePool s (unlink B ip s).1
  unfolding unlink
  unlink-SamePool ip s = ground arith

  evict-SamePool : (s : FakeDns B) → SamePool s (evict B s)
  unfolding evict
  evict-SamePool s = elim (Option-cases (B.recent.pop_lru s.lru).0) [
    | inl empty ↦ rw (empty, evict) (ground arith)
    | inr ((ip, u), last) ↦
        rw (last, evict)
          (ground (arith, unlink-SamePool ip (record s { lru = (B.recent.pop_lru s.lru).1 })))
  ]

  reclaim-SamePool : (ip : ℕ) (s : FakeDns B) → SamePool s (reclaim B ip s)
  unfolding reclaim
  reclaim-SamePool ip s = ground (arith, unlink-SamePool ip s)

  allocate-SamePool : (d : Text) (s : FakeDns B) → SamePool s (allocate B d s).1
  unfolding allocate allocate_new_ip touch advance assign
  allocate-SamePool d s = elim (Option-cases (address_of B s (normalize d))) [
    | inl miss ↦
        rw (miss, allocate)
          (ground (
            arith,
            evict-SamePool s,
            reclaim-SamePool (evict B s).next_ip (advance B (evict B s)).1,
          ))
    | inr (ip, known) ↦ rw (known, allocate) (refl, refl)
  ]

  -- Over a network of one address, the address that a fresh FakeDNS allocates is no fake one for
  -- `is_fake_ip`: the pool's start is put above its end.
  pub is_fake_ip-allocate_single :
      (net : Ipv4Net) (capacity : ℕ) (d : Text)
      → net.broadcast ≡ net.network
      → net.first_host ≡ some net.network
      → net.last_host ≡ some net.network
      → 0 < net.network
      → net.network + 1 < 2 ^ 32
      → let (ip, t) = allocate B d (new B net capacity) in is_fake_ip B ip t ≡ false
  unfolding is_fake_ip
  is_fake_ip-allocate_single net capacity d one first last lo hi =
      let s = new B net capacity in
      let start : s.pool_start ≡ net.network + 1 = unfold new in rw first (omega arith) in
      let end : s.pool_end ≡ net.network - 1 = unfold new in rw (last, one) (omega arith) in
      ground (arith, allocate-SamePool d s, start, end)

  -- The address fits when the last address of the pool does.
  pub allocate-word :
      (d : Text) (s : FakeDns B) → IsValid B s → s.pool_end < 2 ^ 32 → (allocate B d s).0 < 2 ^ 32
  unfolding is_fake_ip
  allocate-word d s valid word =
      let inside = is_fake_ip-allocate B d s valid in
      let same = (allocate-SamePool d s).1 in
      let below : (allocate B d s).0 ≤ (allocate B d s).1.pool_end = ground (arith, inside) in
      omega (arith, same, below)
