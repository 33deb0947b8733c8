-- ===== src/Dns/FakeDns/Invariant.antt =====
-- The tables of FakeDNS agree with one another, and what an address leaves when it is unlinked.
use home_guard.Prelude.{
  ℕ, ◌≤◌, ◌<◌, ◌≡◌, ◌⊎◌, inl, inr, refl, ◌∙◌, true, Option, none, some, arith, leb, if◌then◌else◌,
  length, ◌==◌, nat_eq, list_eq, beq_iff, Option-cases, Bool-cases, ap,
}
use home_guard.Prelude.Map
use home_guard.Prelude.Text.{Text}
use home_guard.Crates.Recency
use home_guard.Crates.Recency.{Recency, IsDistinct}
use home_guard.Crates.Recency.Laws.{pop_lru_lem, pop-IsDistinct}
use home_guard.Dns.FakeDns.{Tables, FakeDns, unlink, evict, reclaim}

module _ (B : Tables) where
  abbrev pub domain_of : FakeDns B → ℕ → Option Text
  domain_of s ip = B.by_ip.find ip s.ip_to_domain

  abbrev pub address_of : FakeDns B → Text → Option ℕ
  address_of s d = B.by_domain.find d s.domain_to_ip

  abbrev pub recent : FakeDns B → Recency ℕ (Unit {0})
  recent s = B.recent.view s.lru

  -- Both tables are inverse to one another, the recency list holds exactly the mapped addresses, each
  -- once and no more than its capacity, and every address lies in the pool.
  pub record IsValid (s : FakeDns B) : Type 0 where
    pub forward : (ip : ℕ) (d : Text) → domain_of s ip ≡ some d → address_of s d ≡ some ip
    pub backward : (ip : ℕ) (d : Text) → address_of s d ≡ some ip → domain_of s ip ≡ some d
    pub listed : (ip : ℕ) → Map.lookup ip (recent s).items ≡ none → domain_of s ip ≡ none
    pub mapped : (ip : ℕ) → domain_of s ip ≡ none → Map.lookup ip (recent s).items ≡ none
    pub distinct : IsDistinct (recent s).items
    pub bounded : length (recent s).items ≤ (recent s).cap
    pub room : 0 < (recent s).cap
    pub in_pool :
        (ip : ℕ) (d : Text) → domain_of s ip ≡ some d → (s.pool_start ≤ ip) × (ip ≤ s.pool_end)
    pub next_in_pool : (s.pool_start ≤ s.next_ip) × (s.next_ip ≤ s.pool_end)

  -- `t` is `s` without the address `ip` and its domain `d`.
  pub record Detached (ip : ℕ) (d : Text) (s t : FakeDns B) : Type 0 where
    pub owner : domain_of s ip ≡ some d
    pub domains : (j : ℕ) → domain_of t j ≡ (if ip == j then none else domain_of s j)
    pub addresses : (e : Text) → address_of t e ≡ (if d == e then none else address_of s e)
    pub items :
        (j : ℕ)
        → Map.lookup j (recent t).items ≡ (if ip == j then none else Map.lookup j (recent s).items)
    pub distinct : IsDistinct (recent t).items
    pub size : length (recent t).items ≤ length (recent s).items
    pub cap : (recent t).cap ≡ (recent s).cap
    pub start : t.pool_start ≡ s.pool_start
    pub end : t.pool_end ≡ s.pool_end
    pub next : t.next_ip ≡ s.next_ip

  pub Detached-IsValid :
      {ip : ℕ} {d : Text} {s t : FakeDns B} → IsValid s → Detached ip d s t → IsValid t
  Detached-IsValid {ip} {d} {s} {t} v h = record {
    forward = λ j e p. ground (
      arith,
      h.owner,
      h.domains j,
      h.addresses e,
      v.forward j e,
      v.forward ip d,
      beq_iff ip j,
      beq_iff d e,
      v.backward j e,
    );
    backward = λ j e p. ground (
      arith,
      h.owner,
      h.domains j,
      h.addresses e,
      v.forward ip d,
      v.forward j e,
      beq_iff ip j,
      beq_iff d e,
      v.backward j e,
    );
    listed = λ j p. ground (arith, h.domains j, h.items j, v.listed j);
    mapped = λ j p. ground (arith, h.domains j, h.items j, v.mapped j);
    distinct = h.distinct;
    bounded = omega (arith, h.size, h.cap, v.bounded);
    room = omega (arith, h.cap, v.room);
    in_pool = λ j e p. ground (arith, h.domains j, h.start, h.end, v.in_pool j e);
    next_in_pool = ground (arith, h.start, h.end, h.next, v.next_in_pool);
  }

  -- `s` without a mapped address, and with another recency list.
  abbrev unlinked : ℕ → Text → B.recent.Cache → FakeDns B → FakeDns B
  unlinked ip d lru s = record s {
    ip_to_domain = (B.by_ip.take_out ip s.ip_to_domain).1;
    domain_to_ip = (B.by_domain.take_out d s.domain_to_ip).1;
    lru = lru;
  }

  unlink_lem :
      (ip : ℕ) (d : Text) (s : FakeDns B)
      → domain_of s ip ≡ some d
      → unlink B ip s ≡ (some d, unlinked ip d s.lru s)
  unfolding unlink
  unlink_lem ip d s e = rw (B.by_ip.take_out_value ip s.ip_to_domain, e, unlink)

  unlinked-Detached :
      (ip : ℕ) (d : Text) (s : FakeDns B) (lru : B.recent.Cache)
      → IsValid s
      → domain_of s ip ≡ some d
      → B.recent.view lru ≡ Recency.pop ip (recent s)
      → Detached ip d s (unlinked ip d lru s)
  unfolding Recency.pop
  unlinked-Detached ip d s lru v e q = record {
    owner = e;
    domains = λ j. B.by_ip.find-take_out ip j s.ip_to_domain;
    addresses = λ j. B.by_domain.find-take_out d j s.domain_to_ip;
    items = λ j. rw q (Map.lookup-remove ip j (recent s).items);
    distinct = rw q (pop-IsDistinct ip (recent s) v.distinct);
    size = rw q (Map.length-remove-le ip (recent s).items);
    cap = rw q;
    start = refl;
    end = refl;
    next = refl;
  }

  evict_full :
      (s : FakeDns B) (ip : ℕ) (d : Text)
      → leb (recent s).cap (length (recent s).items) ≡ true
      → (Recency.pop_lru (recent s)).0 ≡ some (ip, tt)
      → domain_of s ip ≡ some d
      → evict B s ≡ unlinked ip d (B.recent.pop_lru s.lru).1 s
  unfolding evict
  evict_full s ip d full last e =
      let lru = (B.recent.pop_lru s.lru).1 in
      let popped : (B.recent.pop_lru s.lru).0 ≡ some (ip, tt) =
        B.recent.pop_lru_value s.lru ∙ last in
      rw (full, evict, popped, evict, unlink_lem ip d (record s { lru = lru }) e) refl

  -- The cache has room as it is, or its least recently used address goes and makes room.
  pub evict_lem :
      (s : FakeDns B)
      → IsValid s
      → ((length (recent s).items < (recent s).cap) × (evict B s ≡ s))
        ⊎ ((ip : ℕ) × (d : Text) × ((recent s).cap ≤ length (recent s).items)
            × ((Recency.pop_lru (recent s)).0 ≡ some (ip, tt))
            × (length (recent (evict B s)).items < (recent s).cap)
            × Detached ip d s (evict B s))
  evict_lem s v = elim (Bool-cases (leb (recent s).cap (length (recent s).items))) [
    | inr room ↦ inl (ground arith, unfold evict in rw (room, evict))
    | inl full ↦
        let (ip, u, popped, found, less) =
          pop_lru_lem (recent s) v.distinct (ground (arith, v.room)) in
        elim (Option-cases (domain_of s ip)) [
          | inl free ↦ absurd (ground (arith, v.mapped ip))
          | inr (d, e) ↦
              let last = ap (λ p. p.0) popped in
              let same = evict_full s ip d full last e in
              let shown = B.recent.view-pop_lru s.lru ∙ ap (λ p. p.1) popped in
              inr (
                ip,
                d,
                ground arith,
                last,
                rw (same, shown) (omega (arith, v.bounded)),
                rw same (unlinked-Detached ip d s _ v e shown),
              )
        ]
  ]

  -- Taking a mapped address back detaches it; any other call changes nothing.
  pub reclaim_lem :
      (ip : ℕ) (s : FakeDns B)
      → IsValid s
      → ((domain_of s ip ≡ none) × (reclaim B ip s ≡ s))
        ⊎ ((d : Text) × Detached ip d s (reclaim B ip s))
  unfolding reclaim
  reclaim_lem ip s v = elim (Option-cases (domain_of s ip)) [
    | inl free ↦ inl (free, rw (free, reclaim))
    | inr (d, e) ↦
        let same : reclaim B ip s ≡ unlinked ip d (B.recent.pop ip s.lru) s =
          simp (reclaim, e, unlink_lem ip d s e) in
        inr (d, rw same (unlinked-Detached ip d s _ v e (B.recent.view-pop ip s.lru)))
  ]
