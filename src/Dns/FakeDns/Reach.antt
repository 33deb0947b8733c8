-- ===== src/Dns/FakeDns/Reach.antt =====
-- The methods of FakeDNS in any order: what holds in every state that they reach.
use home_guard.Prelude.{
  ℕ, ◌+◌, ◌-◌, ◌^◌, ◌≤◌, ◌<◌, ◌≡◌, ◌≢◌, ◌⊎◌, inl, inr, sym, ◌∙◌, true, List, none, some, arith,
  length, nat_eq, list_eq, Option-cases, ap,
}
use home_guard.Prelude.Map
use home_guard.Prelude.Text.{Text}
use home_guard.Crates.Recency
use home_guard.Crates.Recency.Laws.{lookup-get, get-IsDistinct, cap-get, length-get-le}
use home_guard.Dns.FakeDns.{
  Tables, Ipv4Net, FakeDns, normalize, new, allocate_new_ip, touch, allocate, lookup, is_fake_ip,
  clear,
}
use home_guard.Dns.FakeDns.Invariant.{domain_of, address_of, recent, IsValid}
use home_guard.Dns.FakeDns.Allocate.{IsOldest, allocate_new_ip-Allocated}

module _ (B : Tables) where
  touch-IsValid : (ip : ℕ) (s : FakeDns B) → IsValid B s → IsValid B (touch B ip s)
  unfolding touch
  touch-IsValid ip s v =
      let shown = B.recent.view-get ip s.lru in
      record {
        forward = v.forward;
        backward = v.backward;
        listed = λ j p.
            v.listed j
              (sym (lookup-get ip j (recent B s)) ∙ sym (ap (λ r. Map.lookup j r.items) shown) ∙ p);
        mapped = λ j p. rw (shown, lookup-get) (v.mapped j p);
        distinct = rw shown (get-IsDistinct ip (recent B s) v.distinct);
        bounded = rw (shown, cap-get) (omega (arith, length-get-le ip (recent B s), v.bounded));
        room = rw (shown, cap-get) v.room;
        in_pool = v.in_pool;
        next_in_pool = v.next_in_pool;
      }

  -- The two branches of `allocate`.
  allocate_known :
      (d : Text) (s : FakeDns B) (ip : ℕ)
      → address_of B s (normalize d) ≡ some ip
      → allocate B d s ≡ (ip, touch B ip s)
  unfolding allocate
  allocate_known d s ip e = rw (e, allocate)

  allocate_fresh :
      (d : Text) (s : FakeDns B)
      → address_of B s (normalize d) ≡ none
      → allocate B d s ≡ allocate_new_ip B (normalize d) s
  unfolding allocate
  allocate_fresh d s e = rw (e, allocate)

  -- What a call of `allocate` achieves, whichever branch it takes.
  record Serves (d : Text) (s : FakeDns B) (r : ℕ × FakeDns B) : Type 0 where
    valid : IsValid B r.1
    owner : domain_of B r.1 r.0 ≡ some (normalize d)
    address : address_of B r.1 (normalize d) ≡ some r.0
    kept :
        (j : ℕ) (e : Text)
        → domain_of B s j ≡ some e
        → j ≢ s.next_ip
        → (domain_of B r.1 j ≡ some e) ⊎ IsOldest B s j

  allocate-Serves : (d : Text) (s : FakeDns B) → IsValid B s → Serves d s (allocate B d s)
  allocate-Serves d s v = elim (Option-cases (address_of B s (normalize d))) [
    | inl fresh ↦
        let a = allocate_new_ip-Allocated B (normalize d) s v fresh in
        rw (allocate_fresh d s fresh) (record {
          valid = a.valid;
          owner = a.owner;
          address = a.address;
          kept = λ j e p other. a.kept j e p (λ same. other (same ∙ a.chosen));
        })
    | inr (ip, known) ↦ rw (allocate_known d s ip known) (record {
      valid = touch-IsValid ip s v;
      owner = unfold touch in v.backward ip (normalize d) known;
      address = unfold touch in known;
      kept = λ j e p other. unfold touch in inl p;
    })
  ]

  lookup_value : (ip : ℕ) (s : FakeDns B) → (lookup B ip s).0 ≡ domain_of B s ip
  unfolding lookup
  lookup_value ip s = ground arith

  -- On a valid state, `allocate` leaves a valid state.
  pub allocate-IsValid : (d : Text) (s : FakeDns B) → IsValid B s → IsValid B (allocate B d s).1
  allocate-IsValid d s v = (allocate-Serves d s v).valid

  -- On a valid state, `lookup` of the address that `allocate` returned gives the domain, in lower
  -- case and without the dots at its end.
  pub lookup-allocate :
      (d : Text) (s : FakeDns B)
      → IsValid B s
      → let (ip, t) = allocate B d s in (lookup B ip t).0 ≡ some (normalize d)
  lookup-allocate d s v = lookup_value _ _ ∙ (allocate-Serves d s v).owner

  -- On a valid state, a second `allocate` right after the first, of a domain that is the same up to
  -- case and the dots at its end, returns the same address.
  pub allocate-allocate :
      (d e : Text) (s : FakeDns B)
      → IsValid B s
      → normalize e ≡ normalize d
      → (allocate B e (allocate B d s).1).0 ≡ (allocate B d s).0
  allocate-allocate d e s v same =
      let a = allocate-Serves d s v in
      ap (λ p. p.0) (allocate_known e _ _ (ap (address_of B (allocate B d s).1) same ∙ a.address))

  -- An address that has a domain is a fake one.
  pub is_fake_ip-lookup :
      (ip : ℕ) (d : Text) (s : FakeDns B)
      → IsValid B s
      → (lookup B ip s).0 ≡ some d
      → is_fake_ip B ip s ≡ true
  unfolding is_fake_ip
  is_fake_ip-lookup ip d s v found =
      let owned = sym (lookup_value ip s) ∙ found in ground (arith, v.in_pool ip d owned)

  -- On a valid state, the address that `allocate` returns is a fake one for `is_fake_ip`.
  pub is_fake_ip-allocate :
      (d : Text) (s : FakeDns B)
      → IsValid B s
      → let (ip, t) = allocate B d s in is_fake_ip B ip t ≡ true
  unfolding is_fake_ip
  is_fake_ip-allocate d s v =
      let a = allocate-Serves d s v in ground (arith, a.valid.in_pool _ _ a.owner)

  -- On a valid state, `allocate` takes no address from another domain, but for two: the one that the
  -- pool gives out next, and, if the recency list is full, the least recently used.
  pub allocate-kept :
      (d : Text) (s : FakeDns B) (j : ℕ) (e : Text)
      → IsValid B s
      → (lookup B j s).0 ≡ some e
      → j ≢ s.next_ip
      → ((lookup B j (allocate B d s).1).0 ≡ some e)
        ⊎ (((recent B s).cap ≤ length (recent B s).items)
            × ((Recency.pop_lru (recent B s)).0 ≡ some (j, tt)))
  allocate-kept d s j e v p other =
      elim ((allocate-Serves d s v).kept j e (sym (lookup_value j s) ∙ p) other) [
        | inl still ↦ inl (lookup_value _ _ ∙ still)
        | inr oldest ↦ inr oldest
      ]

  lookup-IsValid : (ip : ℕ) (s : FakeDns B) → IsValid B s → IsValid B (lookup B ip s).1
  unfolding lookup
  lookup-IsValid ip s v = elim (Option-cases (domain_of B s ip)) [
    | inl miss ↦ rw (miss, lookup) v
    | inr (d, hit) ↦ rw (hit, lookup) (touch-IsValid ip s v)
  ]

  -- Empty tables are valid, over a pool that holds the next address.
  empty-IsValid :
      (s : FakeDns B)
      → ((ip : ℕ) → domain_of B s ip ≡ none)
      → ((d : Text) → address_of B s d ≡ none)
      → {n : ℕ} → recent B s ≡ record { cap = n; items = List.[] }
      → 0 < n
      → (s.pool_start ≤ s.next_ip) × (s.next_ip ≤ s.pool_end)
      → IsValid B s
  empty-IsValid s no_domain no_address shown room pool = record {
    forward = λ ip d p. ground (arith, no_domain ip);
    backward = λ ip d p. ground (arith, no_address d);
    listed = λ ip p. no_domain ip;
    mapped = λ ip p. rw shown (Map.lookup-nil ip);
    distinct = rw shown tt;
    bounded = rw shown (omega arith);
    room = rw shown room;
    in_pool = λ ip d p. ground (arith, no_domain ip);
    next_in_pool = pool;
  }

  clear-IsValid : (s : FakeDns B) → IsValid B s → IsValid B (clear B s)
  unfolding clear
  clear-IsValid s v =
      empty-IsValid (clear B s) (λ ip. B.by_ip.find-clear ip s.ip_to_domain)
        (λ d. B.by_domain.find-clear d s.domain_to_ip) (B.recent.view-clear s.lru) v.room
        v.next_in_pool

  -- A network whose hosts are the addresses strictly between its own and the broadcast address.
  pub record IsHostPool (net : Ipv4Net) : Type 0 where
    pub first : net.first_host ≡ some (net.network + 1)
    pub last : net.last_host ≡ some (net.broadcast - 1)
    pub wide : net.network + 2 ≤ net.broadcast
    pub word : net.broadcast < 2 ^ 32

  -- The state that `new` builds over such a network is valid, whatever the capacity asked for.
  pub new-IsValid : (net : Ipv4Net) (capacity : ℕ) → IsHostPool net → IsValid B (new B net capacity)
  unfolding new
  new-IsValid net capacity h =
      empty-IsValid (new B net capacity) B.by_ip.find-empty B.by_domain.find-empty
        (B.recent.view-new _) (ground arith) (rw (h.first, h.last) (omega arith))

  -- A call that changes the state: one of the public methods.
  pub data Call : Type 0 where
    allocating : Text → Call
    looking_up : ℕ → Call
    clearing : Call

  abbrev pub perform : Call → FakeDns B → FakeDns B
  perform (allocating d) s = (allocate B d s).1
  perform (looking_up ip) s = (lookup B ip s).1
  perform clearing s = clear B s

  -- The states that the methods reach from a fresh one, in any order.
  pub data Reach (net : Ipv4Net) (capacity : ℕ) : FakeDns B → Type 0 where
    fresh : Reach net capacity (new B net capacity)
    later : {s : FakeDns B} (c : Call) → Reach net capacity s → Reach net capacity (perform c s)

  pub Reach-IsValid :
      {net : Ipv4Net} {capacity : ℕ} {s : FakeDns B}
      → IsHostPool net
      → Reach net capacity s
      → IsValid B s
  Reach-IsValid {net} {capacity} h fresh = new-IsValid net capacity h
  Reach-IsValid h (later (allocating d) r) = allocate-IsValid d _ (Reach-IsValid h r)
  Reach-IsValid h (later (looking_up ip) r) = lookup-IsValid ip _ (Reach-IsValid h r)
  Reach-IsValid h (later clearing r) = clear-IsValid _ (Reach-IsValid h r)

  -- In every state that calls of `allocate`, `lookup` and `clear` reach from a fresh FakeDNS over a pool
  -- of hosts, in any order: two addresses with the same domain are one address, an address with a
  -- domain is a fake one for `is_fake_ip`, and the recency list is within its capacity.
  pub Reach-lookup :
      (net : Ipv4Net) (capacity : ℕ) (s : FakeDns B) (ip jp : ℕ) (d : Text)
      → IsHostPool net
      → Reach net capacity s
      → (lookup B ip s).0 ≡ some d
      → (lookup B jp s).0 ≡ some d
      → (ip ≡ jp) × (is_fake_ip B ip s ≡ true) × (length (recent B s).items ≤ (recent B s).cap)
  unfolding is_fake_ip
  Reach-lookup net capacity s ip jp d h r p q =
      let v = Reach-IsValid h r in
      let p' = sym (lookup_value ip s) ∙ p in
      let q' = sym (lookup_value jp s) ∙ q in
      (
        ground (arith, v.forward ip d p', v.forward jp d q'),
        ground (arith, v.in_pool ip d p'),
        v.bounded,
      )
