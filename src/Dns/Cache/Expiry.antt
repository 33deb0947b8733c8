-- ===== src/Dns/Cache/Expiry.antt =====
-- What `get` answers after `insert`.
use home_guard.Prelude.{
  inl, inr, ℕ, zero, suc, ◌+◌, ◌-◌, ◌*◌, ◌/◌, ◌%◌, ◌^◌, ◌≤◌, ◌<◌, ◌≡◌, refl, sym, ap, ◌∙◌, true,
  false, Option, none, some, List, ◌∷◌, if◌then◌else◌, nat_eq, list_eq, pair_eq, leb, arith,
  Option-cases, take, beq_refl,
}
use home_guard.Prelude.Map
use home_guard.Prelude.Text.{Text, to_lowercase}
use home_guard.Crates.Recency
use home_guard.Crates.Recency.{Recency}
use home_guard.Crates.Recency.Laws.{get-get}
use home_guard.Crates.LruCache.{LruCache}
use home_guard.Dns.Cache.{
  CacheKey, CacheEntry, DnsCache, clamp, nanos, update_response_ttl, answer, get, insert,
}
use home_guard.Dns.Cache.Wire.{update_response_ttl-Keeps}

lookup-take_first :
    (k : CacheKey) (v : CacheEntry) (m : List (CacheKey × CacheEntry)) (n : ℕ)
    → 0 < n
    → Map.lookup k (take n ((k, v) ∷ m)) ≡ some v
lookup-take_first k v m zero h = absurd (omega arith)
lookup-take_first k v m (suc n) h =
    Map.lookup-cons k k v (take n m)
    ∙ ap (λ b. if b then some v else Map.lookup k (take n m)) (beq_refl k)

pub recency_get-put :
    (k : CacheKey) (v : CacheEntry) (r : Recency CacheKey CacheEntry)
    → 0 < r.cap
    → (Recency.get k (Recency.put k v r)).0 ≡ some v
unfolding Recency.get Recency.put
recency_get-put k v r h =
    rw (lookup-take_first k v (Map.remove k r.items) r.cap h, Recency.get) refl

module _ (L : LruCache CacheKey CacheEntry) where
  -- The response that `get` answers, where it does not panic.
  abbrev pub response_of : Option (Option Text × DnsCache L) → Option (Option Text)
  response_of none = none
  response_of (some (r, c)) = some r

  response_of-answer :
      (now : ℕ) (key : CacheKey) (e : CacheEntry) (c : DnsCache L) (r : Text)
      → leb e.expires_at now ≡ false
      → update_response_ttl ((e.expires_at - now) / nanos % 2 ^ 32) e.response ≡ some r
      → response_of (answer L now key (some e) c) ≡ some (some r)
  unfolding answer
  response_of-answer now key e c r fresh updated = rw (fresh, updated) refl

  response_of_expired :
      (now : ℕ) (key : CacheKey) (e : CacheEntry) (c : DnsCache L)
      → leb e.expires_at now ≡ true
      → response_of (answer L now key (some e) c) ≡ some none
  unfolding answer
  response_of_expired now key e c expired = rw expired refl

  get_hit :
      (now qtype : ℕ) (asked : Text) (c : DnsCache L) (key : CacheKey) (e : CacheEntry)
      → (to_lowercase asked, qtype) ≡ key
      → (L.get key c.cache).0 ≡ some e
      → (used : DnsCache L) × (get L now asked qtype c ≡ answer L now key (some e) used)
  unfolding get
  get_hit now qtype asked c key e same hit =
      let used : DnsCache L = record c { cache = (L.get key c.cache).1 } in
      (used, rw (same, hit) refl)

  -- The entry of a key that is fresh answers, and stays.
  pub get_fresh :
      (now qtype : ℕ) (asked r : Text) (c : DnsCache L) (key : CacheKey) (e : CacheEntry)
      → (to_lowercase asked, qtype) ≡ key
      → (L.get key c.cache).0 ≡ some e
      → now < e.expires_at
      → update_response_ttl ((e.expires_at - now) / nanos % 2 ^ 32) e.response ≡ some r
      → (get L now asked qtype c ≡ some (some r, record c { cache = (L.get key c.cache).1 }))
        × ((L.get key (L.get key c.cache).1).0 ≡ some e)
  unfolding get answer
  get_fresh now qtype asked r c key e same hit early updated =
      let fresh : leb e.expires_at now ≡ false = ground arith in
      (
        rw (same, hit, fresh, updated) refl,
        L.get_value key (L.get key c.cache).1
            ∙ ap (λ v. (Recency.get key v).0) (L.view-get key c.cache)
            ∙ get-get key (L.view c.cache)
            ∙ sym (L.get_value key c.cache)
            ∙ hit,
      )

  -- In a cache with room, when the TTL bounds are in order and `insert` returns, `get` for the same
  -- name, whatever its case, and the same type answers by the clock alone: before the clamped TTL is
  -- over, with the response in which the TTL fields are rewritten to the whole seconds left, and from
  -- then on with nothing.
  pub get-insert :
      (start now ttl qtype : ℕ) (name asked response : Text) (c c' : DnsCache L)
      → 0 < (L.view c.cache).cap
      → insert L start name qtype response ttl c ≡ some c'
      → to_lowercase asked ≡ to_lowercase name
      → (clamped : ℕ) × (clamp c.min_ttl c.max_ttl ttl ≡ some clamped)
        × (now < start + clamped * nanos
            → (r : Text) × (update_response_ttl
                  ((start + clamped * nanos - now) / nanos % 2 ^ 32)
                  response
                ≡ some r)
              × (response_of (get L now asked qtype c') ≡ some (some r)))
        × (start + clamped * nanos ≤ now → response_of (get L now asked qtype c') ≡ some none)
  unfolding insert get
  get-insert start now ttl qtype name asked response c c' room inserted same =
      elim (Option-cases (clamp c.min_ttl c.max_ttl ttl)) [
        | inl panics ↦ absurd (cc (rw panics at inserted))
        | inr (clamped, bounded) ↦
            let key : CacheKey = (to_lowercase name, qtype) in
            let e : CacheEntry = record {
              response = response;
              expires_at = start + clamped * nanos;
              original_ttl = ttl;
              created_at = start;
            } in
            let stored : DnsCache L = record c { cache = L.put key e c.cache } in
            let is_stored : some stored ≡ some c' = rw bounded at inserted in
            let hit : (L.get key stored.cache).0 ≡ some e =
              L.get_value key stored.cache
              ∙ ap (λ v. (Recency.get key v).0) (L.view-put key e c.cache)
              ∙ recency_get-put key e (L.view c.cache) room in
            let c_same : stored ≡ c' = cc is_stored in
            let (used, hits) =
              get_hit now qtype asked stored key e (ap (λ t. (t, qtype)) same) hit in
            let run : response_of (get L now asked qtype c')
                ≡ response_of (answer L now key (some e) used) =
              ap (λ d. response_of (get L now asked qtype d)) (sym c_same) ∙ ap response_of hits in
            let kept = update_response_ttl-Keeps ((e.expires_at - now) / nanos % 2 ^ 32) response in
            (
              clamped,
              bounded,
              (λ early. (
                kept.result,
                kept.returned,
                run ∙ response_of-answer now key e used kept.result (ground arith) kept.returned,
              )),
              (λ late. run ∙ response_of_expired now key e used (ground arith)),
            )
      ]
