-- ===== src/Dns/Cache/Cleanup.antt =====
-- What `cleanup_expired` leaves in the cache.
use home_guard.Prelude.{
  ℕ, ◌≡◌, refl, sym, ap, ◌∙◌, inl, inr, Bool, true, false, Option, none, some, List, [], ◌∷◌,
  if◌then◌else◌, ◌==◌, nat_eq, list_eq, pair_eq, leb, arith, Bool-cases, keep, beq_iff,
}
use home_guard.Prelude.Map
use home_guard.Crates.Recency
use home_guard.Crates.Recency.{Recency, IsDistinct}
use home_guard.Crates.LruCache.{LruCache}
use home_guard.Dns.Cache.{CacheKey, CacheEntry, DnsCache, pop_all, cleanup_expired}

abbrev Items : Type 0
Items = List (CacheKey × CacheEntry)

unfoldable has_key : CacheKey → Items → Bool
has_key j [] = false
has_key j ((k, e) ∷ items) = if k == j then true else has_key j items

-- The entry, unless it has expired.
abbrev pub unexpired : ℕ → Option CacheEntry → Option CacheEntry
unexpired now none = none
unexpired now (some e) = if leb e.expires_at now then none else some e

abbrev is_expired : ℕ → CacheKey × CacheEntry → Bool
is_expired now (k, e) = leb e.expires_at now

has_key-absent :
    (now : ℕ) (j : CacheKey) (items : Items)
    → Map.lookup j items ≡ none
    → has_key j (keep (is_expired now) items) ≡ false
unfolding has_key Map.lookup
has_key-absent now j [] h = refl
has_key-absent now j ((k, e) ∷ items) h = ground (arith, has_key-absent now j items, beq_iff k j)

-- An entry is among the expired ones exactly if its own time has passed.
left_over :
    (now : ℕ) (j : CacheKey) (items : Items)
    → IsDistinct items
    → (if has_key j (keep (is_expired now) items) then none else Map.lookup j items)
      ≡ unexpired now (Map.lookup j items)
unfolding has_key Map.lookup
left_over now j [] d = refl
left_over now j ((k, e) ∷ items) (absent, d) = elim (Bool-cases (k == j)) [
  | inl same ↦
      let gone : Map.lookup j items ≡ none =
        ap (λ i. Map.lookup i items) (sym ((beq_iff k j).0 same)) ∙ absent in
      elim (Bool-cases (leb e.expires_at now)) [
        | inl old ↦ rw (old, has_key, same, unexpired, old) refl
        | inr fresh ↦ rw (fresh, same, has_key-absent now j items gone, unexpired, fresh) refl
      ]
  | inr other ↦ elim (Bool-cases (leb e.expires_at now)) [
    | inl old ↦ rw (old, has_key, other) (left_over now j items d)
    | inr fresh ↦ rw (fresh, other) (left_over now j items d)
  ]
]

module _ (L : LruCache CacheKey CacheEntry) where
  lookup-pop_all :
      (j : CacheKey) (es : Items) (m : L.Cache)
      → Map.lookup j (L.view (pop_all L es m)).items
        ≡ (if has_key j es then none else Map.lookup j (L.view m).items)
  unfolding has_key Recency.pop
  lookup-pop_all j [] m = refl
  lookup-pop_all j ((k, e) ∷ es) m =
      let popped : Map.lookup j (L.view (L.pop k m)).items
          ≡ (if k == j then none else Map.lookup j (L.view m).items) =
        ap (λ r. Map.lookup j (r.items)) (L.view-pop k m)
        ∙ Map.lookup-remove k j (L.view m).items in
      ground (arith, lookup-pop_all j es (L.pop k m), popped)

  -- After `cleanup_expired`, every key finds what it found before, unless that had expired by then:
  -- exactly the expired entries go.
  pub lookup-cleanup_expired :
      (now : ℕ) (key : CacheKey) (c : DnsCache L)
      → IsDistinct (L.view c.cache).items
      → Map.lookup key (L.view (cleanup_expired L now c).1.cache).items
        ≡ unexpired now (Map.lookup key (L.view c.cache).items)
  unfolding cleanup_expired
  lookup-cleanup_expired now key c d =
      lookup-pop_all key (keep (is_expired now) (L.view c.cache).items) c.cache
      ∙ left_over now key (L.view c.cache).items d
