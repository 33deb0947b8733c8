-- ===== src/Dns/Cache.antt =====
-- src/dns/cache.rs: the cache of responses and the rewriting of their TTL fields. An instant is a
-- number of nanoseconds and an argument; `none` stands for a panic.
pub mod Wire
pub mod Expiry
pub mod Cleanup
mod Tests
use home_guard.Prelude.{
  ℕ, zero, suc, ◌+◌, ◌-◌, ◌*◌, ◌/◌, ◌%◌, ◌^◌, Bool, true, false, Option, none, some, List, [], ◌∷◌,
  ◌++◌, if◌then◌else◌, ◌==◌, nat_eq, list_eq, pair_eq, ltb, leb, length, take, drop, keep,
  get_elem?, ◌>>=◌,
}
use home_guard.Prelude.Text.{Text, to_lowercase}
use home_guard.Prelude.BigEndian.{be_bytes, from_be}
use home_guard.Crates.Recency.{Recency}
use home_guard.Crates.LruCache.{LruCache}

-- The loop of `skip_name`, on fuel; an answer of 0 is a failure, as in the source.
unfoldable pub skip_loop : ℕ → Text → ℕ → Option ℕ
skip_loop zero s offset = none
skip_loop (suc fuel) s offset = elim (get_elem? s offset) [
  | none ↦ some 0
  | some len ↦
      if len == 0
      then some (offset + 1)
      else if leb 192 len
      then some (offset + 2)
      else if ltb 63 len
      then some 0
      else skip_loop fuel s (offset + (1 + len))
]

unfoldable pub skip_name : Text → ℕ → Option ℕ
unfolding skip_loop
skip_name s offset = if leb (length s) offset then some 0 else skip_loop (suc (length s)) s offset

-- `u16::from_be_bytes([s[i], s[i + 1]])`
unfoldable pub read_u16 : ℕ → Text → Option ℕ
read_u16 i s =
    get_elem? s i >>= λ high. get_elem? s (i + 1) >>= λ low. some (from_be (high ∷ low ∷ []))

-- `s[i..i + bs.len()].copy_from_slice(bs)`
unfoldable pub write_at : ℕ → Text → Text → Text
write_at i bs s = take i s ++ (bs ++ drop (i + length bs) s)

-- "Skip questions": 0 is the early return.
unfoldable pub skip_questions : ℕ → Text → ℕ → Option ℕ
unfolding skip_name
skip_questions zero s offset = some offset
skip_questions (suc n) s offset =
    skip_name s offset >>= λ next. if next == 0 then some 0 else skip_questions n s (next + 4)

-- "Update TTL in answer, authority, and additional sections"
unfoldable pub update_records : ℕ → ℕ → Text → ℕ → Option Text
unfolding skip_name read_u16 write_at
update_records zero new_ttl s offset = some s
update_records (suc n) new_ttl s offset = skip_name s offset >>= λ next.
    if next == 0
    then some s
    else if ltb (length s) (next + 10)
    then some s
    else (read_u16 (next + 8) (write_at (next + 4) (be_bytes 4 new_ttl) s) >>= λ rdlength.
        update_records n new_ttl (write_at (next + 4) (be_bytes 4 new_ttl) s)
          (next + (10 + rdlength)))

unfoldable pub update_response_ttl : ℕ → Text → Option Text
unfolding read_u16 skip_questions update_records
update_response_ttl new_ttl s =
    if ltb (length s) 12
    then some s
    else (read_u16 4 s >>= λ qdcount. read_u16 6 s >>= λ ancount. read_u16 8 s >>= λ nscount.
        read_u16 10 s >>= λ arcount. skip_questions qdcount s 12 >>= λ offset.
        if offset == 0
        then some s
        else update_records (ancount + nscount + arcount) new_ttl s offset)

abbrev pub CacheKey : Type 0
CacheKey = Text × ℕ

pub record CacheEntry : Type 0 where
  pub response : Text
  pub expires_at : ℕ
  pub original_ttl : ℕ
  pub created_at : ℕ

abbrev pub nanos : ℕ
nanos = 1_000_000_000

-- `Ord::clamp`, which panics unless the bounds are in order.
unfoldable pub clamp : ℕ → ℕ → ℕ → Option ℕ
clamp low high x =
    if ltb high low then none else some (if ltb x low then low else if ltb high x then high else x)

module _ (L : LruCache CacheKey CacheEntry) where
  pub record DnsCache : Type 0 where
    pub cache : L.Cache
    pub min_ttl : ℕ
    pub max_ttl : ℕ

  unfoldable pub new : ℕ → ℕ → ℕ → DnsCache
  new capacity low high = record {
    cache = L.new (if capacity == 0 then 1000 else capacity);
    min_ttl = low;
    max_ttl = high;
  }

  unfoldable pub with_defaults : ℕ → DnsCache
  unfolding new
  with_defaults capacity = new capacity 60 3600

  -- The entry that `LruCache::get` answers, at a time: the response, if any, and the cache.
  unfoldable pub answer :
      ℕ → CacheKey → Option CacheEntry → DnsCache → Option (Option Text × DnsCache)
  unfolding update_response_ttl
  answer now key none c = some (none, c)
  answer now key (some entry) c =
      if leb entry.expires_at now
      then some (none, record c { cache = L.pop key c.cache })
      else (update_response_ttl ((entry.expires_at - now) / nanos % 2 ^ 32) entry.response >>= λ r.
          some (some r, c))

  unfoldable pub get : ℕ → Text → ℕ → DnsCache → Option (Option Text × DnsCache)
  unfolding answer
  get now domain qtype c =
      let key : CacheKey = (to_lowercase domain, qtype) in
      let (hit, cache) = L.get key c.cache in
      let used : DnsCache = record c { cache = cache } in answer now key hit used

  unfoldable pub insert : ℕ → Text → ℕ → Text → ℕ → DnsCache → Option DnsCache
  unfolding clamp
  insert now domain qtype response ttl c = clamp c.min_ttl c.max_ttl ttl >>= λ clamped_ttl.
      some (record c {
        cache =
            L.put (to_lowercase domain, qtype)
              (record {
                response = response;
                expires_at = now + clamped_ttl * nanos;
                original_ttl = ttl;
                created_at = now;
              })
              c.cache;
      })

  unfoldable pub remove : Text → ℕ → DnsCache → DnsCache
  remove domain qtype c = record c { cache = L.pop (to_lowercase domain, qtype) c.cache }

  unfoldable pub clear : DnsCache → DnsCache
  clear c = record c { cache = L.clear c.cache }

  abbrev pub pop_all : List (CacheKey × CacheEntry) → L.Cache → L.Cache
  pop_all [] m = m
  pop_all ((key, entry) ∷ items) m = pop_all items (L.pop key m)

  -- The number of entries removed, and the cache.
  unfoldable pub cleanup_expired : ℕ → DnsCache → ℕ × DnsCache
  cleanup_expired now c =
      let items = (L.view c.cache).items in
      let left = pop_all (keep (λ e. leb (e.1).expires_at now) items) c.cache in
      (length items - length (L.view left).items, record c { cache = left })
