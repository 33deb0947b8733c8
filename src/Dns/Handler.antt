-- ===== src/Dns/Handler.antt =====
-- src/dns/handler.rs: what becomes of a DNS query. The two clocks, of the cache in nanoseconds and of
-- the parental controls, and the exchange with an upstream server are arguments; the filter is any
-- test of a domain. An outer `none` stands for a panic.
pub mod Local
pub mod Cached
pub mod Sample
mod Tests
use home_guard.Prelude.{
  ℕ, ◌%◌, ◌^◌, Bool, true, false, Option, none, some, List, [], ◌∷◌, ◌++◌, if◌then◌else◌, ◌||◌,
  ◌&&◌, ◌==◌, nat_eq, list_eq, pair_eq, leb, length, take, drop, ◌>>=◌,
}
use home_guard.Prelude.Net.{IpAddr}
use home_guard.Prelude.Text.{Text}
use home_guard.Crates.LruCache.{LruCache}
use home_guard.Crates.SimpleDns.{SimpleDns, Packet, Question, format_error}
use home_guard.Control.Controller.{ParentalController, check_access, is_blocked}
use home_guard.Dns.Cache.{CacheKey, CacheEntry, DnsCache, get, insert}
use home_guard.Dns.FakeDns.{Tables, FakeDns, allocate}
use home_guard.Dns.Resolver.{Result, ok, err, DnsResolver, Exchange, resolve}
use home_guard.Dns.Messages.{build_error_response, build_nxdomain_response, build_a_response}

abbrev pub qtype_a : ℕ
qtype_a = 1

-- `AllowAllFilter`
abbrev pub allow_all : Text → Bool
allow_all domain = false

-- The times of a query: for the cache, and for the parental controls.
pub record Clock : Type 0 where
  pub instant : ℕ
  pub time : ℕ

-- "Update the transaction ID in cached response"
unfoldable pub with_id : Text → Text → Text
with_id query response =
    if leb 2 (length response) && leb 2 (length query)
    then take 2 query ++ drop 2 response
    else response

-- "Extract TTL from first answer"
abbrev pub ttl_of : Packet → ℕ → ℕ
ttl_of p cache_ttl = elim p.answer_ttls [ [] ↦ cache_ttl % 2 ^ 32 | ttl ∷ rest ↦ ttl ]

module _ (S : SimpleDns) (L : LruCache CacheKey CacheEntry) (B : Tables) where
  pub record DnsHandler : Type 0 where
    pub filter : Text → Bool
    pub cache : DnsCache L
    pub fake_dns : Option (FakeDns B)
    pub resolver : DnsResolver
    pub parental_controller : Option ParentalController
    pub cache_ttl : ℕ

  unfoldable pub new :
      (Text → Bool) → DnsCache L → Option (FakeDns B) → DnsResolver → ℕ → DnsHandler
  new filter cache fake resolver ttl = record {
    filter = filter;
    cache = cache;
    fake_dns = fake;
    resolver = resolver;
    parental_controller = none;
    cache_ttl = ttl;
  }

  unfoldable pub with_parental_control :
      (Text → Bool)
      → DnsCache L
      → Option (FakeDns B)
      → DnsResolver
      → ParentalController
      → ℕ
      → DnsHandler
  with_parental_control filter cache fake resolver controller ttl = record {
    filter = filter;
    cache = cache;
    fake_dns = fake;
    resolver = resolver;
    parental_controller = some controller;
    cache_ttl = ttl;
  }

  -- A reply and the state, or a panic.
  abbrev pub Handled : Type 0
  Handled = Option (Result Text × DnsHandler)

  -- "Cache the response"
  unfoldable pub store_response : ℕ → Question → Text → DnsHandler → Handled
  unfolding insert
  store_response instant q response h = elim (S.parse response) [
    | none ↦ some (ok response, h)
    | some p ↦ insert L instant q.qname q.qtype response (ttl_of p h.cache_ttl) h.cache >>= λ cache.
        some (ok response, record h { cache = cache })
  ]

  -- "Forward to upstream"
  unfoldable pub forward : ℕ → Exchange → Text → Question → DnsHandler → Handled
  unfolding resolve store_response
  forward instant exchange query q h = elim (resolve exchange query h.resolver) [
    | err e ↦ some (err e, h)
    | ok response ↦ store_response instant q response h
  ]

  -- "FakeDNS or upstream resolution"
  unfoldable pub answer_miss : ℕ → Exchange → Text → Question → DnsHandler → Handled
  unfolding forward allocate build_a_response
  answer_miss instant exchange query q h =
      let upstream = forward instant exchange query q h in
      elim h.fake_dns [
        | none ↦ upstream
        | some s ↦
            let (ip, s') = allocate B q.qname s in
            if q.qtype == qtype_a
            then (build_a_response h.cache_ttl query ip >>= λ r.
                some (r, record h { fake_dns = some s' }))
            else upstream
      ]

  -- "Check cache"
  unfoldable pub answer_allowed : ℕ → Exchange → Text → Question → DnsHandler → Handled
  unfolding get answer_miss with_id
  answer_allowed instant exchange query q h =
      get L instant q.qname q.qtype h.cache >>= λ (hit, cache).
      let h' : DnsHandler = record h { cache = cache } in
      elim hit [
        | some response ↦ some (ok (with_id query response), h')
        | none ↦ answer_miss instant exchange query q h'
      ]

  -- "Check parental control" and "Check filter"
  unfoldable pub is_refused : ℕ → IpAddr → Text → DnsHandler → Bool
  unfolding is_blocked check_access
  is_refused time source domain h =
      (elim h.parental_controller [
        | none ↦ false
        | some c ↦ is_blocked (check_access time source domain c)
      ])
      || h.filter domain

  unfoldable pub answer_question :
      Clock → Exchange → Text → IpAddr → Question → DnsHandler → Handled
  unfolding is_refused answer_allowed build_nxdomain_response
  answer_question clock exchange query source q h =
      if is_refused clock.time source q.qname h
      then (build_nxdomain_response S query >>= λ r. some (r, h))
      else answer_allowed clock.instant exchange query q h

  unfoldable pub handle_query : Clock → Exchange → Text → IpAddr → DnsHandler → Handled
  unfolding answer_question build_error_response
  handle_query clock exchange query source h = elim (S.parse query) [
    | none ↦ some (build_error_response query format_error, h)
    | some p ↦ elim p.questions [
      | [] ↦ some (build_error_response query format_error, h)
      | q ∷ rest ↦ answer_question clock exchange query source q h
    ]
  ]
