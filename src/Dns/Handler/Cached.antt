-- ===== src/Dns/Handler/Cached.antt =====
-- src/dns/handler.rs: a forwarded response is kept, and answers later queries.
use home_guard.Prelude.{
  ℕ, ◌-◌, ◌/◌, ◌%◌, ◌^◌, ◌<◌, ◌≡◌, false, some, List, [], ◌∷◌, nat_eq, list_eq, pair_eq, take,
}
use home_guard.Prelude.Net.{IpAddr}
use home_guard.Prelude.Text.{Text, to_lowercase}
use home_guard.Crates.Recency
use home_guard.Crates.LruCache.{LruCache}
use home_guard.Crates.SimpleDns.{SimpleDns, Packet, Question}
use home_guard.Dns.Cache.{CacheKey, CacheEntry, nanos, update_response_ttl}
use home_guard.Dns.FakeDns.{Tables}
use home_guard.Dns.Resolver.{ok, Exchange}
use home_guard.Dns.Handler.{Clock, DnsHandler, is_refused, handle_query, with_id}

-- A query that comes in.
pub record Ask : Type 0 where
  pub clock : Clock
  pub exchange : Exchange
  pub query : Text
  pub source : IpAddr

module _ (S : SimpleDns) (L : LruCache CacheKey CacheEntry) (B : Tables) where
  -- The query is for the same domain, up to case, and type as the question, nothing refuses it, and it
  -- comes before the time.
  abbrev pub IsRepeat : DnsHandler S L B → Question → ℕ → Ask → Type 0
  IsRepeat h q expiry a =
      (p : Packet) × (q' : Question) × (rest : List Question) × (S.parse a.query ≡ some p)
      × (p.questions ≡ q' ∷ rest)
      × (to_lowercase q'.qname ≡ to_lowercase q.qname)
      × (q'.qtype ≡ q.qtype)
      × (is_refused S L B a.clock.time a.source q'.qname h ≡ false)
      × (a.clock.instant < expiry)

  -- The queries, one after another, are answered with the response: with its TTL fields rewritten to
  -- the whole seconds that are left, and with the identifier of the query.
  abbrev pub Answers : Text → ℕ → List Ask → DnsHandler S L B → Type 0
  Answers response expiry [] h = Unit
  Answers response expiry (a ∷ asks) h =
      (h' : DnsHandler S L B) × (u : Text) × (update_response_ttl
          ((expiry - a.clock.instant) / nanos % 2 ^ 32) response
        ≡ some u)
      × (handle_query S L B a.clock a.exchange a.query a.source h
          ≡ some (ok (with_id a.query u), h'))
      × (take 2 (with_id a.query u) ≡ take 2 a.query)
      × Answers response expiry asks h'
