-- ===== src/Dns/Handler/Local.antt =====
-- src/dns/handler.rs: the queries that are answered here, without an upstream server.
use home_guard.Prelude.{
  ◌≡◌, refl, Option, none, some, [], ◌∷◌, ◌++◌, if◌then◌else◌, nat_eq, list_eq, pair_eq, length,
  take, ltb,
}
use home_guard.Prelude.Net.{IpAddr}
use home_guard.Prelude.Text.{Text}
use home_guard.Crates.LruCache.{LruCache}
use home_guard.Crates.SimpleDns.{SimpleDns, Packet, format_error}
use home_guard.Dns.Cache.{CacheKey, CacheEntry}
use home_guard.Dns.FakeDns.{Tables, FakeDns}
use home_guard.Dns.Resolver.{ok, Exchange}
use home_guard.Dns.Messages.{build_error_response, too_short, zeros}
use home_guard.Dns.Handler.{Clock, DnsHandler, handle_query}

module _ (S : SimpleDns) (L : LruCache CacheKey CacheEntry) (B : Tables) where
  -- A query that is no packet, or that has no question, is answered with a header that has the
  -- query's identifier and the code of a format error, or with an error when it has no header.
  pub handle_query-malformed :
      (clock : Clock) (exchange : Exchange) (query : Text) (source : IpAddr) (h : DnsHandler S L B)
      → ((p : Packet) → S.parse query ≡ some p → p.questions ≡ [])
      → handle_query S L B clock exchange query source h
        ≡ some (
          if ltb (length query) 12
              then too_short
              else ok (take 2 query ++ (0x80 ∷ format_error ∷ zeros 8)),
          h,
        )
  unfolding handle_query build_error_response
  handle_query-malformed clock exchange query source h empty = go (S.parse query) refl
    where
      go :
          (o : Option Packet)
          → S.parse query ≡ o
          → handle_query S L B clock exchange query source h
            ≡ some (build_error_response query format_error, h)
      go none same = rw (handle_query, same)
      go (some p) same = rw (handle_query, same, empty p same)
