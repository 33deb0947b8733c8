-- ===== src/Dns/Server.antt =====
-- src/dns/server.rs: the task that answers one datagram. What it sends is a list of datagrams, each to
-- the sender of the query; whether the socket delivers them changes nothing here. An outer `none`
-- stands for a panic, which ends the task alone.
pub mod Replies
mod Tests
use home_guard.Prelude.{
  ℕ, Option, none, some, List, [], ◌∷◌, ◌++◌, if◌then◌else◌, ◌==◌, nat_eq, list_eq, pair_eq, ltb,
  length, take, ◌>>=◌,
}
use home_guard.Prelude.Net.{IpAddr}
use home_guard.Prelude.Text.{Text}
use home_guard.Crates.LruCache.{LruCache}
use home_guard.Crates.SimpleDns.{SimpleDns}
use home_guard.Dns.Cache.{CacheKey, CacheEntry}
use home_guard.Dns.FakeDns.{Tables}
use home_guard.Dns.Resolver.{Result, ok, err, Exchange}
use home_guard.Dns.Messages.{too_short, zeros}
use home_guard.Dns.Handler.{Clock, DnsHandler, handle_query}

-- The code of RCODE for a failure of the server.
abbrev pub server_failure : ℕ
server_failure = 2

unfoldable pub build_servfail_response : Text → Result Text
build_servfail_response query =
    if ltb (length query) 12
    then too_short
    else ok (take 2 query ++ (0x80 ∷ server_failure ∷ zeros 8))

-- The datagrams of a reply, and of the error response when there is none.
unfoldable pub send_reply : Text → Result Text → List Text
unfolding build_servfail_response
send_reply query (ok response) = response ∷ []
send_reply query (err e) = elim (build_servfail_response query) [
  | ok response ↦ response ∷ []
  | err e' ↦ []
]

module _ (S : SimpleDns) (L : LruCache CacheKey CacheEntry) (B : Tables) where
  unfoldable pub handle_query_task :
      Clock → Exchange → Text → IpAddr → DnsHandler S L B → Option (List Text × DnsHandler S L B)
  unfolding handle_query send_reply
  handle_query_task clock exchange query source h =
      handle_query S L B clock exchange query source h >>= λ (reply, h').
      some (send_reply query reply, h')
