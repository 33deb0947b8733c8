-- ===== src/Dns/Handler/Tests.antt =====
-- Queries at a small gateway, and the theorems at inputs.
use home_guard.Prelude.{
  ℕ, ◌*◌, ◌≡◌, ◌↔◌, refl, Option, none, some, List, [], ◌∷◌, nat_eq, list_eq, pair_eq, drop,
}
use home_guard.Prelude.Net.{v4}
use home_guard.Prelude.Text.{Text, bytes}
use home_guard.Crates.LruCache.{list_lru}
use home_guard.Crates.SimpleDns.{Question}
use home_guard.Dns.Cache.{nanos}
use home_guard.Dns.FakeDns.{FakeDns}
use home_guard.Dns.FakeDns.Sample.{tables}
use home_guard.Dns.Resolver.{Result, ok, Exchange, resolve}
use home_guard.Dns.Resolver.Order.{FirstAnswer, resolve-FirstAnswer}
use home_guard.Dns.Messages.{too_short}
use home_guard.Dns.Handler.{Clock, handle_query}
use home_guard.Dns.Handler.Cached.{Ask}
use home_guard.Dns.Handler.Sample.{
  simple_dns, query, exchange, handler, clock, program, silent, site_query,
}

abbrev ask : Text → Option (Result Text)
ask q = elim (handle_query simple_dns list_lru tables clock exchange q (v4 5) handler) [
  | none ↦ none
  | some (r, h) ↦ some r
]

runs :
    (ask (query 7 (bytes "ads") 1)
      ≡ some (ok (0 ∷ 7 ∷ 0x81 ∷ 3 ∷ drop 4 (query 7 (bytes "ads") 1))))
    × (ask (query 7 (bytes "x") 28) ≡ some (ok (query 7 (bytes "x") 28)))
    × (ask (0 ∷ []) ≡ some too_short)
unfolding program
runs = (refl, refl, refl)

abbrev ads : Question
ads = record { qname = bytes "ads"; qtype = 1 }

resolve-FirstAnswer_example :
    (resolve exchange (1 ∷ 2 ∷ []) handler.resolver ≡ ok (1 ∷ 2 ∷ []))
    ↔ FirstAnswer (exchange 5 (1 ∷ 2 ∷ [])) handler.resolver.upstreams (1 ∷ 2 ∷ [])
resolve-FirstAnswer_example =
    resolve-FirstAnswer exchange (1 ∷ 2 ∷ []) (1 ∷ 2 ∷ []) handler.resolver

abbrev response : ℕ → Text
response ttl =
    0 ∷ 9 ∷ 0x81 ∷ 0x80 ∷ 0 ∷ 1 ∷ 0 ∷ 1 ∷ 0 ∷ 0 ∷ 0 ∷ 0 ∷ 1 ∷ b'x' ∷ 0 ∷ 0 ∷ 1 ∷ 0 ∷ 1 ∷ 0xc0 ∷ 12
    ∷ 0 ∷ 1 ∷ 0 ∷ 1 ∷ 0 ∷ 0 ∷ 0 ∷ ttl ∷ 0 ∷ 4 ∷ 10 ∷ 0 ∷ 0 ∷ 1 ∷ []

abbrev responder : Exchange
responder timeout q source = ok (response 200)

abbrev shout : Question
shout = record { qname = bytes "X"; qtype = 1 }

abbrev later : Clock
later = record { instant = 100 * nanos; time = 5 }

-- The same question twice more.
abbrev asks : List Ask
asks =
    record { clock = later; exchange = silent; query = query 44 (bytes "X") 1; source = v4 5 }
    ∷ record { clock = later; exchange = silent; query = site_query; source = v4 5 }
    ∷ []
