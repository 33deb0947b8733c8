-- ===== src/Dns/Server/Tests.antt =====
-- Tasks at a small gateway, and the theorems at inputs.
use home_guard.Prelude.{
  ◌≤◌, ◌≡◌, refl, false, none, some, List, [], ◌∷◌, ◌++◌, nat_eq, list_eq, pair_eq, length, take,
}
use home_guard.Prelude.Net.{v4}
use home_guard.Prelude.Text.{Text, bytes}
use home_guard.Crates.LruCache.{list_lru}
use home_guard.Dns.Cache.{get}
use home_guard.Dns.FakeDns.Sample.{tables}
use home_guard.Dns.Resolver.{HomeGuardError, Result, ok, err, dns}
use home_guard.Dns.Messages.{zeros}
use home_guard.Dns.Handler.{is_refused, handle_query}
use home_guard.Dns.Handler.Sample.{
  program, simple_dns, clock, silent, plain, packet_of, site, site_query, parse_packet,
}
use home_guard.Dns.Server.{server_failure, build_servfail_response, send_reply, handle_query_task}
use home_guard.Dns.Server.Replies.{handle_query_task-handle_query, handle_query_task-Fails}

sends :
    (send_reply (1 ∷ 2 ∷ []) (err (dns [])) ≡ [])
    × (send_reply site_query (err (dns [])) ≡ (0 ∷ 9 ∷ 0x80 ∷ 2 ∷ zeros 8) ∷ [])
unfolding send_reply build_servfail_response
sends = (refl, refl)

state :
    (handle_query simple_dns list_lru tables clock silent site_query (v4 5) plain
      ≡ some (err (dns []), plain))
    × (parse_packet site_query ≡ some (packet_of site))
    × (is_refused simple_dns list_lru tables 5 (v4 5) (bytes "x") plain ≡ false)
    × (get list_lru 0 (bytes "x") 1 plain.cache ≡ some (none, plain.cache))
unfolding program
state = (refl, refl, refl, refl)

handle_query_task-handle_query_example :
    (sent : List Text) × (handle_query_task simple_dns list_lru tables clock silent site_query
        (v4 5)
        plain
      ≡ some (sent, plain))
    × (length sent ≡ 1)
    × ((r : Text) → ◌≡◌ {A = Result Text} (err (dns [])) (ok r) → sent ≡ r ∷ [])
    × ((e : HomeGuardError)
        → ◌≡◌ {A = Result Text} (err (dns [])) (err e)
        → 12 ≤ length site_query
        → sent ≡ (take 2 site_query ++ (0x80 ∷ server_failure ∷ zeros 8)) ∷ [])
handle_query_task-handle_query_example =
    handle_query_task-handle_query simple_dns list_lru tables clock silent site_query (v4 5) plain
      plain (err (dns [])) state.0

handle_query_task-Fails_example :
    handle_query_task simple_dns list_lru tables clock silent site_query (v4 5) plain
    ≡ some ((0 ∷ 9 ∷ 0x80 ∷ server_failure ∷ zeros 8) ∷ [], plain)
handle_query_task-Fails_example =
    handle_query_task-Fails simple_dns list_lru tables clock silent site_query (v4 5) plain
      (packet_of site) site [] plain.cache state.1 refl state.2 state.3 refl
      ((dns [], refl), ((dns [], refl), tt))
