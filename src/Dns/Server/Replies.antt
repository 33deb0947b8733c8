-- ===== src/Dns/Server/Replies.antt =====
-- src/dns/server.rs: every query with a header gets one reply.
use home_guard.Prelude.{
  ℕ, ◌≤◌, ◌≡◌, refl, sym, ap, ◌∙◌, true, false, Bool-cases, inl, inr, none, some, List, [], ◌∷◌,
  ◌++◌, if◌then◌else◌, nat_eq, list_eq, pair_eq, ltb, length, take, All, le→ltb_false,
}
use home_guard.Prelude.Net.{IpAddr}
use home_guard.Prelude.Text.{Text}
use home_guard.Crates.LruCache.{LruCache}
use home_guard.Crates.SimpleDns.{SimpleDns, Packet, Question}
use home_guard.Dns.Cache.{CacheKey, CacheEntry, DnsCache, get}
use home_guard.Dns.FakeDns.{Tables}
use home_guard.Dns.Resolver.{HomeGuardError, Result, ok, err, Exchange, resolve}
use home_guard.Dns.Resolver.Order.{Fails, resolve_loop-Fails}
use home_guard.Dns.Messages.{too_short, zeros}
use home_guard.Dns.Handler.{
  Clock, DnsHandler, is_refused, answer_question, answer_allowed, answer_miss, forward,
  handle_query,
}
use home_guard.Dns.Handler.Local.{handle_query-malformed}
use home_guard.Dns.Server.{server_failure, build_servfail_response, send_reply, handle_query_task}

-- The reply to a query with a header.
length-send_reply :
    (query : Text) (reply : Result Text)
    → ltb (length query) 12 ≡ false
    → length (send_reply query reply) ≡ 1
unfolding send_reply build_servfail_response
length-send_reply query (ok r) long = refl
length-send_reply query (err e) long = rw (send_reply, build_servfail_response, long) refl

send_reply-err :
    (query : Text) (e : HomeGuardError)
    → 12 ≤ length query
    → send_reply query (err e) ≡ (take 2 query ++ (0x80 ∷ server_failure ∷ zeros 8)) ∷ []
unfolding send_reply build_servfail_response
send_reply-err query e h =
    let long = le→ltb_false (length query) 12 h in
    rw (send_reply, build_servfail_response, long) refl

module _ (S : SimpleDns) (L : LruCache CacheKey CacheEntry) (B : Tables) where
  -- A datagram too short for a header is no packet, and the handler returns an error.
  handle_query-short :
      (clock : Clock) (exchange : Exchange) (query : Text) (source : IpAddr) (h : DnsHandler S L B)
      → ltb (length query) 12 ≡ true
      → handle_query S L B clock exchange query source h ≡ some (too_short, h)
  handle_query-short clock exchange query source h short =
      let no_packet : (p : Packet) → S.parse query ≡ some p → p.questions ≡ [] = λ p parsed.
        let both : true ≡ false =
          sym short ∙ le→ltb_false (length query) 12 (S.parse_length query p parsed) in
        cc both in
      let handled = handle_query-malformed S L B clock exchange query source h no_packet in
      rw (short) at handled

  -- Without FakeDNS the question goes upstream.
  answer_miss-forward :
      (instant : ℕ) (exchange : Exchange) (query : Text) (q : Question) (h : DnsHandler S L B)
      → h.fake_dns ≡ none
      → answer_miss S L B instant exchange query q h ≡ forward S L B instant exchange query q h
  unfolding answer_miss
  answer_miss-forward instant exchange query q h off = simp (answer_miss, off)

  -- Whenever the handler of a query comes to its end, so does the task, with the state of the handler:
  -- it sends one datagram when the query has at least twelve bytes, and none when it is shorter; what
  -- it sends is the response of the handler, or, when the handler returns an error, the identifier of
  -- the query with the code for a failure of the server.
  pub handle_query_task-handle_query :
      (clock : Clock) (exchange : Exchange) (query : Text) (source : IpAddr)
      (h h' : DnsHandler S L B) (reply : Result Text)
      → handle_query S L B clock exchange query source h ≡ some (reply, h')
      → (sent : List Text) × (handle_query_task S L B clock exchange query source h
          ≡ some (sent, h'))
        × (length sent ≡ (if ltb (length query) 12 then 0 else 1))
        × ((r : Text) → reply ≡ ok r → sent ≡ r ∷ [])
        × ((e : HomeGuardError)
            → reply ≡ err e
            → 12 ≤ length query
            → sent ≡ (take 2 query ++ (0x80 ∷ server_failure ∷ zeros 8)) ∷ [])
  unfolding handle_query_task send_reply build_servfail_response
  handle_query_task-handle_query clock exchange query source h h' reply handled = (
    send_reply query reply,
    rw (handle_query_task, handled) refl,
    elim (Bool-cases (ltb (length query) 12)) [
      | inl short ↦ short_reply short
      | inr long ↦ rw (long) (length-send_reply query reply long)
    ],
    λ r same. ap (send_reply query) same,
    λ e same long. ap (send_reply query) same ∙ send_reply-err query e long,
  )
    where
      short_reply :
          ltb (length query) 12 ≡ true
          → length (send_reply query reply) ≡ (if ltb (length query) 12 then 0 else 1)
      short_reply short =
          let early = handle_query-short clock exchange query source h short in
          let agree : some (reply, h') ≡ some (too_short, h) = sym handled ∙ early in
          let same : reply ≡ too_short = cc agree in
          rw (same, send_reply, build_servfail_response, short) refl

  -- When nothing refuses a question, the cache does not have it, FakeDNS does not run and every
  -- upstream server fails, the task sends the identifier of the query with the code for a failure of
  -- the server.
  pub handle_query_task-Fails :
      (clock : Clock) (exchange : Exchange) (query : Text) (source : IpAddr) (h : DnsHandler S L B)
      (p : Packet) (q : Question) (rest : List Question) (cache : DnsCache L)
      → S.parse query ≡ some p
      → p.questions ≡ q ∷ rest
      → is_refused S L B clock.time source q.qname h ≡ false
      → get L clock.instant q.qname q.qtype h.cache ≡ some (none, cache)
      → h.fake_dns ≡ none
      → All (Fails (exchange h.resolver.timeout query)) h.resolver.upstreams
      → handle_query_task S L B clock exchange query source h
        ≡ some
            ((take 2 query ++ (0x80 ∷ server_failure ∷ zeros 8)) ∷ [], record h { cache = cache })
  unfolding handle_query answer_question answer_allowed forward resolve handle_query_task
  handle_query_task-Fails clock exchange query source h p q rest cache parsed asked allowed missed
        off failed =
      let (e, ends) =
        resolve_loop-Fails (exchange h.resolver.timeout query) none h.resolver.upstreams failed in
      let h1 : DnsHandler S L B = record h { cache = cache } in
      let answered : answer_miss S L B clock.instant exchange query q h1
          ≡ forward S L B clock.instant exchange query q h1 =
        answer_miss-forward clock.instant exchange query q h1 off in
      let forwarded : forward S L B clock.instant exchange query q h1 ≡ some (err e, h1) =
        rw (forward, resolve, ends) refl in
      let handled : handle_query S L B clock exchange query source h ≡ some (err e, h1) =
        rw (handle_query, parsed, asked) (rw (allowed, missed) (answered ∙ forwarded)) in
      rw (handle_query_task, handled)
        (ap (λ s. some (s, record h { cache = cache }))
          (send_reply-err query e (S.parse_length query p parsed)))
