-- ===== src/Dns/Resolver/Order.antt =====
-- src/dns/resolver.rs: which server's answer is the answer.
use home_guard.Prelude.{◌≡◌, refl, ap, ◌∙◌, ◌↔◌, Option, none, some, List, [], ◌∷◌, ◌++◌, All}
use home_guard.Prelude.Text.{Text}
use home_guard.Dns.Resolver.{
  HomeGuardError, Result, ok, err, SocketAddr, DnsResolver, Exchange, resolve_loop, give_up,
  resolve,
}

-- The server fails.
abbrev pub Fails : (SocketAddr → Result Text) → SocketAddr → Type 0
Fails ask u = (e : HomeGuardError) × (ask u ≡ err e)

-- A server of the list answers, and those before it fail.
abbrev pub FirstAnswer : (SocketAddr → Result Text) → List SocketAddr → Text → Type 0
FirstAnswer ask us response =
    (before : List SocketAddr) × (u : SocketAddr) × (after : List SocketAddr) × (us
      ≡ before ++ u ∷ after)
    × All (Fails ask) before
    × (ask u ≡ ok response)

first_answer :
    (ask : SocketAddr → Result Text) (last : Option HomeGuardError) (us : List SocketAddr)
    (response : Text)
    → resolve_loop ask last us ≡ ok response
    → FirstAnswer ask us response
unfolding resolve_loop
first_answer ask last [] response h = cc h
first_answer ask last (u ∷ us) response h =
    let again : (e : HomeGuardError)
        → resolve_loop ask (some e) us ≡ ok response
        → FirstAnswer ask us response =
      λ e. first_answer ask (some e) us response in
    go (ask u) refl again
  where
    go :
        (r : Result Text)
        → ask u ≡ r
        → ((e : HomeGuardError)
            → resolve_loop ask (some e) us ≡ ok response
            → FirstAnswer ask us response)
        → FirstAnswer ask (u ∷ us) response
    go (ok found) same again =
        let found_is : ok found ≡ ok response = rw (resolve_loop, same) at h in
        ([], u, us, refl, tt, same ∙ found_is)
    go (err e) same again =
        let later : resolve_loop ask (some e) us ≡ ok response = rw (resolve_loop, same) at h in
        let (before, v, after, parts, failed, found) = again e later in
        (u ∷ before, v, after, ap (λ t. u ∷ t) parts, ((e, same), failed), found)

-- When every server fails, so does the loop.
pub resolve_loop-Fails :
    (ask : SocketAddr → Result Text) (last : Option HomeGuardError) (us : List SocketAddr)
    → All (Fails ask) us
    → (e : HomeGuardError) × (resolve_loop ask last us ≡ err e)
unfolding resolve_loop
resolve_loop-Fails ask last [] failed = (give_up last, refl)
resolve_loop-Fails ask last (u ∷ us) ((e, same), failed) =
    let (e', ends) = resolve_loop-Fails ask (some e) us failed in (e', rw (resolve_loop, same) ends)

answer_first :
    (ask : SocketAddr → Result Text) (last : Option HomeGuardError) (before : List SocketAddr)
    (u : SocketAddr) (after : List SocketAddr) (response : Text)
    → All (Fails ask) before
    → ask u ≡ ok response
    → resolve_loop ask last (before ++ u ∷ after) ≡ ok response
unfolding resolve_loop
answer_first ask last [] u after response failed found = rw (resolve_loop, found)
answer_first ask last (v ∷ before) u after response ((e, same), failed) found =
    rw (resolve_loop, same) (answer_first ask (some e) before u after response failed found)

-- A query is answered with a response exactly when one of the servers answers it with that response
-- and every server before it in the configuration fails.
pub resolve-FirstAnswer :
    (exchange : Exchange) (query response : Text) (r : DnsResolver)
    → (resolve exchange query r ≡ ok response)
      ↔ FirstAnswer (exchange r.timeout query) r.upstreams response
unfolding resolve
resolve-FirstAnswer exchange query response r = (
  first_answer (exchange r.timeout query) none r.upstreams response,
  λ (before, u, after, parts, failed, found).
      ap (resolve_loop (exchange r.timeout query) none) parts
      ∙ answer_first (exchange r.timeout query) none before u after response failed found,
)
