-- ===== src/Proxy/Handler/Routes.antt =====
-- What becomes of a connection to an address that FakeDNS gave out.
use home_guard.Outbound.Address.{domain}
use home_guard.Prelude.{ℕ, ◌≡◌, refl, ap, ◌∙◌, true, false, Option, none, some, ◌>>=◌}
use home_guard.Prelude.Net.{IpAddr, v4}
use home_guard.Prelude.Text.{Text, to_lowercase, trim_end, to_lowercase_idem}
use home_guard.Prelude.Trim.{trim_end_idem, to_lowercase-trim_end}
use home_guard.Crates.IpNet.{IpNet}
use home_guard.Crates.AhoCorasick.{AhoCorasick}
use home_guard.Crates.MaxMind.{MaxMind}
use home_guard.Dns.FakeDns.{Tables, FakeDns, normalize, allocate, lookup, is_fake_ip}
use home_guard.Dns.FakeDns.Invariant.{IsValid}
use home_guard.Dns.FakeDns.Reach.{lookup-allocate, is_fake_ip-allocate}
use home_guard.Rule.Types.{Policy, direct, reject, proxy, MatchResult}
use home_guard.Rule.Engine.{match_request}
use home_guard.Control.Controller.{clean}
use home_guard.Outbound.Group.{Outbound}
use home_guard.Proxy.Handler.{
  SocketAddr, ConnectionHandler, Route, rejected, failed, direct_to, via, resolve_domain, is_denied,
  route, decide, handle_proxy, handle,
}

-- The form of a domain that the parental controls look up is that of the domain that was asked for.
pub clean-normalize : (d : Text) → clean (normalize d) ≡ clean d
unfolding clean normalize
clean-normalize d =
    ap to_lowercase (trim_end_idem b'.' (to_lowercase d) ∙ to_lowercase-trim_end d)
    ∙ to_lowercase_idem (trim_end b'.' d)

module _ (N : IpNet) (A : AhoCorasick) (G : MaxMind) (B : Tables) (O : Outbound) where
  abbrev pub outcome :
      Option (Route N A G B O × ConnectionHandler N A G B O) → Option (Route N A G B O)
  outcome none = none
  outcome (some (r, h)) = some r

  outcome_of :
      (m : Option (Route N A G B O)) (h : ConnectionHandler N A G B O)
      → outcome (m >>= λ r. some (r, h)) ≡ m
  outcome_of none h = refl
  outcome_of (some r) h = refl

  module _ (now : ℕ) (source : IpAddr) (q : Text) (port : ℕ) (s : FakeDns B) (valid : IsValid B s)
      (h : ConnectionHandler N A G B O) (allocated : h.fake_dns ≡ some (allocate B q s).1) where
    abbrev fake : ℕ
    fake = (allocate B q s).0

    abbrev after : FakeDns B
    after = (lookup B fake (allocate B q s).1).1

    resolve_domain-allocate :
        resolve_domain N A G B O (v4 fake) h.fake_dns ≡ (some (normalize q), some after)
    unfolding resolve_domain
    resolve_domain-allocate =
        rw (allocated, is_fake_ip-allocate B q s valid, lookup-allocate B q s valid) refl

    outcome-handle :
        outcome (handle N A G B O now source (some (v4 fake, port)) h)
        ≡ decide N A G B O now source
            (v4 fake, port)
            (some (normalize q))
            (record h { fake_dns = some after })
    unfolding handle
    outcome-handle = rw resolve_domain-allocate (outcome_of _ _)

  -- What each policy makes of a connection to an address that stands for a domain.
  abbrev pub IsRouted :
      Policy → SocketAddr → Text → ConnectionHandler N A G B O → Option (Route N A G B O) → Type 0
  IsRouted direct target d h o = o ≡ some (direct_to target)
  IsRouted reject target d h o = o ≡ some rejected
  IsRouted (proxy group) target d h o =
      ((p : O.Proxy) (stream : O.Stream)
        → h.outbound_manager (proxy group) ≡ some p
        → O.connect p (domain d target.1) ≡ some stream
        → o ≡ some (via stream))
      × ((p : O.Proxy)
          → h.outbound_manager (proxy group) ≡ some p
          → O.connect p (domain d target.1) ≡ none
          → o ≡ some failed)
      × (h.outbound_manager (proxy group) ≡ none → o ≡ some failed)

  route-fake_dns :
      (p : Policy) (t : SocketAddr) (d : Option Text) (h : ConnectionHandler N A G B O)
      (x : Option (FakeDns B))
      → route N A G B O p t d (record h { fake_dns = x }) ≡ route N A G B O p t d h
  unfolding route handle_proxy
  route-fake_dns direct t d h x = refl
  route-fake_dns reject t d h x = refl
  route-fake_dns (proxy group) t d h x = refl

  handle-route :
      (now : ℕ) (source : IpAddr) (q : Text) (port : ℕ) (s : FakeDns B)
      (h : ConnectionHandler N A G B O) (r : MatchResult)
      → IsValid B s
      → h.fake_dns ≡ some (allocate B q s).1
      → is_denied N A G B O now source (some (normalize q)) h.parental_controller ≡ false
      → match_request N A G (some (normalize q)) (some (v4 (allocate B q s).0)) h.rule_engine
        ≡ some r
      → outcome (handle N A G B O now source (some (v4 (allocate B q s).0, port)) h)
        ≡ some (route N A G B O r.policy (v4 (allocate B q s).0, port) (some (normalize q)) h)
  unfolding decide
  handle-route now source q port s h r valid allocated allowed matched =
      outcome-handle now source q port s valid h allocated
      ∙ rw (allowed, matched)
          (ap some (route-fake_dns r.policy (v4 (allocate B q s).0, port) (some (normalize q)) h _))

  -- When the parental controls do not deny a connection to the address that FakeDNS has just allocated
  -- for a domain, and the answer of the rules is DIRECT, it is relayed to the fake address itself, not to the domain that it stands for.
  pub handle-direct_fake :
      (now : ℕ) (source : IpAddr) (q : Text) (port : ℕ) (s : FakeDns B)
      (h : ConnectionHandler N A G B O) (r : MatchResult)
      → IsValid B s
      → h.fake_dns ≡ some (allocate B q s).1
      → is_denied N A G B O now source (some (normalize q)) h.parental_controller ≡ false
      → match_request N A G (some (normalize q)) (some (v4 (allocate B q s).0)) h.rule_engine
        ≡ some r
      → r.policy ≡ direct
      → (outcome (handle N A G B O now source (some (v4 (allocate B q s).0, port)) h)
          ≡ some (direct_to (v4 (allocate B q s).0, port)))
        × (is_fake_ip B (allocate B q s).0 (allocate B q s).1 ≡ true)
  unfolding route
  handle-direct_fake now source q port s h r valid allocated allowed matched is_direct = (
    handle-route now source q port s h r valid allocated allowed matched
        ∙ rw (is_direct, route) refl,
    is_fake_ip-allocate B q s valid,
  )
