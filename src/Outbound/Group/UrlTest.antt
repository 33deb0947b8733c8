-- ===== src/Outbound/Group/UrlTest.antt =====
-- src/outbound/group/url_test.rs: the group that connects through the proxy with the lowest latency.
-- The outcome of the health checks of a round, `none` for a failure, and the time are arguments; a
-- duration and an instant are numbers of nanoseconds.
pub mod Best
use home_guard.Prelude.{
  ℕ, zero, suc, ◌+◌, ◌-◌, ◌*◌, ◌^◌, Bool, true, false, ◌||◌, Option, none, some, List, [], ◌∷◌,
  if◌then◌else◌, ltb, leb, length, get_elem?, map, ◌>>=◌,
}
use home_guard.Prelude.Text.{Text}
use home_guard.Outbound.Address.{Address}
use home_guard.Outbound.Group.{Outbound}

-- `Duration::MAX`
abbrev pub duration_max : ℕ
duration_max = 2 ^ 64 * 1_000_000_000 - 1

module _ (O : Outbound) where
  pub record UrlTestGroup : Type 0 where
    pub name : Text
    pub proxies : List O.Proxy
    pub test_url : Text
    pub test_interval : ℕ
    pub test_timeout : ℕ
    pub best : ℕ
    pub latencies : List (Option ℕ)
    pub last_test : Option ℕ

  unfoldable pub new : Text → List O.Proxy → Text → ℕ → UrlTestGroup
  new name proxies url interval = record {
    name = name;
    proxies = proxies;
    test_url = url;
    test_interval = interval;
    test_timeout = 5 * 1_000_000_000;
    best = 0;
    latencies = map (λ p. none) proxies;
    last_test = none;
  }

  unfoldable pub with_timeout : ℕ → UrlTestGroup → UrlTestGroup
  with_timeout timeout g = record g { test_timeout = timeout }

  unfoldable pub best_proxy : UrlTestGroup → Option O.Proxy
  best_proxy g = get_elem? g.proxies g.best

  unfoldable pub get_latency : ℕ → UrlTestGroup → Option ℕ
  get_latency index g = get_elem? g.latencies index >>= λ latency. latency

  unfoldable pub needs_test : ℕ → UrlTestGroup → Bool
  needs_test now g = elim g.last_test [ none ↦ true | some last ↦ leb g.test_interval (now - last) ]

  -- One result of the loop of `test_all`: the best index and latency after it.
  abbrev pub consider : ℕ → Option ℕ → ℕ × ℕ → ℕ × ℕ
  consider idx none best = best
  consider idx (some latency) best = if ltb latency best.1 then (idx, latency) else best

  -- The loop of `test_all`, from an index on.
  unfoldable pub test_loop : (O.Proxy → Option ℕ) → ℕ → List O.Proxy → ℕ × ℕ → ℕ × ℕ
  test_loop check idx [] best = best
  test_loop check idx (p ∷ ps) best = test_loop check (suc idx) ps (consider idx (check p) best)

  -- A round of `test_all`, over the proxies of the group.
  unfoldable pub test_round : (O.Proxy → Option ℕ) → ℕ → List O.Proxy → UrlTestGroup → UrlTestGroup
  unfolding test_loop
  test_round check now [] g = g
  test_round check now (p ∷ ps) g = record g {
    latencies = map check (p ∷ ps);
    best = (test_loop check 0 (p ∷ ps) (0, duration_max)).0;
    last_test = some now;
  }

  unfoldable pub test_all : (O.Proxy → Option ℕ) → ℕ → UrlTestGroup → UrlTestGroup
  unfolding test_round
  test_all check now g = test_round check now g.proxies g

  -- "Test if needed (lazy testing)"
  abbrev pub tested : (O.Proxy → Option ℕ) → ℕ → UrlTestGroup → UrlTestGroup
  unfolding needs_test test_all
  tested check now g = if needs_test now g then test_all check now g else g

  -- The stream, or none for an error, and the group.
  unfoldable pub connect :
      (O.Proxy → Option ℕ) → ℕ → Address → UrlTestGroup → Option O.Stream × UrlTestGroup
  unfolding tested best_proxy
  connect check now target g =
      let g' = tested check now g in (best_proxy g' >>= λ p. O.connect p target, g')

  unfoldable pub health_check : (O.Proxy → Option ℕ) → UrlTestGroup → Option ℕ
  unfolding best_proxy
  health_check check g = best_proxy g >>= check

  abbrev pub any_tested : List (Option ℕ) → Bool
  any_tested [] = false
  any_tested (none ∷ rest) = any_tested rest
  any_tested (some latency ∷ rest) = true

  unfoldable pub is_available : UrlTestGroup → Bool
  is_available g = any_tested g.latencies
