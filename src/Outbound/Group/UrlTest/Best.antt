-- ===== src/Outbound/Group/UrlTest/Best.antt =====
-- src/outbound/group/url_test.rs: the proxy that is chosen is the fastest.
use home_guard.Prelude.{
  ℕ, zero, suc, ◌+◌, ◌≤◌, ◌<◌, ◌≡◌, refl, sym, ap, ◌∙◌, ◌⊎◌, inl, inr, Bool-cases, Option-cases,
  true, Option, none, some, List, [], ◌∷◌, ltb, get_elem?, All, In, here, there, arith, ltb→lt,
  ltb_false→le,
}
use home_guard.Outbound.Address.{Address}
use home_guard.Outbound.Group.{Outbound}
use home_guard.Outbound.Group.UrlTest.{
  UrlTestGroup, duration_max, best_proxy, needs_test, test_loop, test_round, test_all, tested,
  connect,
}

some_inj : (l m : ℕ) → ◌≡◌ {A = Option ℕ} (some l) (some m) → l ≡ m
some_inj l m h = cc h

module _ (O : Outbound) where
  -- The best index and latency of some proxies, from an index and a bound on: no answer is below
  -- the latency, and it is the bound with its index, or that of one of these proxies.
  record Found (check : O.Proxy → Option ℕ) (idx : ℕ) (ps : List O.Proxy) (start r : ℕ × ℕ)
      : Type 0 where
    below : r.1 ≤ start.1
    least : (j m : ℕ) (q : O.Proxy) → get_elem? ps j ≡ some q → check q ≡ some m → r.1 ≤ m
    origin :
        (r ≡ start)
        ⊎ ((i : ℕ) × (p : O.Proxy) × (r.0 ≡ idx + i)
            × (get_elem? ps i ≡ some p)
            × (check p ≡ some r.1))

  module _ (check : O.Proxy → Option ℕ) (idx : ℕ) (p : O.Proxy) (ps : List O.Proxy)
      (start r : ℕ × ℕ) where
    later : (i : ℕ) → r.0 ≡ suc idx + i → r.0 ≡ idx + suc i
    later i h = omega arith

    least_cons :
        ((m : ℕ) → check p ≡ some m → r.1 ≤ m)
        → ((j m : ℕ) (q : O.Proxy) → get_elem? ps j ≡ some q → check q ≡ some m → r.1 ≤ m)
        → (j m : ℕ) (q : O.Proxy) → get_elem? (p ∷ ps) j ≡ some q
        → check q ≡ some m
        → r.1 ≤ m
    least_cons head rest zero m q found answered =
        let same : p ≡ q = cc found in head m (ap check same ∙ answered)
    least_cons head rest (suc j) m q found answered = rest j m q found answered

    -- The proxy does not improve on the bound.
    worse :
        ((m : ℕ) → check p ≡ some m → start.1 ≤ m)
        → Found check (suc idx) ps start r
        → Found check idx (p ∷ ps) start r
    worse slow f = record {
      below = f.below;
      least = least_cons (λ m answered. omega (arith, f.below, slow m answered)) f.least;
      origin = elim f.origin [
        | inl same ↦ inl same
        | inr (i, q, place, found, answered) ↦ inr (suc i, q, later i place, found, answered)
      ];
    }

    -- The proxy improves on the bound.
    better :
        (latency : ℕ)
        → check p ≡ some latency
        → latency < start.1
        → Found check (suc idx) ps (idx, latency) r
        → Found check idx (p ∷ ps) start r
    better latency answered fast f = record {
      below = omega (arith, f.below);
      least =
          least_cons (λ m again. omega (arith, f.below, some_inj latency m (sym answered ∙ again)))
            f.least;
      origin = elim f.origin [
        | inl same ↦
            inr (
              0,
              p,
              ap (λ t. t.0) same ∙ omega arith,
              refl,
              answered ∙ ap (λ t. some t.1) (sym same),
            )
        | inr (i, q, place, found, answered') ↦ inr (suc i, q, later i place, found, answered')
      ];
    }

  test_loop-Found :
      (check : O.Proxy → Option ℕ) (idx : ℕ) (ps : List O.Proxy) (start : ℕ × ℕ)
      → Found check idx ps start (test_loop O check idx ps start)
  unfolding test_loop
  test_loop-Found check idx [] start = record {
    below = omega arith;
    least = λ j m q found. cc found;
    origin = inl refl;
  }
  test_loop-Found check idx (p ∷ ps) start = elim (Option-cases (check p)) [
    | inl failed ↦
        rw (test_loop, failed)
          (worse check idx p ps start _ (λ m answered. cc (failed, answered))
            (test_loop-Found check (suc idx) ps start))
    | inr (latency, answered) ↦ elim (Bool-cases (ltb latency start.1)) [
      | inl fast ↦
          rw (test_loop, answered, fast)
            (better check idx p ps start _ latency answered (ltb→lt latency start.1 fast)
              (test_loop-Found check (suc idx) ps (idx, latency)))
      | inr slow ↦
          rw (test_loop, answered, slow)
            (worse check idx p ps start _
              (λ m again. omega (
                arith,
                ltb_false→le latency start.1 slow,
                some_inj latency m (sym answered ∙ again),
              ))
              (test_loop-Found check (suc idx) ps start))
    ]
  ]

  -- An answer is a latency of at least a bound, or there is none.
  abbrev pub AtLeast : ℕ → Option ℕ → Type 0
  AtLeast bound none = Unit
  AtLeast bound (some latency) = bound ≤ latency

  -- The proxy is one of the group, it answers with the latency, and no proxy answers sooner.
  pub record IsFastest (check : O.Proxy → Option ℕ) (ps : List O.Proxy) (p : O.Proxy) (latency : ℕ)
      : Type 0 where
    pub member : In p ps
    pub answers : check p ≡ some latency
    pub lowest : All (λ q. AtLeast latency (check q)) ps

  lowest-least :
      (check : O.Proxy → Option ℕ) (l : ℕ) (ps : List O.Proxy)
      → ((j m : ℕ) (q : O.Proxy) → get_elem? ps j ≡ some q → check q ≡ some m → l ≤ m)
      → All (λ q. AtLeast l (check q)) ps
  lowest-least check l [] h = tt
  lowest-least check l (p ∷ ps) h = (
    go (check p) refl,
    lowest-least check l ps (λ j m q found answered. h (suc j) m q found answered),
  )
    where
      go : (o : Option ℕ) → check p ≡ o → AtLeast l o
      go none same = tt
      go (some m) same = h 0 m p refl same

  In-get_elem? : (ps : List O.Proxy) (i : ℕ) (p : O.Proxy) → get_elem? ps i ≡ some p → In p ps
  In-get_elem? [] i p h = cc h
  In-get_elem? (q ∷ ps) zero p h = here (cc h)
  In-get_elem? (q ∷ ps) (suc i) p h = there (In-get_elem? ps i p h)

  -- The index that a round ends with is that of the fastest proxy, when one answers in time.
  test_loop-IsFastest :
      (check : O.Proxy → Option ℕ) (ps : List O.Proxy) (q : O.Proxy) (m j : ℕ)
      → get_elem? ps j ≡ some q
      → check q ≡ some m
      → m < duration_max
      → let r = test_loop O check 0 ps (0, duration_max) in
        (p : O.Proxy) × (get_elem? ps r.0 ≡ some p) × IsFastest check ps p r.1
  test_loop-IsFastest check ps q m j found answered in_time =
      let f = test_loop-Found check 0 ps (0, duration_max) in
      elim f.origin [
        | inl same ↦ absurd (omega (arith, f.least j m q found answered, ap (λ t. t.1) same))
        | inr (i, p, place, here_it_is, answers) ↦ (
          p,
          ap (get_elem? ps) (place ∙ omega arith) ∙ here_it_is,
          record {
            member = In-get_elem? ps i p here_it_is;
            answers = answers;
            lowest = lowest-least check (test_loop O check 0 ps (0, duration_max)).1 ps f.least;
          },
        )
      ]

  -- When a test is due and one of the proxies answers within the longest duration, the connection is
  -- made through a proxy of the group that answers and that no other proxy answers sooner than.
  pub connect-IsFastest :
      (check : O.Proxy → Option ℕ) (now : ℕ) (target : Address) (g : UrlTestGroup O) (q : O.Proxy)
      (m j : ℕ)
      → needs_test O now g ≡ true
      → get_elem? g.proxies j ≡ some q
      → check q ≡ some m
      → m < duration_max
      → (p : O.Proxy) × (latency : ℕ) × IsFastest check g.proxies p latency
        × ((connect O check now target g).0 ≡ O.connect p target)
  unfolding connect tested test_all test_round best_proxy
  connect-IsFastest check now target g q m j due found answered in_time = go g.proxies refl
    where
      go :
          (ps : List O.Proxy)
          → g.proxies ≡ ps
          → (p : O.Proxy) × (latency : ℕ) × IsFastest check g.proxies p latency
            × ((connect O check now target g).0 ≡ O.connect p target)
      go [] same = absurd (cc (sym found ∙ ap (λ t. get_elem? t j) same))
      go (p0 ∷ ps) same =
          let (p, chosen, fastest) =
            test_loop-IsFastest check g.proxies q m j found answered in_time in
          let best : best_proxy O (test_all O check now g) ≡ some p =
            ap (λ qs. best_proxy O (test_round O check now qs g)) same
            ∙ ap (λ qs. get_elem? g.proxies (test_loop O check 0 qs (0, duration_max)).0) (sym same)
            ∙ chosen in
          (p, _, fastest, rw (connect, due) (rw best))
