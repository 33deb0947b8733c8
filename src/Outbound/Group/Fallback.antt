-- ===== src/Outbound/Group/Fallback.antt =====
-- src/outbound/group/fallback.rs: the group that uses the first available proxy. The flags of
-- availability are walked along with the proxies; a missing flag counts as unavailable. Times are in
-- seconds.
use home_guard.Prelude.{
  ℕ, ◌-◌, ◌≡◌, ◌⊎◌, refl, inl, inr, Bool, true, false, Option, none, some, List, [], ◌∷◌, map,
  if◌then◌else◌, leb, set, Option-cases,
}
use home_guard.Prelude.Text.{Text}
use home_guard.Outbound.Address.{Address}
use home_guard.Outbound.Group.{Outbound}

module _ (O : Outbound) where
  pub record FallbackGroup : Type 0 where
    pub group_name : Text
    pub proxies : List O.Proxy
    pub test_url : Text
    pub test_interval : ℕ
    pub test_timeout : ℕ
    pub available : List Bool
    pub last_check : Option ℕ

  -- `vec![true; n]`
  abbrev pub all_true : List O.Proxy → List Bool
  all_true [] = []
  all_true (p ∷ ps) = true ∷ all_true ps

  unfoldable pub new : Text → List O.Proxy → Text → ℕ → FallbackGroup
  new name ps url interval = record {
    group_name = name;
    proxies = ps;
    test_url = url;
    test_interval = interval;
    test_timeout = 5;
    available = all_true ps;
    last_check = none;
  }

  unfoldable pub with_timeout : ℕ → FallbackGroup → FallbackGroup
  with_timeout timeout g = record g { test_timeout = timeout }

  unfoldable pub first_of : List O.Proxy → List Bool → Option O.Proxy
  first_of [] flags = none
  first_of (p ∷ ps) [] = none
  first_of (p ∷ ps) (flag ∷ flags) = if flag then some p else first_of ps flags

  unfoldable pub first_available : FallbackGroup → Option O.Proxy
  unfolding first_of
  first_available g = first_of g.proxies g.available

  unfoldable pub is_due : ℕ → ℕ → Option ℕ → Bool
  is_due now interval none = true
  is_due now interval (some last) = leb interval (now - last)

  unfoldable pub needs_check : ℕ → FallbackGroup → Bool
  unfolding is_due
  needs_check now g = is_due now g.test_interval g.last_check

  unfoldable pub mark_unavailable : ℕ → FallbackGroup → FallbackGroup
  mark_unavailable index g = record g { available = set g.available index false }

  -- The results of all health checks; a task that fails counts as unhealthy.
  unfoldable pub check_all : ℕ → FallbackGroup → FallbackGroup
  check_all now g = elim g.proxies [
    | [] ↦ g
    | p ∷ ps ↦ record g { available = map O.is_healthy g.proxies; last_check = some now }
  ]

  -- The loop of `connect` over the proxies and their flags: the stream and the flags afterwards.
  unfoldable pub try_each : Address → List O.Proxy → List Bool → Option O.Stream × List Bool
  try_each target [] flags = (none, flags)
  try_each target (p ∷ ps) [] = (none, [])
  try_each target (p ∷ ps) (false ∷ flags) =
      let (stream, rest) = try_each target ps flags in (stream, false ∷ rest)
  try_each target (p ∷ ps) (true ∷ flags) =
      let (stream, rest) = try_each target ps flags in
      elim (O.connect p target) [ some s ↦ (some s, true ∷ flags) | none ↦ (stream, false ∷ rest) ]

  unfoldable pub checked : ℕ → FallbackGroup → FallbackGroup
  unfolding needs_check check_all
  checked now g = if needs_check now g then check_all now g else g

  unfoldable pub connect : ℕ → Address → FallbackGroup → Option O.Stream × FallbackGroup
  unfolding checked try_each
  connect now target g =
      let ready = checked now g in
      let (stream, flags) = try_each target ready.proxies ready.available in
      (stream, record ready { available = flags })

  unfoldable pub is_available : FallbackGroup → Bool
  unfolding first_available
  is_available g = elim (first_available g) [ none ↦ false | some p ↦ true ]

  -- No proxy whose flag is set connects.
  abbrev pub AllFail : Address → List O.Proxy → List Bool → Type 0
  AllFail target [] flags = Unit
  AllFail target (p ∷ ps) [] = Unit
  AllFail target (p ∷ ps) (false ∷ flags) = AllFail target ps flags
  AllFail target (p ∷ ps) (true ∷ flags) = (O.connect p target ≡ none) × AllFail target ps flags

  abbrev Outcome : Address → List O.Proxy → List Bool → Option O.Stream × List Bool → Type 0
  Outcome target ps flags (stream, after) =
      ((s : O.Stream) × (stream ≡ some s)
        × ((p : O.Proxy) × (first_of ps after ≡ some p) × (O.connect p target ≡ some s)))
      ⊎ ((stream ≡ none) × (first_of ps after ≡ none) × AllFail target ps flags)

  try_each-Outcome :
      (target : Address) (ps : List O.Proxy) (flags : List Bool)
      → Outcome target ps flags (try_each target ps flags)
  unfolding try_each first_of
  try_each-Outcome target [] flags = inr (refl, refl, tt)
  try_each-Outcome target (p ∷ ps) [] = inr (refl, refl, tt)
  try_each-Outcome target (p ∷ ps) (false ∷ flags) = try_each-Outcome target ps flags
  try_each-Outcome target (p ∷ ps) (true ∷ flags) = elim (Option-cases (O.connect p target)) [
    | inr (s, up) ↦ rw (up, try_each) (inl (s, refl, (p, refl, up)))
    | inl down ↦
        rw (down, try_each)
          (elim (try_each-Outcome target ps flags) [
            | inl done ↦ inl done
            | inr (nothing, empty, fail) ↦ inr (nothing, empty, (refl, fail))
          ])
  ]

  -- `connect`, with its check of the health of the proxies when one is due, either returns the stream
  -- of a proxy, and that proxy is then the first available one of the group; or it returns an error,
  -- and then every proxy that was available failed to connect and none is available any more.
  pub connect-first_available :
      (now : ℕ) (target : Address) (g : FallbackGroup)
      → ((s : O.Stream) × ((connect now target g).0 ≡ some s)
          × ((p : O.Proxy) × (first_available (connect now target g).1 ≡ some p)
              × (O.connect p target ≡ some s)))
        ⊎ (((connect now target g).0 ≡ none)
            × (first_available (connect now target g).1 ≡ none)
            × AllFail target (checked now g).proxies (checked now g).available)
  unfolding connect first_available
  connect-first_available now target g =
      try_each-Outcome target (checked now g).proxies (checked now g).available
