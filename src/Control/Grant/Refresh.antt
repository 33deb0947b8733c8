-- ===== src/Control/Grant/Refresh.antt =====
-- The cache of grants after a refresh: a pair is active exactly as long as some row of it says.
use home_guard.Prelude.{
  ℕ, ◌+◌, ◌<◌, ◌≡◌, ◌↔◌, ◌⊎◌, refl, ap, ◌∙◌, inl, inr, true, Option, none, some, List, [], ◌∷◌,
  arith, ◌==◌, nat_eq, list_eq, pair_eq, beq_iff, Bool-cases, Option-cases, In, here, there,
}
use home_guard.Prelude.Map.{lookup, lookup-insert, lookup-nil}
use home_guard.Prelude.Text.{Text}
use home_guard.Control.Grant.{
  GrantRecord, GrantStore, is_after, has_active, later, keep_later, collect, refresh, run_refreshes,
}

-- A row of the pair whose expiry parses and is after the time.
pub record HasRow (parse : Text → Option ℕ) (now : ℕ) (key : Text × Text)
    (grants : List GrantRecord) : Type 0 where
  pub row : GrantRecord
  pub expiry : ℕ
  pub listed : In row grants
  pub for_pair : (row.device_id, row.category) ≡ key
  pub parsed : parse row.expires_at ≡ some expiry
  pub open_still : now < expiry

is_after-later :
    (now : ℕ) (o : Option ℕ) (ts : ℕ)
    → (is_after now (some (later o ts)) ≡ true) ↔ ((is_after now o ≡ true) ⊎ (now < ts))
is_after-later now none ts = ground arith
is_after-later now (some cur) ts = ground arith

is_after-keep_later :
    (now : ℕ) (key k : Text × Text) (ts : ℕ) (m : List ((Text × Text) × ℕ))
    → (is_after now (lookup key (keep_later k ts m)) ≡ true)
      ↔ ((is_after now (lookup key m) ≡ true) ⊎ ((k ≡ key) × (now < ts)))
unfolding keep_later
is_after-keep_later now key k ts m = elim (Bool-cases (k == key)) [
  | inl same ↦
      let e : k ≡ key = (beq_iff k key).0 same in
      let there_is : lookup k m ≡ lookup key m = ap (λ j. lookup j m) e in
      rw (lookup-insert k key (later (lookup k m) ts) m, same, there_is)
        (let (to, from) = is_after-later now (lookup key m) ts in
          (
            (λ h. elim (to h) [ inl old ↦ inl old | inr new ↦ inr (e, new) ]),
            (λ s. elim s [ inl old ↦ from (inl old) | inr (_, new) ↦ from (inr new) ]),
          ))
  | inr other ↦
      rw (lookup-insert k key (later (lookup k m) ts) m, other)
        (
          (λ h. inl h),
          (λ s. elim s [ inl old ↦ old | inr (e, _) ↦ absurd (cc (other, (beq_iff k key).1 e)) ]),
        )
]

extend :
    (parse : Text → Option ℕ) (now : ℕ) (key : Text × Text) (g : GrantRecord)
    (grants : List GrantRecord)
    → HasRow parse now key grants
    → HasRow parse now key (g ∷ grants)
extend parse now key g grants r = record {
  row = r.row;
  expiry = r.expiry;
  listed = there r.listed;
  for_pair = r.for_pair;
  parsed = r.parsed;
  open_still = r.open_still;
}

abbrev Active :
    (Text → Option ℕ) → ℕ → Text × Text → List GrantRecord → List ((Text × Text) × ℕ) → Type 0
Active parse now key grants m = (is_after now (lookup key m) ≡ true) ⊎ HasRow parse now key grants

collect→Active :
    (parse : Text → Option ℕ) (now : ℕ) (key : Text × Text) (grants : List GrantRecord)
    (m : List ((Text × Text) × ℕ)) (b : ℕ)
    → is_after now (lookup key (collect parse grants m b).0) ≡ true
    → Active parse now key grants m
unfolding collect
collect→Active parse now key [] m b h = inl h
collect→Active parse now key (g ∷ grants) m b h = elim (Option-cases (parse g.expires_at)) [
  | inl bad ↦ elim (collect→Active parse now key grants m (b + 1) (rw (bad, collect) at h)) [
    | inl old ↦ inl old
    | inr r ↦ inr (extend parse now key g grants r)
  ]
  | inr (ts, good) ↦ elim (collect→Active parse now key grants _ b (rw (good, collect) at h)) [
    | inl old ↦ elim ((is_after-keep_later now key (g.device_id, g.category) ts m).0 old) [
      | inl older ↦ inl older
      | inr (same, ahead) ↦ inr (record {
        row = g;
        expiry = ts;
        listed = here refl;
        for_pair = same;
        parsed = good;
        open_still = ahead;
      })
    ]
    | inr r ↦ inr (extend parse now key g grants r)
  ]
]

collect_kept :
    (parse : Text → Option ℕ) (now : ℕ) (key : Text × Text) (grants : List GrantRecord)
    (m : List ((Text × Text) × ℕ)) (b : ℕ)
    → is_after now (lookup key m) ≡ true
    → is_after now (lookup key (collect parse grants m b).0) ≡ true
unfolding collect
collect_kept parse now key [] m b h = h
collect_kept parse now key (g ∷ grants) m b h = elim (Option-cases (parse g.expires_at)) [
  | inl bad ↦ rw (bad, collect) (collect_kept parse now key grants m (b + 1) h)
  | inr (ts, good) ↦
      rw (good, collect)
        (collect_kept parse now key grants _ b
          ((is_after-keep_later now key (g.device_id, g.category) ts m).1 (inl h)))
]

collect_row :
    (parse : Text → Option ℕ) (now : ℕ) (key : Text × Text) (grants : List GrantRecord)
    (m : List ((Text × Text) × ℕ)) (b : ℕ) (row : GrantRecord) (ts : ℕ)
    → In row grants
    → (row.device_id, row.category) ≡ key
    → parse row.expires_at ≡ some ts
    → now < ts
    → is_after now (lookup key (collect parse grants m b).0) ≡ true
unfolding collect
collect_row parse now key [] m b row ts i same good ahead = elim i [ ]
collect_row parse now key (g ∷ grants) m b row ts (here e) same good ahead =
    rw (ap (λ r. parse r.expires_at) e ∙ good, collect)
      (collect_kept parse now key grants _ b (
        (is_after-keep_later now key (g.device_id, g.category) ts m).1
          (inr (ap (λ r. (r.device_id, r.category)) e ∙ same, ahead))))
collect_row parse now key (g ∷ grants) m b row ts (there i) same good ahead =
    elim (Option-cases (parse g.expires_at)) [
      | inl bad ↦
          rw (bad, collect) (collect_row parse now key grants m (b + 1) row ts i same good ahead)
      | inr (other, fine) ↦
          rw (fine, collect) (collect_row parse now key grants _ b row ts i same good ahead)
    ]

-- After a refresh that the database answers, a pair is active at a time exactly when some row for it
-- has an expiry that parses and is later: overlapping grants extend each other, whatever the order
-- of the rows, rows that do not parse grant nothing, and nothing of the cache before survives.
pub has_active-refresh :
    (parse : Text → Option ℕ) (now : ℕ) (device category : Text) (grants : List GrantRecord)
    (s : GrantStore)
    → (has_active now device category (refresh parse (some grants) s).0 ≡ true)
      ↔ HasRow parse now (device, category) grants
unfolding has_active refresh
has_active-refresh parse now device category grants s = (to, from)
  where
    to :
        is_after now (lookup (device, category) (collect parse grants [] 0).0) ≡ true
        → HasRow parse now (device, category) grants
    to h = elim (collect→Active parse now (device, category) grants [] 0 h) [
      | inl old ↦ absurd (cc (rw (lookup-nil {K = Text × Text} {V = ℕ} (device, category)) at old))
      | inr r ↦ r
    ]

    from :
        HasRow parse now (device, category) grants
        → is_after now (lookup (device, category) (collect parse grants [] 0).0) ≡ true
    from r =
        collect_row parse now (device, category) grants [] 0 r.row r.expiry r.listed r.for_pair
          r.parsed r.open_still

-- The last answer of the database in a sequence of ticks, if any tick was answered.
abbrev pub last_answer : List (Option (List GrantRecord)) → Option (List GrantRecord)
last_answer [] = none
last_answer (rows ∷ ticks) = elim (last_answer ticks) [
  | some later_rows ↦ some later_rows
  | none ↦ rows
]

run_refreshes_failed :
    (parse : Text → Option ℕ) (ticks : List (Option (List GrantRecord))) (s : GrantStore)
    → last_answer ticks ≡ none
    → run_refreshes parse ticks s ≡ s
unfolding run_refreshes refresh
run_refreshes_failed parse [] s h = refl
run_refreshes_failed parse (none ∷ ticks) s h = elim (Option-cases (last_answer ticks)) [
  | inl silent ↦ run_refreshes_failed parse ticks s silent
  | inr (rest, answered) ↦ absurd (cc (rw answered at h))
]
run_refreshes_failed parse (some rows ∷ ticks) s h = elim (Option-cases (last_answer ticks)) [
  | inl silent ↦ absurd (cc (rw silent at h))
  | inr (rest, answered) ↦ absurd (cc (rw answered at h))
]

-- After any number of background refreshes of which at least one is answered, the activity of every
-- pair is that of the last answer: failed queries in between leave the cache as it is.
pub has_active-run_refreshes :
    (parse : Text → Option ℕ) (now : ℕ) (device category : Text)
    (ticks : List (Option (List GrantRecord))) (s : GrantStore) (grants : List GrantRecord)
    → last_answer ticks ≡ some grants
    → (has_active now device category (run_refreshes parse ticks s) ≡ true)
      ↔ HasRow parse now (device, category) grants
unfolding run_refreshes
has_active-run_refreshes parse now device category [] s grants h = absurd (cc)
has_active-run_refreshes parse now device category (rows ∷ ticks) s grants h =
    elim (Option-cases (last_answer ticks)) [
      | inr (rest, some_later) ↦
          has_active-run_refreshes parse now device category ticks _ grants
            (some_later ∙ rw some_later at h)
      | inl silent ↦
          rw
            (
              rw silent at h,
              run_refreshes_failed parse ticks (refresh parse (some grants) s).0 silent,
            )
            (has_active-refresh parse now device category grants s)
    ]
