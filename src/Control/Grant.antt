-- ===== src/Control/Grant.antt =====
-- src/control/grant.rs: the cache of active grants. The clock, the rows that the database answers
-- (`none` for an error) and the parser of timestamps are arguments; a time is a number.
pub mod Refresh
use home_guard.Prelude.{
  ℕ, ◌+◌, Bool, true, false, Option, none, some, List, [], ◌∷◌, ◌==◌, nat_eq, list_eq, pair_eq, ltb,
  length, if◌then◌else◌,
}
use home_guard.Prelude.Map.{lookup, insert}
use home_guard.Prelude.Text.{Text}

pub record GrantRecord : Type 0 where
  pub id : ℕ
  pub device_id : Text
  pub category : Text
  pub granted_at : Text
  pub expires_at : Text
  pub revoked_at : Option Text
  pub note : Option Text

pub record GrantStore : Type 0 where
  pub active : List ((Text × Text) × ℕ)

-- Whether the expiry that the cache has for a pair, if any, is after the time.
abbrev pub is_after : ℕ → Option ℕ → Bool
is_after now none = false
is_after now (some expires_at) = ltb now expires_at

unfoldable pub has_active : ℕ → Text → Text → GrantStore → Bool
has_active now device_id category s = is_after now (lookup (device_id, category) s.active)

abbrev pub later : Option ℕ → ℕ → ℕ
later none ts = ts
later (some cur) ts = if ltb cur ts then ts else cur

-- `entry(key).and_modify(..).or_insert(ts)`
unfoldable pub keep_later : Text × Text → ℕ → List ((Text × Text) × ℕ) → List ((Text × Text) × ℕ)
keep_later key ts m = insert key (later (lookup key m) ts) m

-- The loop of `refresh`: the map and the number of rows that were skipped.
unfoldable pub collect :
    (Text → Option ℕ)
    → List GrantRecord
    → List ((Text × Text) × ℕ)
    → ℕ
    → List ((Text × Text) × ℕ) × ℕ
unfolding keep_later
collect parse [] new_map bad_rows = (new_map, bad_rows)
collect parse (g ∷ grants) new_map bad_rows = elim (parse g.expires_at) [
  | some ts ↦ collect parse grants (keep_later (g.device_id, g.category) ts new_map) bad_rows
  | none ↦ collect parse grants new_map (bad_rows + 1)
]

-- The store afterwards, and the number of pairs unless the query failed.
unfoldable pub refresh :
    (Text → Option ℕ) → Option (List GrantRecord) → GrantStore → GrantStore × Option ℕ
unfolding collect
refresh parse none s = (s, none)
refresh parse (some grants) s =
    let (new_map, bad_rows) = collect parse grants [] 0 in
    (record { active = new_map }, some (length new_map))

abbrev pub primed : GrantStore × Option ℕ → Option GrantStore
primed (s, none) = none
primed (s, some count) = some s

-- `GrantStore::open`
unfoldable pub open_store : (Text → Option ℕ) → Option (List GrantRecord) → Option GrantStore
unfolding refresh
open_store parse rows = primed (refresh parse rows (record { active = [] }))

-- `parse_sqlite_utc`, over the two formats that it tries.
unfoldable pub parse_sqlite_utc : (Text → Option ℕ) → (Text → Option ℕ) → Text → Option ℕ
parse_sqlite_utc spaced with_t s = elim (spaced s) [ some ts ↦ some ts | none ↦ with_t s ]

-- The loop of the background task: one refresh for each tick, a failure is only logged.
unfoldable pub run_refreshes :
    (Text → Option ℕ) → List (Option (List GrantRecord)) → GrantStore → GrantStore
unfolding refresh
run_refreshes parse [] s = s
run_refreshes parse (rows ∷ ticks) s = run_refreshes parse ticks (refresh parse rows s).0
