-- ===== src/Crates/Chrono.antt =====
-- The crate `chrono`: the dates of the log files. A date is its number of days from the first date
-- that the crate knows. The dates of the years 0 to 9999, from `first_date` to `last_date`, are
-- printed in ten bytes of ASCII and read back; others have a sign.
use home_guard.Prelude.{ℕ, ◌≤◌, ◌<◌, ◌≡◌, Option, some, length, All}
use home_guard.Prelude.Text.{Text}

pub record Chrono : Type 0 where
  -- `format("%Y-%m-%d")`
  pub format : ℕ → Text
  -- `NaiveDate::parse_from_str(_, "%Y-%m-%d")`
  pub parse : Text → Option ℕ
  pub first_date : ℕ
  pub last_date : ℕ
  pub length-format : (d : ℕ) → first_date ≤ d → d ≤ last_date → length (format d) ≡ 10
  pub format_ascii : (d : ℕ) → first_date ≤ d → d ≤ last_date → All (λ c. c < 128) (format d)
  pub parse-format : (d : ℕ) → first_date ≤ d → d ≤ last_date → parse (format d) ≡ some d

-- The year of the date has four digits.
abbrev pub HasPlainYear : Chrono → ℕ → Type 0
HasPlainYear C d = (C.first_date ≤ d) × (d ≤ C.last_date)
