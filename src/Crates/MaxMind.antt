-- ===== src/Crates/MaxMind.antt =====
-- The crate `maxminddb`: a database file that gives a country code for some addresses.
use home_guard.Prelude.{Option}
use home_guard.Prelude.Text.{Text}
use home_guard.Prelude.Net.{IpAddr}

pub record MaxMind : Type 1 where
  pub FilePath : Type 0
  pub Reader : Type 0
  pub open_readfile : FilePath → Option Reader
  -- `lookup(ip)`, then the fields `country` and `iso_code`.
  pub iso_code : Reader → IpAddr → Option Text
