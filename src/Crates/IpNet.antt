-- ===== src/Crates/IpNet.antt =====
-- The crate `ipnet`: networks in CIDR notation.
use home_guard.Prelude.{ℕ, Bool, Option}
use home_guard.Prelude.Text.{Text}

pub record IpNet : Type 1 where
  pub Ipv4Net : Type 0
  pub Ipv6Net : Type 0
  pub contains4 : Ipv4Net → ℕ → Bool
  pub contains6 : Ipv6Net → ℕ → Bool
  pub show4 : Ipv4Net → Text
  pub show6 : Ipv6Net → Text
  pub parse4 : Text → Option Ipv4Net
  pub parse6 : Text → Option Ipv6Net
