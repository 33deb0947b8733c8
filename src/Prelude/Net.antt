-- ===== src/Prelude/Net.antt =====
-- `std::net::IpAddr`: an address is its number, below 2 ^ 32 or 2 ^ 128.
use home_guard.Prelude.Tests.{nat_beq, nat_beq_iff}
use Prim.Native.Nat.{ℕ}
use mathlib.Core.Path.{◌≡◌}
use mathlib.Core.Bool.{Bool, true, false}
use mathlib.Core.Logic.{◌↔◌}
use native.Mathlib.Omega.{arith}
use home_guard.Prelude.Classes.{Eq}

pub data IpAddr : Type 0 where
  v4 : ℕ → IpAddr
  v6 : ℕ → IpAddr

abbrev pub ip_beq : IpAddr → IpAddr → Bool
ip_beq (v4 a) (v4 b) = nat_beq a b
ip_beq (v6 a) (v6 b) = nat_beq a b
ip_beq _ _ = false

pub ip_beq_iff : (a b : IpAddr) → (ip_beq a b ≡ true) ↔ (a ≡ b)
ip_beq_iff (v4 a) (v4 b) = ground (arith, nat_beq_iff a b)
ip_beq_iff (v4 a) (v6 b) = ground arith
ip_beq_iff (v6 a) (v4 b) = ground arith
ip_beq_iff (v6 a) (v6 b) = ground (arith, nat_beq_iff a b)

instance abbrev pub ip_eq : Eq IpAddr
ip_eq = record { same = ip_beq; same_iff = ip_beq_iff }
