-- ===== src/Dns/FakeDns/Tests.antt =====
-- FakeDNS over association lists: runs of the repository's tests, and the theorems at inputs.
use home_guard.Prelude.{ℕ, ◌≤◌, ◌≡◌, ◌⊎◌, refl, true, some, arith, length, nat_eq, list_eq}
use home_guard.Prelude.Text.{bytes}
use home_guard.Crates.Recency
use home_guard.Dns.FakeDns.{Ipv4Net, normalize, allocate, lookup, is_fake_ip}
use home_guard.Dns.FakeDns.Invariant.{IsValid, recent}
use home_guard.Dns.FakeDns.Reach.{
  fresh, later, allocating, allocate-IsValid, lookup-allocate, allocate-kept, Reach-lookup,
}
use home_guard.Dns.FakeDns.Sample.{tables, net, net-IsHostPool, start, one, program, start-IsValid}

-- `test_fake_dns_reuse`, `test_fake_dns_trailing_dot`
reuse :
    ((allocate tables (bytes "GOOGLE.COM") one).0 ≡ 0xc612_0001)
    × ((allocate tables (bytes "google.com.") one).0 ≡ 0xc612_0001)
    × ((allocate tables (bytes "facebook.com") one).0 ≡ 0xc612_0002)
unfolding program
reuse = (refl, refl, refl)

one-IsValid : IsValid tables one
one-IsValid = allocate-IsValid tables (bytes "google.com") start start-IsValid

allocate-IsValid_example : IsValid tables (allocate tables (bytes "a.com") one).1
allocate-IsValid_example = allocate-IsValid tables (bytes "a.com") one one-IsValid

lookup-allocate_example :
    let (ip, t) = allocate tables (bytes "A.com.") one in
    (lookup tables ip t).0 ≡ some (normalize (bytes "A.com."))
lookup-allocate_example = lookup-allocate tables (bytes "A.com.") one one-IsValid

allocate-kept_example :
    ((lookup tables 0xc612_0001 (allocate tables (bytes "a.com") one).1).0
      ≡ some (bytes "google.com"))
    ⊎ (((recent tables one).cap ≤ length (recent tables one).items)
        × ((Recency.pop_lru (recent tables one)).0 ≡ some (0xc612_0001, tt)))
unfolding program
allocate-kept_example =
    allocate-kept tables (bytes "a.com") one 0xc612_0001 (bytes "google.com") one-IsValid refl
      (omega arith)

Reach-lookup_example :
    ◌≡◌ {A = ℕ} 0xc612_0001 0xc612_0001
    × (is_fake_ip tables 0xc612_0001 one ≡ true)
    × (length (recent tables one).items ≤ (recent tables one).cap)
unfolding program
Reach-lookup_example =
    Reach-lookup tables net 3 one 0xc612_0001 0xc612_0001 (bytes "google.com") net-IsHostPool
      (later (allocating (bytes "google.com")) fresh) refl refl

-- 10.0.0.1/32
abbrev single : Ipv4Net
single = record {
  network = 0x0a00_0001;
  broadcast = 0x0a00_0001;
  first_host = some 0x0a00_0001;
  last_host = some 0x0a00_0001;
}
