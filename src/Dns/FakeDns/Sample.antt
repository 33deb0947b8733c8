-- ===== src/Dns/FakeDns/Sample.antt =====
-- FakeDNS over association lists, for tests.
use home_guard.Prelude.{refl, some, arith, nat_eq, list_eq}
use home_guard.Prelude.Text.{bytes, to_lowercase, trim_end}
use home_guard.Prelude.Map
use home_guard.Crates.DashMap.{list_table}
use home_guard.Crates.LruCache.{list_lru}
use home_guard.Crates.Recency
use home_guard.Dns.FakeDns.{
  Tables, Ipv4Net, FakeDns, normalize, new, unlink, evict, advance, reclaim, assign,
  allocate_new_ip, touch, allocate, lookup, is_fake_ip,
}
use home_guard.Dns.FakeDns.Invariant.{IsValid}
use home_guard.Dns.FakeDns.Reach.{IsHostPool, new-IsValid}

abbrev pub tables : Tables
tables = record { by_ip = list_table; by_domain = list_table; recent = list_lru }

-- 198.18.0.0/24
abbrev pub net : Ipv4Net
net = record {
  network = 0xc612_0000;
  broadcast = 0xc612_00ff;
  first_host = some 0xc612_0001;
  last_host = some 0xc612_00fe;
}

pub net-IsHostPool : IsHostPool tables net
net-IsHostPool = record { first = refl; last = refl; wide = omega arith; word = omega arith }

abbrev pub start : FakeDns tables
start = new tables net 3

abbrev pub one : FakeDns tables
one = (allocate tables (bytes "google.com") start).1

unfoldable pub program : Unit {0}
unfolding normalize new unlink evict advance reclaim assign allocate_new_ip touch allocate lookup
    is_fake_ip Map.lookup Map.insert Map.remove Recency.get Recency.put Recency.pop Recency.pop_lru
    Recency.split_last to_lowercase trim_end
program = tt

pub start-IsValid : IsValid tables start
start-IsValid = new-IsValid tables net 3 net-IsHostPool
