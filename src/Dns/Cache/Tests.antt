-- ===== src/Dns/Cache/Tests.antt =====
-- Runs of the response cache, and the theorems at inputs.
use home_guard.Prelude.{
  ℕ, ◌+◌, ◌-◌, ◌*◌, ◌/◌, ◌%◌, ◌^◌, ◌≤◌, ◌<◌, ◌≡◌, refl, none, some, [], ◌∷◌, ◌++◌, arith, nat_eq,
  list_eq, pair_eq,
}
use home_guard.Prelude.Map
use home_guard.Prelude.Text.{Text, bytes, to_lowercase, lower_byte}
use home_guard.Prelude.BigEndian.{le_bytes, from_le, be_bytes, from_be}
use home_guard.Crates.Recency
use home_guard.Crates.Recency.{IsDistinct}
use home_guard.Crates.LruCache.{list_lru}
use home_guard.Dns.Cache.{
  DnsCache, nanos, clamp, skip_loop, skip_name, read_u16, write_at, skip_questions, update_records,
  update_response_ttl, answer, new, get, insert, cleanup_expired,
}
use home_guard.Dns.Cache.Wire.{Keeps, update_response_ttl-Keeps}
use home_guard.Dns.Cache.Cleanup.{unexpired, lookup-cleanup_expired}
use home_guard.Dns.Cache.Expiry.{response_of, get-insert}

program : Unit {0}
unfolding to_lowercase lower_byte le_bytes from_le be_bytes from_be Map.lookup Map.remove
    Recency.get Recency.put Recency.pop clamp skip_loop skip_name read_u16 write_at skip_questions
    update_records update_response_ttl answer new get insert
program = tt

-- A response with one question and one answer, whose name is a pointer.
abbrev packet : ℕ → Text
packet ttl =
    0 ∷ 1 ∷ 0x81 ∷ 0x80 ∷ 0 ∷ 1 ∷ 0 ∷ 1 ∷ 0 ∷ 0 ∷ 0 ∷ 0 ∷ 1 ∷ b'a' ∷ 0 ∷ 0 ∷ 1 ∷ 0 ∷ 1 ∷ 0xc0 ∷ 12
    ∷ 0 ∷ 1 ∷ 0 ∷ 1 ∷ 0 ∷ 0 ∷ 0 ∷ ttl ∷ 0 ∷ 4 ∷ 10 ∷ 0 ∷ 0 ∷ 1 ∷ []

-- The flags of an OPT record stand where other records have their TTL, and are overwritten.
abbrev opt : Text → Text
opt flags =
    0 ∷ 1 ∷ 0x81 ∷ 0x80 ∷ 0 ∷ 0 ∷ 0 ∷ 0 ∷ 0 ∷ 0 ∷ 0 ∷ 1 ∷ 0 ∷ 0 ∷ 41 ∷ 4 ∷ 0xd0 ∷ flags
    ++ 0 ∷ 0 ∷ []

runs :
    (update_response_ttl 7 (packet 99) ≡ some (packet 7))
    × (update_response_ttl 60 (opt (0 ∷ 0 ∷ 0x80 ∷ 0 ∷ [])) ≡ some (opt (0 ∷ 0 ∷ 0 ∷ 60 ∷ [])))
unfolding program
runs = (refl, refl)

update_response_ttl-Keeps_example : Keeps (packet 99) (update_response_ttl 7 (packet 99))
update_response_ttl-Keeps_example = update_response_ttl-Keeps 7 (packet 99)

abbrev cold : DnsCache list_lru
cold = new list_lru 2 60 3600

abbrev warm : DnsCache list_lru
warm = record cold {
  cache =
      Recency.put (bytes "a", 1)
        (record { response = packet 99; expires_at = 60 * nanos; original_ttl = 5; created_at = 0 })
        cold.cache;
}

inserted : insert list_lru 0 (bytes "A") 1 (packet 99) 5 cold ≡ some warm
unfolding program
inserted = refl

has_room : 0 < cold.cache.cap
unfolding program
has_room = omega arith

asked_lower : to_lowercase (bytes "a") ≡ to_lowercase (bytes "A")
unfolding program
asked_lower = refl

get-insert_example :
    (clamped : ℕ) × (clamp cold.min_ttl cold.max_ttl 5 ≡ some clamped)
    × (30 * nanos < 0 + clamped * nanos
        → (r : Text) × (update_response_ttl
              ((0 + clamped * nanos - 30 * nanos) / nanos % 2 ^ 32)
              (packet 99)
            ≡ some r)
          × (response_of list_lru (get list_lru (30 * nanos) (bytes "a") 1 warm) ≡ some (some r)))
    × (0 + clamped * nanos ≤ 30 * nanos
        → response_of list_lru (get list_lru (30 * nanos) (bytes "a") 1 warm) ≡ some none)
get-insert_example =
    get-insert list_lru 0 (30 * nanos) 5 1 (bytes "A") (bytes "a") (packet 99) cold warm has_room
      inserted asked_lower

warm-IsDistinct : IsDistinct warm.cache.items
unfolding program
warm-IsDistinct = (refl, tt)

lookup-cleanup_expired_example :
    Map.lookup (bytes "a", 1) (cleanup_expired list_lru (90 * nanos) warm).1.cache.items
    ≡ unexpired (90 * nanos) (Map.lookup (bytes "a", 1) warm.cache.items)
lookup-cleanup_expired_example =
    lookup-cleanup_expired list_lru (90 * nanos) (bytes "a", 1) warm warm-IsDistinct
