-- ===== src/Dns/Handler/Sample.antt =====
-- Queries at a small gateway, as inputs.
use home_guard.Prelude.{
  ℕ, ◌+◌, ◌≤◌, ◌≡◌, Bool-cases, inl, inr, Option, none, some, [], ◌∷◌, ◌++◌, if◌then◌else◌, ◌==◌,
  nat_eq, list_eq, pair_eq, ltb, ltb_false→le, length, take, drop,
}
use home_guard.Prelude.Net.{v4}
use home_guard.Prelude.Text.{Text, bytes, to_lowercase, lower_byte}
use home_guard.Prelude.BigEndian.{le_bytes, from_le, be_bytes, from_be}
use home_guard.Prelude.Map
use home_guard.Crates.Recency
use home_guard.Crates.LruCache.{list_lru}
use home_guard.Crates.SimpleDns.{SimpleDns, Packet, Question}
use home_guard.Control.Sample.{program as control_program, controller}
use home_guard.Dns.Cache.{
  clamp, skip_loop, skip_name, read_u16, write_at, skip_questions, update_records,
  update_response_ttl, answer, new, get, insert,
}
use home_guard.Dns.FakeDns.Sample.{program as fake_program, tables, start}
use home_guard.Dns.Resolver.{ok, err, Exchange, resolve, resolve_loop, dns}
use home_guard.Dns.Messages.{
  build_error_response, build_nxdomain_response, build_a_response, truncate_question, question_loop,
  copy_question,
}
use home_guard.Dns.Handler.{
  Clock, DnsHandler, is_refused, answer_question, answer_allowed, answer_miss, handle_query,
  forward, store_response, with_id,
}

-- A parser for names of one label and answers with a TTL of 300 seconds.
unfoldable pub parse_packet : Text → Option Packet
parse_packet s = if ltb (length s) 12 then none else elim (drop 12 s) [
  | [] ↦ some (record { questions = []; answer_ttls = [] })
  | len ∷ rest ↦ some (record {
    questions =
        record { qname = take len rest; qtype = from_be (take 2 (drop (len + 1) rest)) } ∷ [];
    answer_ttls = 300 ∷ [];
  })
]

pub parse_packet-length : (s : Text) (p : Packet) → parse_packet s ≡ some p → 12 ≤ length s
unfolding parse_packet
parse_packet-length s p h = elim (Bool-cases (ltb (length s) 12)) [
  | inl short ↦ cc (rw (parse_packet, short) at h)
  | inr long ↦ ltb_false→le (length s) 12 long
]

abbrev pub simple_dns : SimpleDns
simple_dns = record { parse = parse_packet; parse_length = parse_packet-length }

abbrev pub query : ℕ → Text → ℕ → Text
query id name qtype =
    0 ∷ id ∷ 1 ∷ 0 ∷ 0 ∷ 1 ∷ 0 ∷ 0 ∷ 0 ∷ 0 ∷ 0 ∷ 0 ∷ length name ∷ name
    ++ 0 ∷ 0 ∷ qtype ∷ 0 ∷ 1 ∷ []

-- The first server does not answer; the second one echoes the query.
abbrev pub exchange : Exchange
exchange timeout q (source, port) = if port == 53 then err (dns (bytes "Query timed out")) else ok q

abbrev pub handler : DnsHandler simple_dns list_lru tables
handler = record {
  filter = λ domain. domain == bytes "ads";
  cache = new list_lru 2 60 3600;
  fake_dns = some start;
  resolver = record { upstreams = (v4 8, 53) ∷ (v4 9, 5353) ∷ []; timeout = 5 };
  parental_controller = some controller;
  cache_ttl = 300;
}

abbrev pub clock : Clock
clock = record { instant = 0; time = 5 }

unfoldable pub program : Unit {0}
unfolding control_program fake_program parse_packet to_lowercase lower_byte le_bytes from_le
    be_bytes from_be Map.lookup Map.remove Recency.get Recency.put Recency.pop clamp skip_loop
    skip_name read_u16 write_at skip_questions update_records update_response_ttl answer new get
    insert resolve resolve_loop build_error_response build_nxdomain_response build_a_response
    truncate_question question_loop copy_question is_refused answer_question answer_allowed
    answer_miss handle_query forward store_response with_id
program = tt

-- The gateway without FakeDNS, and a response with one question and one answer.
abbrev pub plain : DnsHandler simple_dns list_lru tables
plain = record handler { fake_dns = none }

abbrev pub silent : Exchange
silent timeout q source = err (dns [])

abbrev pub packet_of : Question → Packet
packet_of q = record { questions = q ∷ []; answer_ttls = 300 ∷ [] }

abbrev pub site : Question
site = record { qname = bytes "x"; qtype = 1 }

abbrev pub site_query : Text
site_query = query 9 (bytes "x") 1
