-- ===== src/Crates/SimpleDns.antt =====
-- The crate `simple_dns`: parsing a packet. What the program reads of the result are the questions and
-- the TTLs of the answers, and a packet that parses has a header of twelve bytes.
use home_guard.Prelude.{ℕ, ◌≤◌, ◌≡◌, Option, some, List, length}
use home_guard.Prelude.Text.{Text}

pub record Question : Type 0 where
  pub qname : Text
  pub qtype : ℕ

pub record Packet : Type 0 where
  pub questions : List Question
  pub answer_ttls : List ℕ

pub record SimpleDns : Type 0 where
  pub parse : Text → Option Packet
  pub parse_length : (s : Text) (p : Packet) → parse s ≡ some p → 12 ≤ length s

-- The codes of RCODE that the program answers with.
abbrev pub format_error : ℕ
format_error = 1

abbrev pub name_error : ℕ
name_error = 3
