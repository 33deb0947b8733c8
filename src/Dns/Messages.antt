-- ===== src/Dns/Messages.antt =====
-- src/dns/handler.rs: the responses that are built here. A response is none where the code panics.
pub mod Shape
use home_guard.Prelude.{
  ℕ, zero, suc, ◌+◌, ◌-◌, ◌*◌, ◌/◌, ◌%◌, ◌^◌, Option, none, some, List, [], ◌∷◌, ◌++◌,
  if◌then◌else◌, ◌==◌, nat_eq, ltb, leb, length, take, drop, get_elem?, ◌>>=◌,
}
use home_guard.Prelude.Text.{Text, bytes}
use home_guard.Prelude.BigEndian.{be_bytes}
use home_guard.Crates.SimpleDns.{SimpleDns, Packet, Question, name_error}
use home_guard.Dns.Resolver.{HomeGuardError, Result, ok, err, dns}

abbrev pub too_short : Result Text
too_short = err (dns (bytes "Query too short"))

abbrev pub zeros : ℕ → Text
zeros zero = []
zeros (suc n) = 0 ∷ zeros n

unfoldable pub build_error_response : Text → ℕ → Result Text
build_error_response query rcode =
    if ltb (length query) 12 then too_short else ok (take 2 query ++ (0x80 ∷ rcode ∷ zeros 8))

-- "Truncate to header + question"
unfoldable pub truncate_question : Option Packet → Text → Text
truncate_question none response = response
truncate_question (some p) response = elim p.questions [
  | [] ↦ response
  | q ∷ rest ↦
      let question_end = 12 + (length q.qname + 2) + 4 in
      if ltb question_end (length response) then take question_end response else response
]

-- The header: the identifier, the flags, the count of questions, and no records.
abbrev pub nxdomain_header : Text → ℕ → Text
nxdomain_header query flags =
    take 2 query ++ (0x81 ∷ (flags / 16 * 16 + name_error) ∷ take 2 (drop 4 query)) ++ zeros 6

-- The loop that looks for the end of the name, on fuel.
unfoldable pub question_loop : ℕ → Text → ℕ → Option ℕ
question_loop zero query offset = none
question_loop (suc fuel) query offset = elim (get_elem? query offset) [
  | none ↦ some offset
  | some len ↦ if len == 0 then some (offset + 1) else question_loop fuel query (offset + (1 + len))
]

-- "Copy question section from query"
unfoldable pub copy_question : Text → Option Text
unfolding question_loop
copy_question query =
    if ltb 12 (length query)
    then (question_loop (suc (length query)) query 12 >>= λ name_end.
        if leb (name_end + 4) (length query)
        then some (drop 12 (take (name_end + 4) query))
        else some [])
    else some []

abbrev pub a_header : Text → Text
a_header query = take 2 query ++ (0x81 ∷ 0x80 ∷ 0 ∷ 1 ∷ 0 ∷ 1 ∷ zeros 4)

-- The record: a pointer to the question, the type, the class, the TTL and the address.
abbrev pub a_record : ℕ → ℕ → Text
a_record ttl ip = 0xc0 ∷ 0x0c ∷ 0 ∷ 1 ∷ 0 ∷ 1 ∷ be_bytes 4 ttl ++ (0 ∷ 4 ∷ be_bytes 4 ip)

unfoldable pub build_a_response : ℕ → Text → ℕ → Option (Result Text)
unfolding copy_question
build_a_response cache_ttl query ip =
    if ltb (length query) 12
    then some too_short
    else (copy_question query >>= λ question.
        some (ok (a_header query ++ (question ++ a_record (cache_ttl % 2 ^ 32) ip))))

module _ (S : SimpleDns) where
  unfoldable pub build_nxdomain_response : Text → Option (Result Text)
  unfolding truncate_question
  build_nxdomain_response query =
      if ltb (length query) 12
      then some too_short
      else (get_elem? query 3 >>= λ flags.
          some
            (ok (truncate_question (S.parse query) (nxdomain_header query flags ++ drop 12 query))))
