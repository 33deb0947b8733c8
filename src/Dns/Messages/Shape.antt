-- ===== src/Dns/Messages/Shape.antt =====
-- src/dns/handler.rs: the shape of the responses that are built there.
use home_guard.Prelude.{
  ℕ, zero, suc, ◌+◌, ◌-◌, ◌*◌, ◌/◌, ◌%◌, ◌^◌, ◌≤◌, ◌<◌, ◌≡◌, refl, sym, ap, ◌∙◌, Bool-cases,
  Option-cases, inl, inr, false, Option, none, some, List, [], ◌∷◌, ◌++◌, ◌==◌, nat_eq, ltb, leb,
  length, take, drop, get_elem?, length-append, length-take_le, get_elem?-lt, get_elem?-some,
  length-drop_le, take-take, take-append, drop-suffix, le→ltb_false, arith,
}
use mathlib.Core.List.{append_assoc}
use home_guard.Prelude.Text.{Text}
use home_guard.Prelude.BigEndian.{be_bytes, length-be_bytes}
use home_guard.Crates.SimpleDns.{SimpleDns, Packet, Question, name_error}
use home_guard.Dns.Resolver.{ok}
use home_guard.Dns.Messages.{
  zeros, truncate_question, nxdomain_header, build_nxdomain_response, question_loop, copy_question,
  a_header, a_record, build_a_response,
}

take-truncate_question :
    (m : ℕ) (p : Option Packet) (s : Text) → m ≤ 12 → take m (truncate_question p s) ≡ take m s
unfolding truncate_question
take-truncate_question m none s h = refl
take-truncate_question m (some p) s h = go p.questions refl
  where
    go : (qs : List Question) → p.questions ≡ qs → take m (truncate_question (some p) s) ≡ take m s
    go [] same = rw (truncate_question, same)
    go (q ∷ rest) same = elim (Bool-cases (ltb (12 + (length q.qname + 2) + 4) (length s))) [
      | inl long ↦ rw (truncate_question, same, long) (take-take m _ s (omega arith))
      | inr short ↦ rw (truncate_question, same, short)
    ]

length-nxdomain_header :
    (query : Text) (flags : ℕ) → 12 ≤ length query → length (nxdomain_header query flags) ≡ 12
length-nxdomain_header query flags h =
    let id = length-take_le 2 query (omega arith) in
    let rest = length-drop_le 4 query (omega arith) in
    let counts = length-take_le 2 (drop 4 query) (omega arith) in
    let front =
      length-append (take 2 query)
        (0x81 ∷ (flags / 16 * 16 + name_error) ∷ take 2 (drop 4 query)) in
    length-append (take 2 query ++ (0x81 ∷ (flags / 16 * 16 + name_error) ∷ take 2 (drop 4 query)))
      (zeros 6)
    ∙ omega (arith, id, rest, counts, front)

-- A query with a header is answered with its identifier, the response and recursion bits, the code
-- for a name that does not exist, and no records.
pub build_nxdomain_response_lem :
    (S : SimpleDns) (query : Text)
    → 12 ≤ length query
    → (flags : ℕ) × (r : Text) × (build_nxdomain_response S query ≡ some (ok r))
      × (get_elem? query 3 ≡ some flags)
      × (take 12 r ≡ nxdomain_header query flags)
unfolding build_nxdomain_response
build_nxdomain_response_lem S query h =
    let (flags, found) = get_elem?-some query 3 (omega arith) in
    let whole = nxdomain_header query flags ++ drop 12 query in
    let size = length-nxdomain_header query flags h in
    let long : ltb (length query) 12 ≡ false = le→ltb_false (length query) 12 h in
    (
      flags,
      truncate_question (S.parse query) whole,
      rw (build_nxdomain_response, long, found),
      found,
      take-truncate_question 12 (S.parse query) whole (omega arith)
          ∙ ap (λ n. take n whole) (sym size)
          ∙ take-append (nxdomain_header query flags) (drop 12 query),
    )

-- The loop comes to an end: the fuel is enough when it covers what is left of the query.
question_loop_lem :
    (fuel : ℕ) (query : Text) (offset : ℕ)
    → 0 < fuel
    → length query < offset + fuel
    → (n : ℕ) × (question_loop fuel query offset ≡ some n)
unfolding question_loop
question_loop_lem zero query offset h k = absurd (omega arith)
question_loop_lem (suc fuel) query offset h k = elim (Option-cases (get_elem? query offset)) [
  | inl out ↦ (offset, rw (question_loop, out))
  | inr (len, there_is) ↦ elim (Bool-cases (len == 0)) [
    | inl end ↦ (offset + 1, rw (question_loop, there_is, end))
    | inr label ↦
        let inside = get_elem?-lt query offset there_is in
        let (n, found) =
          question_loop_lem fuel query (offset + (1 + len)) (omega arith) (omega arith) in
        (n, rw (question_loop, there_is, label, found))
  ]
]

copy_question-some : (query : Text) → (question : Text) × (copy_question query ≡ some question)
unfolding copy_question
copy_question-some query = elim (Bool-cases (ltb 12 (length query))) [
  | inr header ↦ ([], rw (copy_question, header))
  | inl more ↦
      let (n, found) =
        question_loop_lem (suc (length query)) query 12 (omega arith) (omega arith) in
      elim (Bool-cases (leb (n + 4) (length query))) [
        | inl whole ↦ (drop 12 (take (n + 4) query), rw (copy_question, more, found, whole))
        | inr cut ↦ ([], rw (copy_question, more, found, cut))
      ]
]

length-a_header : (query : Text) → 12 ≤ length query → length (a_header query) ≡ 12
length-a_header query h =
    length-append (take 2 query) (0x81 ∷ 0x80 ∷ 0 ∷ 1 ∷ 0 ∷ 1 ∷ zeros 4)
    ∙ omega (arith, length-take_le 2 query (omega arith))

-- A query with a header is answered with its identifier, one question and one answer, whose last
-- four bytes are the address.
pub build_a_response_lem :
    (cache_ttl ip : ℕ) (query : Text)
    → 12 ≤ length query
    → (r : Text) × (build_a_response cache_ttl query ip ≡ some (ok r))
      × (take 12 r ≡ a_header query)
      × (drop (length r - 4) r ≡ be_bytes 4 ip)
unfolding build_a_response
build_a_response_lem cache_ttl ip query h =
    let long : ltb (length query) 12 ≡ false = le→ltb_false (length query) 12 h in
    let (question, copied) = copy_question-some query in
    let ttl = be_bytes 4 (cache_ttl % 2 ^ 32) in
    let front = question ++ (0xc0 ∷ 0x0c ∷ 0 ∷ 1 ∷ 0 ∷ 1 ∷ ttl ++ 0 ∷ 4 ∷ []) in
    let whole = a_header query ++ (question ++ a_record (cache_ttl % 2 ^ 32) ip) in
    let parts : whole ≡ (a_header query ++ front) ++ be_bytes 4 ip = simp (append_assoc) in
    (
      whole,
      rw (build_a_response, long, copied),
      ap (λ n. take n whole) (sym (length-a_header query h)) ∙ take-append (a_header query) _,
      ap (λ t. drop (length t - 4) t) parts
          ∙ drop-suffix (a_header query ++ front) (be_bytes 4 ip) 4 (length-be_bytes 4 ip),
    )
