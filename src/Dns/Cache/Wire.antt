-- ===== src/Dns/Cache/Wire.antt =====
-- The rewriting of TTL fields stays inside the response: it never panics, and keeps the length and the
-- header.
use home_guard.Prelude.{
  ℕ, zero, suc, ◌+◌, ◌≤◌, ◌<◌, ◌≡◌, ◌⊎◌, refl, ap, ◌∙◌, inl, inr, Option, some, [], ◌∷◌, ◌++◌, ◌==◌,
  nat_eq, ltb, leb, arith, Bool-cases, Option-cases, length, length-append, length-take_le,
  get_elem?-lt, get_elem?-some, length-drop_le, take, drop, get_elem?,
}
use home_guard.Prelude.Text.{Text}
use home_guard.Prelude.BigEndian.{be_bytes, from_be, length-be_bytes}
use home_guard.Dns.Cache.{
  skip_loop, skip_name, read_u16, write_at, skip_questions, update_records, update_response_ttl,
}

read_u16-some : (i : ℕ) (s : Text) → i + 1 < length s → (v : ℕ) × (read_u16 i s ≡ some v)
unfolding read_u16
read_u16-some i s h =
    let (x, high) = get_elem?-some s i (omega arith) in
    let (y, low) = get_elem?-some s (i + 1) h in (from_be (x ∷ y ∷ []), rw (high, low) refl)

-- The offset after a name is 0 or lies ahead.
abbrev Ahead : ℕ → Option ℕ → Type 0
Ahead offset r = (next : ℕ) × (r ≡ some next) × ((next ≡ 0) ⊎ (offset < next))

Ahead-trans : (a b : ℕ) (r : Option ℕ) → a ≤ b → Ahead b r → Ahead a r
Ahead-trans a b r h (next, e, inl z) = (next, e, inl z)
Ahead-trans a b r h (next, e, inr k) = (next, e, inr (omega arith))

skip_loop-Ahead :
    (fuel : ℕ) (s : Text) (offset : ℕ)
    → 0 < fuel
    → length s < offset + fuel
    → Ahead offset (skip_loop fuel s offset)
unfolding skip_loop
skip_loop-Ahead zero s offset h k = absurd (omega arith)
skip_loop-Ahead (suc fuel) s offset h k = elim (Option-cases (get_elem? s offset)) [
  | inl out ↦ rw (out, skip_loop) (0, refl, inl refl)
  | inr (len, there_is) ↦ elim (Bool-cases (len == 0)) [
    | inl end ↦ rw (there_is, end, skip_loop) (offset + 1, refl, inr (omega arith))
    | inr label ↦ elim (Bool-cases (leb 192 len)) [
      | inl pointer ↦ rw (there_is, label, pointer, skip_loop) (offset + 2, refl, inr (omega arith))
      | inr plain ↦ elim (Bool-cases (ltb 63 len)) [
        | inl long ↦ rw (there_is, label, plain, long, skip_loop) (0, refl, inl refl)
        | inr short ↦
            rw (there_is, label, plain, short, skip_loop)
              (Ahead-trans offset (offset + (1 + len)) _ (omega arith) (
                skip_loop-Ahead fuel s (offset + (1 + len))
                  (omega (arith, get_elem?-lt s offset there_is)) (omega (arith))))
      ]
    ]
  ]
]

skip_name-Ahead : (s : Text) (offset : ℕ) → Ahead offset (skip_name s offset)
unfolding skip_name
skip_name-Ahead s offset = elim (Bool-cases (leb (length s) offset)) [
  | inl out ↦ rw out (0, refl, inl refl)
  | inr inside ↦ rw inside (skip_loop-Ahead (suc (length s)) s offset (omega arith) (omega arith))
]

length-write_at :
    (i : ℕ) (bs s : Text) → i + length bs ≤ length s → length (write_at i bs s) ≡ length s
unfolding write_at
length-write_at i bs s h = omega (
  arith,
  length-append (take i s) (bs ++ drop (i + length bs) s),
  length-append bs (drop (i + length bs) s),
  length-take_le i s (omega arith),
  length-drop_le (i + length bs) s h,
)

take-take-append : (n i : ℕ) (s t : Text) → n ≤ i → i ≤ length s → take n (take i s ++ t) ≡ take n s
take-take-append zero i s t h k = refl
take-take-append (suc n) zero s t h k = absurd (omega arith)
take-take-append (suc n) (suc i) [] t h k = absurd (omega arith)
take-take-append (suc n) (suc i) (x ∷ s) t h k =
    ap (◌∷◌ x) (take-take-append n i s t (omega arith) (omega arith))

-- What the rewriting keeps.
pub record Keeps (s : Text) (r : Option Text) : Type 0 where
  pub result : Text
  pub returned : r ≡ some result
  pub same_length : length result ≡ length s
  pub same_header : take 12 result ≡ take 12 s

unchanged : (s : Text) → Keeps s (some s)
unchanged s = record { result = s; returned = refl; same_length = refl; same_header = refl }

header_kept : (s bs : Text) (i : ℕ) → 12 ≤ i → i ≤ length s → take 12 (write_at i bs s) ≡ take 12 s
unfolding write_at
header_kept s bs i h k = take-take-append 12 i s (bs ++ drop (i + length bs) s) h k

update_records-Keeps :
    (n new_ttl : ℕ) (s : Text) (offset : ℕ)
    → 12 ≤ offset
    → Keeps s (update_records n new_ttl s offset)
unfolding update_records
update_records-Keeps zero new_ttl s offset h = unchanged s
update_records-Keeps (suc n) new_ttl s offset h =
    let (next, skipped, ahead) = skip_name-Ahead s offset in
    elim (Bool-cases (next == 0)) [
      | inl stop ↦ rw (skipped, stop) (unchanged s)
      | inr go ↦ elim (Bool-cases (ltb (length s) (next + 10))) [
        | inl short ↦ rw (skipped, go, short) (unchanged s)
        | inr long ↦
            let beyond : offset < next = ground arith in
            let enough : next + 10 ≤ length s = ground arith in
            let t = write_at (next + 4) (be_bytes 4 new_ttl) s in
            let size : length t ≡ length s =
              length-write_at (next + 4) (be_bytes 4 new_ttl) s
                (omega (arith, length-be_bytes 4 new_ttl)) in
            let (v, field) = read_u16-some (next + 8) t (omega arith) in
            let k = update_records-Keeps n new_ttl t (next + (10 + v)) (omega arith) in
            rw (skipped, go, long, field)
              (record {
                result = k.result;
                returned = k.returned;
                same_length = k.same_length ∙ size;
                same_header =
                    k.same_header
                    ∙ header_kept s (be_bytes 4 new_ttl) (next + 4) (omega arith) (omega arith);
              })
      ]
    ]

skip_questions-Ahead :
    (n : ℕ) (s : Text) (offset : ℕ)
    → 12 ≤ offset
    → (next : ℕ) × (skip_questions n s offset ≡ some next) × ((next ≡ 0) ⊎ (12 ≤ next))
unfolding skip_questions
skip_questions-Ahead zero s offset h = (offset, refl, inr h)
skip_questions-Ahead (suc n) s offset h =
    let (next, skipped, ahead) = skip_name-Ahead s offset in
    elim (Bool-cases (next == 0)) [
      | inl stop ↦ rw (skipped, stop) (0, refl, inl refl)
      | inr go ↦ rw (skipped, go) (skip_questions-Ahead n s (next + 4) (ground arith))
    ]

-- Whatever the bytes of a response, its length fields and its compression, the rewriting of the TTL
-- fields returns (it never indexes outside the response, and every name is skipped in a bounded number
-- of steps), and the result has the length and the twelve bytes of header of the response.
pub update_response_ttl-Keeps : (new_ttl : ℕ) (s : Text) → Keeps s (update_response_ttl new_ttl s)
unfolding update_response_ttl
update_response_ttl-Keeps new_ttl s = elim (Bool-cases (ltb (length s) 12)) [
  | inl short ↦ rw short (unchanged s)
  | inr long ↦
      let enough : 12 ≤ length s = ground arith in
      let (q, qd) = read_u16-some 4 s (omega arith) in
      let (a, an) = read_u16-some 6 s (omega arith) in
      let (n, ns) = read_u16-some 8 s (omega arith) in
      let (r, ar) = read_u16-some 10 s (omega arith) in
      let (offset, skipped, ahead) = skip_questions-Ahead q s 12 (omega arith) in
      elim (Bool-cases (offset == 0)) [
        | inl stop ↦ rw (long, qd, an, ns, ar, skipped, stop) (unchanged s)
        | inr go ↦
            rw (long, qd, an, ns, ar, skipped, go)
              (update_records-Keeps (a + n + r) new_ttl s offset (ground arith))
      ]
]
