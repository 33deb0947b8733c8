-- ===== src/Outbound/Address/Total.antt =====
-- Decoding of addresses, src/outbound/shadowsocks/address.rs, never panics.
use home_guard.Prelude.{
  ℕ, ◌+◌, ◌≤◌, ◌≡◌, ◌≢◌, refl, inl, inr, Option, none, some, [], ◌∷◌, ◌==◌, nat_eq, ltb, arith,
  Bool-cases, length, take, drop,
}
use home_guard.Prelude.Text.{Text}
use home_guard.Prelude.Utf8.{is_utf8}
use home_guard.Outbound.Address.{
  max_domain_len, Decoded, slice, decode_ipv4, decode_ipv6, decode_name, decode_domain, decode,
}
use home_guard.Outbound.Address.RoundTrip.{decode_domain-cons}

slice-total : (i n : ℕ) (s : Text) → i + n ≤ length s → slice i n s ≡ some (take n (drop i s))
unfolding slice
slice-total i n s h = ground arith

some_not_none : {o : Option Decoded} {r : Decoded} → o ≡ some r → o ≢ none
some_not_none e h = cc

decode_name-total : (n : ℕ) (input : Text) → decode_name n input ≢ none
unfolding decode_name
decode_name-total n input = elim (Bool-cases (n == 0)) [
  | inl nothing ↦ rw nothing (some_not_none refl)
  | inr some_byte ↦ elim (Bool-cases (ltb max_domain_len n)) [
    | inl big ↦ rw (some_byte, big) (some_not_none refl)
    | inr small ↦ elim (Bool-cases (ltb (length input) (2 + n + 2))) [
      | inl short ↦ rw (some_byte, small, short) (some_not_none refl)
      | inr long ↦
          let enough : 2 + n + 2 ≤ length input = ground arith in
          elim (Bool-cases (is_utf8 (take n (drop 2 input)))) [
            | inl text ↦
                rw
                  (
                    some_byte,
                    small,
                    long,
                    slice-total 2 n input (omega arith),
                    text,
                    slice-total (2 + n) 2 input (omega arith),
                  )
                  (some_not_none refl)
            | inr other ↦
                rw (some_byte, small, long, slice-total 2 n input (omega arith), other)
                  (some_not_none refl)
          ]
    ]
  ]
]

decode_ipv4-total : (input : Text) → decode_ipv4 input ≢ none
unfolding decode_ipv4
decode_ipv4-total input = elim (Bool-cases (ltb (length input) 7)) [
  | inl short ↦ rw short (some_not_none refl)
  | inr long ↦
      let enough : 7 ≤ length input = ground arith in
      rw (long, slice-total 1 4 input (omega arith), slice-total 5 2 input (omega arith))
        (some_not_none refl)
]

decode_ipv6-total : (input : Text) → decode_ipv6 input ≢ none
unfolding decode_ipv6
decode_ipv6-total input = elim (Bool-cases (ltb (length input) 19)) [
  | inl short ↦ rw short (some_not_none refl)
  | inr long ↦
      let enough : 19 ≤ length input = ground arith in
      rw (long, slice-total 1 16 input (omega arith), slice-total 17 2 input (omega arith))
        (some_not_none refl)
]

decode_domain-total : (input : Text) → decode_domain input ≢ none
unfolding decode_domain
decode_domain-total [] = some_not_none refl
decode_domain-total (t ∷ []) = some_not_none refl
decode_domain-total (t ∷ n ∷ s) = rw (decode_domain-cons t n s) (decode_name-total n (t ∷ n ∷ s))

-- `decode` never indexes outside its input: for every sequence of bytes it returns an address or an
-- error.
pub decode-total : (input : Text) → decode input ≢ none
unfolding decode
decode-total [] = some_not_none refl
decode-total (t ∷ s) =
    ground
      (arith, decode_ipv4-total (t ∷ s), decode_ipv6-total (t ∷ s), decode_domain-total (t ∷ s))
