-- ===== src/Outbound/Tests.antt =====
-- The repository's tests of the address codec, and the theorems at inputs.
use home_guard.Prelude.{ℕ, zero, suc, ◌≡◌, ◌≢◌, refl, true, some, [], ◌∷◌, ◌++◌, arith}
use home_guard.Prelude.Text.{Text, bytes}
use home_guard.Prelude.BigEndian.{le_bytes, from_le, be_bytes, from_be}
use home_guard.Prelude.Utf8.{continuation, valid_from, is_utf8}
use home_guard.Outbound.Address.{
  Address, socket_addr_v4, domain, encode, encoded_len, failed, decoded, incomplete_ipv4,
  invalid_length, invalid_encoding, unknown_type, slice, decode_ipv4, decode_ipv6, decode_name,
  decode_domain, decode,
}
use home_guard.Outbound.Address.RoundTrip.{decode-encode, decode-encode_long}

program : Unit {0}
unfolding encode encoded_len continuation valid_from is_utf8 slice decode_ipv4 decode_ipv6
    decode_name decode_domain decode le_bytes from_le be_bytes from_be
program = tt

abbrev site : Address
site = domain (bytes "example.com") 443

runs :
    (encode (socket_addr_v4 0xc0a8_0101 8080) ≡ 1 ∷ 192 ∷ 168 ∷ 1 ∷ 1 ∷ 0x1f ∷ 0x90 ∷ [])
    × (encode site ≡ 3 ∷ 11 ∷ bytes "example.com" ++ 0x01 ∷ 0xbb ∷ [])
    × (decode (1 ∷ 192 ∷ 168 ∷ []) ≡ some (failed incomplete_ipv4))
    × (decode (3 ∷ 0 ∷ 0 ∷ 80 ∷ []) ≡ some (failed invalid_length))
    × (decode (3 ∷ 2 ∷ 0xc0 ∷ 0x80 ∷ 0 ∷ 80 ∷ []) ≡ some (failed invalid_encoding))
    × (decode (255 ∷ 0 ∷ []) ≡ some (failed (unknown_type 255)))
    × (decode (encode site ++ 7 ∷ []) ≡ some (decoded site 15))
unfolding program
runs = (refl, refl, refl, refl, refl, refl, refl)

site-is_utf8 : is_utf8 (bytes "example.com") ≡ true
unfolding program
site-is_utf8 = refl

decode-encode_example : decode (encode site ++ 22 ∷ 3 ∷ []) ≡ some (decoded site (encoded_len site))
decode-encode_example =
    decode-encode site (22 ∷ 3 ∷ []) (omega arith, omega arith, site-is_utf8, omega arith)

abbrev repeat : ℕ → Text
repeat zero = []
repeat (suc n) = b'a' ∷ repeat n

decode-encode_long_example :
    decode (encode (domain (repeat 300) 80) ++ []) ≢ some (decoded (domain (repeat 300) 80) 304)
decode-encode_long_example = decode-encode_long (repeat 300) 80 80 304 [] (omega arith)
