-- ===== src/Outbound/Address/RoundTrip.antt =====
-- Encoding and decoding of addresses are inverse to each other.
use home_guard.Prelude.{
  ℕ, suc, ◌+◌, ◌%◌, ◌^◌, ◌≤◌, ◌<◌, ◌≡◌, ◌≢◌, refl, sym, ap, ◌∙◌, true, false, some, [], ◌∷◌, ◌++◌,
  ◌==◌, nat_eq, ltb, leb, arith, length, length-append, length-take-le, drop, take-append,
}
use home_guard.Prelude.Text.{Text}
use home_guard.Prelude.BigEndian.{be_bytes, from_be-be_bytes, length-be_bytes}
use home_guard.Prelude.Utf8.{is_utf8}
use home_guard.Outbound.Address.{
  Address, socket_addr_v4, socket_addr_v6, domain, max_domain_len, encode, encoded_len, decoded,
  slice, decode_ipv4, decode_ipv6, decode_name, decode_domain, decode,
}

-- An address that the protocol can carry: numbers in their ranges, no flow information or scope, and
-- a name of 1 to 255 bytes that is a string.
abbrev pub IsEncodable : Address → Type 0
IsEncodable (socket_addr_v4 ip port) = (ip < 2 ^ 32) × (port < 2 ^ 16)
IsEncodable (socket_addr_v6 ip port flowinfo scope_id) =
    (ip < 2 ^ 128) × (port < 2 ^ 16) × (flowinfo ≡ 0) × (scope_id ≡ 0)
IsEncodable (domain name port) =
    (0 < length name) × (length name ≤ max_domain_len) × (is_utf8 name ≡ true) × (port < 2 ^ 16)

drop-append : (a b : Text) → drop (length a) (a ++ b) ≡ b
drop-append [] b = refl
drop-append (x ∷ a) b = drop-append a b

-- The slice that starts after a prefix.
slice-append :
    (a b c : Text) (i n : ℕ) → i ≡ length a → n ≡ length b → slice i n (a ++ (b ++ c)) ≡ some b
unfolding slice
slice-append a b c i n at size =
    let fits : leb (length a + length b) (length (a ++ (b ++ c))) ≡ true =
      ground (arith, length-append a (b ++ c), length-append b c) in
    rw (at, size, fits, drop-append a (b ++ c), take-append b c) refl

append3 : (a b c : Text) → (a ++ b) ++ c ≡ a ++ (b ++ c)
append3 [] b c = refl
append3 (x ∷ a) b c = ap (◌∷◌ x) (append3 a b c)

decode_ipv4-encode :
    (ip port : ℕ) (rest : Text)
    → ip < 2 ^ 32
    → port < 2 ^ 16
    → decode_ipv4 (1 ∷ be_bytes 4 ip ++ (be_bytes 2 port ++ rest))
      ≡ some (decoded (socket_addr_v4 ip port) 7)
unfolding decode_ipv4
decode_ipv4-encode ip port rest h k =
    let b = be_bytes 4 ip in
    let p = be_bytes 2 port in
    let long : ltb (length (1 ∷ b ++ (p ++ rest))) 7 ≡ false = ground (
      arith,
      length-append b (p ++ rest),
      length-append p rest,
      length-be_bytes 4 ip,
      length-be_bytes 2 port,
    ) in
    rw
      (
        long,
        slice-append (1 ∷ []) b (p ++ rest) 1 4 refl (sym (length-be_bytes 4 ip)),
        slice-append (1 ∷ b) p rest 5 2 (ap suc (sym (length-be_bytes 4 ip)))
            (sym (length-be_bytes 2 port)),
        from_be-be_bytes 4 ip h,
        from_be-be_bytes 2 port k,
      )
      refl

decode_ipv6-encode :
    (ip port : ℕ) (rest : Text)
    → ip < 2 ^ 128
    → port < 2 ^ 16
    → decode_ipv6 (4 ∷ be_bytes 16 ip ++ (be_bytes 2 port ++ rest))
      ≡ some (decoded (socket_addr_v6 ip port 0 0) 19)
unfolding decode_ipv6
decode_ipv6-encode ip port rest h k =
    let b = be_bytes 16 ip in
    let p = be_bytes 2 port in
    let long : ltb (length (4 ∷ b ++ (p ++ rest))) 19 ≡ false = ground (
      arith,
      length-append b (p ++ rest),
      length-append p rest,
      length-be_bytes 16 ip,
      length-be_bytes 2 port,
    ) in
    rw
      (
        long,
        slice-append (4 ∷ []) b (p ++ rest) 1 16 refl (sym (length-be_bytes 16 ip)),
        slice-append (4 ∷ b) p rest 17 2 (ap suc (sym (length-be_bytes 16 ip)))
            (sym (length-be_bytes 2 port)),
        from_be-be_bytes 16 ip h,
        from_be-be_bytes 2 port k,
      )
      refl

decode_name-encode :
    (name : Text) (port : ℕ) (rest : Text)
    → 0 < length name
    → length name ≤ max_domain_len
    → is_utf8 name ≡ true
    → port < 2 ^ 16
    → decode_name (length name) (3 ∷ length name ∷ name ++ (be_bytes 2 port ++ rest))
      ≡ some (decoded (domain name port) (encoded_len (domain name port)))
unfolding decode_name encoded_len
decode_name-encode name port rest some_byte short text k =
    let p = be_bytes 2 port in
    let n = length name in
    let input = 3 ∷ n ∷ name ++ (p ++ rest) in
    let nonempty : (n == 0) ≡ false = ground arith in
    let small : ltb max_domain_len n ≡ false = ground arith in
    let long : ltb (length input) (2 + n + 2) ≡ false =
      ground
        (arith, length-append name (p ++ rest), length-append p rest, length-be_bytes 2 port) in
    rw
      (
        nonempty,
        small,
        long,
        slice-append (3 ∷ n ∷ []) name (p ++ rest) 2 n refl refl,
        text,
        slice-append (3 ∷ n ∷ name) p rest (2 + n) 2 (omega arith) (sym (length-be_bytes 2 port)),
        from_be-be_bytes 2 port k,
      )
      refl

-- Two bytes are enough to read the length.
pub decode_domain-cons :
    (t n : ℕ) (xs : Text) → decode_domain (t ∷ n ∷ xs) ≡ decode_name n (t ∷ n ∷ xs)
unfolding decode_domain
decode_domain-cons t n xs =
    let long : ltb (suc (suc (length xs))) 2 ≡ false = ground arith in rw long refl

-- What `encode` writes for an address that the protocol can carry, `decode` reads back from the front
-- of any input, and it reports the length that `encoded_len` gives.
pub decode-encode :
    (a : Address) (rest : Text)
    → IsEncodable a
    → decode (encode a ++ rest) ≡ some (decoded a (encoded_len a))
unfolding decode encode encoded_len
decode-encode (socket_addr_v4 ip port) rest (h, k) =
    rw (append3 (be_bytes 4 ip) (be_bytes 2 port) rest) (decode_ipv4-encode ip port rest h k)
decode-encode (socket_addr_v6 ip port flowinfo scope_id) rest (h, k, no_flow, no_scope) =
    rw (append3 (be_bytes 16 ip) (be_bytes 2 port) rest, no_flow, no_scope)
      (decode_ipv6-encode ip port rest h k)
decode-encode (domain name port) rest (some_byte, short, text, k) =
    let byte : length name % 256 ≡ length name = omega arith in
    rw (append3 name (be_bytes 2 port) rest, byte)
      (decode_domain-cons 3 (length name) (name ++ (be_bytes 2 port ++ rest))
        ∙ decode_name-encode name port rest some_byte short text k)

pub length-encode : (a : Address) → length (encode a) ≡ encoded_len a
unfolding encode encoded_len
length-encode (socket_addr_v4 ip port) = omega (
  arith,
  length-append (be_bytes 4 ip) (be_bytes 2 port),
  length-be_bytes 4 ip,
  length-be_bytes 2 port,
)
length-encode (socket_addr_v6 ip port flowinfo scope_id) = omega (
  arith,
  length-append (be_bytes 16 ip) (be_bytes 2 port),
  length-be_bytes 16 ip,
  length-be_bytes 2 port,
)
length-encode (domain name port) =
    omega (arith, length-append name (be_bytes 2 port), length-be_bytes 2 port)

-- A name that is read is no longer than its length byte says.
decode_name-length :
    (n : ℕ) (input name : Text) (port k : ℕ)
    → decode_name n input ≡ some (decoded (domain name port) k)
    → length name ≤ n
unfolding decode_name slice
decode_name-length n input name port k h = ground (arith, length-take-le n (drop 2 input))

-- The length byte of a name longer than 255 bytes wraps around: whatever follows, `decode` does not
-- read that name back, with any port and any count of bytes.
pub decode-encode_long :
    (name : Text) (port port' k : ℕ) (rest : Text)
    → max_domain_len < length name
    → decode (encode (domain name port) ++ rest) ≢ some (decoded (domain name port') k)
unfolding decode encode
decode-encode_long name port port' k rest long h =
    let wrapped : length name % 256 < length name = omega arith in
    let e : decode_name (length name % 256)
          (3 ∷ length name % 256 ∷ (name ++ be_bytes 2 port) ++ rest)
        ≡ some (decoded (domain name port') k) =
      sym (decode_domain-cons 3 (length name % 256) ((name ++ be_bytes 2 port) ++ rest)) ∙ h in
    omega (
      arith,
      decode_name-length (length name % 256)
          (3 ∷ length name % 256 ∷ (name ++ be_bytes 2 port) ++ rest) name port' k e,
    )
