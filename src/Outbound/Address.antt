-- ===== src/Outbound/Address.antt =====
-- src/outbound/shadowsocks/address.rs: the target address of a Shadowsocks request and its bytes. An
-- address of either family is its number, a string its bytes in UTF-8; `none` stands for a panic.
pub mod RoundTrip
pub mod Total
use home_guard.Prelude.{
  ℕ, ◌+◌, ◌-◌, ◌%◌, Bool, true, false, ◌&&◌, Option, none, some, List, [], ◌∷◌, ◌++◌, if◌then◌else◌,
  ◌==◌, nat_eq, ltb, leb, length, take, drop, get_elem?, ◌>>=◌,
}
use home_guard.Prelude.Utf8.{is_utf8}
use home_guard.Prelude.Text.{Text}
use home_guard.Prelude.BigEndian.{be_bytes, from_be}

abbrev pub atyp_ipv4 : ℕ
atyp_ipv4 = 1

abbrev pub atyp_domain : ℕ
atyp_domain = 3

abbrev pub atyp_ipv6 : ℕ
atyp_ipv6 = 4

abbrev pub max_domain_len : ℕ
max_domain_len = 255

pub data Address : Type 0 where
  socket_addr_v4 : (ip port : ℕ) → Address
  socket_addr_v6 : (ip port flowinfo scope_id : ℕ) → Address
  domain : (name : Text) (port : ℕ) → Address

unfoldable pub port_of : Address → ℕ
port_of (socket_addr_v4 ip port) = port
port_of (socket_addr_v6 ip port flowinfo scope_id) = port
port_of (domain name port) = port

unfoldable pub encode : Address → Text
encode (socket_addr_v4 ip port) = atyp_ipv4 ∷ be_bytes 4 ip ++ be_bytes 2 port
encode (socket_addr_v6 ip port flowinfo scope_id) = atyp_ipv6 ∷ be_bytes 16 ip ++ be_bytes 2 port
encode (domain name port) = atyp_domain ∷ length name % 256 ∷ name ++ be_bytes 2 port

unfoldable pub encoded_len : Address → ℕ
encoded_len (socket_addr_v4 ip port) = 7
encoded_len (socket_addr_v6 ip port flowinfo scope_id) = 19
encoded_len (domain name port) = 1 + 1 + length name + 2

pub data DecodeError : Type 0 where
  empty_data : DecodeError
  incomplete_ipv4 : DecodeError
  incomplete_ipv6 : DecodeError
  incomplete_domain : DecodeError
  invalid_length : DecodeError
  invalid_encoding : DecodeError
  unknown_type : ℕ → DecodeError

pub data Decoded : Type 0 where
  failed : DecodeError → Decoded
  decoded : Address → ℕ → Decoded

-- `&input[i..i + n]`
unfoldable pub slice : ℕ → ℕ → Text → Option Text
slice i n input = if leb (i + n) (length input) then some (take n (drop i input)) else none

unfoldable pub decode_ipv4 : Text → Option Decoded
unfolding slice
decode_ipv4 input =
    if ltb (length input) 7
    then some (failed incomplete_ipv4)
    else (slice 1 4 input >>= λ ip.
        slice 5 2 input >>= λ port. some (decoded (socket_addr_v4 (from_be ip) (from_be port)) 7))

unfoldable pub decode_ipv6 : Text → Option Decoded
unfolding slice
decode_ipv6 input =
    if ltb (length input) 19
    then some (failed incomplete_ipv6)
    else (slice 1 16 input >>= λ ip. slice 17 2 input >>= λ port.
        some (decoded (socket_addr_v6 (from_be ip) (from_be port) 0 0) 19))

unfoldable pub decode_name : ℕ → Text → Option Decoded
unfolding slice is_utf8
decode_name domain_len input =
    if (domain_len == 0)
    then some (failed invalid_length)
    else if ltb max_domain_len domain_len
    then some (failed invalid_length)
    else if ltb (length input) (2 + domain_len + 2)
    then some (failed incomplete_domain)
    else (slice 2 domain_len input >>= λ name.
        if is_utf8 name
        then (slice (2 + domain_len) 2 input >>= λ port.
            some (decoded (domain name (from_be port)) (2 + domain_len + 2)))
        else some (failed invalid_encoding))

unfoldable pub decode_domain : Text → Option Decoded
unfolding decode_name
decode_domain input =
    if ltb (length input) 2
    then some (failed incomplete_domain)
    else (get_elem? input 1 >>= λ domain_len. decode_name domain_len input)

unfoldable pub decode : Text → Option Decoded
unfolding decode_ipv4 decode_ipv6 decode_domain
decode [] = some (failed empty_data)
decode (atyp ∷ rest) =
    if atyp == atyp_ipv4
    then decode_ipv4 (atyp ∷ rest)
    else if atyp == atyp_ipv6
    then decode_ipv6 (atyp ∷ rest)
    else if atyp == atyp_domain
    then decode_domain (atyp ∷ rest)
    else some (failed (unknown_type atyp))
