-- ===== src/Dns/Resolver.antt =====
-- src/dns/resolver.rs: the upstream servers and the order they are asked in. The exchange with one
-- server, `query_upstream`, is an argument, and so is the parser of socket addresses.
pub mod Order
use home_guard.Prelude.{ℕ, Option, none, some, List, [], ◌∷◌, ◌++◌}
use home_guard.Prelude.Text.{Text, bytes}
use home_guard.Prelude.Net.{IpAddr}

-- The errors of src/error.rs that the DNS service makes.
pub data HomeGuardError : Type 0 where
  invalid_config dns : Text → HomeGuardError

pub data Result {ℓ} (A : Type ℓ) : Type ℓ where
  ok : A → Result A
  err : HomeGuardError → Result A

abbrev pub SocketAddr : Type 0
SocketAddr = IpAddr × ℕ

pub record DnsResolver : Type 0 where
  pub upstreams : List SocketAddr
  pub timeout : ℕ

-- `s.parse().ok().or_else(...)`: with the default port when the text is no socket address.
abbrev pub parse_upstream : (Text → Option SocketAddr) → Text → Option SocketAddr
parse_upstream parse s = elim (parse s) [ some a ↦ some a | none ↦ parse (s ++ bytes ":53") ]

unfoldable pub parse_upstreams : (Text → Option SocketAddr) → List Text → List SocketAddr
parse_upstreams parse [] = []
parse_upstreams parse (s ∷ rest) = elim (parse_upstream parse s) [
  | none ↦ parse_upstreams parse rest
  | some a ↦ a ∷ parse_upstreams parse rest
]

unfoldable pub new : (Text → Option SocketAddr) → List Text → ℕ → Result DnsResolver
unfolding parse_upstreams
new parse [] timeout = err (invalid_config (bytes "At least one upstream DNS server is required"))
new parse (s ∷ rest) timeout = elim (parse_upstreams parse (s ∷ rest)) [
  | [] ↦ err (invalid_config (bytes "No valid upstream DNS server addresses"))
  | a ∷ more ↦ ok (record { upstreams = a ∷ more; timeout = timeout })
]

unfoldable pub with_defaults : (Text → Option SocketAddr) → Result DnsResolver
unfolding new
with_defaults parse = new parse (bytes "8.8.8.8:53" ∷ bytes "1.1.1.1:53" ∷ []) 5

-- `query_upstream`, for a timeout.
abbrev pub Exchange : Type 0
Exchange = ℕ → Text → SocketAddr → Result Text

-- `last_error.unwrap_or_else(...)`
abbrev pub give_up : Option HomeGuardError → HomeGuardError
give_up none = dns (bytes "All upstream DNS servers failed")
give_up (some e) = e

-- The loop of `resolve`, with the last error.
unfoldable pub resolve_loop :
    (SocketAddr → Result Text) → Option HomeGuardError → List SocketAddr → Result Text
resolve_loop ask last [] = err (give_up last)
resolve_loop ask last (upstream ∷ rest) = elim (ask upstream) [
  | ok response ↦ ok response
  | err e ↦ resolve_loop ask (some e) rest
]

unfoldable pub resolve : Exchange → Text → DnsResolver → Result Text
unfolding resolve_loop
resolve exchange query r = resolve_loop (exchange r.timeout query) none r.upstreams
