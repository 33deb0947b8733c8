-- ===== src/Dns.antt =====
-- The DNS side of the gateway: FakeDNS, the response cache and the rewriting of responses.
pub mod Cache
pub mod FakeDns
pub mod Resolver
pub mod Messages
pub mod Handler
pub mod Server
