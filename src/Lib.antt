-- ===== src/Lib.antt =====
-- HomeGuard, a home gateway with parental controls, as models of its Rust sources with the theorems
-- that make them correct.
--
-- The program answers DNS queries of the devices of a home and proxies their connections. A query
-- (src/dns/handler.rs) is checked against the parental controls (src/control) and a filter; what is not
-- refused gets an address of a private pool from FakeDNS (src/dns/fake_dns.rs), or the answer of an
-- upstream server, which is kept in a cache (src/dns/cache.rs). A connection to a private address
-- (src/proxy/handler.rs) is turned back into its domain by FakeDNS, checked again, matched against the
-- rules (src/rule) and sent out directly or through an outbound (src/outbound): a group of proxies or a
-- Shadowsocks server, with an encrypted stream that starts with the target address.
--
-- Which file models which part:
--   Prelude            lists, tests, maps, texts, UTF-8, addresses and big-endian numbers
--   Crates             what the code relies on of third-party crates, as records of operations and laws:
--                      LruCache (lru), DashMap (dashmap), IpNet (ipnet), AhoCorasick (aho-corasick),
--                      MaxMind (maxminddb), Ring (ring and md-5), SimpleDns (simple_dns), Chrono; what meets
--                      the laws stands beside them, or in a Sample, for the tests
--   Config             src/config/parser.rs and the parts of src/config/types.rs that it validates
--   Dns.Handler        handle_query of src/dns/handler.rs; Local is about the queries answered here,
--                      Cached about those whose response was kept
--   Dns.Server         the task of src/dns/server.rs that answers one datagram; Replies is about what it
--                      sends
--   Dns.Messages       the responses that src/dns/handler.rs builds; Shape is about their bytes
--   Dns.Resolver       src/dns/resolver.rs; Order is about resolve
--   Dns.FakeDns        src/dns/fake_dns.rs; allocate_new_ip is cut into evict, advance, reclaim, assign
--   Dns.Cache          src/dns/cache.rs; Wire is about update_response_ttl, Expiry about
--                      get and insert, Cleanup about cleanup_expired
--   Rule.Types         src/rule/types.rs
--   Rule.Parser        src/rule/parser.rs, without the text of its errors
--   Rule.Trie          SuffixTrie of src/rule/matcher/domain.rs
--   Rule.Domain        DomainMatcher of src/rule/matcher/domain.rs
--   Rule.Ip            src/rule/matcher/ip.rs and geoip.rs
--   Rule.Engine        src/rule/engine.rs
--   Control.Blocklist  src/control/blocklist.rs; Lines says what a line stands for, Entries what an entry
--                      adds
--   Control.Device     src/control/device.rs and the device types of src/config/types.rs
--   Control.Grant      src/control/grant.rs and the grant row of src/storage/models.rs
--   Control.Controller src/control/controller.rs
--   Outbound.Address   src/outbound/shadowsocks/address.rs
--   Outbound.Group     src/outbound/group/select.rs, fallback.rs and url_test.rs; a proxy is an interface
--   Outbound.Manager   src/outbound/manager.rs and ProxyGroup of src/outbound/group/mod.rs; Members,
--                      Soundness and Groups are about from_config
--   Outbound.Shadowsocks
--                      Cipher: src/outbound/shadowsocks/cipher.rs; Client and Stream: its mod.rs;
--                      Stream.Frames is about one chunk, Stream.Queue about read, Stream.Session
--                      about write_all and read together
--   Proxy.Handler      src/proxy/handler.rs; Routes is about connections to fake addresses
--   Storage.Entry      the entries of src/storage/logger.rs and which of them are kept
--   Storage.Logger     AccessLogger of src/storage/logger.rs; Cleanup and Retention are about
--                      cleanup_old_logs, Writing about write_entry, Names about the names of the files
--
-- How the code corresponds: a struct is a record, an enum a data type, a method a function that takes the
-- state last and returns the state that it leaves. A method that may panic (an index, a slice, a clamp)
-- returns an option, where none is the panic; elsewhere a Result is an option whose none is the error.
-- Interior mutability is the returned state; the methods of
-- one object run one after another. A hash map is an interface with its laws (FakeDNS), or an association
-- list whose order is the order of iteration. Texts are lists of bytes; upper and lower case and white
-- space are those of ASCII, and the input and the lists of the program are domain names. An IPv4 address
-- is its 32-bit number, with the wrap-around of release builds written out; an instant, a TTL and a port
-- are numbers. The clock, the rows of the database, the lines of a file and the parsers of the standard
-- library and of chrono for addresses and timestamps are arguments.
--
-- A socket is the bytes that will come and those that were written; what the network answers is an
-- argument.
--
-- Fuel: skip_name of the cache and the loop over the question of a query run on the length of the packet
-- and one more, since each turn moves the offset forward; evp_bytes_to_key runs on the length of the key
-- and one more, since each turn adds a hash; chunks runs on the length of the text, since each chunk has
-- a byte. Each is enough: without it the theorems on what these return would not hold.
--
-- Not modelled: sockets and the loops that serve them (src/dns/server.rs, src/proxy/server.rs,
-- src/main.rs), TUN and NAT lookup, relaying, the exchange with one upstream server, the poll methods of
-- the Shadowsocks stream, which only refuse, health checks over HTTP, the deserialization of the
-- configuration, the SQL of the storage, logging and start-up: input and output, or third-party code.
pub mod Prelude
pub mod Crates
pub mod Dns
pub mod Config
pub mod Control
pub mod Outbound
pub mod Proxy
pub mod Rule
pub mod Storage
