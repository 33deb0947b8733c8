-- ===== src/Crates.antt =====
-- Interfaces of the crates that the program calls and that are not part of the repository: what the
-- code relies on of `lru` and `dashmap`, as records of operations with their documented laws.
pub mod Recency
pub mod LruCache
pub mod DashMap
pub mod IpNet
pub mod AhoCorasick
pub mod MaxMind
pub mod PatternList
pub mod Ring
pub mod SimpleDns
pub mod Chrono
