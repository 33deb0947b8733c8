-- ===== src/Rule.antt =====
-- The rule engine of src/rule: types, matchers and the engine that joins them.
pub mod Types
pub mod Parser
pub mod Trie
pub mod Domain
pub mod Ip
pub mod Engine
