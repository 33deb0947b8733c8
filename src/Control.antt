-- ===== src/Control.antt =====
-- src/control: the parental controls, from the blocklists, devices and grants to the decision.
pub mod Blocklist
pub mod Device
pub mod Grant
pub mod Controller
pub mod Sample
mod Tests
