-- ===== src/Outbound/Group.antt =====
-- src/outbound/group: groups that choose one of several proxies. A proxy is what the trait `Outbound`
-- shows of it: a name, and whether a connection or a health check of it succeeds in this call.
pub mod Select
pub mod Fallback
pub mod UrlTest
mod Tests
use home_guard.Prelude.{Bool, Option}
use home_guard.Prelude.Text.{Text}
use home_guard.Outbound.Address.{Address}

pub record Outbound : Type 1 where
  pub Proxy : Type 0
  pub Stream : Type 0
  pub name : Proxy → Text
  pub connect : Proxy → Address → Option Stream
  pub is_healthy : Proxy → Bool
