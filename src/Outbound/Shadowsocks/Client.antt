-- ===== src/Outbound/Shadowsocks/Client.antt =====
-- src/outbound/shadowsocks/mod.rs, `ShadowsocksClient`. The parser of "server:port" as a socket
-- address, and the connection to a server, are arguments; an outer `none` stands for a panic.
use home_guard.Prelude.{ℕ, Option, none, some, ◌>>=◌}
use home_guard.Prelude.Net.{IpAddr}
use home_guard.Prelude.Text.{Text}
use home_guard.Crates.Ring.{Ring}
use home_guard.Config.{ShadowsocksConfig}
use home_guard.Outbound.Address.{Address}
use home_guard.Outbound.Shadowsocks.Cipher.{AeadCipher, method_of, new_cipher}
use home_guard.Outbound.Shadowsocks.Stream.{ShadowsocksStream}
use home_guard.Outbound.Shadowsocks.Stream

module _ (R : Ring) where
  pub record ShadowsocksClient : Type 0 where
    pub name : Text
    pub server_addr : IpAddr × ℕ
    pub cipher : AeadCipher R

  -- `none` inside for an error.
  unfoldable pub from_config :
      (Text → ℕ → Option (IpAddr × ℕ)) → ShadowsocksConfig → Option (Option ShadowsocksClient)
  unfolding method_of new_cipher
  from_config parse config = elim (method_of config.method) [
    | none ↦ some none
    | some m ↦ elim (parse config.server config.port) [
      | none ↦ some none
      | some server ↦ new_cipher R m config.password >>= λ cipher.
          some (some (record { name = config.name; server_addr = server; cipher = cipher }))
    ]
  ]

  -- `connect_to`, when the connection to the server gives the bytes that it will send.
  unfoldable pub connect_to :
      (IpAddr × ℕ → Option Text)
      → Text
      → Address
      → ShadowsocksClient
      → Option (Option (ShadowsocksStream R))
  unfolding Stream.new
  connect_to dial salt target c = elim (dial c.server_addr) [
    | none ↦ some none
    | some inbox ↦ Stream.new R inbox salt c.cipher target >>= λ s. some (some s)
  ]
