-- ===== src/Config/Sample.antt =====
-- A configuration with one Shadowsocks server and two groups.
use home_guard.Prelude.{true, none, [], ◌∷◌}
use home_guard.Prelude.Text.{bytes}
use home_guard.Config.{Config, ShadowsocksConfig, ProxyGroupConfig, select, url_test}

abbrev pub hong_kong : ShadowsocksConfig
hong_kong = record {
  name = bytes "hk";
  server = bytes "10.0.0.1";
  port = 8388;
  password = bytes "a password";
  method = bytes "aes-256-gcm";
}

abbrev pub manual : ProxyGroupConfig
manual = record {
  name = bytes "manual";
  group_type = select;
  proxies = bytes "hk" ∷ bytes "DIRECT" ∷ [];
  url = none;
  interval = none;
}

abbrev pub auto : ProxyGroupConfig
auto = record {
  name = bytes "auto";
  group_type = url_test;
  proxies = bytes "hk" ∷ [];
  url = none;
  interval = none;
}

abbrev pub config : Config
config = record {
  dns = record {
    upstream = bytes "8.8.8.8:53" ∷ [];
    fake_dns = true;
    fake_dns_pool = bytes "198.18.0.0/15";
  };
  proxy = record { shadowsocks = hong_kong ∷ []; group = manual ∷ auto ∷ [] };
}
