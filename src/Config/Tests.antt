-- ===== src/Config/Tests.antt =====
-- Runs of the validation, and its theorem at an input.
use home_guard.Prelude.{◌≡◌, ◌↔◌, refl, Bool, true, false, none, some, [], ◌∷◌, nat_eq, list_eq}
use home_guard.Prelude.Text.{Text, bytes, to_lowercase, lower_byte}
use home_guard.Config.{
  contains, validate_ss_method, validate_dns, validate_shadowsocks, validate_references,
  validate_groups, validate_config, unknown_proxy, no_upstream,
}
use home_guard.Config.Sample.{config, hong_kong, manual, auto}
use home_guard.Config.Validation.{IsValid, validate_config-IsValid}
use home_guard.Outbound.Shadowsocks.Cipher.{chacha20_ietf_poly1305, method_of}

program : Unit {0}
unfolding contains validate_ss_method validate_dns validate_shadowsocks validate_references
    validate_groups validate_config method_of to_lowercase lower_byte
program = tt

abbrev accept : Text → Bool
accept s = true

-- A group may not refer to another group; and the methods that pass the validation are not those that
-- the client knows.
runs :
    (validate_config accept config ≡ none)
    × (validate_config accept (record config {
      proxy = record {
        shadowsocks = hong_kong ∷ [];
        group = manual ∷ record auto { proxies = bytes "manual" ∷ [] } ∷ [];
      };
    })
        ≡ some (unknown_proxy (bytes "auto") (bytes "manual")))
    × (validate_config accept
          (record config { dns = record { upstream = []; fake_dns = false; fake_dns_pool = [] } })
        ≡ some no_upstream)
    × (validate_ss_method (bytes "aes-256-cfb") ≡ true)
    × (method_of (bytes "aes-256-cfb") ≡ none)
    × (validate_ss_method (bytes "chacha20-poly1305") ≡ false)
    × (method_of (bytes "chacha20-poly1305") ≡ some chacha20_ietf_poly1305)
unfolding program
runs = (refl, refl, refl, refl, refl, refl, refl)

validate_config-IsValid_example : (validate_config accept config ≡ none) ↔ IsValid accept config
validate_config-IsValid_example = validate_config-IsValid accept config
