-- ===== src/Control/Device/Identity.antt =====
-- What `from_config` registers: the devices found by address are those configured with it.
use home_guard.Prelude.{
  ◌≡◌, ◌⊎◌, refl, sym, ap, ◌∙◌, inl, inr, Option, some, List, [], ◌∷◌, ◌==◌, nat_eq, list_eq,
  beq_iff, Bool-cases, Option-cases, In, here, there, ◌>>=◌,
}
use home_guard.Prelude.Map.{lookup, insert, lookup-insert, lookup-nil}
use home_guard.Prelude.Text.{Text}
use home_guard.Prelude.Net.{IpAddr, ip_eq}
use home_guard.Control.Device.{
  DeviceConfig, address_of, register, from_config, get_device_by_ip, get_device_id_by_ip,
}

-- A configured device whose address parses to the given one.
abbrev pub HasAddress : (Text → Option IpAddr) → List (Text × DeviceConfig) → IpAddr → Text → Type 0
HasAddress parse ds ip id =
    (config : DeviceConfig) × In (id, config) ds × (address_of parse config ≡ some ip)

-- Every entry of a map is what its key finds.
abbrev pub IsMap : List (Text × DeviceConfig) → Type 0
IsMap ds = (id : Text) (config : DeviceConfig) → In (id, config) ds → lookup id ds ≡ some config

register-HasAddress :
    (parse : Text → Option IpAddr) (ds : List (Text × DeviceConfig)) (m : List (IpAddr × Text))
    (ip : IpAddr) (id : Text)
    → lookup ip (register parse ds m) ≡ some id
    → (lookup ip m ≡ some id) ⊎ HasAddress parse ds ip id
unfolding register
register-HasAddress parse [] m ip id h = inl h
register-HasAddress parse ((j, config) ∷ ds) m ip id h =
    elim (Option-cases (address_of parse config)) [
      | inl bad ↦ push (register-HasAddress parse ds m ip id (rw (bad, register) at h))
      | inr (a, good) ↦
          elim (register-HasAddress parse ds (insert a j m) ip id (rw (good, register) at h)) [
            | inr later ↦ push (inr later)
            | inl now ↦ elim (Bool-cases (a == ip)) [
              | inl same ↦
                  let e : some j ≡ some id = rw (lookup-insert a ip j m, same) at now in
                  inr (config, here (cc e), good ∙ ap some ((beq_iff a ip).0 same))
              | inr other ↦ inl (rw (lookup-insert a ip j m, other) at now)
            ]
          ]
    ]
  where
    push :
        (lookup ip m ≡ some id) ⊎ HasAddress parse ds ip id
        → (lookup ip m ≡ some id) ⊎ HasAddress parse ((j, config) ∷ ds) ip id
    push (inl old) = inl old
    push (inr (c, listed, same)) = inr (c, there listed, same)

register_kept :
    (parse : Text → Option IpAddr) (ds : List (Text × DeviceConfig)) (m : List (IpAddr × Text))
    (ip : IpAddr) (id : Text)
    → lookup ip m ≡ some id
    → (j : Text) × (lookup ip (register parse ds m) ≡ some j)
unfolding register
register_kept parse [] m ip id h = (id, h)
register_kept parse ((j, config) ∷ ds) m ip id h = elim (Option-cases (address_of parse config)) [
  | inl bad ↦ rw (bad, register) (register_kept parse ds m ip id h)
  | inr (a, good) ↦
      rw (good, register)
        (elim (Bool-cases (a == ip)) [
          | inl same ↦
              register_kept parse ds (insert a j m) ip j (rw (lookup-insert a ip j m, same) refl)
          | inr other ↦
              register_kept parse ds (insert a j m) ip id (rw (lookup-insert a ip j m, other) h)
        ])
]

register_found :
    (parse : Text → Option IpAddr) (ds : List (Text × DeviceConfig)) (m : List (IpAddr × Text))
    (ip : IpAddr) (id : Text) (config : DeviceConfig)
    → In (id, config) ds
    → address_of parse config ≡ some ip
    → (j : Text) × (lookup ip (register parse ds m) ≡ some j)
unfolding register
register_found parse [] m ip id config i h = elim i [ ]
register_found parse ((k, c) ∷ ds) m ip id config (here e) h =
    rw (ap (λ p. address_of parse p.1) e ∙ h, register)
      (register_kept parse ds (insert ip k m) ip k
        (lookup-insert ip ip k m ∙ rw ((beq_iff ip ip).1 refl) refl))
register_found parse ((k, c) ∷ ds) m ip id config (there i) h =
    elim (Option-cases (address_of parse c)) [
      | inl bad ↦ rw (bad, register) (register_found parse ds m ip id config i h)
      | inr (a, good) ↦
          rw (good, register) (register_found parse ds (insert a k m) ip id config i h)
    ]

-- In a manager made from a configuration, an address that some device is configured with finds a
-- device, and the identifier and the record that an address finds belong together: the record is that
-- of the identifier, and its own address parses to the one asked for. (When two devices have one
-- address, either may be found, whichever the hash map lists last.)
pub get_device_by_ip-from_config :
    (parse : Text → Option IpAddr) (ds : List (Text × DeviceConfig)) (ip : IpAddr)
    → IsMap ds
    → ((id : Text) (config : DeviceConfig)
        → In (id, config) ds
        → address_of parse config ≡ some ip
        → (found : DeviceConfig) × (get_device_by_ip ip (from_config parse ds) ≡ some found))
      × ((found : DeviceConfig)
          → get_device_by_ip ip (from_config parse ds) ≡ some found
          → (id : Text) × (get_device_id_by_ip ip (from_config parse ds) ≡ some id)
            × (lookup id ds ≡ some found)
            × (address_of parse found ≡ some ip))
unfolding get_device_by_ip get_device_id_by_ip from_config
get_device_by_ip-from_config parse ds ip is_map = (present, consistent)
  where
    listed_at :
        (id : Text)
        → lookup ip (register parse ds []) ≡ some id
        → (config : DeviceConfig) × (lookup id ds ≡ some config)
          × (address_of parse config ≡ some ip)
    listed_at id at = elim (register-HasAddress parse ds [] ip id at) [
      | inl old ↦ absurd (cc (rw (lookup-nil {K = IpAddr} {V = Text} ip) at old))
      | inr (config, i, same) ↦ (config, is_map id config i, same)
    ]

    present :
        (id : Text) (config : DeviceConfig)
        → In (id, config) ds
        → address_of parse config ≡ some ip
        → (found : DeviceConfig) × ((lookup ip (register parse ds []) >>= λ j. lookup j ds)
            ≡ some found)
    present id config i h =
        let (j, at) = register_found parse ds [] ip id config i h in
        let (found, entry, same) = listed_at j at in (found, rw at entry)

    consistent :
        (found : DeviceConfig)
        → (lookup ip (register parse ds []) >>= λ j. lookup j ds) ≡ some found
        → (id : Text) × (lookup ip (register parse ds []) ≡ some id)
          × (lookup id ds ≡ some found)
          × (address_of parse found ≡ some ip)
    consistent found h = elim (Option-cases (lookup ip (register parse ds []))) [
      | inl absent ↦ absurd (cc (rw absent at h))
      | inr (id, bound) ↦
          let (config, entry, same) = listed_at id bound in
          let e : lookup id ds ≡ some found = rw bound at h in
          let same_config : config ≡ found = cc (entry, e) in
          (id, bound, e, ap (address_of parse) (sym same_config) ∙ same)
    ]
