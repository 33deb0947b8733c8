-- ===== src/Control/Controller/Decisions.antt =====
-- The decisions of the controller: when a request is allowed, and that nothing opens a hard block.
use home_guard.Prelude.{
  ℕ, ◌≡◌, ◌≢◌, ◌↔◌, ◌⊎◌, refl, sym, ap, ◌∙◌, inl, inr, true, false, Option, none, some, List,
  Bool-cases, In, All-In,
}
use home_guard.Prelude.Text.{Text}
use home_guard.Prelude.Net.{IpAddr}
use home_guard.Control.Blocklist.{is_in_category, is_in_any_category, is_blocked_globally}
use home_guard.Control.Device.{DeviceConfig, is_adult, get_device_by_ip, get_device_id_by_ip}
use home_guard.Control.Grant.{GrantRecord, GrantStore, has_active, refresh}
use home_guard.Control.Grant.Refresh.{HasRow, has_active-refresh}
use home_guard.Control.Controller.{
  ParentalController, ParentalDecision, allow, block, block_all, is_allowed, is_blocked, is_granted,
  check_grantable, check_device, check_access, id_or_empty, clean,
}
use home_guard.Control.Controller.Categories.{
  Misses, FirstHit, IsOpen, check_grantable→IsOpen, check_grantable_hit, check_hard→Misses,
  check_hard_missed, IsOpen→check_grantable, is_in_any_category-nil, default_policy_lem,
}

-- What a device may reach, given the record of the device, if it is known.
abbrev pub Permits : ℕ → Text → Text → Option DeviceConfig → ParentalController → Type 0
Permits now id domain none c = c.default_policy ≢ block_all
Permits now id domain (some device) c =
    (is_adult device.device_type ≡ true)
    ⊎ (Misses domain c.blocklist_manager device.hard_blocklists
        × IsOpen now id domain device.grantable_blocklists c)

-- The rest of the decision, for a domain that no global list has.
check_device-Permits :
    (now : ℕ) (ip : IpAddr) (domain : Text) (c : ParentalController)
    → (is_allowed (check_device now ip domain c) ≡ true)
      ↔ Permits now
          (id_or_empty (get_device_id_by_ip ip c.device_manager))
          domain
          (get_device_by_ip ip c.device_manager)
          c
unfolding check_device is_allowed
check_device-Permits now ip domain c = go (get_device_by_ip ip c.device_manager) refl
  where
    go :
        (o : Option DeviceConfig)
        → get_device_by_ip ip c.device_manager ≡ o
        → (is_allowed (check_device now ip domain c) ≡ true)
          ↔ Permits now (id_or_empty (get_device_id_by_ip ip c.device_manager)) domain o c
    go none known = rw (known, check_device) (default_policy_lem c.default_policy)
    go (some device) known =
        rw (known, check_device)
          (elim (Bool-cases (is_adult device.device_type)) [
            | inl adult ↦ rw adult ((λ _. inl refl), (λ _. refl))
            | inr other ↦ rw other (
              (λ h.
                  let (all, rest) = check_hard→Misses now _ domain _ device c h in
                  inr (all, check_grantable→IsOpen now _ domain _ c rest)),
              (λ s. elim s [
                | inl adult ↦ absurd (cc adult)
                | inr (all, opened) ↦
                    ap is_allowed (check_hard_missed now _ domain _ device c all)
                    ∙ IsOpen→check_grantable now _ domain _ c opened
              ]),
            )
          ])

-- A request is allowed exactly when its domain, without trailing dots and in lower case, is on no
-- global list and in no global category, and the device permits it: an unknown device, unless the
-- default policy blocks everything; an adult's, always; another, if none of its hard categories has
-- the domain, and none of its grantable categories has it or the first that does has a grant which is
-- active now.
pub check_access-allowed_iff :
    (now : ℕ) (ip : IpAddr) (domain : Text) (c : ParentalController)
    → (is_allowed (check_access now ip domain c) ≡ true) ↔ (
        (is_blocked_globally (clean domain) c.blocklist_manager ≡ false)
        × (is_in_any_category (clean domain) c.global_categories c.blocklist_manager ≡ false)
        × Permits now
            (id_or_empty (get_device_id_by_ip ip c.device_manager))
            (clean domain)
            (get_device_by_ip ip c.device_manager)
            c)
unfolding check_access is_allowed
check_access-allowed_iff now ip domain c =
    elim (Bool-cases (is_blocked_globally (clean domain) c.blocklist_manager)) [
      | inl listed ↦ rw listed ((λ h. absurd (cc h)), (λ (a, b, q). absurd (cc a)))
      | inr free ↦
          elim (Bool-cases
            (is_in_any_category (clean domain) c.global_categories c.blocklist_manager)) [
              | inl found ↦
                  rw
                    (
                      free,
                      is_in_any_category-nil (clean domain) c.blocklist_manager c.global_categories,
                      found,
                    )
                    ((λ h. absurd (cc h)), (λ (a, b, q). absurd (cc b)))
              | inr missed ↦
                  rw
                    (
                      free,
                      is_in_any_category-nil (clean domain) c.blocklist_manager c.global_categories,
                      missed,
                    )
                    (let (to, from) = check_device-Permits now ip (clean domain) c in
                      ((λ h. (refl, refl, to h)), (λ (a, b, q). from q)))
            ]
    ]

is_blocked-not : (d : ParentalDecision) → is_allowed d ≡ false → is_blocked d ≡ true
unfolding is_allowed is_blocked
is_blocked-not allow h = absurd (cc h)
is_blocked-not (block reason) h = refl

-- A device that is known and not an adult's never reaches a domain that one of its hard categories
-- has, at any time and whatever grants are active.
pub check_access-hard :
    (now : ℕ) (ip : IpAddr) (domain : Text) (c : ParentalController) (device : DeviceConfig)
    (category : Text)
    → get_device_by_ip ip c.device_manager ≡ some device
    → is_adult device.device_type ≡ false
    → In category device.hard_blocklists
    → is_in_category (clean domain) category c.blocklist_manager ≡ true
    → is_blocked (check_access now ip domain c) ≡ true
check_access-hard now ip domain c device category known other listed hit =
    elim (Bool-cases (is_allowed (check_access now ip domain c))) [
      | inl opened ↦
          let (a, b, permits) = (check_access-allowed_iff now ip domain c).0 opened in
          absurd (contradiction (rw known at permits))
      | inr closed ↦ is_blocked-not (check_access now ip domain c) closed
    ]
  where
    contradiction :
        Permits now
          (id_or_empty (get_device_id_by_ip ip c.device_manager))
          (clean domain)
          (some device)
          c
        → ⊥
    contradiction (inl adult) = cc (other, adult)
    contradiction (inr (all, opened)) = cc (
      All-In (λ cat. is_in_category (clean domain) cat c.blocklist_manager ≡ false)
          device.hard_blocklists all listed,
      hit,
    )

-- From the rows of the database to the decision: with a cache that was just refreshed from the rows,
-- a device that is known and not an adult's, for a domain on no global list and in no hard category,
-- reaches it exactly when the first grantable category that has the domain has a row for the device
-- whose expiry parses and is later than now.
pub check_access-refresh :
    (parse : Text → Option ℕ) (now : ℕ) (ip : IpAddr) (domain : Text) (c : ParentalController)
    (device : DeviceConfig) (id : Text) (rows : List GrantRecord) (old : GrantStore)
    → get_device_by_ip ip c.device_manager ≡ some device
    → get_device_id_by_ip ip c.device_manager ≡ some id
    → c.grant_store ≡ some (refresh parse (some rows) old).0
    → is_blocked_globally (clean domain) c.blocklist_manager ≡ false
    → is_in_any_category (clean domain) c.global_categories c.blocklist_manager ≡ false
    → is_adult device.device_type ≡ false
    → Misses (clean domain) c.blocklist_manager device.hard_blocklists
    → (f : FirstHit (clean domain) c.blocklist_manager device.grantable_blocklists)
    → (is_allowed (check_access now ip domain c) ≡ true) ↔ HasRow parse now (id, f.category) rows
unfolding check_access check_device is_allowed is_granted
check_access-refresh parse now ip domain c device id rows old known named store free missed other
      all f =
    let decided : check_access now ip domain c
        ≡ check_grantable now id (clean domain) device.grantable_blocklists c =
      rw
        (
          free,
          is_in_any_category-nil (clean domain) c.blocklist_manager c.global_categories,
          missed,
          check_device,
          known,
          named,
          other,
        )
        (check_hard_missed now id (clean domain) device.hard_blocklists device c all) in
    let granted : is_allowed (check_access now ip domain c)
        ≡ has_active now id f.category (refresh parse (some rows) old).0 =
      ap is_allowed decided
      ∙ ap (λ l. is_allowed (check_grantable now id (clean domain) l c)) f.split
      ∙ check_grantable_hit now id (clean domain) f.front f.category f.rest c f.earlier f.hit
      ∙ ap (is_granted now id f.category) store in
    let (to, from) = has_active-refresh parse now id f.category rows old in
    ((λ h. to (sym granted ∙ h)), (λ r. granted ∙ from r))
