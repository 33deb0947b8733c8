-- ===== src/Control/Controller/Categories.antt =====
-- The walks over the categories of a device, src/control/controller.rs: which lists have the domain.
use home_guard.Prelude.{
  ℕ, ◌≡◌, ◌≢◌, ◌↔◌, ◌⊎◌, refl, ap, ◌∙◌, inl, inr, true, false, not, ◌&&◌, List, [], ◌∷◌, ◌++◌,
  Bool-cases, All,
}
use home_guard.Prelude.Text.{Text}
use home_guard.Control.Blocklist.{BlocklistManager, is_in_category, is_in_any_category}
use home_guard.Control.Device.{DeviceConfig}
use home_guard.Control.Controller.{
  ParentalController, ParentalPolicy, allow_all, block_if_listed, block_all, is_allowed, is_granted,
  apply_default_policy, check_grantable, check_hard, is_empty_list,
}

-- None of the categories lists the domain.
abbrev pub Misses : Text → BlocklistManager → List Text → Type 0
Misses domain m categories = All (λ category. is_in_category domain category m ≡ false) categories

-- The first category that lists the domain.
pub record FirstHit (domain : Text) (m : BlocklistManager) (categories : List Text) : Type 0 where
  pub front : List Text
  pub category : Text
  pub rest : List Text
  pub split : categories ≡ front ++ category ∷ rest
  pub earlier : Misses domain m front
  pub hit : is_in_category domain category m ≡ true

-- No category of the list has the domain, or the first that has it is granted.
abbrev pub IsOpen : ℕ → Text → Text → List Text → ParentalController → Type 0
IsOpen now id domain categories c =
    Misses domain c.blocklist_manager categories
    ⊎ ((f : FirstHit domain c.blocklist_manager categories) × (is_granted now id f.category
            c.grant_store
          ≡ true))

abbrev FirstHit_push :
    (domain : Text) (m : BlocklistManager) (cat : Text) (cats : List Text)
    → is_in_category domain cat m ≡ false
    → FirstHit domain m cats
    → FirstHit domain m (cat ∷ cats)
FirstHit_push domain m cat cats miss f = record {
  front = cat ∷ f.front;
  category = f.category;
  rest = f.rest;
  split = ap (◌∷◌ cat) f.split;
  earlier = (miss, f.earlier);
  hit = f.hit;
}

pub check_grantable→IsOpen :
    (now : ℕ) (id domain : Text) (cats : List Text) (c : ParentalController)
    → is_allowed (check_grantable now id domain cats c) ≡ true
    → IsOpen now id domain cats c
unfolding check_grantable is_allowed
check_grantable→IsOpen now id domain [] c h = inl tt
check_grantable→IsOpen now id domain (cat ∷ cats) c h =
    elim (Bool-cases (is_in_category domain cat c.blocklist_manager)) [
      | inl found ↦
          let f : FirstHit domain c.blocklist_manager (cat ∷ cats) = record {
            front = [];
            category = cat;
            rest = cats;
            split = refl;
            earlier = tt;
            hit = found;
          } in
          elim (Bool-cases (is_granted now id cat c.grant_store)) [
            | inl granted ↦ inr (f, granted)
            | inr closed ↦ absurd (cc (rw (found, closed) at h))
          ]
      | inr miss ↦ elim (check_grantable→IsOpen now id domain cats c (rw miss at h)) [
        | inl all ↦ inl (miss, all)
        | inr (f, granted) ↦ inr (FirstHit_push domain c.blocklist_manager cat cats miss f, granted)
      ]
    ]

pub check_grantable_missed :
    (now : ℕ) (id domain : Text) (cats : List Text) (c : ParentalController)
    → Misses domain c.blocklist_manager cats
    → is_allowed (check_grantable now id domain cats c) ≡ true
unfolding check_grantable is_allowed
check_grantable_missed now id domain [] c h = refl
check_grantable_missed now id domain (cat ∷ cats) c (miss, h) =
    rw miss (check_grantable_missed now id domain cats c h)

-- The first category that lists the domain decides.
pub check_grantable_hit :
    (now : ℕ) (id domain : Text) (front : List Text) (cat : Text) (rest : List Text)
    (c : ParentalController)
    → Misses domain c.blocklist_manager front
    → is_in_category domain cat c.blocklist_manager ≡ true
    → is_allowed (check_grantable now id domain (front ++ cat ∷ rest) c)
      ≡ is_granted now id cat c.grant_store
unfolding check_grantable is_allowed
check_grantable_hit now id domain [] cat rest c h hit =
    elim (Bool-cases (is_granted now id cat c.grant_store)) [
      | inl granted ↦ rw (hit, granted) refl
      | inr closed ↦ rw (hit, closed) refl
    ]
check_grantable_hit now id domain (x ∷ front) cat rest c (miss, h) hit =
    rw miss (check_grantable_hit now id domain front cat rest c h hit)

pub check_hard→Misses :
    (now : ℕ) (id domain : Text) (cats : List Text) (device : DeviceConfig) (c : ParentalController)
    → is_allowed (check_hard now id domain cats device c) ≡ true
    → Misses domain c.blocklist_manager cats
      × (is_allowed (check_grantable now id domain device.grantable_blocklists c) ≡ true)
unfolding check_hard is_allowed
check_hard→Misses now id domain [] device c h = (tt, h)
check_hard→Misses now id domain (cat ∷ cats) device c h =
    elim (Bool-cases (is_in_category domain cat c.blocklist_manager)) [
      | inl found ↦ absurd (cc (rw found at h))
      | inr miss ↦
          let (all, rest) = check_hard→Misses now id domain cats device c (rw miss at h) in
          ((miss, all), rest)
    ]

pub check_hard_missed :
    (now : ℕ) (id domain : Text) (cats : List Text) (device : DeviceConfig) (c : ParentalController)
    → Misses domain c.blocklist_manager cats
    → check_hard now id domain cats device c
      ≡ check_grantable now id domain device.grantable_blocklists c
unfolding check_hard
check_hard_missed now id domain [] device c h = refl
check_hard_missed now id domain (cat ∷ cats) device c (miss, h) =
    rw miss (check_hard_missed now id domain cats device c h)

pub IsOpen→check_grantable :
    (now : ℕ) (id domain : Text) (cats : List Text) (c : ParentalController)
    → IsOpen now id domain cats c
    → is_allowed (check_grantable now id domain cats c) ≡ true
IsOpen→check_grantable now id domain cats c (inl all) =
    check_grantable_missed now id domain cats c all
IsOpen→check_grantable now id domain cats c (inr (f, granted)) =
    ap (λ l. is_allowed (check_grantable now id domain l c)) f.split
    ∙ check_grantable_hit now id domain f.front f.category f.rest c f.earlier f.hit
    ∙ granted

pub is_in_any_category-nil :
    (domain : Text) (m : BlocklistManager) (cats : List Text)
    → (not (is_empty_list cats) && is_in_any_category domain cats m)
      ≡ is_in_any_category domain cats m
unfolding is_in_any_category
is_in_any_category-nil domain m [] = refl
is_in_any_category-nil domain m (cat ∷ cats) = refl

pub default_policy_lem :
    (p : ParentalPolicy) → (is_allowed (apply_default_policy p) ≡ true) ↔ (p ≢ block_all)
unfolding apply_default_policy is_allowed
default_policy_lem allow_all = ((λ h e. absurd (cc e)), (λ h. refl))
default_policy_lem block_if_listed = ((λ h e. absurd (cc e)), (λ h. refl))
default_policy_lem block_all = ((λ h. absurd (cc h)), (λ h. absurd (h refl)))
