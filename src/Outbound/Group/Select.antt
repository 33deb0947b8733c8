-- ===== src/Outbound/Group/Select.antt =====
-- src/outbound/group/select.rs: the group in which the user selects the proxy.
use home_guard.Prelude.{
  ℕ, suc, ◌<◌, ◌≡◌, ◌⊎◌, refl, sym, ap, ◌∙◌, inl, inr, Bool, true, false, Option, none, some, List,
  [], ◌∷◌, map, arith, if◌then◌else◌, ◌==◌, nat_eq, list_eq, beq_iff, leb, length, get_elem?,
  Bool-cases, Option-cases, In, here, there,
}
use home_guard.Prelude.Text.{Text}
use home_guard.Outbound.Address.{Address}
use home_guard.Outbound.Group.{Outbound}

module _ (O : Outbound) where
  pub record SelectGroup : Type 0 where
    pub group_name : Text
    pub proxies : List O.Proxy
    pub selected : ℕ

  unfoldable pub new : Text → List O.Proxy → SelectGroup
  new name ps = record { group_name = name; proxies = ps; selected = 0 }

  unfoldable pub proxy_names : SelectGroup → List Text
  proxy_names g = map O.name g.proxies

  unfoldable pub current : SelectGroup → Option O.Proxy
  current g = get_elem? g.proxies g.selected

  abbrev pub name_of : Option O.Proxy → Option Text
  name_of none = none
  name_of (some p) = some (O.name p)

  unfoldable pub current_name : SelectGroup → Option Text
  unfolding current
  current_name g = name_of (current g)

  -- The group afterwards, and whether the index was in bounds.
  unfoldable pub select : ℕ → SelectGroup → SelectGroup × Bool
  select index g =
      if leb (length g.proxies) index then (g, false) else (record g { selected = index }, true)

  -- `position(|p| p.name() == name)`
  unfoldable pub position : Text → List O.Proxy → Option ℕ
  position name [] = none
  position name (p ∷ ps) =
      if O.name p == name
      then some 0
      else elim (position name ps) [ none ↦ none | some i ↦ some (suc i) ]

  unfoldable pub select_by_name : Text → SelectGroup → SelectGroup × Bool
  unfolding position select
  select_by_name name g = elim (position name g.proxies) [
    | none ↦ (g, false)
    | some index ↦ select index g
  ]

  abbrev pub connect_by : Option O.Proxy → Address → Option O.Stream
  connect_by none target = none
  connect_by (some p) target = O.connect p target

  unfoldable pub connect : Address → SelectGroup → Option O.Stream
  unfolding current
  connect target g = connect_by (current g) target

  position-get_elem? :
      (name : Text) (ps : List O.Proxy) (i : ℕ)
      → position name ps ≡ some i
      → (i < length ps) × (name_of (get_elem? ps i) ≡ some name)
  unfolding position
  position-get_elem? name [] i h = absurd (cc h)
  position-get_elem? name (p ∷ ps) i h = elim (Bool-cases (O.name p == name)) [
    | inl same ↦
        let at_zero : 0 ≡ i = ground (arith, rw (same, position) at h) in
        (
          omega (arith, at_zero),
          ap (λ j. name_of (get_elem? (p ∷ ps) j)) (sym at_zero)
              ∙ ap some ((beq_iff (O.name p) name).0 same),
        )
    | inr other ↦ elim (Option-cases (position name ps)) [
      | inl absent ↦ absurd (cc (rw (other, absent, position) at h))
      | inr (j, found) ↦
          let next : suc j ≡ i = ground (arith, rw (other, found, position) at h) in
          let (inside, named) = position-get_elem? name ps j found in
          (omega (arith, inside, next), ap (λ k. name_of (get_elem? (p ∷ ps) k)) (sym next) ∙ named)
    ]
  ]

  position_absent :
      (name : Text) (ps : List O.Proxy) → position name ps ≡ none → In name (map O.name ps) → ⊥
  unfolding position
  position_absent name [] h i = elim i [ ]
  position_absent name (p ∷ ps) h (here e) = cc (rw ((beq_iff (O.name p) name).1 e, position) at h)
  position_absent name (p ∷ ps) h (there i) = elim (Bool-cases (O.name p == name)) [
    | inl same ↦ cc (rw (same, position) at h)
    | inr other ↦ elim (Option-cases (position name ps)) [
      | inl absent ↦ position_absent name ps absent i
      | inr (j, found) ↦ cc (rw (other, found, position) at h)
    ]
  ]

  -- A selection by name either succeeds, and then the selected proxy has that name, or no proxy of the
  -- group has the name, and the group is as before. The proxies of the group never change.
  pub select_by_name-current_name :
      (name : Text) (g : SelectGroup)
      → (((select_by_name name g).1 ≡ true)
          × (current_name (select_by_name name g).0 ≡ some name)
          × ((select_by_name name g).0.proxies ≡ g.proxies))
        ⊎ (((select_by_name name g).1 ≡ false)
            × ((select_by_name name g).0 ≡ g)
            × (In name (proxy_names g) → ⊥))
  unfolding select_by_name current_name current select proxy_names
  select_by_name-current_name name g = elim (Option-cases (position name g.proxies)) [
    | inl absent ↦
        inr (rw (absent, select_by_name) (refl, refl, position_absent name g.proxies absent))
    | inr (i, found) ↦
        let (inside, named) = position-get_elem? name g.proxies i found in
        let bound : leb (length g.proxies) i ≡ false = ground arith in
        inl (rw (found, select_by_name, bound) (refl, named, refl))
  ]
