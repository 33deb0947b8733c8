-- ===== src/Outbound/Manager/Clients.antt =====
-- src/outbound/manager.rs: the clients, and the outbounds that are there before the groups.
use home_guard.Prelude.{
  ℕ, ◌≡◌, ◌⊎◌, refl, inl, inr, Bool-cases, Option, some, List, [], ◌∷◌, ◌++◌, map, ◌==◌, nat_eq,
  list_eq, beq_iff, All, In, here, there,
}
use home_guard.Prelude.Map.{lookup, insert, lookup-insert}
use home_guard.Prelude.Net.{IpAddr}
use home_guard.Prelude.Text.{Text, bytes}
use home_guard.Crates.Ring.{Ring}
use home_guard.Config.{ShadowsocksConfig}
use home_guard.Outbound.Group.{Outbound}
use home_guard.Outbound.Shadowsocks.Client
use home_guard.Outbound.Shadowsocks.Client.{ShadowsocksClient}
use home_guard.Outbound.Manager.{
  Handle, the_direct, the_reject, client, create_clients, add_clients, base_outbounds,
}

-- The map has a value for the name.
abbrev pub HasKey {ℓ} : {V : Type ℓ} → Text → List (Text × V) → Type ℓ
HasKey {V = V} name m = (v : V) × (lookup name m ≡ some v)

pub HasKey-insert {ℓ} :
    {V : Type ℓ} (name key : Text) (v : V) (m : List (Text × V))
    → (key ≡ name) ⊎ HasKey name m
    → HasKey name (insert key v m)
HasKey-insert name key v m h = elim (Bool-cases (key == name)) [
  | inl same ↦ (v, rw (lookup-insert key name v m, same))
  | inr other ↦ elim h [
    | inl same ↦ (v, cc ((beq_iff key name).1 same, other))
    | inr (w, found) ↦ (w, rw (lookup-insert key name v m, other) found)
  ]
]

module _ (R : Ring) (O : Outbound) (handle : Handle → O.Proxy)
    (parse : Text → ℕ → Option (IpAddr × ℕ)) where
  -- The client of the configuration can be made.
  abbrev pub IsMade : ShadowsocksConfig → Type 0
  IsMade ss = (c : ShadowsocksClient R) × (Client.from_config R parse ss ≡ some (some c))

  pub create_clients_lem :
      (ss : List ShadowsocksConfig) (m : List (Text × ShadowsocksClient R))
      → All IsMade ss
      → (clients : List (Text × ShadowsocksClient R)) × (create_clients R O handle parse ss m
          ≡ some clients)
        × ((name : Text) → HasKey name m ⊎ In name (map (λ s. s.name) ss) → HasKey name clients)
  unfolding create_clients
  create_clients_lem [] m h =
      (m, refl, λ name k. elim k [ inl there_is ↦ there_is | inr i ↦ elim i [ ] ])
  create_clients_lem (s ∷ ss) m ((c, made), h) =
      let (clients, run, keys) = create_clients_lem ss (insert s.name c m) h in
      (clients, rw (create_clients, made) run, λ name k. keys name (go name k))
    where
      go :
          (name : Text)
          → HasKey name m ⊎ In name (map (λ t. t.name) (s ∷ ss))
          → HasKey name (insert s.name c m) ⊎ In name (map (λ t. t.name) ss)
      go name (inl k) = inl (HasKey-insert name s.name c m (inr k))
      go name (inr (here same)) = inl (HasKey-insert name s.name c m (inl same))
      go name (inr (there i)) = inr i

  add_clients_lem :
      (clients : List (Text × ShadowsocksClient R)) (m : List (Text × O.Proxy)) (name : Text)
      → HasKey name clients ⊎ HasKey name m
      → HasKey name (add_clients R O handle clients m)
  unfolding add_clients lookup
  add_clients_lem [] m name (inl (v, found)) = cc found
  add_clients_lem [] m name (inr k) = k
  add_clients_lem ((key, c) ∷ clients) m name (inr k) =
      add_clients_lem clients _ name (inr (HasKey-insert name key (handle (client key)) m (inr k)))
  add_clients_lem ((key, c) ∷ clients) m name (inl (v, found)) = elim (Bool-cases (key == name)) [
    | inl same ↦
        add_clients_lem clients _ name
          (inr (HasKey-insert name key (handle (client key)) m (inl ((beq_iff key name).0 same))))
    | inr other ↦ add_clients_lem clients _ name (inl (v, rw (lookup, other) at found))
  ]

  pub base_outbounds_lem :
      (clients : List (Text × ShadowsocksClient R)) (ss : List ShadowsocksConfig)
      → ((name : Text) → In name (map (λ s. s.name) ss) → HasKey name clients)
      → (name : Text) → In name (map (λ s. s.name) ss ++ bytes "DIRECT" ∷ bytes "REJECT" ∷ [])
      → HasKey name (base_outbounds R O handle clients)
  unfolding base_outbounds
  base_outbounds_lem clients ss keys name i =
      add_clients_lem clients _ name (go (map (λ s. s.name) ss) (keys name) i)
    where
      go :
          (names : List Text)
          → (In name names → HasKey name clients)
          → In name (names ++ bytes "DIRECT" ∷ bytes "REJECT" ∷ [])
          → HasKey name clients
            ⊎ HasKey name (
                insert
                  (bytes "REJECT")
                  (handle the_reject)
                  (insert (bytes "DIRECT") (handle the_direct) []))
      go [] k (here same) =
          inr (HasKey-insert name _ _ _ (inr (HasKey-insert name _ _ _ (inl same))))
      go [] k (there (here same)) = inr (HasKey-insert name _ _ _ (inl same))
      go [] k (there (there i)) = elim i [ ]
      go (n ∷ names) k (here same) = inl (k (here same))
      go (n ∷ names) k (there i) = go names (λ j. k (there j)) i
