-- ===== src/Crates/DashMap.antt =====
-- The crate `dashmap`: `DashMap<K, V>` behind the operations that the program calls.
use home_guard.Prelude.{◌≡◌, refl, List, [], Option, none, some, Eq, ◌==◌, if◌then◌else◌}
use home_guard.Prelude.Map.{lookup, insert, remove, lookup-nil, lookup-insert, lookup-remove}

pub record DashMap {ℓ} (K V : Type ℓ) ⦃e : Eq K⦄ : Type (ℓ + 1) where
  pub Table : Type ℓ
  pub empty : Table
  pub find : K → Table → Option V
  pub store : K → V → Table → Table
  -- The removed value, if the key was there, and the table without it.
  pub take_out : K → Table → Option V × Table
  pub clear : Table → Table
  pub find-empty : (k : K) → find k empty ≡ none
  pub find-store :
      (k j : K) (v : V) (m : Table) → find j (store k v m) ≡ (if k == j then some v else find j m)
  pub take_out_value : (k : K) (m : Table) → (take_out k m).0 ≡ find k m
  pub find-take_out :
      (k j : K) (m : Table) → find j (take_out k m).1 ≡ (if k == j then none else find j m)
  pub find-clear : (k : K) (m : Table) → find k (clear m) ≡ none

-- An association list meets the laws.
abbrev pub list_table {ℓ} : {K V : Type ℓ} ⦃e : Eq K⦄ → DashMap K V
list_table {K} {V} = record {
  Table = List (K × V);
  empty = [];
  find = lookup;
  store = insert;
  take_out = λ k m. (lookup k m, remove k m);
  clear = λ m. [];
  find-empty = lookup-nil;
  find-store = λ k j v m. lookup-insert k j v m;
  take_out_value = λ k m. refl;
  find-take_out = λ k j m. lookup-remove k j m;
  find-clear = λ k m. lookup-nil k;
}
