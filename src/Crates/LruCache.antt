-- ===== src/Crates/LruCache.antt =====
-- The crate `lru`: `LruCache<K, V>` behind the operations that the program calls. Each operation is
-- known by its effect on the entries that the iterator shows.
use home_guard.Prelude.{ℕ, ◌≡◌, refl, [], Option, Eq}
use home_guard.Crates.Recency
use home_guard.Crates.Recency.{Recency}

pub record LruCache {ℓ} (K V : Type ℓ) ⦃e : Eq K⦄ : Type (ℓ + 1) where
  pub Cache : Type ℓ
  pub view : Cache → Recency K V
  pub new : ℕ → Cache
  pub get : K → Cache → Option V × Cache
  pub put : K → V → Cache → Cache
  pub pop : K → Cache → Cache
  pub pop_lru : Cache → Option (K × V) × Cache
  pub clear : Cache → Cache
  pub view-new : (n : ℕ) → view (new n) ≡ record { cap = n; items = [] }
  pub get_value : (k : K) (c : Cache) → (get k c).0 ≡ (Recency.get k (view c)).0
  pub view-get : (k : K) (c : Cache) → view (get k c).1 ≡ (Recency.get k (view c)).1
  pub view-put : (k : K) (v : V) (c : Cache) → view (put k v c) ≡ Recency.put k v (view c)
  pub view-pop : (k : K) (c : Cache) → view (pop k c) ≡ Recency.pop k (view c)
  pub pop_lru_value : (c : Cache) → (pop_lru c).0 ≡ (Recency.pop_lru (view c)).0
  pub view-pop_lru : (c : Cache) → view (pop_lru c).1 ≡ (Recency.pop_lru (view c)).1
  pub view-clear : (c : Cache) → view (clear c) ≡ record { cap = (view c).cap; items = [] }

-- A list in order of use meets the laws.
abbrev pub list_lru {ℓ} : {K V : Type ℓ} ⦃e : Eq K⦄ → LruCache K V
list_lru {K} {V} = record {
  Cache = Recency K V;
  view = λ c. c;
  new = λ n. record { cap = n; items = [] };
  get = Recency.get;
  put = Recency.put;
  pop = Recency.pop;
  pop_lru = Recency.pop_lru;
  clear = λ c. record c { items = [] };
  view-new = λ n. refl;
  get_value = λ k c. refl;
  view-get = λ k c. refl;
  view-put = λ k v c. refl;
  view-pop = λ k c. refl;
  pop_lru_value = λ c. refl;
  view-pop_lru = λ c. refl;
  view-clear = λ c. refl;
}
