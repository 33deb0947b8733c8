-- ===== src/Crates/Recency.antt =====
-- What the documentation of the crate `lru` promises, over the list of entries in the order of its
-- iterator: most recently used first.
pub mod Laws
use home_guard.Prelude.{
  ℕ, suc, ◌≤◌, ◌<◌, ◌≡◌, refl, Bool, true, false, List, [], ◌∷◌, Option, none, some, arith, length,
  take, if◌then◌else◌, Eq, ◌==◌, beq_iff,
}
use home_guard.Prelude.Map.{lookup, remove}

pub record Recency {ℓ κ} (K : Type ℓ) (V : Type κ) : Type (ℓ ⊔ κ) where
  pub cap : ℕ
  pub items : List (K × V)

-- The last entry, and the list without it.
unfoldable pub split_last {ℓ} : {A : Type ℓ} → List A → Option A × List A
split_last [] = (none, [])
split_last (x ∷ []) = (some x, [])
split_last (x ∷ y ∷ ys) = let (l, rest) = split_last (y ∷ ys) in (l, x ∷ rest)

module _ {ℓ κ} {K : Type ℓ} {V : Type κ} ⦃e : Eq K⦄ where
  -- A hit moves its entry to the front.
  unfoldable pub get : K → Recency K V → Option V × Recency K V
  get k r = elim (lookup k r.items) [
    | none ↦ (none, r)
    | some v ↦ (some v, record r { items = (k, v) ∷ remove k r.items })
  ]

  -- A known key is replaced and moved to the front; a new key evicts the last entry of a full cache.
  unfoldable pub put : K → V → Recency K V → Recency K V
  put k v r = record r { items = take r.cap ((k, v) ∷ remove k r.items) }

  unfoldable pub pop : K → Recency K V → Recency K V
  pop k r = record r { items = remove k r.items }

  unfoldable pub pop_lru : Recency K V → Option (K × V) × Recency K V
  pop_lru r = let (l, rest) = split_last r.items in (l, record r { items = rest })

  abbrev pub IsAbsent : K → List (K × V) → Type κ
  IsAbsent k m = lookup k m ≡ none

  -- No key occurs twice.
  abbrev pub IsDistinct : List (K × V) → Type κ
  IsDistinct [] = Unit
  IsDistinct ((k, v) ∷ m) = IsAbsent k m × IsDistinct m
