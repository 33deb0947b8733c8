-- ===== src/Crates/Recency/Laws.antt =====
-- What a recency list shows after each operation, and that no operation repeats a key.
use home_guard.Prelude.{
  ℕ, suc, ◌≤◌, ◌<◌, ◌≡◌, ◌∙◌, sym, refl, ap, inl, inr, false, List, [], ◌∷◌, some, arith, length,
  Eq, ◌==◌, beq_iff, beq_refl, Option-cases, Bool-cases, take_of_length-le,
}
use home_guard.Prelude.Map.{lookup, remove, lookup-remove, remove_absent, length-remove-le}
use home_guard.Crates.Recency.{Recency, split_last, get, put, pop, pop_lru, IsAbsent, IsDistinct}

module _ {ℓ κ} {K : Type ℓ} {V : Type κ} ⦃e : Eq K⦄ where
  IsAbsent-remove : (k j : K) (m : List (K × V)) → IsAbsent j m → IsAbsent j (remove k m)
  IsAbsent-remove k j m h = ground (arith, lookup-remove k j m)

  IsAbsent-remove_self : (k : K) (m : List (K × V)) → IsAbsent k (remove k m)
  IsAbsent-remove_self k m = ground (arith, lookup-remove k k m, beq_refl k)

  remove-IsDistinct : (k : K) (m : List (K × V)) → IsDistinct m → IsDistinct (remove k m)
  unfolding remove
  remove-IsDistinct k [] h = tt
  remove-IsDistinct k ((j, w) ∷ m) h = elim (Bool-cases (j == k)) [
    | inl same ↦ rw same (remove-IsDistinct k m h.1)
    | inr other ↦ rw other (IsAbsent-remove k j m h.0, remove-IsDistinct k m h.1)
  ]

  pub lookup-get : (k j : K) (r : Recency K V) → lookup j (get k r).1.items ≡ lookup j r.items
  unfolding get lookup
  lookup-get k j r = ground (arith, lookup-remove k j r.items, beq_iff k j)

  get_value : (k : K) (r : Recency K V) → (get k r).0 ≡ lookup k r.items
  unfolding get
  get_value k r = elim (Option-cases (lookup k r.items)) [
    | inl miss ↦ rw (miss, get) refl
    | inr (v, hit) ↦ rw (hit, get) refl
  ]

  -- A hit is a hit again.
  pub get-get : (k : K) (r : Recency K V) → (get k (get k r).1).0 ≡ (get k r).0
  get-get k r = get_value k (get k r).1 ∙ lookup-get k k r ∙ sym (get_value k r)

  pub get-IsDistinct : (k : K) (r : Recency K V) → IsDistinct r.items → IsDistinct (get k r).1.items
  unfolding get
  get-IsDistinct k r h = elim (Option-cases (lookup k r.items)) [
    | inl miss ↦ rw (miss, get) h
    | inr (v, hit) ↦ rw (hit, get) (IsAbsent-remove_self k r.items, remove-IsDistinct k r.items h)
  ]

  pub cap-get : (k : K) (r : Recency K V) → (get k r).1.cap ≡ r.cap
  unfolding get
  cap-get k r = ground arith

  length-remove-lt :
      (k : K) (m : List (K × V)) (v : V) → lookup k m ≡ some v → length (remove k m) < length m
  unfolding lookup remove
  length-remove-lt k [] v h = cc
  length-remove-lt k ((j, w) ∷ m) v h = ground (arith, length-remove-lt k m v, length-remove-le k m)

  pub length-get-le : (k : K) (r : Recency K V) → length (get k r).1.items ≤ length r.items
  unfolding get
  length-get-le k r = elim (Option-cases (lookup k r.items)) [
    | inl miss ↦ rw (miss, get) (omega arith)
    | inr (v, hit) ↦ rw (hit, get) (length-remove-lt k r.items v hit)
  ]

  pub pop-IsDistinct : (k : K) (r : Recency K V) → IsDistinct r.items → IsDistinct (pop k r).items
  unfolding pop
  pop-IsDistinct k r = remove-IsDistinct k r.items

  -- A new key fits into a cache with room, and nothing else changes.
  pub put_room :
      (k : K) (v : V) (r : Recency K V)
      → IsAbsent k r.items
      → length r.items < r.cap
      → put k v r ≡ record r { items = (k, v) ∷ r.items }
  unfolding put
  put_room k v r h room = rw (remove_absent k r.items h, take_of_length-le r.cap _ room)

  split_last-IsAbsent : (j : K) (m : List (K × V)) → IsAbsent j m → IsAbsent j (split_last m).1
  unfolding split_last lookup
  split_last-IsAbsent j [] h = refl
  split_last-IsAbsent j (x ∷ []) h = refl
  split_last-IsAbsent j ((k, w) ∷ y ∷ m) h = ground (arith, split_last-IsAbsent j (y ∷ m))

  split_last_lem :
      (p : K × V) (m : List (K × V))
      → IsDistinct (p ∷ m)
      → (k : K) × (v : V) × (rest : List (K × V)) × (split_last (p ∷ m) ≡ (some (k, v), rest))
        × (lookup k (p ∷ m) ≡ some v)
        × (rest ≡ remove k (p ∷ m))
        × (length rest ≡ length m)
  unfolding split_last lookup remove
  split_last_lem (k, v) [] h = (k, v, [], refl, rw (beq_refl k), rw (beq_refl k), refl)
  split_last_lem (j, w) (q ∷ m) h =
      let (k, v, rest, split, found, same, size) = split_last_lem q m h.1 in
      let other : (j == k) ≡ false = ground (arith, beq_iff j k, h.0, found) in
      (k, v, (j, w) ∷ rest, rw split, rw other found, rw (other, same), ap suc size)

  pop_lru_items :
      (n : ℕ) (m : List (K × V))
      → IsDistinct m
      → 0 < length m
      → (k : K) × (v : V) × (pop_lru (record { cap = n; items = m })
          ≡ (some (k, v), record { cap = n; items = remove k m }))
        × (lookup k m ≡ some v)
        × (length (remove k m) < length m)
  unfolding pop_lru
  pop_lru_items n [] h size = absurd (omega arith)
  pop_lru_items n (p ∷ m) h size =
      let (k, v, rest, split, found, same, len) = split_last_lem p m h in
      (k, v, rw (split, same), found, omega (arith, ap length same))

  -- The least recently used entry leaves a cache that is not empty, and only that entry.
  pub pop_lru_lem :
      (r : Recency K V)
      → IsDistinct r.items
      → 0 < length r.items
      → (k : K) × (v : V) × (pop_lru r ≡ (some (k, v), pop k r))
        × (lookup k r.items ≡ some v)
        × (length (pop k r).items < length r.items)
  unfolding pop
  pop_lru_lem r = pop_lru_items r.cap r.items
