-- ===== src/Dns/FakeDns/Allocate.antt =====
-- `allocate`, `lookup` and `clear` keep the tables in agreement, and what they change.
use home_guard.Prelude.{
  ℕ, ◌≤◌, ◌<◌, ◌≡◌, ◌≢◌, ◌⊎◌, inl, inr, refl, sym, ◌∙◌, none, some, arith, if◌then◌else◌, length,
  ◌==◌, nat_eq, list_eq, beq_iff, beq_refl, ap,
}
use home_guard.Prelude.Map
use home_guard.Prelude.Text.{Text}
use home_guard.Crates.Recency
use home_guard.Crates.Recency.{Recency, IsDistinct}
use home_guard.Crates.Recency.Laws.{put_room}
use home_guard.Dns.FakeDns.{Tables, FakeDns, evict, advance, reclaim, assign, allocate_new_ip}
use home_guard.Dns.FakeDns.Invariant.{
  domain_of, address_of, recent, IsValid, Detached, Detached-IsValid, evict_lem, reclaim_lem,
}

module _ (B : Tables) where
  -- What the steps before the new mapping leave of `s`: `lost j` says which addresses may go.
  record Cleared (lost : ℕ → Type 0) (s t : FakeDns B) : Type 0 where
    valid : IsValid B t
    space : length (recent B t).items < (recent B t).cap
    gone : (e : Text) → address_of B s e ≡ none → address_of B t e ≡ none
    kept : (j : ℕ) (e : Text) → domain_of B s j ≡ some e → (domain_of B t j ≡ some e) ⊎ lost j

  -- The address that a full cache gives up.
  abbrev pub IsOldest : FakeDns B → ℕ → Type 0
  IsOldest s j =
      ((recent B s).cap ≤ length (recent B s).items)
      × ((Recency.pop_lru (recent B s)).0 ≡ some (j, tt))

  Detached-kept :
      {ip : ℕ} {d : Text} {s t : FakeDns B}
      → Detached B ip d s t
      → (j : ℕ) (e : Text) → domain_of B s j ≡ some e
      → (domain_of B t j ≡ some e) ⊎ (ip ≡ j)
  Detached-kept {ip} h j e p = ground (arith, h.domains j, beq_iff ip j)

  Detached-gone :
      {ip : ℕ} {d : Text} {s t : FakeDns B}
      → Detached B ip d s t
      → (e : Text) → address_of B s e ≡ none
      → address_of B t e ≡ none
  Detached-gone h e p = ground (arith, h.addresses e)

  Or_map : {P Q R : Type 0} → P ⊎ Q → (Q → R) → P ⊎ R
  Or_map (inl p) f = inl p
  Or_map (inr q) f = inr (f q)

  evict-Cleared : (s : FakeDns B) → IsValid B s → Cleared (IsOldest s) s (evict B s)
  evict-Cleared s v = elim (evict_lem B s v) [
    | inl (room, same) ↦
        rw same (record { valid = v; space = room; gone = λ e p. p; kept = λ j e p. inl p })
    | inr (ip, d, full, last, room, h) ↦ record {
      valid = Detached-IsValid B v h;
      space = omega (arith, room, h.cap);
      gone = Detached-gone h;
      kept = λ j e p.
          Or_map (Detached-kept h j e p) (λ same. (full, last ∙ ap (λ i. some (i, tt)) same));
    }
  ]

  advance-IsValid : {s : FakeDns B} → IsValid B s → IsValid B (advance B s).1
  unfolding advance
  advance-IsValid {s} v = record {
    forward = v.forward;
    backward = v.backward;
    listed = v.listed;
    mapped = v.mapped;
    distinct = v.distinct;
    bounded = v.bounded;
    room = v.room;
    in_pool = v.in_pool;
    next_in_pool = ground (arith, v.next_in_pool);
  }

  assign-IsValid :
      (ip : ℕ) (d : Text) (s : FakeDns B)
      → IsValid B s
      → domain_of B s ip ≡ none
      → address_of B s d ≡ none
      → length (recent B s).items < (recent B s).cap
      → s.pool_start ≤ ip
      → ip ≤ s.pool_end
      → IsValid B (assign B ip d s)
  unfolding assign
  assign-IsValid ip d s v free new room lo hi =
      let shown =
        B.recent.view-put ip tt s.lru ∙ put_room ip tt (recent B s) (v.mapped ip free) room in
      let items : (j : ℕ)
          → Map.lookup j (recent B (assign B ip d s)).items
            ≡ (if ip == j then some tt else Map.lookup j (recent B s).items) =
        λ j. rw shown (Map.lookup-cons j ip tt (recent B s).items) in
      record {
        forward = λ j e p. ground (
          arith,
          B.by_ip.find-store ip j d s.ip_to_domain,
          B.by_domain.find-store d e ip s.domain_to_ip,
          beq_iff ip j,
          beq_iff d e,
          v.forward j e,
          v.backward j e,
        );
        backward = λ j e p. ground (
          arith,
          B.by_ip.find-store ip j d s.ip_to_domain,
          B.by_domain.find-store d e ip s.domain_to_ip,
          beq_iff ip j,
          beq_iff d e,
          v.forward j e,
          v.backward j e,
        );
        listed =
            λ j p. ground (arith, items j, B.by_ip.find-store ip j d s.ip_to_domain, v.listed j);
        mapped =
            λ j p. ground (arith, items j, B.by_ip.find-store ip j d s.ip_to_domain, v.mapped j);
        distinct = rw shown (v.mapped ip free, v.distinct);
        bounded = rw shown room;
        room = rw shown v.room;
        in_pool = λ j e p.
            ground (
              arith,
              B.by_ip.find-store ip j d s.ip_to_domain,
              beq_iff ip j,
              v.in_pool j e,
              lo,
              hi,
            );
        next_in_pool = v.next_in_pool;
      }

  -- Everything that a new mapping does.
  pub record Allocated (d : Text) (s : FakeDns B) (ip : ℕ) (t : FakeDns B) : Type 0 where
    pub valid : IsValid B t
    pub chosen : ip ≡ s.next_ip
    pub owner : domain_of B t ip ≡ some d
    pub address : address_of B t d ≡ some ip
    pub kept :
        (j : ℕ) (e : Text)
        → domain_of B s j ≡ some e
        → j ≢ ip
        → (domain_of B t j ≡ some e) ⊎ IsOldest s j

  evict-pool :
      (s : FakeDns B)
      → IsValid B s
      → ((evict B s).next_ip ≡ s.next_ip)
        × ((evict B s).pool_start ≡ s.pool_start)
        × ((evict B s).pool_end ≡ s.pool_end)
  evict-pool s v = elim (evict_lem B s v) [
    | inl (room, same) ↦ rw same (refl, refl, refl)
    | inr (ip, d, full, last, room, h) ↦ (h.next, h.start, h.end)
  ]

  -- Taking an address back, after the steps that lead to `t`.
  reclaim-Cleared :
      {lost : ℕ → Type 0} {s t : FakeDns B} (ip : ℕ)
      → Cleared lost s t
      → (t.pool_start ≤ ip) × (ip ≤ t.pool_end)
      → let u = reclaim B ip t in
        Cleared (λ j. (ip ≡ j) ⊎ lost j) s u
        × (domain_of B u ip ≡ none)
        × ((u.pool_start ≤ ip) × (ip ≤ u.pool_end))
  reclaim-Cleared {lost} {s} {t} ip c pool = elim (reclaim_lem B ip t c.valid) [
    | inl (free, same) ↦ rw same (
      record {
        valid = c.valid;
        space = c.space;
        gone = c.gone;
        kept = λ j e p. Or_map (c.kept j e p) inr;
      },
      free,
      pool,
    )
    | inr (d, h) ↦ (
      record {
        valid = Detached-IsValid B c.valid h;
        space = omega (arith, h.size, h.cap, c.space);
        gone = λ e p. Detached-gone h e (c.gone e p);
        kept = λ j e p. elim (c.kept j e p) [
          | inl still ↦ Or_map (Detached-kept h j e still) inl
          | inr lost ↦ inr (inr lost)
        ];
      },
      ground (arith, h.domains ip),
      omega (arith, h.start, h.end, pool),
    )
  ]

  advance-Cleared :
      {lost : ℕ → Type 0} {s t : FakeDns B} → Cleared lost s t → Cleared lost s (advance B t).1
  unfolding advance
  advance-Cleared c = record {
    valid = advance-IsValid c.valid;
    space = c.space;
    gone = c.gone;
    kept = c.kept;
  }

  pub allocate_new_ip-Allocated :
      (d : Text) (s : FakeDns B)
      → IsValid B s
      → address_of B s d ≡ none
      → Allocated d s (allocate_new_ip B d s).0 (allocate_new_ip B d s).1
  unfolding allocate_new_ip advance
  allocate_new_ip-Allocated d s v new =
      let e = evict B s in
      let ip = e.next_ip in
      let c = evict-Cleared s v in
      let (same, _, _) = evict-pool s v in
      let (r, free, pool) = reclaim-Cleared ip (advance-Cleared c) c.valid.next_in_pool in
      let t = reclaim B ip (advance B e).1 in
      record {
        valid = assign-IsValid ip d t r.valid free (r.gone d new) r.space pool.0 pool.1;
        chosen = same;
        owner = unfold assign in rw (B.by_ip.find-store ip ip d t.ip_to_domain, beq_refl ip);
        address = unfold assign in rw (B.by_domain.find-store d d ip t.domain_to_ip, beq_refl d);
        kept = λ j f p other.
            unfold assign in
            elim (r.kept j f p) [
              | inl still ↦
                  inl
                    (ground (arith, B.by_ip.find-store ip j d t.ip_to_domain, beq_iff ip j, other))
              | inr (inl here) ↦ absurd (other (sym here))
              | inr (inr oldest) ↦ inr oldest
            ];
      }
