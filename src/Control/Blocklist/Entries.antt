-- ===== src/Control/Blocklist/Entries.antt =====
-- What adding one entry does to the lists of src/control/blocklist.rs.
use home_guard.Prelude.{
  ◌≡◌, ◌↔◌, ◌⊎◌, refl, sym, ap, ◌∙◌, inl, inr, Bool, true, false, Option, none, some, List, [], ◌∷◌,
  ◌++◌, if◌then◌else◌, ◌==◌, nat_eq, list_eq, beq_iff, Bool-cases, In, here, there, arith,
}
use home_guard.Prelude.Map.{lookup, lookup-insert}
use home_guard.Prelude.Text.{Text, to_lowercase}
use home_guard.Control.Blocklist.{
  BlocklistManager, contains, add, or_default, test_in, insert_under, matches_suffix, add_entry,
  is_in_category,
}
use home_guard.Control.Blocklist.Matching.{
  contains→In, In→contains, IsListedUnder, matches_suffix_iff,
}

-- What a manager has for a category.
abbrev pub domains_of : Text → BlocklistManager → List Text
domains_of category m = or_default (lookup category m.category_domains)

abbrev pub suffixes_of : Text → BlocklistManager → List Text
suffixes_of category m = or_default (lookup category m.category_suffixes)

pub test_in-or_default :
    (p : List Text → Bool) (o : Option (List Text)) → p [] ≡ false → test_in p o ≡ p (or_default o)
test_in-or_default p none h = sym h
test_in-or_default p (some l) h = refl

pub matches_suffix-nil : (d : Text) → matches_suffix d [] ≡ false
matches_suffix-nil d = elim (Bool-cases (matches_suffix d [])) [
  | inr absent ↦ absent
  | inl found ↦ elim ((matches_suffix_iff d []).0 found) [
    | inl m ↦ elim m [ ]
    | inr p ↦ elim p.listed [ ]
  ]
]

-- A domain is in a category exactly when, in lower case, it is one of the domains of the category, or
-- it is one of its suffixes or below one on a label boundary.
pub is_in_category_iff :
    (domain category : Text) (m : BlocklistManager)
    → (is_in_category domain category m ≡ true) ↔ (
        In (to_lowercase domain) (domains_of category m)
        ⊎ IsListedUnder (suffixes_of category m) (to_lowercase domain))
unfolding is_in_category contains
is_in_category_iff domain category m = rw (exact, below) (to, from)
  where
    exact :
        test_in (contains (to_lowercase domain)) (lookup category m.category_domains)
        ≡ contains (to_lowercase domain) (domains_of category m)
    exact = test_in-or_default (contains (to_lowercase domain)) _ refl

    below :
        test_in (matches_suffix (to_lowercase domain)) (lookup category m.category_suffixes)
        ≡ matches_suffix (to_lowercase domain) (suffixes_of category m)
    below =
        test_in-or_default (matches_suffix (to_lowercase domain)) _
          (matches_suffix-nil (to_lowercase domain))

    to :
        (if contains (to_lowercase domain) (domains_of category m)
            then true
            else matches_suffix (to_lowercase domain) (suffixes_of category m))
          ≡ true
        → In (to_lowercase domain) (domains_of category m)
          ⊎ IsListedUnder (suffixes_of category m) (to_lowercase domain)
    to h = elim (Bool-cases (contains (to_lowercase domain) (domains_of category m))) [
      | inl found ↦ inl (contains→In _ _ found)
      | inr absent ↦ inr ((matches_suffix_iff _ _).0 (rw absent at h))
    ]

    from :
        In (to_lowercase domain) (domains_of category m)
          ⊎ IsListedUnder (suffixes_of category m) (to_lowercase domain)
        → (if contains (to_lowercase domain) (domains_of category m)
            then true
            else matches_suffix (to_lowercase domain) (suffixes_of category m))
          ≡ true
    from (inl i) = rw (In→contains _ _ i) refl
    from (inr u) = ground (arith, (matches_suffix_iff _ (suffixes_of category m)).1 u)

-- What an entry of a file covers.
abbrev pub Covers : Text → Text × Bool → Type 0
Covers domain (x, false) = x ≡ domain
Covers domain (x, true) = (x ≡ domain) ⊎ ((front : Text) × (domain ≡ front ++ b'.' ∷ x))

pub In-add : (x s : Text) (xs : List Text) → In x (add s xs) ↔ (In x xs ⊎ (s ≡ x))
In-add x s xs = elim (Bool-cases (contains s xs)) [
  | inl found ↦ rw found (
    (λ i. inl i),
    (λ u. elim u [
      | inl i ↦ i
      | inr e ↦ contains→In x xs (ap (λ y. contains y xs) (sym e) ∙ found)
    ]),
  )
  | inr absent ↦ rw absent (
    (λ i. elim i [ here e ↦ inr e | there j ↦ inl j ]),
    (λ u. elim u [ inl j ↦ there j | inr e ↦ here e ]),
  )
]

-- The elements under a key after one more is inserted under some key.
pub In-insert_under :
    (x s cat k : Text) (m : List (Text × List Text))
    → In x (or_default (lookup cat (insert_under k s m)))
      ↔ (In x (or_default (lookup cat m)) ⊎ ((k ≡ cat) × (s ≡ x)))
unfolding insert_under
In-insert_under x s cat k m = elim (Bool-cases (k == cat)) [
  | inl same ↦
      let e : k ≡ cat = (beq_iff k cat).0 same in
      let (to, from) = In-add x s (or_default (lookup cat m)) in
      rw (lookup-insert k cat (add s (or_default (lookup k m))) m, same, ap (λ j. lookup j m) e)
        (
          (λ i. elim (to i) [ inl j ↦ inl j | inr f ↦ inr (e, f) ]),
          (λ u. elim u [ inl j ↦ from (inl j) | inr (_, f) ↦ from (inr f) ]),
        )
  | inr other ↦
      rw (lookup-insert k cat (add s (or_default (lookup k m))) m, other)
        (
          (λ i. inl i),
          (λ u. elim u [ inl j ↦ j | inr (e, _) ↦ absurd (cc (other, (beq_iff k cat).1 e)) ]),
        )
]

-- What the lists of a category say of a domain.
abbrev pub IsListed : Text → Text → BlocklistManager → Type 0
IsListed d cat m = In d (domains_of cat m) ⊎ IsListedUnder (suffixes_of cat m) d

pub IsListed-add_entry :
    (d cat k : Text) (entry : Text × Bool) (m : BlocklistManager)
    → IsListed d cat (add_entry (some k) entry m)
      ↔ (IsListed d cat m ⊎ ((k ≡ cat) × Covers d entry))
unfolding add_entry
IsListed-add_entry d cat k (x, false) m =
    let (to, from) = In-insert_under d x cat k m.category_domains in
    (
      (λ u. elim u [
        | inl i ↦ elim (to i) [ inl j ↦ inl (inl j) | inr p ↦ inr p ]
        | inr below ↦ inl (inr below)
      ]),
      (λ u. elim u [
        | inl (inl j) ↦ inl (from (inl j))
        | inl (inr below) ↦ inr below
        | inr p ↦ inl (from (inr p))
      ]),
    )
IsListed-add_entry d cat k (x, true) m = (to, from)
  where
    after : List (Text × List Text)
    after = insert_under k x m.category_suffixes

    to :
        In d (domains_of cat m) ⊎ IsListedUnder (or_default (lookup cat after)) d
        → IsListed d cat m ⊎ ((k ≡ cat) × Covers d (x, true))
    to (inl i) = inl (inl i)
    to (inr (inl i)) = elim ((In-insert_under d x cat k m.category_suffixes).0 i) [
      | inl j ↦ inl (inr (inl j))
      | inr (e, same) ↦ inr (e, inl same)
    ]
    to (inr (inr p)) = elim ((In-insert_under p.parent x cat k m.category_suffixes).0 p.listed) [
      | inl j ↦ inl (
          inr (
            inr (record { parent = p.parent; front = p.front; listed = j; boundary = p.boundary })))
      | inr (e, same) ↦
          inr (e, inr (p.front, p.boundary ∙ ap (λ y. p.front ++ b'.' ∷ y) (sym same)))
    ]

    from :
        IsListed d cat m ⊎ ((k ≡ cat) × Covers d (x, true))
        → In d (domains_of cat m) ⊎ IsListedUnder (or_default (lookup cat after)) d
    from (inl (inl i)) = inl i
    from (inl (inr (inl j))) = inr (inl ((In-insert_under d x cat k m.category_suffixes).1 (inl j)))
    from (inl (inr (inr p))) = inr (
        inr (record {
          parent = p.parent;
          front = p.front;
          listed = (In-insert_under p.parent x cat k m.category_suffixes).1 (inl p.listed);
          boundary = p.boundary;
        }))
    from (inr (e, inl same)) =
        inr (inl ((In-insert_under d x cat k m.category_suffixes).1 (inr (e, same))))
    from (inr (e, inr (front, boundary))) = inr (
        inr (record {
          parent = x;
          front = front;
          listed = (In-insert_under x x cat k m.category_suffixes).1 (inr (e, refl));
          boundary = boundary;
        }))
