-- ===== src/Control/Blocklist/Categories.antt =====
-- The test of a category, and what loading a file changes of it.
use mathlib.Core.Path.{subst}
use home_guard.Prelude.{
  ◌≡◌, ◌↔◌, ◌⊎◌, refl, sym, inl, inr, Bool, true, some, List, [], ◌∷◌, map, nat_eq, list_eq, In,
  here, there,
}
use home_guard.Prelude.Text.{trim, Text, to_lowercase}
use home_guard.Control.Blocklist.Lines.{StandsFor, entries-StandsFor, StandsFor-entries}
use home_guard.Control.Blocklist.{BlocklistManager, add_entry, load_file, is_in_category}
use home_guard.Control.Blocklist.Loading.{entries, add_entries, load_file-entries}
use home_guard.Control.Blocklist.Entries.{is_in_category_iff, Covers, IsListed, IsListed-add_entry}

-- Some entry covers the domain.
abbrev pub IsCovered : Text → List (Text × Bool) → Type 0
IsCovered d es = (entry : Text × Bool) × In entry es × Covers d entry

add_entries→IsCovered :
    (d cat k : Text) (es : List (Text × Bool)) (m : BlocklistManager)
    → IsListed d cat (add_entries (some k) es m)
    → IsListed d cat m ⊎ ((k ≡ cat) × IsCovered d es)
add_entries→IsCovered d cat k [] m h = inl h
add_entries→IsCovered d cat k (e ∷ es) m h =
    elim (add_entries→IsCovered d cat k es (add_entry (some k) e m) h) [
      | inl one ↦ elim ((IsListed-add_entry d cat k e m).0 one) [
        | inl old ↦ inl old
        | inr (same, c) ↦ inr (same, (e, here refl, c))
      ]
      | inr (same, (f, i, c)) ↦ inr (same, (f, there i, c))
    ]

add_entries_kept :
    (d cat k : Text) (es : List (Text × Bool)) (m : BlocklistManager)
    → IsListed d cat m
    → IsListed d cat (add_entries (some k) es m)
add_entries_kept d cat k [] m h = h
add_entries_kept d cat k (e ∷ es) m h =
    add_entries_kept d cat k es (add_entry (some k) e m)
      ((IsListed-add_entry d cat k e m).1 (inl h))

add_entries_covered :
    (d k : Text) (es : List (Text × Bool)) (m : BlocklistManager) (entry : Text × Bool)
    → In entry es
    → Covers d entry
    → IsListed d k (add_entries (some k) es m)
add_entries_covered d k [] m entry i c = elim i [ ]
add_entries_covered d k (e ∷ es) m entry (here same) c =
    add_entries_kept d k k es (add_entry (some k) e m)
      ((IsListed-add_entry d k k e m).1 (inr (refl, subst (Covers d) (sym same) c)))
add_entries_covered d k (e ∷ es) m entry (there i) c =
    add_entries_covered d k es (add_entry (some k) e m) entry i c

-- Some line stands for an entry that covers the domain.
abbrev pub IsCoveredBy : Text → List Text → Type 0
IsCoveredBy d lines =
    (line : Text) × (entry : Text × Bool) × In line lines
    × StandsFor (trim line) entry
    × Covers d entry

IsCovered→IsCoveredBy :
    (d : Text) (lines : List Text) → IsCovered d (entries lines) → IsCoveredBy d lines
IsCovered→IsCoveredBy d lines (entry, i, c) =
    let (line, j, s) = entries-StandsFor lines entry i in (line, entry, j, s, c)

IsCoveredBy→IsCovered :
    (d : Text) (lines : List Text) → IsCoveredBy d lines → IsCovered d (entries lines)
IsCoveredBy→IsCovered d lines (line, entry, i, s, c) =
    (entry, StandsFor-entries lines line entry i s, c)

-- After a file is loaded into a category, a domain is in a category exactly when it was before, or
-- the category is that of the file and some line of the file, trimmed, stands for an entry that covers
-- the domain in lower case: a suffix that the domain equals or is below, for a line that begins with a
-- dot or a star and a dot, and otherwise, unless the line is empty or begins with `#`, the line itself,
-- both in lower case. Other categories are as before.
pub is_in_category-load_file :
    (domain cat k : Text) (lines : List Text) (m : BlocklistManager)
    → (is_in_category domain cat (load_file (some k) (some (map some lines)) m).0 ≡ true) ↔ (
        (is_in_category domain cat m ≡ true)
        ⊎ ((k ≡ cat) × IsCoveredBy (to_lowercase domain) lines))
is_in_category-load_file domain cat k lines m = rw (load_file-entries (some k) lines m) (to, from)
  where
    after : BlocklistManager
    after = add_entries (some k) (entries lines) m

    to :
        is_in_category domain cat after ≡ true
        → (is_in_category domain cat m ≡ true)
          ⊎ ((k ≡ cat) × IsCoveredBy (to_lowercase domain) lines)
    to h =
        elim (add_entries→IsCovered _ cat k (entries lines) m
          ((is_in_category_iff domain cat after).0 h)) [
            | inl old ↦ inl ((is_in_category_iff domain cat m).1 old)
            | inr (same, new) ↦ inr (same, IsCovered→IsCoveredBy (to_lowercase domain) lines new)
          ]

    from :
        (is_in_category domain cat m ≡ true) ⊎ ((k ≡ cat) × IsCoveredBy (to_lowercase domain) lines)
        → is_in_category domain cat after ≡ true
    from (inl old) =
        (is_in_category_iff domain cat after).1
          (add_entries_kept _ cat k (entries lines) m ((is_in_category_iff domain cat m).0 old))
    from (inr (same, covered)) =
        let (entry, i, c) = IsCoveredBy→IsCovered (to_lowercase domain) lines covered in
        (is_in_category_iff domain cat after).1 (
          subst (λ j. IsListed (to_lowercase domain) j after) same
            (add_entries_covered _ k (entries lines) m entry i c))
