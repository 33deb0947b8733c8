-- ===== src/Control/Blocklist/Loading.antt =====
-- What `load_file` adds to a manager.
use home_guard.Prelude.{
  ℕ, ◌+◌, ◌≡◌, refl, sym, ap, ◌∙◌, inl, inr, Bool, Option, none, some, List, [], ◌∷◌, ◌++◌, map,
  arith, nat_eq, list_eq, Option-cases, length,
}
use home_guard.Prelude.Text.{Text, trim}
use home_guard.Control.Blocklist.{BlocklistManager, parse_line, add_entry, load_lines, load_file}

-- The entries that the lines stand for, in order.
unfoldable pub entries : List Text → List (Text × Bool)
entries [] = []
entries (line ∷ lines) = elim (parse_line (trim line)) [
  | none ↦ entries lines
  | some entry ↦ entry ∷ entries lines
]

abbrev pub add_entries : Option Text → List (Text × Bool) → BlocklistManager → BlocklistManager
add_entries category [] m = m
add_entries category (entry ∷ es) m = add_entries category es (add_entry category entry m)

load_lines-entries :
    (category : Option Text) (lines : List Text) (rest : List (Option Text)) (count : ℕ)
    (m : BlocklistManager)
    → load_lines category (map some lines ++ rest) count m
      ≡ load_lines category rest
          (count + length (entries lines))
          (add_entries category (entries lines) m)
unfolding load_lines entries
load_lines-entries category [] rest count m = ap (λ n. load_lines category rest n m) (omega arith)
load_lines-entries category (line ∷ lines) rest count m =
    elim (Option-cases (parse_line (trim line))) [
      | inl skipped ↦
          rw (skipped, load_lines, entries) (load_lines-entries category lines rest count m)
      | inr (e, parsed) ↦
          rw (parsed, load_lines, entries)
            (load_lines-entries category lines rest (count + 1) (add_entry category e m)
              ∙ ap
                  (λ n.
                    load_lines category rest n
                      (add_entries category (entries lines) (add_entry category e m)))
                  (omega arith))
    ]

load_lines_end :
    (category : Option Text) (rest : List (Option Text)) (count : ℕ) (m : BlocklistManager)
    → load_lines category (none ∷ rest) count m ≡ (m, none)
unfolding load_lines
load_lines_end category rest count m = refl

append_nil : {A : Type 0} (xs : List A) → xs ++ [] ≡ xs
append_nil [] = refl
append_nil (x ∷ xs) = ap (◌∷◌ x) (append_nil xs)

pub load_file-entries :
    (category : Option Text) (lines : List Text) (m : BlocklistManager)
    → load_file category (some (map some lines)) m
      ≡ (add_entries category (entries lines) m, some (length (entries lines)))
unfolding load_file load_lines
load_file-entries category lines m =
    ap (λ l. load_lines category l 0 m) (sym (append_nil (map some lines)))
    ∙ load_lines-entries category lines [] 0 m
    ∙ ap (λ n. (add_entries category (entries lines) m, some n)) (omega arith)

-- A file is loaded line by line up to the first line that cannot be read: the entries before it stay
-- in the manager although the load reports a failure, and what follows it is ignored.
pub load_file-unreadable :
    (category : Option Text) (lines : List Text) (rest : List (Option Text)) (m : BlocklistManager)
    → load_file category (some (map some lines ++ none ∷ rest)) m
      ≡ ((load_file category (some (map some lines)) m).0, none)
unfolding load_file
load_file-unreadable category lines rest m =
    load_lines-entries category lines (none ∷ rest) 0 m
    ∙ load_lines_end category rest (0 + length (entries lines)) _
    ∙ ap (λ p. (p.0, none)) (sym (load_file-entries category lines m))
