-- ===== src/Storage/Logger/Names.antt =====
-- src/storage/logger.rs: the name of the file of a date.
use home_guard.Prelude.{
  ℕ, ◌+◌, ◌-◌, ◌≤◌, ◌<◌, ◌≡◌, refl, sym, ap, ◌∙◌, true, false, ◌&&◌, some, List, [], ◌∷◌, ◌++◌,
  ◌==◌, nat_eq, list_eq, ltb, leb, lt→ltb, length, take, drop, get_elem?, take-append, drop-suffix,
  length-append, le→ltb_false, le→leb, All, arith, Bool-cases, inl, inr,
}
use home_guard.Prelude.Text.{Text, bytes}
use home_guard.Prelude.Utf8.{continuation, is_utf8, is_char_boundary, valid_from-append}
use home_guard.Crates.Chrono.{Chrono, HasPlainYear}
use home_guard.Storage.Logger.{Disk, starts_with, ends_with, file_name, date_of}
use home_guard.Storage.Logger.Cleanup.{is_gone}

get_elem?-length {ℓ} :
    {A : Type ℓ} (xs ys : List A) (y : A) → get_elem? (xs ++ y ∷ ys) (length xs) ≡ some y
get_elem?-length [] ys y = refl
get_elem?-length (x ∷ xs) ys y = get_elem?-length xs ys y

-- Ten bytes of ASCII between the two ends of a name.
is_char_boundary_7 :
    (t : Text)
    → length t ≡ 10
    → All (λ c. c < 128) t
    → is_char_boundary 7 (bytes "access-" ++ (t ++ bytes ".log")) ≡ true
unfolding is_char_boundary
is_char_boundary_7 [] size h = absurd (omega (arith, size))
is_char_boundary_7 (c ∷ t) size (small, h) =
    let one : ltb c 128 ≡ true = lt→ltb c 128 small in rw (is_char_boundary, one) refl

is_char_boundary_17 :
    (t : Text) → length t ≡ 10 → is_char_boundary 17 (bytes "access-" ++ (t ++ bytes ".log")) ≡ true
unfolding is_char_boundary
is_char_boundary_17 t size =
    let at : get_elem? (bytes "access-" ++ (t ++ bytes ".log")) 17 ≡ some b'.' =
      ap (λ n. get_elem? (t ++ bytes ".log") n) (sym size)
      ∙ get_elem?-length t (bytes "log") b'.' in
    rw (is_char_boundary, at) refl

module _ (C : Chrono) (D : Disk) where
  length-file_name : (d : ℕ) → HasPlainYear C d → length (file_name C D d) ≡ 21
  length-file_name d (low, high) =
      omega (arith, length-append (C.format d) (bytes ".log"), C.length-format d low high)

  starts_with-file_name : (d : ℕ) → starts_with (bytes "access-") (file_name C D d) ≡ true
  unfolding starts_with
  starts_with-file_name d = refl

  ends_with-file_name :
      (d : ℕ) → HasPlainYear C d → ends_with (bytes ".log") (file_name C D d) ≡ true
  unfolding ends_with
  ends_with-file_name d h =
      let size = length-file_name d h in
      let suffix : drop (length (file_name C D d) - 4) (file_name C D d) ≡ bytes ".log" =
        drop-suffix (bytes "access-" ++ C.format d) (bytes ".log") 4 refl in
      let enough : leb 4 (length (file_name C D d)) ≡ true =
        le→leb 4 (length (file_name C D d)) (omega arith) in
      rw (ends_with, enough) (ap (λ t. t == bytes ".log") suffix)

  is_utf8-file_name : (d : ℕ) → HasPlainYear C d → is_utf8 (file_name C D d) ≡ true
  unfolding is_utf8 continuation
  is_utf8-file_name d (low, high) =
      valid_from-append (bytes "access-") (C.format d ++ bytes ".log") small_name
      ∙ valid_from-append (C.format d) (bytes ".log") (C.format_ascii d low high)
    where
      small_name : All (λ c. c < 128) (bytes "access-")
      small_name = (
        omega arith,
        (
          omega arith,
          (omega arith, (omega arith, (omega arith, (omega arith, (omega arith, tt))))),
        ),
      )

  date_of_long :
      (name : Text)
      → is_utf8 name ≡ true
      → starts_with (bytes "access-") name ≡ true
      → ends_with (bytes ".log") name ≡ true
      → is_char_boundary 7 name ≡ true
      → is_char_boundary 17 name ≡ true
      → date_of C D name ≡ some (C.parse (drop 7 (take 17 name)))
  unfolding date_of
  date_of_long name utf8 starts ends from to = rw (date_of, utf8, starts, ends, from, to) refl

  -- The date in the name of a log file is its date.
  pub date_of-file_name : (d : ℕ) → HasPlainYear C d → date_of C D (file_name C D d) ≡ some (some d)
  date_of-file_name d (low, high) =
      let size = C.length-format d low high in
      let digits : take 10 (C.format d ++ bytes ".log") ≡ C.format d =
        ap (λ n. take n (C.format d ++ bytes ".log")) (sym size)
        ∙ take-append (C.format d) (bytes ".log") in
      date_of_long (file_name C D d) (is_utf8-file_name d (low, high)) (starts_with-file_name d)
        (ends_with-file_name d (low, high))
        (is_char_boundary_7 (C.format d) size (C.format_ascii d low high))
        (is_char_boundary_17 (C.format d) size)
      ∙ ap (λ t. some (C.parse t)) digits
      ∙ ap some (C.parse-format d low high)

  -- The cleanup leaves the files of the days of the retention.
  pub file_name-stays :
      (today retention d : ℕ)
      → HasPlainYear C d
      → today ≤ d + retention
      → is_gone C D (today - retention) (file_name C D d) ≡ false
  unfolding is_gone
  file_name-stays today retention d h recent =
      let young : ltb d (today - retention) ≡ false =
        le→ltb_false d (today - retention) (omega arith) in
      rw (is_gone, date_of-file_name d h, young) refl

  -- It removes those of earlier days, where the file system lets it.
  pub file_name-goes :
      (today retention d : ℕ)
      → HasPlainYear C d
      → d + retention < today
      → D.removes (file_name C D d) ≡ true
      → is_gone C D (today - retention) (file_name C D d) ≡ true
  unfolding is_gone
  file_name-goes today retention d h before removable =
      let old : ltb d (today - retention) ≡ true = lt→ltb d (today - retention) (omega arith) in
      rw (is_gone, date_of-file_name d h, old, removable) refl

  -- It leaves a name that does not begin or end like that of a log file.
  pub other_stays :
      (cutoff : ℕ) (name : Text)
      → (starts_with (bytes "access-") name && ends_with (bytes ".log") name) ≡ false
      → is_gone C D cutoff name ≡ false
  unfolding is_gone date_of
  other_stays cutoff name other = elim (Bool-cases (is_utf8 name)) [
    | inl utf8 ↦ rw (is_gone, date_of, utf8, other) refl
    | inr raw ↦ rw (is_gone, date_of, raw) refl
  ]
