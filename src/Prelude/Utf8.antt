-- ===== src/Prelude/Utf8.antt =====
-- UTF-8, as the standard library tests it: which bytes are a string, and where its characters begin.
use home_guard.Prelude.{
  ℕ, ◌<◌, ◌≡◌, refl, Bool, true, false, ◌&&◌, ◌||◌, Option, none, some, List, [], ◌∷◌, ◌++◌,
  if◌then◌else◌, ◌==◌, nat_eq, ltb, leb, lt→ltb, length, get_elem?, All,
}
use home_guard.Prelude.Text.{Text}

-- What may follow the first byte of a character in UTF-8: a range for each further byte.
unfoldable pub continuation : ℕ → Option (List (ℕ × ℕ))
continuation c =
    if ltb c 128
    then some []
    else if leb 194 c && leb c 223
    then some ((128, 191) ∷ [])
    else if c == 224
    then some ((160, 191) ∷ (128, 191) ∷ [])
    else if c == 237
    then some ((128, 159) ∷ (128, 191) ∷ [])
    else if leb 225 c && leb c 239
    then some ((128, 191) ∷ (128, 191) ∷ [])
    else if c == 240
    then some ((144, 191) ∷ (128, 191) ∷ (128, 191) ∷ [])
    else if leb 241 c && leb c 243
    then some ((128, 191) ∷ (128, 191) ∷ (128, 191) ∷ [])
    else if c == 244
    then some ((128, 143) ∷ (128, 191) ∷ (128, 191) ∷ [])
    else none

abbrev pub is_nil : List (ℕ × ℕ) → Bool
is_nil [] = true
is_nil (x ∷ xs) = false

unfoldable pub valid_from : List (ℕ × ℕ) → Text → Bool
valid_from pending [] = is_nil pending
valid_from [] (c ∷ s) = elim (continuation c) [ none ↦ false | some pending ↦ valid_from pending s ]
valid_from ((low, high) ∷ pending) (c ∷ s) =
    if leb low c && leb c high then valid_from pending s else false

-- Whether `String::from_utf8` succeeds.
unfoldable pub is_utf8 : Text → Bool
unfolding valid_from
is_utf8 s = valid_from [] s

-- `str::is_char_boundary`
unfoldable pub is_char_boundary : ℕ → Text → Bool
is_char_boundary i s =
    if i == 0
    then true
    else elim (get_elem? s i) [ none ↦ length s == i | some c ↦ ltb c 128 || leb 192 c ]

-- Bytes of ASCII are characters of their own.
pub valid_from-append :
    (xs ys : Text) → All (λ c. c < 128) xs → valid_from [] (xs ++ ys) ≡ valid_from [] ys
unfolding valid_from continuation
valid_from-append [] ys h = refl
valid_from-append (x ∷ xs) ys (small, h) =
    let one : ltb x 128 ≡ true = lt→ltb x 128 small in
    let whole : continuation x ≡ some [] = rw (continuation, one) refl in
    rw (valid_from, whole) (valid_from-append xs ys h)
