-- ===== src/Prelude/Text.antt =====
-- Texts as the lists of their bytes: ASCII letters have case, every other byte stays.
use Prim.Native.Nat.{ℕ, ◌+◌, ◌-◌}
use Prim.Native.Char.{code}
use Prim.Native.String.{String}
use mathlib.Core.Path.{◌≡◌, refl}
use mathlib.Core.Bool.{Bool, ◌&&◌, ◌||◌}
use mathlib.Core.List.{List, [], ◌∷◌, ◌++◌, map, reverse}
use native.Mathlib.Omega.{arith}
use home_guard.Prelude.Tests.{if◌then◌else◌, leb}
use home_guard.Prelude.Classes.{◌==◌, nat_eq}

abbrev pub Text : Type 0
Text = List ℕ

-- The bytes of an ASCII literal.
abbrev pub bytes : String → Text
bytes String.[] = []
bytes (String.◌∷◌ c s) = code c ∷ bytes s

unfoldable pub lower_byte : ℕ → ℕ
lower_byte c = if leb b'A' c && leb c b'Z' then c + 32 else c

-- `str::to_lowercase`, on ASCII.
unfoldable pub to_lowercase : Text → Text
unfolding lower_byte
to_lowercase = map lower_byte

unfoldable pub upper_byte : ℕ → ℕ
upper_byte c = if leb b'a' c && leb c b'z' then c - 32 else c

-- `str::to_uppercase`, on ASCII.
unfoldable pub to_uppercase : Text → Text
unfolding upper_byte
to_uppercase = map upper_byte

-- `str::contains`, as a statement.
abbrev pub Contains : Text → Text → Type 0
Contains p s = (before : Text) × (after : Text) × (s ≡ before ++ (p ++ after))

-- `str::split(c)`: never empty; an empty text has one empty part.
abbrev pub push_head : ℕ → List Text → List Text
push_head x [] = (x ∷ []) ∷ []
push_head x (w ∷ ws) = (x ∷ w) ∷ ws

unfoldable pub split_on : ℕ → Text → List Text
split_on c [] = [] ∷ []
split_on c (x ∷ xs) = if x == c then [] ∷ split_on c xs else push_head x (split_on c xs)

-- `Vec::join` with a one-byte separator.
unfoldable pub join : ℕ → List Text → Text
join c [] = []
join c (w ∷ []) = w
join c (w ∷ v ∷ ws) = w ++ c ∷ join c (v ∷ ws)

-- `str::trim_end_matches(c)`.
unfoldable pub trim_end : ℕ → Text → Text
trim_end c [] = []
trim_end c (x ∷ xs) = elim (trim_end c xs) [
  | [] ↦ if x == c then [] else x ∷ []
  | y ∷ ys ↦ x ∷ y ∷ ys
]

-- The whitespace that `str::trim` removes, on ASCII.
unfoldable pub is_space : ℕ → Bool
is_space c = (leb 9 c && leb c 13) || (c == 32)

unfoldable pub trim_start : Text → Text
trim_start [] = []
trim_start (c ∷ s) = if is_space c then trim_start s else c ∷ s

-- `str::trim`
unfoldable pub trim : Text → Text
unfolding trim_start
trim s = reverse (trim_start (reverse (trim_start s)))

pub lower_byte_idem : (c : ℕ) → lower_byte (lower_byte c) ≡ lower_byte c
unfolding lower_byte
lower_byte_idem c = ground arith

pub to_lowercase_idem : (s : Text) → to_lowercase (to_lowercase s) ≡ to_lowercase s
unfolding to_lowercase
to_lowercase_idem [] = refl
to_lowercase_idem (c ∷ s) = cc (lower_byte_idem c, to_lowercase_idem s)
