-- ===== src/Prelude/BigEndian.antt =====
-- `octets`, `to_be_bytes` and `from_be_bytes`: a number as a given count of bytes, the highest first.
use mathlib.Core.List.{reverse-reverse, reverse_aux}
use Prim.Native.Nat.{ℕ, zero, suc, ◌+◌, ◌*◌, ◌/◌, ◌%◌, ◌<◌}
use mathlib.Core.Path.{◌≡◌, refl, sym, ap, ◌∙◌}
use mathlib.Core.List.{[], ◌∷◌, reverse}
use native.Mathlib.Omega.{arith}
use home_guard.Prelude.Lists.{length, All}
use home_guard.Prelude.Text.{Text}

unfoldable pub le_bytes : ℕ → ℕ → Text
le_bytes zero v = []
le_bytes (suc n) v = v % 256 ∷ le_bytes n (v / 256)

unfoldable pub from_le : Text → ℕ
from_le [] = 0
from_le (b ∷ bs) = b + 256 * from_le bs

unfoldable pub be_bytes : ℕ → ℕ → Text
unfolding le_bytes
be_bytes n v = reverse (le_bytes n v)

unfoldable pub from_be : Text → ℕ
unfolding from_le
from_be bs = from_le (reverse bs)

-- The numbers below this have that many bytes.
abbrev pub capacity : ℕ → ℕ
capacity zero = 1
capacity (suc n) = 256 * capacity n

pub from_le-le_bytes : (n v : ℕ) → v < capacity n → from_le (le_bytes n v) ≡ v
unfolding from_le le_bytes
from_le-le_bytes zero v h = omega arith
from_le-le_bytes (suc n) v h = omega (arith, from_le-le_bytes n (v / 256) (omega arith))

pub from_be-be_bytes : (n v : ℕ) → v < capacity n → from_be (be_bytes n v) ≡ v
unfolding from_be be_bytes
from_be-be_bytes n v h = ap from_le (reverse-reverse (le_bytes n v)) ∙ from_le-le_bytes n v h

le_bytes-from_le : (bs : Text) → All (λ b. b < 256) bs → le_bytes (length bs) (from_le bs) ≡ bs
unfolding from_le le_bytes
le_bytes-from_le [] h = refl
le_bytes-from_le (b ∷ bs) (small, h) =
    let low : (b + 256 * from_le bs) % 256 ≡ b = omega arith in
    let high : (b + 256 * from_le bs) / 256 ≡ from_le bs = omega arith in
    cc (low, high, le_bytes-from_le bs h)

pub length-le_bytes : (n v : ℕ) → length (le_bytes n v) ≡ n
unfolding le_bytes
length-le_bytes zero v = refl
length-le_bytes (suc n) v = ap suc (length-le_bytes n (v / 256))

length-reverse_aux : (xs ys : Text) → length (reverse_aux xs ys) ≡ length xs + length ys
length-reverse_aux [] ys = omega arith
length-reverse_aux (x ∷ xs) ys = omega (arith, length-reverse_aux xs (x ∷ ys))

All-reverse_aux : (P : ℕ → Type 0) (xs ys : Text) → All P xs → All P ys → All P (reverse_aux xs ys)
All-reverse_aux P [] ys h k = k
All-reverse_aux P (x ∷ xs) ys (p, h) k = All-reverse_aux P xs (x ∷ ys) h (p, k)

pub length-be_bytes : (n v : ℕ) → length (be_bytes n v) ≡ n
unfolding be_bytes
length-be_bytes n v = omega (arith, length-reverse_aux (le_bytes n v) [], length-le_bytes n v)

pub be_bytes-from_be : (bs : Text) → All (λ b. b < 256) bs → be_bytes (length bs) (from_be bs) ≡ bs
unfolding from_be be_bytes
be_bytes-from_be bs h =
    let same : length (reverse bs) ≡ length bs = omega (arith, length-reverse_aux bs []) in
    ap (λ n. reverse (le_bytes n (from_le (reverse bs)))) (sym same)
    ∙ ap reverse (le_bytes-from_le (reverse bs) (All-reverse_aux (λ b. b < 256) bs [] h tt))
    ∙ reverse-reverse bs
