-- ===== src/Common/Bits.antt =====
-- Single bits of a word, `&` with one bit, and the two facts about `|` that the drivers use.
use Prim.Native.Nat.{
  ℕ, zero, suc, ◌+◌, ◌*◌, ◌/◌, ◌%◌, ◌^◌, ◌≤◌, ◌<◌, max, min, bit_or, bit_and, digits, bitwise,
  bit_or-bitwise, bit_and-bitwise, bit_xor, bit_xor-bitwise, differ,
}
use mathlib.Core.Path.{◌≡◌, refl, ap}
use mathlib.Core.Bool.{Bool, true, false, ◌||◌, not}
use native.Mathlib.Nat.{div_self, one-le-pow, pow-suc, pow-succ', div-div-eq-div-mul}
use native.Mathlib.Omega.{arith}
use debugging.Common.Tests.{◌==◌}

-- `n & BIT(k)` as a truth value.
abbrev pub bit : ℕ → ℕ → Bool
bit n k = n / 2 ^ k % 2 == 1

-- `n & BIT(k)` as a number.
abbrev pub mask_bit : ℕ → ℕ → ℕ
mask_bit n k = n / 2 ^ k % 2 * 2 ^ k

abbrev pub xor : Bool → Bool → Bool
xor true b = not b
xor false b = b

-- What a Boolean stores in an integer.
abbrev pub of_bool : Bool → ℕ
of_bool true = 1
of_bool false = 0

-- A bitwise operation `word` goes down both words digit by digit, for as many digits as the first
-- has units; what that leaves over changes nothing.
module _ (rest : ℕ → ℕ) (digit : ℕ → ℕ → ℕ) (word : ℕ → ℕ → ℕ)
    (by_digits : (x y : ℕ) → word x y ≡ bitwise rest digit x y) where
  surplus : (x y n m : ℕ) → x ≤ n → n ≤ m → digits rest digit m x y ≡ digits rest digit n x y
  surplus x y zero zero h k = refl
  surplus x y (suc n) zero h k = absurd (omega arith)
  surplus zero y zero (suc m) h k = refl
  surplus zero y (suc n) (suc m) h k = refl
  surplus (suc x) y zero (suc m) h k = absurd (omega arith)
  surplus (suc x) y (suc n) (suc m) h k =
      omega (arith, surplus (suc x / 2) (y / 2) n m (omega arith) (omega arith))

  -- The lowest digit, and the words shifted by one.
  lowest : (x y : ℕ) → word (suc x) y ≡ word (suc x / 2) (y / 2) * 2 + digit (suc x % 2) (y % 2)
  lowest x y =
      let half = suc x / 2 in
      let same = surplus half (y / 2) half x (omega arith) (omega arith) in
      omega (arith, by_digits (suc x) y, by_digits half (y / 2), same)

-- `|` of no bits, and `|` by its lowest digit.
none-bit_or : (y : ℕ) → bit_or 0 y ≡ y
none-bit_or = bit_or-bitwise 0

bit_or-lowest : (x y : ℕ) → bit_or x y ≡ bit_or (x / 2) (y / 2) * 2 + max (x % 2) (y % 2)
bit_or-lowest zero y = omega (arith, none-bit_or (y / 2), none-bit_or y)
bit_or-lowest (suc x) y = lowest (λ r. r) max bit_or bit_or-bitwise x y

-- The same for `&`.
none-bit_and : (y : ℕ) → bit_and 0 y ≡ 0
none-bit_and = bit_and-bitwise 0

bit_and-lowest : (x y : ℕ) → bit_and x y ≡ bit_and (x / 2) (y / 2) * 2 + min (x % 2) (y % 2)
bit_and-lowest zero y = omega (arith, none-bit_and (y / 2), none-bit_and y)
bit_and-lowest (suc x) y = lowest (λ r. 0) min bit_and bit_and-bitwise x y

-- And for `^`, whose digit is the sum without the carry.
none-bit_xor : (y : ℕ) → bit_xor 0 y ≡ y
none-bit_xor = bit_xor-bitwise 0

differ_lem : (x y : ℕ) → x < 2 → y < 2 → differ x y ≡ (x + y) % 2
differ_lem zero y p q = omega arith
differ_lem (suc zero) zero p q = refl
differ_lem (suc zero) (suc zero) p q = refl
differ_lem (suc zero) (suc (suc y)) p q = absurd (omega arith)
differ_lem (suc (suc x)) y p q = absurd (omega arith)

bit_xor-lowest : (x y : ℕ) → bit_xor x y ≡ bit_xor (x / 2) (y / 2) * 2 + (x % 2 + y % 2) % 2
bit_xor-lowest zero y = omega (arith, none-bit_xor (y / 2), none-bit_xor y)
bit_xor-lowest (suc x) y = omega (
  arith,
  lowest (λ y. y) differ bit_xor bit_xor-bitwise x y,
  differ_lem (suc x % 2) (y % 2) (omega arith) (omega arith),
)

half-bit_or : (a b : ℕ) → bit_or a b / 2 ≡ bit_or (a / 2) (b / 2)
half-bit_or a b = omega (arith, bit_or-lowest a b)

div-pow-suc : (n k : ℕ) → n / 2 ^ suc k ≡ n / 2 / 2 ^ k
div-pow-suc n k = rw (pow-succ', ← div-div-eq-div-mul)

-- A bit of `a | b` is set if it is set in one of the two.
pub bit-bit_or : (a b k : ℕ) → bit (bit_or a b) k ≡ (bit a k || bit b k)
bit-bit_or a b zero = ground (arith, bit_or-lowest a b)
bit-bit_or a b (suc k) = simp (div-pow-suc, half-bit_or) (bit-bit_or (a / 2) (b / 2) k)

-- `|` stays within the width of its operands.
pub bit_or-lt : (k a b : ℕ) → a < 2 ^ k → b < 2 ^ k → bit_or a b < 2 ^ k
bit_or-lt zero zero b p q = omega (arith, none-bit_or b)
bit_or-lt zero (suc a) b p q = absurd (omega arith)
bit_or-lt (suc k) a b p q = omega (
  arith,
  bit_or-lowest a b,
  pow-suc 2 k,
  bit_or-lt k (a / 2) (b / 2) (omega (arith, pow-suc 2 k)) (omega (arith, pow-suc 2 k)),
)

half-bit_xor : (a b : ℕ) → bit_xor a b / 2 ≡ bit_xor (a / 2) (b / 2)
half-bit_xor a b = omega (arith, bit_xor-lowest a b)

-- A bit of `a ^ b` is set if it is set in exactly one of the two.
pub bit-bit_xor : (a b k : ℕ) → bit (bit_xor a b) k ≡ xor (bit a k) (bit b k)
bit-bit_xor a b zero = ground (arith, bit_xor-lowest a b)
bit-bit_xor a b (suc k) = simp (div-pow-suc, half-bit_xor) (bit-bit_xor (a / 2) (b / 2) k)

-- `&` with no bits on the other side; n is a number of digits that is enough.
bit_and-none : (n x : ℕ) → x ≤ n → bit_and x 0 ≡ 0
bit_and-none n zero h = none-bit_and 0
bit_and-none zero (suc x) h = absurd (omega arith)
bit_and-none (suc n) (suc x) h =
    let above = bit_and-none n (suc x / 2) (omega arith) in
    omega (arith, above, bit_and-lowest (suc x) 0)

half-pow-suc : (k : ℕ) → 2 ^ suc k / 2 ≡ 2 ^ k
half-pow-suc k = omega (arith, pow-suc 2 k)

-- `a & BIT(k)` is the k-th bit of `a`, in its place.
pub bit_and-pow : (a k : ℕ) → bit_and a (2 ^ k) ≡ mask_bit a k
bit_and-pow a zero = omega (arith, bit_and-lowest a 1, bit_and-none (a / 2) (a / 2) (omega arith))
bit_and-pow a (suc k) =
    rw (div-pow-suc, bit_and-lowest a (2 ^ suc k), half-pow-suc k, bit_and-pow (a / 2) k)
      (omega (arith, pow-suc 2 k, ap (λ (t : ℕ). a / 2 / 2 ^ k % 2 * t) (pow-suc 2 k)))

one_or_none : (q p : ℕ) → q < 2 → 0 < p → (q * p == p) ≡ (q == 1)
one_or_none zero p h k = ground arith
one_or_none (suc zero) p h k = ground arith
one_or_none (suc (suc q)) p h k = absurd (omega arith)

-- `(a & BIT(k)) == BIT(k)` tests the k-th bit.
pub bit_and-test : (a k : ℕ) → (bit_and a (2 ^ k) == 2 ^ k) ≡ bit a k
bit_and-test a k =
    rw (bit_and-pow a k)
      (one_or_none (a / 2 ^ k % 2) (2 ^ k) (omega arith) (omega (arith, one-le-pow k 2)))

pub bit-pow_self : (k : ℕ) → bit (2 ^ k) k ≡ true
bit-pow_self k = ground (arith, div_self {n = 2 ^ k} (omega (arith, one-le-pow k 2)))

-- `|` with no bits on the other side; n is a number of digits that is enough.
bit_or-none : (n x : ℕ) → x ≤ n → bit_or x 0 ≡ x
bit_or-none n zero h = none-bit_or 0
bit_or-none zero (suc x) h = absurd (omega arith)
bit_or-none (suc n) (suc x) h =
    omega (arith, bit_or-none n (suc x / 2) (omega arith), bit_or-lowest (suc x) 0)

pub bit_or-zero : (x : ℕ) → bit_or x 0 ≡ x
bit_or-zero x = bit_or-none x x (omega arith)
