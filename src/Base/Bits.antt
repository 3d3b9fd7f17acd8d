-- ===== src/Base/Bits.antt =====
-- `|` at variables: disjoint fields of a word add up. Masks of one byte are checked value by value.
use Prim.Native.Nat.{ℕ, zero, suc, ◌+◌, ◌-◌, ◌*◌, ◌/◌, ◌%◌, ◌^◌, ◌≤◌, ◌<◌, min, max}
use Prim.Native.Nat.{bit_and, bit_or, digits, bit_and-bitwise, bit_or-bitwise}
use mathlib.Core.Path.{◌≡◌, refl, ap, ◌∙◌}
use mathlib.Core.Bool.{Bool, true, ◌&&◌}
use native.Mathlib.Nat.{pow-suc}
use native.Mathlib.Omega.{arith}
use toywasm.Base.Tests.{◌==◌, ==_iff}

-- The digit recursion of the native operations, with `k` steps to go.
module _ (z : ℕ → ℕ) (f : ℕ → ℕ → ℕ) where
  -- One step more than the first number has digits changes nothing, and so no number of them does.
  digits_more : (k x y : ℕ) → x ≤ k → digits z f (suc k) x y ≡ digits z f k x y
  digits_more zero zero y h = refl
  digits_more zero (suc x) y h = absurd (omega arith)
  digits_more (suc k) zero y h = refl
  digits_more (suc k) (suc x) y h =
      ap (λ (t : ℕ). t * 2 + f (suc x % 2) (y % 2))
        (digits_more k (suc x / 2) (y / 2) (omega arith))

  digits_extra : (m k d x y : ℕ) → x ≤ k → m ≡ k + d → digits z f m x y ≡ digits z f k x y
  digits_extra m k zero x y h e = let e' : m ≡ k = omega arith in rw e'
  digits_extra zero k (suc d) x y h e = absurd (omega arith)
  digits_extra (suc m) k (suc d) x y h e =
      digits_more m x y (omega arith) ∙ digits_extra m k d x y h (omega arith)

-- The lowest digit of `x | y`, and the others; then those of `x & y`.
pub bit_or_halves : (x y : ℕ) → bit_or x y ≡ bit_or (x / 2) (y / 2) * 2 + max (x % 2) (y % 2)
bit_or_halves zero y = simp bit_or-bitwise (omega arith)
bit_or_halves (suc x) y =
    simp bit_or-bitwise
      (omega (arith, digits_extra (λ t. t) max x (suc x / 2) (x - suc x / 2) (suc x / 2) (y / 2)))

pub bit_and_halves : (x y : ℕ) → bit_and x y ≡ bit_and (x / 2) (y / 2) * 2 + min (x % 2) (y % 2)
bit_and_halves zero y = simp bit_and-bitwise (omega arith)
bit_and_halves (suc x) y =
    simp bit_and-bitwise
      (omega (arith, digits_extra (λ t. 0) min x (suc x / 2) (x - suc x / 2) (suc x / 2) (y / 2)))

and_digits_zero : (k x : ℕ) → digits (λ t. 0) min k x 0 ≡ 0
and_digits_zero zero x = refl
and_digits_zero (suc k) zero = refl
and_digits_zero (suc k) (suc x) = omega (arith, and_digits_zero k (suc x / 2))

pub bit_and-zero : (x : ℕ) → bit_and x 0 ≡ 0
bit_and-zero x = simp bit_and-bitwise (and_digits_zero x x)

-- A mask of ones keeps the rest of a division, one digit at a time.
mask_digit :
    (x ones size : ℕ)
    → bit_and (x / 2) ones ≡ x / 2 % size
    → bit_and x (ones * 2 + 1) ≡ x / 2 % size * 2 + x % 2
mask_digit x ones size h =
    let half : (ones * 2 + 1) / 2 ≡ ones = omega arith in
    omega (arith, bit_and_halves x (ones * 2 + 1), ap (λ (t : ℕ). bit_and (x / 2) t) half, h)

and_one : (x : ℕ) → bit_and x 1 ≡ x % 2
and_one x = omega (arith, bit_and_halves x 1, bit_and-zero (x / 2))

and_three : (x : ℕ) → bit_and x 3 ≡ x % 4
and_three x = omega (arith, mask_digit x 1 2 (and_one (x / 2)))

and_seven : (x : ℕ) → bit_and x 7 ≡ x % 8
and_seven x = omega (arith, mask_digit x 3 4 (and_three (x / 2)))

and_fifteen : (x : ℕ) → bit_and x 15 ≡ x % 16
and_fifteen x = omega (arith, mask_digit x 7 8 (and_seven (x / 2)))

and_31 : (x : ℕ) → bit_and x 31 ≡ x % 32
and_31 x = omega (arith, mask_digit x 15 16 (and_fifteen (x / 2)))

and_63 : (x : ℕ) → bit_and x 63 ≡ x % 64
and_63 x = omega (arith, mask_digit x 31 32 (and_31 (x / 2)))

-- `x & 0x7f` on any number.
pub bit_and_low_seven : (x : ℕ) → bit_and x 0x7f ≡ x % 128
bit_and_low_seven x = omega (arith, mask_digit x 63 64 (and_63 (x / 2)))

-- `x | (y << k)` is a sum if `x` fits in `k` bits.
pub bit_or_disjoint : (k x y : ℕ) → x < 2 ^ k → bit_or x (y * 2 ^ k) ≡ x + y * 2 ^ k
bit_or_disjoint zero zero y h = simp bit_or-bitwise (omega arith)
bit_or_disjoint zero (suc x) y h = absurd (omega arith)
bit_or_disjoint (suc k) x y h = omega (
  arith,
  bit_or_halves x (y * 2 ^ suc k),
  ap (λ (t : ℕ). y * t) (pow-suc 2 k),
  ap (λ (t : ℕ). bit_or (x / 2) t) half,
  bit_or_disjoint k (x / 2) y (omega (arith, pow-suc 2 k)),
)
  where
    half : y * 2 ^ suc k / 2 ≡ y * 2 ^ k
    half = omega (arith, ap (λ (t : ℕ). y * t) (pow-suc 2 k))

-- A test that a table of all numbers under a bound passes.
unfoldable pub table : (test : ℕ → Bool) (bound : ℕ) → Bool
table test (suc bound) = table test bound && test bound
table test zero = true

module _ (test : ℕ → Bool) where
  pub test_of_table : (bound i : ℕ) → i < bound → table test bound ≡ true → test i ≡ true
  unfolding table
  test_of_table zero i below passed = absurd (omega arith)
  test_of_table (suc bound) i below passed = ground (arith, test_of_table bound i)

module _ (f g : ℕ → ℕ) (n : ℕ) where
  -- Two functions that a table shows to agree below `n`.
  pub agree_of_table : table (λ x. f x == g x) n ≡ true → (x : ℕ) → x < n → f x ≡ g x
  agree_of_table h x lt = (==_iff (f x) (g x)).0 (test_of_table (λ x. f x == g x) n x lt h)

pub low_seven : (b : ℕ) → b < 256 → bit_and b 0x7f ≡ b % 128
unfolding table
low_seven = agree_of_table (λ b. bit_and b 0x7f) (λ b. b % 128) 256 refl

pub top_bit : (b : ℕ) → b < 256 → bit_and b 0x80 ≡ b / 128 * 128
unfolding table
top_bit = agree_of_table (λ b. bit_and b 0x80) (λ b. b / 128 * 128) 256 refl

pub sign_bit : (b : ℕ) → b < 256 → bit_and b 0x40 ≡ b / 64 % 2 * 64
unfolding table
sign_bit = agree_of_table (λ b. bit_and b 0x40) (λ b. b / 64 % 2 * 64) 256 refl

pub set_top_bit : (b : ℕ) → b < 128 → bit_or b 0x80 ≡ b + 128
unfolding table
set_top_bit = agree_of_table (λ b. bit_or b 0x80) (λ b. b + 128) 128 refl
