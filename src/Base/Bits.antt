-- ===== src/Base/Bits.antt =====
-- The bits of machine words: `bit_or` and `bit_and` at variable arguments, and the masks that the
-- source builds with shifts.
use Prim.Native.Nat.{
  ℕ, zero, suc, ◌-◌, ◌/◌, ◌%◌, ◌^◌, ◌≤◌, ◌<◌, min, max, bit_and, bit_or, digits, bit_and-bitwise,
  bit_or-bitwise,
}
use mathlib.Core.Path.{◌≡◌, refl, ◌∙◌, ap}
use mathlib.Core.Bool.{Bool, false, not, ◌&&◌, ◌||◌}
use native.Mathlib.Omega.{arith}
use native.Mathlib.Nat.{pow-suc, one-le-pow}
use guestvm_guk.Base.Tests.{◌==◌, ltb, leb, if◌then◌else◌}

-- Bit `i` of the number `a`.
unfoldable pub test_bit : ℕ → ℕ → Bool
test_bit a zero = a % 2 == 1
test_bit a (suc i) = test_bit (a / 2) i

-- `(1 << e) - 1` has the bits below `e`.
pub test_bit-low_mask : (e i : ℕ) → test_bit (2 ^ e - 1) i ≡ ltb i e
unfolding test_bit
test_bit-low_mask zero zero = refl
test_bit-low_mask zero (suc i) = test_bit-low_mask zero i ∙ ground arith
test_bit-low_mask (suc e) zero = ground (arith, pow-suc 2 e, one-le-pow e 2)
test_bit-low_mask (suc e) (suc i) =
    ap (λ t. test_bit t i) (omega (arith, pow-suc 2 e, one-le-pow e 2 (omega arith)))
    ∙ test_bit-low_mask e i
    ∙ ground arith

pub test_bit-zero : (i : ℕ) → test_bit 0 i ≡ false
test_bit-zero i = test_bit-low_mask 0 i ∙ ground arith

-- `-(1 << s)` in a word of `w` bits has the bits from `s` on.
pub test_bit-high_mask : (w s i : ℕ) → s ≤ w → test_bit (2 ^ w - 2 ^ s) i ≡ (leb s i && ltb i w)
unfolding test_bit
test_bit-high_mask w zero i h = test_bit-low_mask w i ∙ ground arith
test_bit-high_mask zero (suc s) i h = absurd (omega arith)
test_bit-high_mask (suc w) (suc s) zero h = ground (arith, pow-suc 2 w, pow-suc 2 s)
test_bit-high_mask (suc w) (suc s) (suc i) h =
    ap (λ t. test_bit t i) (omega (arith, pow-suc 2 w, pow-suc 2 s))
    ∙ test_bit-high_mask w s i (omega arith)
    ∙ ground arith

-- A bitwise operation that mixes single bits by `mix` does so at every place.
module _ (z : ℕ → ℕ) (f : ℕ → ℕ → ℕ) (mix : Bool → Bool → Bool)
    (rest : (b i : ℕ) → test_bit (z b) i ≡ mix false (test_bit b i))
    (one : (a b : ℕ) → (f (a % 2) (b % 2) == 1) ≡ mix (a % 2 == 1) (b % 2 == 1))
    (digit : (a b : ℕ) → f (a % 2) (b % 2) < 2) where
  test_bit-rest : (b i : ℕ) → test_bit (z b) i ≡ mix (test_bit 0 i) (test_bit b i)
  test_bit-rest b i = rw (test_bit-zero i) (rest b i)

  test_bit-digits :
      (n a b i : ℕ) → a ≤ n → test_bit (digits z f n a b) i ≡ mix (test_bit a i) (test_bit b i)
  unfolding test_bit
  test_bit-digits zero zero b i h = test_bit-rest b i
  test_bit-digits zero (suc a) b i h = absurd (omega arith)
  test_bit-digits (suc n) zero b i h = test_bit-rest b i
  test_bit-digits (suc n) (suc a) b zero h =
      ap (λ (t : ℕ). t == 1) (omega (arith, digit (suc a) b)) ∙ one (suc a) b
  test_bit-digits (suc n) (suc a) b (suc i) h =
      ap (λ t. test_bit t i) (omega (arith, digit (suc a) b))
      ∙ test_bit-digits n (suc a / 2) (b / 2) i (omega arith)

pub test_bit-bit_or : (a b i : ℕ) → test_bit (bit_or a b) i ≡ (test_bit a i || test_bit b i)
test_bit-bit_or a b i =
    ap (λ t. test_bit t i) (bit_or-bitwise a b)
    ∙ test_bit-digits (λ b. b) max ◌||◌ (λ b i. refl) (λ a b. ground arith) (λ a b. omega arith) a a
        b i (omega arith)

pub test_bit-bit_and : (a b i : ℕ) → test_bit (bit_and a b) i ≡ (test_bit a i && test_bit b i)
test_bit-bit_and a b i =
    ap (λ t. test_bit t i) (bit_and-bitwise a b)
    ∙ test_bit-digits (λ b. 0) min ◌&&◌ (λ b i. test_bit-zero i) (λ a b. ground arith)
        (λ a b. omega arith) a a b i (omega arith)

-- A word and a single bit meet in that bit or not at all.
meet : ℕ → ℕ → ℕ → ℕ
meet n a b = digits (λ b. 0) min n a b

meet-none : (n a : ℕ) → meet n a 0 ≡ 0
unfolding meet
meet-none zero a = refl
meet-none (suc n) zero = refl
meet-none (suc n) (suc a) = omega (arith, meet-none n (suc a / 2))

meet-one : (n a i : ℕ) → a ≤ n → meet n a (2 ^ i) ≡ (if test_bit a i then 2 ^ i else 0)
unfolding meet test_bit
meet-one zero zero i h = rw (test_bit-zero i)
meet-one zero (suc a) i h = absurd (omega arith)
meet-one (suc n) zero i h = rw (test_bit-zero i)
meet-one (suc n) (suc a) zero h = ground (arith, meet-none n (suc a / 2))
meet-one (suc n) (suc a) (suc i) h = ground (
  arith,
  pow-suc 2 i,
  ap (λ (t : ℕ). meet n (suc a / 2) t) half,
  meet-one n (suc a / 2) i (omega arith),
)
  where
    half : 2 ^ suc i / 2 ≡ 2 ^ i
    half = omega (arith, pow-suc 2 i)

-- `x & (1 << i)` is zero exactly when bit `i` is clear.
pub bit_and-pow : (a i : ℕ) → not (bit_and a (2 ^ i) == 0) ≡ test_bit a i
unfolding meet
bit_and-pow a i = ground (arith, bit_and-bitwise a (2 ^ i), meet-one a a i, one-le-pow i 2)
