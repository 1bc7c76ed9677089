-- ===== src/Base/Bits.antt =====
-- `|`, `&` and `~` of machine words, bit by bit, at every width.
use Prim.Native.Nat.{
  ℕ, zero, suc, ◌+◌, ◌-◌, ◌*◌, ◌/◌, ◌%◌, ◌^◌, ◌≤◌, ◌<◌, min, max, bit_and, bit_or, digits, bitwise,
  bit_and-bitwise, bit_or-bitwise,
}
use mathlib.Core.Path.{◌≡◌, refl, sym, ap, ◌∙◌}
use native.Mathlib.Nat.{pow-suc}
use native.Mathlib.Decide.{ℕ_discrete}
use native.Mathlib.Omega.{arith}
use osc2ftdidmx.Base.Tests.{◌==◌, if◌then◌else◌}

-- What the native operations compute, digit by digit: fuel beyond the first number changes nothing,
-- so that the equation for the lowest digit holds of them as they are.
module _ (z : ℕ → ℕ) (f : ℕ → ℕ → ℕ) where
  one_more : (n a b : ℕ) → a ≤ n → digits z f (suc n) a b ≡ digits z f n a b
  one_more zero zero b h = refl
  one_more (suc n) zero b h = refl
  one_more zero (suc a) b h = absurd (omega arith)
  one_more (suc n) (suc a) b h =
      ap (λ q. q * 2 + f (suc a % 2) (b % 2)) (one_more n (suc a / 2) (b / 2) (omega arith))

  many_more : (k a b : ℕ) → digits z f (k + a) a b ≡ bitwise z f a b
  many_more zero a b = ap (λ m. digits z f m a b) (omega arith)
  many_more (suc k) a b =
      let next : suc k + a ≡ suc (k + a) = omega arith in
      ap (λ m. digits z f m a b) next ∙ one_more (k + a) a b (omega arith) ∙ many_more k a b

  enough : (n a b : ℕ) → a ≤ n → digits z f n a b ≡ bitwise z f a b
  enough n a b h =
      let split : n ≡ n - a + a = omega arith in
      ap (λ m. digits z f m a b) split ∙ many_more (n - a) a b

  halves :
      ((c : ℕ) → z c ≡ z (c / 2) * 2 + f 0 (c % 2))
      → (a b : ℕ) → bitwise z f a b ≡ bitwise z f (a / 2) (b / 2) * 2 + f (a % 2) (b % 2)
  halves base zero b = base b
  halves base (suc a) b =
      ap (λ q. q * 2 + f (suc a % 2) (b % 2)) (enough a (suc a / 2) (b / 2) (omega arith))

bit_or-halves : (a b : ℕ) → bit_or a b ≡ bit_or (a / 2) (b / 2) * 2 + max (a % 2) (b % 2)
bit_or-halves a b =
    bit_or-bitwise a b
    ∙ halves (λ y. y) max (λ c. omega arith) a b
    ∙ ap (λ q. q * 2 + max (a % 2) (b % 2)) (sym (bit_or-bitwise (a / 2) (b / 2)))

bit_and-halves : (a b : ℕ) → bit_and a b ≡ bit_and (a / 2) (b / 2) * 2 + min (a % 2) (b % 2)
bit_and-halves a b =
    bit_and-bitwise a b
    ∙ halves (λ y. 0) min (λ c. omega arith) a b
    ∙ ap (λ q. q * 2 + min (a % 2) (b % 2)) (sym (bit_and-bitwise (a / 2) (b / 2)))

-- The k-th binary digit.
unfoldable pub bit : ℕ → ℕ → ℕ
bit n zero = n % 2
bit n (suc k) = bit (n / 2) k

pub bit-lt : (n k : ℕ) → bit n k < 2
unfolding bit
bit-lt n zero = omega arith
bit-lt n (suc k) = bit-lt (n / 2) k

pub bit_zero : (k : ℕ) → bit 0 k ≡ 0
unfolding bit
bit_zero zero = refl
bit_zero (suc k) = bit_zero k

pub bit-bit_or : (a b k : ℕ) → bit (bit_or a b) k ≡ max (bit a k) (bit b k)
unfolding bit
bit-bit_or a b zero = omega (arith, bit_or-halves a b)
bit-bit_or a b (suc k) =
    ap (λ n. bit n k) (omega (arith, bit_or-halves a b)) ∙ bit-bit_or (a / 2) (b / 2) k

pub bit-bit_and : (a b k : ℕ) → bit (bit_and a b) k ≡ min (bit a k) (bit b k)
unfolding bit
bit-bit_and a b zero = omega (arith, bit_and-halves a b)
bit-bit_and a b (suc k) =
    ap (λ n. bit n k) (omega (arith, bit_and-halves a b)) ∙ bit-bit_and (a / 2) (b / 2) k

-- `1 << p` has the one digit p.
pub bit-shift_one : (p k : ℕ) → bit (2 ^ p) k ≡ (if p == k then 1 else 0)
unfolding bit
bit-shift_one zero zero = refl
bit-shift_one zero (suc k) = bit_zero k ∙ ground arith
bit-shift_one (suc p) zero = grind (arith, pow-suc 2 p)
bit-shift_one (suc p) (suc k) =
    ap (λ n. bit n k) (omega (arith, pow-suc 2 p)) ∙ bit-shift_one p k ∙ ground arith

-- `~n` in w bits.
pub bit-complement : (w n k : ℕ) → n < 2 ^ w → k < w → bit (2 ^ w - 1 - n) k ≡ 1 - bit n k
unfolding bit
bit-complement zero n k h q = elim q [ ]
bit-complement (suc w) n zero h q = omega (arith, pow-suc 2 w)
bit-complement (suc w) n (suc k) h q =
    ap (λ m. bit m k) (omega (arith, pow-suc 2 w))
    ∙ bit-complement w (n / 2) k (omega (arith, pow-suc 2 w)) (omega arith)

bit_and-zero_below : (bound a : ℕ) → a < bound → bit_and a 0 ≡ 0
bit_and-zero_below zero a h = absurd (omega arith)
bit_and-zero_below (suc bound) a h = elim (ℕ_discrete a 0) [
  | yes e ↦ ap (λ n. bit_and n 0) e
  | no ne ↦ omega (arith, bit_and-halves a 0, bit_and-zero_below bound (a / 2) (omega arith))
]

bit_and-zero : (a : ℕ) → bit_and a 0 ≡ 0
bit_and-zero a = bit_and-zero_below (a + 1) a (omega arith)

-- `m & (1 << k)` is the digit k in its place.
pub bit_and-shift_one : (m k : ℕ) → bit_and m (2 ^ k) ≡ bit m k * 2 ^ k
unfolding bit
bit_and-shift_one m zero = omega (arith, bit_and-halves m 1, bit_and-zero (m / 2))
bit_and-shift_one m (suc k) =
    bit_and-halves m (2 ^ suc k)
    ∙ omega (
      arith,
      pow-suc 2 k,
      ap (λ (n : ℕ). bit_and (m / 2) n) halved,
      bit_and-shift_one (m / 2) k,
      ap (λ (n : ℕ). bit (m / 2) k * n) (pow-suc 2 k),
    )
  where
    halved : 2 ^ suc k / 2 ≡ 2 ^ k
    halved = omega (arith, pow-suc 2 k)

-- A number below 2 ^ w with no digit below w is 0.
pub eq-zero_of_bits : (w n : ℕ) → n < 2 ^ w → ((k : ℕ) → k < w → bit n k ≡ 0) → n ≡ 0
unfolding bit
eq-zero_of_bits zero n h z = omega arith
eq-zero_of_bits (suc w) n h z = omega (
  arith,
  pow-suc 2 w,
  z 0 (omega arith),
  eq-zero_of_bits w (n / 2) (omega (arith, pow-suc 2 w)) (λ k q. z (suc k) (omega arith)),
)

pub bit_or-lt : (w a b : ℕ) → a < 2 ^ w → b < 2 ^ w → bit_or a b < 2 ^ w
bit_or-lt zero a b h k = omega (arith, bit_or_none)
  where
    zeros : (a ≡ 0) × (b ≡ 0)
    zeros = omega arith

    bit_or_none : bit_or a b ≡ 0
    bit_or_none = rw (zeros.0, zeros.1) refl
bit_or-lt (suc w) a b h k = omega (
  arith,
  pow-suc 2 w,
  bit_or-halves a b,
  bit_or-lt w (a / 2) (b / 2) (omega (arith, pow-suc 2 w)) (omega (arith, pow-suc 2 w)),
)

pub bit_and-le : (w a b : ℕ) → a < 2 ^ w → bit_and a b ≤ a
bit_and-le zero a b h = omega (arith, ap (λ (n : ℕ). bit_and n b) zeros, bit_and-bitwise 0 b)
  where
    zeros : a ≡ 0
    zeros = omega arith
bit_and-le (suc w) a b h = omega (
  arith,
  pow-suc 2 w,
  bit_and-halves a b,
  bit_and-le w (a / 2) (b / 2) (omega (arith, pow-suc 2 w)),
)

one-le-pow : (k : ℕ) → 1 ≤ 2 ^ k
one-le-pow zero = omega arith
one-le-pow (suc k) = omega (arith, pow-suc 2 k, one-le-pow k)

-- Masks of low ones, one digit at a time up to `0xff`.
bit_and_mask1 : (a : ℕ) → bit_and a 1 ≡ a % 2
bit_and_mask1 a = omega (arith, bit_and-halves a 1, bit_and-zero (a / 2))

bit_and_mask2 : (a : ℕ) → bit_and a 3 ≡ a % 4
bit_and_mask2 a = omega (arith, bit_and-halves a 3, bit_and_mask1 (a / 2))

bit_and_mask4 : (a : ℕ) → bit_and a 15 ≡ a % 16
bit_and_mask4 a =
    omega (arith, bit_and-halves a 15, bit_and-halves (a / 2) 7, bit_and_mask2 (a / 2 / 2))

bit_and_mask6 : (a : ℕ) → bit_and a 63 ≡ a % 64
bit_and_mask6 a =
    omega (arith, bit_and-halves a 63, bit_and-halves (a / 2) 31, bit_and_mask4 (a / 2 / 2))

-- `n & 0xff` is the low byte.
pub bit_and_byte : (n : ℕ) → bit_and n 0xff ≡ n % 256
bit_and_byte a =
    omega (arith, bit_and-halves a 255, bit_and-halves (a / 2) 127, bit_and_mask6 (a / 2 / 2))

-- A mask of `k` low ones keeps a number below 2 ^ k, and takes 2 ^ k off one that is not twice as large.
pub bit_and_mask-lt : (k n : ℕ) → n < 2 ^ k → bit_and n (2 ^ k - 1) ≡ n
bit_and_mask-lt zero n h = bit_and-zero n ∙ omega arith
bit_and_mask-lt (suc k) n h = omega (
  arith,
  pow-suc 2 k,
  bit_and-halves n (2 ^ suc k - 1),
  ap (λ (m : ℕ). bit_and (n / 2) m)
      (let half : (2 ^ suc k - 1) / 2 ≡ 2 ^ k - 1 = omega (arith, pow-suc 2 k, one-le-pow k) in
        half),
  bit_and_mask-lt k (n / 2) (omega (arith, pow-suc 2 k)),
  one-le-pow k,
)

pub bit_and_mask-ge : (k n : ℕ) → 2 ^ k ≤ n → n < 2 * 2 ^ k → bit_and n (2 ^ k - 1) ≡ n - 2 ^ k
bit_and_mask-ge zero n h q = bit_and-zero n ∙ omega arith
bit_and_mask-ge (suc k) n h q = omega (
  arith,
  pow-suc 2 k,
  bit_and-halves n (2 ^ suc k - 1),
  ap (λ (m : ℕ). bit_and (n / 2) m)
      (let half : (2 ^ suc k - 1) / 2 ≡ 2 ^ k - 1 = omega (arith, pow-suc 2 k, one-le-pow k) in
        half),
  bit_and_mask-ge k (n / 2) (omega (arith, pow-suc 2 k)) (omega (arith, pow-suc 2 k)),
  one-le-pow k,
)
