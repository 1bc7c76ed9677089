-- ===== src/Slot/Spec.antt =====
-- A slot as what the README promises: a partial map from the 32 priorities to values, of which
-- the highest one that is set takes precedence.
use osc2ftdidmx.Base.{
  ℕ, zero, suc, ◌/◌, ◌^◌, ◌<◌, ◌≡◌, refl, Option, none, some, List, [], ◌∷◌, arith, ◌==◌,
  if◌then◌else◌, length, get_or, set, bit, bit_and, bit_or, bit-lt, bit-bit_or, bit-bit_and,
  bit-shift_one, bit-complement, bit_and-shift_one,
}
use native.Mathlib.Nat.{pow-suc, one-le-pow}
use osc2ftdidmx.Slot.{Slot, slot_set_val, slot_clr_val, scan, complement32}
use osc2ftdidmx.Slot.Inv.{IsValid, shift_one-lt}

-- What is set at a priority.
abbrev pub view : Slot → ℕ → Option ℕ
view s p = if bit s.mask p == 1 then some (get_or s.levels p 0) else none

-- The value at the highest of the priorities below `n` that has one, and 0 where none has.
unfoldable pub highest : (ℕ → Option ℕ) → ℕ → ℕ
highest f zero = 0
highest f (suc n) = elim (f n) [ some v ↦ v | none ↦ highest f n ]

get_or-set :
    (xs : List ℕ) (i j v : ℕ)
    → i < length xs
    → get_or (set xs i v) j 0 ≡ (if i == j then v else get_or xs j 0)
get_or-set [] i j v h = elim h [ ]
get_or-set (x ∷ xs) zero zero v h = refl
get_or-set (x ∷ xs) zero (suc j) v h = ground arith
get_or-set (x ∷ xs) (suc i) zero v h = ground arith
get_or-set (x ∷ xs) (suc i) (suc j) v h = ground (arith, get_or-set xs i j v)

-- Setting a level of a valid slot succeeds, changes that level and leaves the others alone.
pub slot_set_val_lem :
    (s : Slot) (p v : ℕ)
    → IsValid s
    → p < 32
    → (t : Slot) × (slot_set_val s p v ≡ some t)
      × ((q : ℕ) → view t q ≡ (if p == q then some v else view s q))
unfolding slot_set_val
slot_set_val_lem s p v valid h = (
  record { mask = bit_or s.mask (2 ^ p); levels = set s.levels p v },
  ground arith,
  λ q. ground (
    arith,
    bit-bit_or s.mask (2 ^ p) q,
    bit-shift_one p q,
    bit-lt s.mask q,
    get_or-set s.levels p q v,
  ),
)

-- Clearing a level of a valid slot succeeds, unsets that level and leaves the others alone.
pub slot_clr_val_lem :
    (s : Slot) (p : ℕ)
    → IsValid s
    → p < 32
    → (t : Slot) × (slot_clr_val s p ≡ some t)
      × ((q : ℕ) → q < 32 → view t q ≡ (if p == q then none else view s q))
unfolding slot_clr_val
slot_clr_val_lem s p valid h = (
  record { mask = bit_and s.mask (complement32 (2 ^ p)); levels = set s.levels p 0 },
  ground arith,
  λ q k. ground (
    arith,
    bit-bit_and s.mask (complement32 (2 ^ p)) q,
    bit-complement 32 (2 ^ p) q (shift_one-lt p h) k,
    bit-shift_one p q,
    bit-lt s.mask q,
    get_or-set s.levels p q 0,
  ),
)

-- The loop finds the highest level that is set.
pub scan-highest : (s : Slot) (n : ℕ) → scan s n (2 ^ n / 2) ≡ highest (view s) n
unfolding scan highest
scan-highest s zero = refl
scan-highest s (suc n) =
    rw halved (
      ground (arith, bit_and-shift_one s.mask n, one-le-pow n 2, bit-lt s.mask n, scan-highest s n))
  where
    halved : 2 ^ suc n / 2 ≡ 2 ^ n
    halved = omega (arith, pow-suc 2 n)

pub highest-none : (f : ℕ → Option ℕ) (n : ℕ) → ((p : ℕ) → p < n → f p ≡ none) → highest f n ≡ 0
unfolding highest
highest-none f zero h = refl
highest-none f (suc n) h =
    rw (h n (omega arith), highest) (highest-none f n (λ p q. h p (omega arith)))
