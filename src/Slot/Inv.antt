-- ===== src/Slot/Inv.antt =====
-- The representation invariant of a slot and its preservation.
use osc2ftdidmx.Base.{
  ℕ, ◌^◌, ◌<◌, ◌≡◌, some, arith, length, length-set, bit_or-lt, bit_and-le, replicate,
}
use native.Mathlib.Nat.{pow-le-pow_right}
use osc2ftdidmx.Slot.{Slot, slot_set_val, slot_clr_val, complement32}

-- `mask` is a `uint32_t`, and there are 32 levels.
pub record IsValid (s : Slot) : Type 0 where
  pub word : s.mask < 2 ^ 32
  pub sized : length s.levels ≡ 32

-- The slot that `memset` to 0 or static storage gives.
abbrev pub empty : Slot
empty = record { mask = 0; levels = replicate 32 0 }

pub empty-IsValid : IsValid empty
empty-IsValid = omega arith

pub shift_one-lt : (p : ℕ) → p < 32 → 2 ^ p < 2 ^ 32
shift_one-lt p h =
    omega (arith, pow-le-pow_right {n = 2} (omega arith) {i = p} {j = 31} (omega arith))

-- Setting a level keeps the invariant.
pub slot_set_val-IsValid :
    (s : Slot) (prio val : ℕ) {t : Slot} → IsValid s → slot_set_val s prio val ≡ some t → IsValid t
unfolding slot_set_val
slot_set_val-IsValid s prio val v e =
    ground (arith, shift_one-lt prio, bit_or-lt 32 s.mask (2 ^ prio), length-set s.levels prio val)

-- Clearing a level keeps the invariant.
pub slot_clr_val-IsValid :
    (s : Slot) (prio : ℕ) {t : Slot} → IsValid s → slot_clr_val s prio ≡ some t → IsValid t
unfolding slot_clr_val
slot_clr_val-IsValid s prio v e =
    ground (arith, bit_and-le 32 s.mask (complement32 (2 ^ prio)), length-set s.levels prio 0)
