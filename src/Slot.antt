-- ===== src/Slot.antt =====
-- `slot_t` of osc2ftdidmx.h and the `slot_*` functions of osc2ftdidmx.c: one DMX channel with its
-- 32 priority levels. A shift by 32 or more and an access past `data [32]` are undefined in C:
-- the model returns `none` there. `1 << 31` is the word 0x80000000, as the compilers have it.
pub mod Inv
pub mod Spec
pub mod Get
pub mod Run
use osc2ftdidmx.Base.{
  ℕ, zero, suc, ◌+◌, ◌-◌, ◌*◌, ◌/◌, ◌^◌, Bool, true, false, not, Option, none, some, List, bit_and,
  bit_or, ltb, ◌==◌, if◌then◌else◌, get_or, set,
}

-- `slot_t`: `mask` has the levels that are set, `levels` is the field `data [32]`.
pub record Slot : Type 0 where
  pub mask : ℕ
  pub levels : List ℕ

-- `~(1 << prio)` of 32 bits.
abbrev pub complement32 : ℕ → ℕ
complement32 n = 2 ^ 32 - 1 - n

unfoldable pub slot_set_val : Slot → ℕ → ℕ → Option Slot
slot_set_val slot prio val =
    if ltb prio 32
    then some (record { mask = bit_or slot.mask (2 ^ prio); levels = set slot.levels prio val })
    else none

unfoldable pub slot_clr_val : Slot → ℕ → Option Slot
slot_clr_val slot prio =
    if ltb prio 32
    then some (record {
      mask = bit_and slot.mask (complement32 (2 ^ prio));
      levels = set slot.levels prio 0;
    })
    else none

unfoldable pub slot_has_val : Slot → Bool
slot_has_val slot = not (slot.mask == 0)

-- The loop of `slot_get_val` at `j = 32 - left` with `mask`: the level returned is `32 - 1 - j`.
unfoldable pub scan : Slot → ℕ → ℕ → ℕ
scan slot zero mask = 0
scan slot (suc left) mask =
    let rest = scan slot left (mask / 2) in
    if bit_and slot.mask mask == 0 then rest else get_or slot.levels left 0

unfoldable pub slot_get_val : Slot → ℕ
unfolding slot_has_val scan
slot_get_val slot = if slot_has_val slot then scan slot 32 0x8000_0000 else 0
