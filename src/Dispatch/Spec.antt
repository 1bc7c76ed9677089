-- ===== src/Dispatch/Spec.antt =====
-- What the README promises of a message, without readers and callbacks: the values are dealt out
-- to the channels and priorities that the path matches, in order.
use osc2ftdidmx.Base.{ℕ, ◌%◌, ◌^◌, Option, none, some, List, [], ◌∷◌, get_elem?, set}
use osc2ftdidmx.Slot.{Slot, slot_set_val, slot_clr_val}
use osc2ftdidmx.Osc.Tree.{null, priority, channel, Visit, visit}
use osc2ftdidmx.Osc.Args.{Value, int32, other}

-- A channel and a priority to be set (`some`) or cleared (`none`).
pub record Target : Type 0 where
  pub chan : ℕ
  pub prio : ℕ

pub record Assign : Type 0 where
  pub target : Target
  pub value : Option ℕ

-- The pairs that a sequence of calls reaches, from the channel `c` on.
unfoldable pub targets : List Visit → ℕ → List Target
targets [] c = []
targets (visit null i ∷ vs) c = targets vs c
targets (visit channel i ∷ vs) c = targets vs (i % 2 ^ 16)
targets (visit priority i ∷ vs) c = record { chan = c; prio = i % 2 ^ 8 } ∷ targets vs c

-- An `int32_t` gives its low byte, any other argument leaves the value as it is.
unfoldable pub next_value : Value → Option ℕ → Option ℕ
next_value (int32 bits) cur = some (bits % 256)
next_value other cur = cur

-- Each target takes the next argument; when they are used up, the last value stays.
unfoldable pub spread : List Value → Option ℕ → List Target → List Assign
unfolding next_value
spread vs cur [] = []
spread [] cur (t ∷ ts) = record { target = t; value = cur } ∷ spread [] cur ts
spread (v ∷ vs) cur (t ∷ ts) =
    record { target = t; value = next_value v cur } ∷ spread vs (next_value v cur) ts

-- The update of the slot of one channel.
unfoldable pub apply_value : ℕ → Option ℕ → Slot → Option Slot
apply_value p (some v) s = slot_set_val s p v
apply_value p none s = slot_clr_val s p

unfoldable pub assign : Assign → List Slot → Option (List Slot)
assign a slots = elim (get_elem? slots a.target.chan) [
  | none ↦ none
  | some s ↦ elim (apply_value a.target.prio a.value s) [
    | none ↦ none
    | some t ↦ some (set slots a.target.chan t)
  ]
]

unfoldable pub assign_then :
    Option (List Slot) → (List Slot → Option (List Slot)) → Option (List Slot)
assign_then none k = none
assign_then (some slots) k = k slots

unfoldable pub assign_all : List Assign → List Slot → Option (List Slot)
unfolding assign_then
assign_all [] slots = some slots
assign_all (a ∷ more) slots = assign_then (assign a slots) (assign_all more)
