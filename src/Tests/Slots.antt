-- ===== src/Tests/Slots.antt =====
-- The cases of `_test_priorities` in test.c, and the theorems on slots.
use osc2ftdidmx.Base.{ℕ, ◌≡◌, refl, Bool, true, false, Option, none, some, [], ◌∷◌, arith}
use osc2ftdidmx.Slot.{Slot, slot_set_val, slot_clr_val, slot_has_val, slot_get_val}
use osc2ftdidmx.Slot.Inv.{empty, empty-IsValid}
use osc2ftdidmx.Slot.Spec.{view, highest}
use osc2ftdidmx.Slot.Run.{set_val, clr_val, apply, run, spec_run, slot_get_val-run}

-- Whether there is a value, and which, after some updates of an empty slot.
abbrev shown : Option Slot → Option (Bool × ℕ)
shown none = none
shown (some s) = some (slot_has_val s, slot_get_val s)

test_empty : shown (run [] empty) ≡ some (false, 0)
unfolding run slot_has_val slot_get_val
test_empty = refl

test_set : shown (run (set_val 0 1 ∷ set_val 1 2 ∷ []) empty) ≡ some (true, 2)
unfolding run apply slot_set_val slot_has_val slot_get_val
test_set = refl

test_clear :
    shown (run (set_val 1 1 ∷ set_val 2 2 ∷ set_val 3 3 ∷ clr_val 1 ∷ clr_val 3 ∷ []) empty)
    ≡ some (true, 2)
unfolding run apply slot_set_val slot_clr_val slot_has_val slot_get_val
test_clear = refl

test_out_of_range : slot_set_val empty 32 1 ≡ none
unfolding slot_set_val
test_out_of_range = refl

slot_get_val-run_example :
    (t : Slot) × (run (set_val 0 9 ∷ set_val 1 8 ∷ clr_val 1 ∷ []) empty ≡ some t)
    × (slot_get_val t
        ≡ highest (spec_run (set_val 0 9 ∷ set_val 1 8 ∷ clr_val 1 ∷ []) (view empty)) 32)
slot_get_val-run_example =
    slot_get_val-run (set_val 0 9 ∷ set_val 1 8 ∷ clr_val 1 ∷ []) empty empty-IsValid (omega arith)
