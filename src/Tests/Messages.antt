-- ===== src/Tests/Messages.antt =====
-- Messages to the slots: runs, and the theorems at a message of the toy format.
use osc2ftdidmx.Base.{
  ℕ, Bool, true, Option, ◌<◌, ◌≡◌, refl, none, some, List, [], ◌∷◌, arith, ◌==◌, ◌&&◌,
  if◌then◌else◌, codes, get_elem?, map, ok,
}
use osc2ftdidmx.Osc.Pattern.{
  Piece, plain, choice, osc_text, extended_text, osc_pattern_match, osc_pattern_match-osc_text,
}
use osc2ftdidmx.Osc.Tree.{walk, segment, after_slash, matched, call}
use osc2ftdidmx.Slot.{slot_set_val, slot_get_val, slot_has_val, scan}
use osc2ftdidmx.Osc.Args.{Value, int32, other}
use osc2ftdidmx.Dispatch.{
  State, put_slot, update_slot, with_slots, take_arg, advance, set_or_clear, priority_branch,
  channel_branch, branch, and_then, run_visits, match_path, handle_osc_message,
}
use osc2ftdidmx.Dispatch.Tables.{tree_root, tree_channel, tree_priority}
use osc2ftdidmx.Dispatch.Grid.{grid_view}
use osc2ftdidmx.Dispatch.Names.{path_to}
use osc2ftdidmx.Dispatch.Message.{first_value, handle_osc_message-path_to}
use osc2ftdidmx.Tests.Toy.{Toy, same, same-IsLiteral, arg_ops, reads, no_slots-GridValid, start}

abbrev values : List Value
values = int32 300 ∷ other ∷ []

abbrev message : Toy
message = record { path = b'/' ∷ path_to 3 5; values = values }

handle_osc_message-path_to_example :
    (next : State Toy Toy) × (handle_osc_message arg_ops same start message 12 ≡ some next)
    × ((d q : ℕ)
        → q < 32
        → grid_view next.slots d q
          ≡ (if 3 == d && 5 == q then first_value values else grid_view start.slots d q))
handle_osc_message-path_to_example =
    handle_osc_message-path_to arg_ops same start message message 12 message values
      no_slots-GridValid refl (reads message (b'/' ∷ path_to 3 5) values) 3 5 same-IsLiteral
      (omega arith) (omega arith) refl

abbrev both : Toy
both = record { path = b'/' ∷ path_to 3 5; values = map int32 (10 ∷ 20 ∷ []) }

-- A matcher for which "*" matches every name.
abbrev glob : List ℕ → List ℕ → Bool
glob pattern name = if same pattern (codes "*") then true else same pattern name

-- The value of a channel after a message with this path and these values.
abbrev value_at : ℕ → List ℕ → List Value → Option ℕ
value_at c path values =
    elim (handle_osc_message arg_ops glob start (record { path = path; values = values }) 0) [
      | none ↦ none
      | some next ↦ elim (get_elem? next.slots c) [ none ↦ none | some s ↦ some (slot_get_val s) ]
    ]

-- One channel and priority, all priorities of a channel, and one priority of all channels.
test_values :
    (value_at 12 (codes "/dmx/12/31") (int32 127 ∷ []) ≡ some 127)
    × (value_at 3 (codes "/dmx/3/*") (int32 1 ∷ int32 2 ∷ []) ≡ some 2)
    × (value_at 511 (codes "/dmx/*/3") (int32 9 ∷ int32 8 ∷ []) ≡ some 8)
    × (value_at 4 (codes "/dmx/3/5") (int32 1 ∷ []) ≡ some 0)
unfolding handle_osc_message match_path run_visits branch priority_branch channel_branch and_then
    advance take_arg set_or_clear with_slots update_slot put_slot slot_set_val slot_get_val
    slot_has_val scan walk segment after_slash matched call tree_root tree_channel tree_priority
test_values = (refl, refl, refl, refl)

abbrev pieces : List Piece
pieces = plain b'x' ∷ choice (codes "12") (codes "3" ∷ []) ∷ []

test_braces : (osc_text pieces ≡ codes "x{12,3}") × (extended_text pieces ≡ codes "x@(12|3)")
test_braces = (refl, refl)

osc_pattern_match-osc_text_example :
    osc_pattern_match same (osc_text pieces) (codes "x3")
    ≡ ok (same (extended_text pieces) (codes "x3"))
osc_pattern_match-osc_text_example =
    osc_pattern_match-osc_text same pieces (codes "x3") (ground arith)
