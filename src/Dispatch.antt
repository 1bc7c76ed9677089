-- ===== src/Dispatch.antt =====
-- The dispatch of OSC messages: `state_t` of osc2ftdidmx.h, the callbacks `_priority` and
-- `_channel` of osc2ftdidmx.c and `_handle_osc_message` of main.c. An access past `slots [512]`
-- and a null pointer that is followed are undefined in C: the model returns `none` there.
pub mod Tables
pub mod Spec
pub mod Refine
pub mod Grid
pub mod Targets
pub mod Deal
pub mod Names
pub mod Message
use osc2ftdidmx.Base.{
  ℕ, ◌+◌, ◌%◌, ◌^◌, Bool, true, false, Option, none, some, List, [], ◌∷◌, bit_and, ◌==◌,
  if◌then◌else◌, get_elem?, set, drop,
}
use osc2ftdidmx.Slot.{Slot, slot_set_val, slot_clr_val}
use osc2ftdidmx.Osc.Tree.{Trees, Branch, null, priority, channel, Visit, visit, walk}
use osc2ftdidmx.Osc.Args.{ArgOps}
use osc2ftdidmx.Dispatch.Tables.{tree_root}

-- `state_t`
pub record State (R A : Type 0) : Type 0 where
  pub cur_channel : ℕ
  pub cur_value : ℕ
  pub cur_set : Bool
  pub cur_reader : R
  pub cur_arg : Option A
  pub slots : List Slot

-- The slot after `slot_set_val` or `slot_clr_val`, written back to `slots[channel]`.
unfoldable pub put_slot : List Slot → ℕ → Option Slot → Option (List Slot)
put_slot slots c none = none
put_slot slots c (some s) = some (set slots c s)

unfoldable pub update_slot : List Slot → ℕ → (Slot → Option Slot) → Option (List Slot)
unfolding put_slot
update_slot slots c f = elim (get_elem? slots c) [ none ↦ none | some s ↦ put_slot slots c (f s) ]

module _ {R A : Type 0} where
  unfoldable pub with_slots : State R A → Option (List Slot) → Option (State R A)
  with_slots state none = none
  with_slots state (some slots) = some (record state { slots = slots })

module _ {R A : Type 0} (o : ArgOps R A) where
  -- The `switch` of `_priority` on the argument's type.
  unfoldable pub take_arg : State R A → A → State R A
  take_arg state a =
      if o.arg_type a == b'i'
      then record state { cur_value = bit_and (o.arg_int a) 0xff; cur_set = true }
      else state

  -- The first block of `_priority`: the next argument, if there is one, is read and passed over.
  unfoldable pub advance : State R A → Option A → State R A
  unfolding take_arg
  advance state none = state
  advance state (some a) =
      if o.arg_is_end state.cur_reader a
      then state
      else (let (r, next) = o.arg_next state.cur_reader a in
          record (take_arg state a) { cur_reader = r; cur_arg = next })

  -- The rest of `_priority`.
  unfoldable pub set_or_clear : State R A → ℕ → Option (State R A)
  unfolding with_slots
  set_or_clear state prio = with_slots state (
      update_slot state.slots state.cur_channel (λ slot.
        if state.cur_set then slot_set_val slot prio state.cur_value else slot_clr_val slot prio))

  -- `_priority` for the entry at index `i` of `tree_priority`; the index is cast to `uint8_t`.
  unfoldable pub priority_branch : ℕ → State R A → Option (State R A)
  unfolding advance set_or_clear
  priority_branch i state = set_or_clear (advance state state.cur_arg) (i % 2 ^ 8)

  -- `_channel` for the entry at index `i` of `tree_channel`; the index is cast to `uint16_t`.
  unfoldable pub channel_branch : ℕ → State R A → Option (State R A)
  channel_branch i state = some (record state { cur_channel = i % 2 ^ 16 })

  unfoldable pub branch : Visit → State R A → Option (State R A)
  unfolding priority_branch channel_branch
  branch (visit null i) state = some state
  branch (visit priority i) state = priority_branch i state
  branch (visit channel i) state = channel_branch i state

  unfoldable pub and_then :
      Option (State R A) → (State R A → Option (State R A)) → Option (State R A)
  and_then none k = none
  and_then (some s) k = k s

  -- The calls that a walk makes, in order.
  unfoldable pub run_visits : List Visit → State R A → Option (State R A)
  unfolding branch and_then
  run_visits [] state = some state
  run_visits (v ∷ vs) state = and_then (branch v state) (run_visits vs)

  -- `lv2_osc_reader_match` on `tree_root`. It reads the path through the argument that
  -- `OSC_READER_MESSAGE_BEGIN` returns, with no test for a null pointer.
  unfoldable pub match_path : (List ℕ → List ℕ → Bool) → State R A → Option A → Option (State R A)
  unfolding run_visits
  match_path pattern_match state none = none
  match_path pattern_match state (some a) =
      run_visits (walk pattern_match tree_root 0 (drop 1 (o.arg_path a))) state

  -- `_handle_osc_message`
  unfoldable pub handle_osc_message :
      (List ℕ → List ℕ → Bool) → State R A → R → ℕ → Option (State R A)
  unfolding match_path
  handle_osc_message pattern_match state reader len =
      let (r, a) = o.message_begin reader len in
      match_path pattern_match
        (record state {
          cur_channel = 0;
          cur_value = 0;
          cur_set = false;
          cur_reader = r;
          cur_arg = a;
        })
        a
