-- ===== src/Dispatch/Refine.antt =====
-- The callbacks deal the arguments of a message out as the README promises.
use osc2ftdidmx.Base.{
  ℕ, ◌%◌, ◌^◌, ◌≡◌, ◌∙◌, sym, refl, subst, ap, Bool, true, false, Option, none, some, List, [], ◌∷◌,
  arith, bit_and_byte, if◌then◌else◌, drop,
}
use osc2ftdidmx.Slot.{Slot}
use osc2ftdidmx.Osc.Tree.{null, priority, channel, Visit, visit, walk}
use osc2ftdidmx.Osc.Args.{ArgOps, Value, value_of}
use osc2ftdidmx.Dispatch.{
  State, put_slot, update_slot, with_slots, take_arg, advance, set_or_clear, priority_branch,
  channel_branch, branch, and_then, run_visits, match_path, handle_osc_message,
}
use osc2ftdidmx.Dispatch.Tables.{tree_root}
use osc2ftdidmx.Dispatch.Spec.{
  targets, next_value, spread, apply_value, assign, assign_then, assign_all,
}

module _ {R A : Type 0} where
  -- The value that the state would set, if it is in setting mode.
  abbrev pub current : State R A → Option ℕ
  current state = if state.cur_set then some state.cur_value else none

  abbrev pub slots_of : Option (State R A) → Option (List Slot)
  slots_of none = none
  slots_of (some state) = some state.slots

module _ {R A : Type 0} (o : ArgOps R A) where
  abbrev pub at_end : R → Option A → Bool
  at_end r none = true
  at_end r (some a) = o.arg_is_end r a

  -- From the reader and the argument on, the arguments are exactly these.
  abbrev pub Reads : R → Option A → List Value → Type 0
  Reads r arg [] = at_end r arg ≡ true
  Reads r arg (v ∷ vs) =
      (a : A) × (arg ≡ some a)
      × (o.arg_is_end r a ≡ false)
      × (value_of o a ≡ v)
      × Reads (o.arg_next r a).0 (o.arg_next r a).1 vs

  advance-end :
      (state : State R A) (arg : Option A)
      → at_end state.cur_reader arg ≡ true
      → advance o state arg ≡ state
  unfolding advance
  advance-end state none e = refl
  advance-end state (some a) e = rw e refl

  take_arg_lem :
      (state : State R A) (a : A)
      → (current (take_arg o state a) ≡ next_value (value_of o a) (current state))
        × ((take_arg o state a).slots ≡ state.slots)
        × ((take_arg o state a).cur_channel ≡ state.cur_channel)
  unfolding take_arg next_value
  take_arg_lem state a = ground (arith, bit_and_byte (o.arg_int a))

  -- What `_priority` has done when it comes to the slot.
  record Advanced (state : State R A) (v : Value) (vs : List Value) (next : State R A)
      : Type 0 where
    value : current next ≡ next_value v (current state)
    same_slots : next.slots ≡ state.slots
    same_channel : next.cur_channel ≡ state.cur_channel
    rest : Reads next.cur_reader next.cur_arg vs

  advance-more :
      (state : State R A) (v : Value) (vs : List Value)
      → Reads state.cur_reader state.cur_arg (v ∷ vs)
      → Advanced state v vs (advance o state state.cur_arg)
  unfolding advance
  advance-more state v vs (a, here, more, value, rest) =
      subst (λ arg. Advanced state v vs (advance o state arg)) (sym here)
        (rw (more, advance)
          (record {
            value = (take_arg_lem state a).0 ∙ ap (λ w. next_value w (current state)) value;
            same_slots = (take_arg_lem state a).1;
            same_channel = (take_arg_lem state a).2;
            rest = rest;
          }))

  set_or_clear-assign :
      (state : State R A) (p : ℕ)
      → set_or_clear o state p
        ≡ with_slots state (
            assign
              (record {
                target = record { chan = state.cur_channel; prio = p };
                value = current state;
              })
              state.slots)
  unfolding set_or_clear with_slots update_slot put_slot assign apply_value
  set_or_clear-assign state p = ground arith

  and_then-with_slots :
      (state : State R A) (result : Option (List Slot)) (k : State R A → Option (State R A))
      (g : List Slot → Option (List Slot))
      → ((slots : List Slot) → slots_of (k (record state { slots = slots })) ≡ g slots)
      → slots_of (and_then o (with_slots state result) k) ≡ assign_then result g
  unfolding and_then with_slots assign_then
  and_then-with_slots state none k g h = refl
  and_then-with_slots state (some slots) k g h = h slots

  -- The slot's update, and then the rest of the walk.
  set_or_clear-then :
      (state : State R A) (p c : ℕ) (v : Option ℕ) (slots : List Slot)
      (k : State R A → Option (State R A)) (g : List Slot → Option (List Slot))
      → state.cur_channel ≡ c
      → current state ≡ v
      → state.slots ≡ slots
      → ((slots : List Slot) → slots_of (k (record state { slots = slots })) ≡ g slots)
      → slots_of (and_then o (set_or_clear o state p) k)
        ≡ assign_then
            (assign (record { target = record { chan = c; prio = p }; value = v }) slots)
            g
  set_or_clear-then state p c v slots k g in_chan at_value in_slots h =
      ap (λ r. slots_of (and_then o r k)) (set_or_clear-assign state p)
      ∙ and_then-with_slots state _ k g h
      ∙ (λ i.
          assign_then
            (assign (record { target = record { chan = in_chan i; prio = p }; value = at_value i })
              (in_slots i))
            g)

  -- The slots after a walk are those that the assignments give, and one fails where the other does.
  run_visits-deals :
      (visits : List Visit) (vs : List Value) (state : State R A)
      → Reads state.cur_reader state.cur_arg vs
      → slots_of (run_visits o visits state)
        ≡ assign_all (spread vs (current state) (targets visits state.cur_channel)) state.slots
  unfolding run_visits branch and_then channel_branch priority_branch targets spread assign_all
  run_visits-deals [] [] state reads = refl
  run_visits-deals [] (v ∷ vs) state reads = refl
  run_visits-deals (visit null i ∷ visits) vs state reads = run_visits-deals visits vs state reads
  run_visits-deals (visit channel i ∷ visits) vs state reads =
      run_visits-deals visits vs (record state { cur_channel = i % 2 ^ 16 }) reads
  run_visits-deals (visit priority i ∷ visits) [] state reads =
      ap (λ s. slots_of (and_then o (set_or_clear o s (i % 2 ^ 8)) (run_visits o visits)))
        (advance-end state state.cur_arg reads)
      ∙ set_or_clear-then state (i % 2 ^ 8) _ _ _ _ _ refl refl refl
          (λ slots. run_visits-deals visits [] (record state { slots = slots }) reads)
  run_visits-deals (visit priority i ∷ visits) (v ∷ vs) state reads =
      let mid : State R A = advance o state state.cur_arg in
      let adv : Advanced state v vs mid = advance-more state v vs reads in
      set_or_clear-then mid (i % 2 ^ 8) _ _ _ _ _ adv.same_channel adv.value adv.same_slots
        (λ slots.
          run_visits-deals visits vs (record mid { slots = slots }) adv.rest
          ∙ (λ j. assign_all (spread vs (adv.value j) (targets visits (adv.same_channel j))) slots))

  -- `_handle_osc_message` on a message whose path and arguments the reader finds: the slots are
  -- those that dealing the arguments out to the targets of the path gives, from no value on.
  pub handle_osc_message-deals :
      (pattern_match : List ℕ → List ℕ → Bool) (state : State R A) (reader r : R) (len : ℕ) (a : A)
      (vs : List Value)
      → o.message_begin reader len ≡ (r, some a)
      → Reads r (some a) vs
      → slots_of (handle_osc_message o pattern_match state reader len)
        ≡ assign_all
            (spread vs none (targets (walk pattern_match tree_root 0 (drop 1 (o.arg_path a))) 0))
            state.slots
  unfolding handle_osc_message match_path
  handle_osc_message-deals pattern_match state reader r len a vs begins reads =
      rw begins
        (run_visits-deals (walk pattern_match tree_root 0 (drop 1 (o.arg_path a))) vs _ reads)

  -- Where `OSC_READER_MESSAGE_BEGIN` refuses the message, `lv2_osc_reader_match` follows a null
  -- pointer.
  pub handle_osc_message-null :
      (pattern_match : List ℕ → List ℕ → Bool) (state : State R A) (reader r : R) (len : ℕ)
      → o.message_begin reader len ≡ (r, none)
      → handle_osc_message o pattern_match state reader len ≡ none
  unfolding handle_osc_message match_path
  handle_osc_message-null pattern_match state reader r len begins = rw begins
