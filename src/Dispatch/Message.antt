-- ===== src/Dispatch/Message.antt =====
-- `_handle_osc_message` as a whole: what a message does to the grid of channels and priorities.
use osc2ftdidmx.Base.{
  ℕ, ◌%◌, ◌<◌, ◌≡◌, ◌∙◌, sym, ap, subst, refl, Bool, Option, none, some, List, [], ◌∷◌, arith, ◌==◌,
  ◌&&◌, if◌then◌else◌, drop, map, length, get_elem?,
}
use osc2ftdidmx.Slot.{Slot}
use osc2ftdidmx.Osc.Tree.{walk, visit, channel, priority}
use osc2ftdidmx.Osc.Args.{ArgOps, Value, int32, other}
use osc2ftdidmx.Dispatch.{State, handle_osc_message}
use osc2ftdidmx.Dispatch.Tables.{tree_root}
use osc2ftdidmx.Dispatch.Spec.{Target, Assign, targets, next_value, spread, assign_all}
use osc2ftdidmx.Dispatch.Refine.{Reads, slots_of, handle_osc_message-deals}
use osc2ftdidmx.Dispatch.Grid.{GridValid, grid_view, final, assign_all_lem}
use osc2ftdidmx.Dispatch.Targets.{spread-targets-InRange}
use osc2ftdidmx.Dispatch.Deal.{dealt, spread-dealt, length-spread}
use osc2ftdidmx.Dispatch.Names.{IsLiteral, path_to, walk-path_to}

-- The value that a message with these arguments gives to its first target.
abbrev pub first_value : List Value → Option ℕ
first_value [] = none
first_value (int32 bits ∷ vs) = some (bits % 256)
first_value (other ∷ vs) = none

-- The one assignment of a message to one place.
final-single :
    (c p d q : ℕ) (vs : List Value) (cur : Option ℕ)
    → c < 512
    → p < 32
    → final (spread vs none (targets (visit channel c ∷ visit priority p ∷ []) 0)) d q cur
      ≡ (if c == d && p == q then first_value vs else cur)
unfolding final spread targets next_value
final-single c p d q [] cur h k = ground arith
final-single c p d q (int32 bits ∷ vs) cur h k = ground arith
final-single c p d q (other ∷ vs) cur h k = ground arith

slots_of-some :
    {R A : Type 0} (r : Option (State R A)) {slots : List Slot}
    → slots_of r ≡ some slots
    → (next : State R A) × (r ≡ some next) × (next.slots ≡ slots)
slots_of-some none e = cc
slots_of-some (some next) e = (next, refl, cc)

module _ {R A : Type 0} (o : ArgOps R A) (pattern_match : List ℕ → List ℕ → Bool)
    (state : State R A) (reader r : R) (len : ℕ) (a : A) (vs : List Value)
    (grid : GridValid state.slots) (begins : o.message_begin reader len ≡ (r, some a))
    (reads : Reads o r (some a) vs) where
  -- On valid slots and for a message that the reader accepts, whatever its path and its patterns,
  -- `_handle_osc_message` makes no access past the slots, keeps the slots valid, and leaves at each
  -- channel and priority what the last assignment to it says when the arguments are dealt out to
  -- the targets of the path.
  pub handle_osc_message_lem :
      (next : State R A) × (handle_osc_message o pattern_match state reader len ≡ some next)
      × GridValid next.slots
      × ((c p : ℕ)
          → p < 32
          → grid_view next.slots c p
            ≡ final
                (spread vs none
                  (targets (walk pattern_match tree_root 0 (drop 1 (o.arg_path a))) 0))
                c
                p
                (grid_view state.slots c p))
  handle_osc_message_lem =
      let from : List ℕ = drop 1 (o.arg_path a) in
      let (after, e, valid, shows) =
        assign_all_lem _ state.slots grid (spread-targets-InRange pattern_match from vs none) in
      let deals = handle_osc_message-deals o pattern_match state reader r len a vs begins reads in
      let (next, e', same) = slots_of-some _ (deals ∙ e) in
      (
        next,
        e',
        subst GridValid (sym same) valid,
        λ c p h. ap (λ slots. grid_view slots c p) same ∙ shows c p h,
      )

  -- With a pattern matcher that takes numerals literally and on valid slots, a message that the
  -- reader accepts, to a channel below 512 and a priority below 32, sets these to the low byte of
  -- its first argument, or clears them if that is no integer or there is none, and changes
  -- nothing else.
  pub handle_osc_message-path_to :
      (c p : ℕ)
      → IsLiteral pattern_match
      → c < 512
      → p < 32
      → o.arg_path a ≡ b'/' ∷ path_to c p
      → (next : State R A) × (handle_osc_message o pattern_match state reader len ≡ some next)
        × ((d q : ℕ)
            → q < 32
            → grid_view next.slots d q
              ≡ (if c == d && p == q then first_value vs else grid_view state.slots d q))
  handle_osc_message-path_to c p literal h k path =
      let (next, e, valid, shows) = handle_osc_message_lem in
      let visits : walk pattern_match tree_root 0 (drop 1 (o.arg_path a))
          ≡ visit channel c ∷ visit priority p ∷ [] =
        ap (λ t. walk pattern_match tree_root 0 (drop 1 t)) path
        ∙ walk-path_to pattern_match literal c p h k in
      (
        next,
        e,
        λ d q l.
            shows d q l
            ∙ ap (λ w. final (spread vs none (targets w 0)) d q (grid_view state.slots d q)) visits
            ∙ final-single c p d q vs _ h k,
      )

-- A message with integer arguments alone makes one assignment for each channel and priority that its
-- path matches, in the order of the tables: the k-th takes the low byte of the k-th argument, or of
-- the last one when there are fewer, and clears when there is none.
pub handle_osc_message-dealt :
    {R A : Type 0} (o : ArgOps R A) (pattern_match : List ℕ → List ℕ → Bool) (state : State R A)
    (reader r : R) (len : ℕ) (a : A) (ns : List ℕ)
    → o.message_begin reader len ≡ (r, some a)
    → Reads o r (some a) (map int32 ns)
    → let ts = targets (walk pattern_match tree_root 0 (drop 1 (o.arg_path a))) 0 in
      (made : List Assign) × (slots_of (handle_osc_message o pattern_match state reader len)
        ≡ assign_all made state.slots)
      × (length made ≡ length ts)
      × ((k : ℕ) (t : Target)
          → get_elem? ts k ≡ some t
          → get_elem? made k ≡ some (record { target = t; value = dealt ns none k }))
handle_osc_message-dealt o pattern_match state reader r len a ns begins reads =
    let ts : List Target = targets (walk pattern_match tree_root 0 (drop 1 (o.arg_path a))) 0 in
    (
      spread (map int32 ns) none ts,
      handle_osc_message-deals o pattern_match state reader r len a (map int32 ns) begins reads,
      length-spread (map int32 ns) none ts,
      λ k t h. spread-dealt ns none ts k t h,
    )
