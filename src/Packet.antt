-- ===== src/Packet.antt =====
-- `_handle_osc_packet` and `_handle_osc_bundle` of main.c. The reader of osc.lv2 and `malloc` are
-- parameters. A message without a time tag is handled, one with a time tag is scheduled, and a
-- bundle is opened. The recursion through nested bundles takes fuel.
pub mod Laws
pub mod Total
pub mod Effect
pub mod Bytes
pub mod Encoded
pub mod NoTypes
use osc2ftdidmx.Base.{
  ℕ, zero, suc, ◌+◌, ◌<◌, ◌≡◌, Bool, true, false, Option, none, some, List, [], ◌∷◌, ◌==◌,
  if◌then◌else◌, length, take, Outcome, ok, fault, no_fuel, ◌>>=◌, or_fault,
}
use osc2ftdidmx.Osc.Args.{ArgOps}
use osc2ftdidmx.Dispatch.{State, handle_osc_message}
use osc2ftdidmx.Sched.{Timespec, Sched, sched_append, to_timespec}

-- `LV2_OSC_Item`: the time tag of the bundle, the size of the item and its bytes (`body`).
pub record Item : Type 0 where
  pub timetag : ℕ
  pub size : ℕ
  pub body : List ℕ

-- What the program calls of the reader for packets: `lv2_osc_reader_initialize`, `_is_bundle`,
-- `_is_message`, the items that `OSC_READER_BUNDLE_FOREACH` goes through, `fnmatch` as
-- `lv2_osc_pattern_match` uses it, and whether the n-th `malloc`, of a number of bytes, succeeds.
pub record PacketOps (R A : Type 0) : Type 0 where
  pub args : ArgOps R A
  pub initialize : List ℕ → ℕ → R
  pub is_bundle : R → Bool
  pub is_message : R → Bool
  pub bundle_items : R → ℕ → List Item
  pub pattern_match : List ℕ → List ℕ → Bool
  pub malloc_ok : ℕ → ℕ → Bool

-- The fields `state` and `list` of `app_t`, and how often `malloc` has been called.
pub record App (R A : Type 0) : Type 0 where
  pub state : State R A
  pub list : List Sched
  pub mallocs : ℕ

-- `LV2_OSC_IMMEDIATE`
abbrev pub immediate : ℕ
immediate = 1

-- `sizeof(sched_t)` on a 64-bit system.
abbrev pub sizeof_sched : ℕ
sizeof_sched = 32

module _ {R A : Type 0} (o : PacketOps R A) where
  unfoldable pub with_state : App R A → State R A → App R A
  with_state app s = record app { state = s }

  unfoldable pub deliver : App R A → R → ℕ → Outcome (App R A)
  unfolding with_state
  deliver app reader len =
      or_fault (handle_osc_message o.args o.pattern_match app.state reader len) >>= λ s.
      ok (with_state app s)

  -- The branch of `_handle_osc_packet` for a message with a time tag. Without memory it is dropped.
  unfoldable pub schedule : App R A → ℕ → List ℕ → ℕ → App R A
  schedule app timetag buf len =
      if o.malloc_ok app.mallocs (sizeof_sched + len)
      then record app {
        list =
            sched_append app.list
              (record { to = to_timespec timetag; len = len; buf = take len buf });
        mallocs = app.mallocs + 1;
      }
      else record app { mallocs = app.mallocs + 1 }

  unfoldable pub handle_message : App R A → R → ℕ → List ℕ → ℕ → Outcome (App R A)
  unfolding deliver schedule
  handle_message app reader timetag buf len =
      if timetag == immediate then deliver app reader len else ok (schedule app timetag buf len)

  -- `_handle_osc_bundle`, where `handle` is the call of `_handle_osc_packet`.
  unfoldable pub handle_items :
      (App R A → ℕ → List ℕ → ℕ → Outcome (App R A)) → List Item → App R A → Outcome (App R A)
  handle_items handle [] app = ok app
  handle_items handle (itm ∷ items) app =
      handle app itm.timetag itm.body itm.size >>= handle_items handle items

  unfoldable pub handle_osc_packet : ℕ → App R A → ℕ → List ℕ → ℕ → Outcome (App R A)
  unfolding handle_items handle_message
  handle_osc_packet zero app timetag buf len = no_fuel
  handle_osc_packet (suc fuel) app timetag buf len =
      let reader = o.initialize buf len in
      let bundle = handle_items (handle_osc_packet fuel) (o.bundle_items reader len) app in
      let message = handle_message app reader timetag buf len in
      if o.is_bundle reader then bundle else (if o.is_message reader then message else ok app)
