-- ===== src/Sched.antt =====
-- The list of scheduled messages of main.c: `sched_t`, `_sched_append` and the conversion of a time
-- tag in `_handle_osc_packet`. A linked list is the list of its elements from the head on.
pub mod Laws
use osc2ftdidmx.Base.{
  ℕ, ◌+◌, ◌-◌, ◌*◌, ◌/◌, ◌%◌, ◌^◌, Bool, true, false, not, List, [], ◌∷◌, ◌&&◌, ltb, ◌==◌,
  if◌then◌else◌, ℤ, pos_part, neg_part, ltb_ℤ, signed64,
}

-- `NSECS` and `JAN_1970`
abbrev pub nsecs : ℕ
nsecs = 1000000000

abbrev pub jan_1970 : ℕ
jan_1970 = 2208988800

-- `struct timespec`, with nanoseconds that are never negative.
pub record Timespec : Type 0 where
  pub tv_sec : ℤ
  pub tv_nsec : ℕ

-- `sched_t` without its link.
pub record Sched : Type 0 where
  pub to : Timespec
  pub len : ℕ
  pub buf : List ℕ

-- The test of `_sched_append` at which its loop breaks.
unfoldable pub is_later : Sched → Sched → Bool
is_later ptr elmnt = ltb_ℤ elmnt.to.tv_sec ptr.to.tv_sec && ltb elmnt.to.tv_nsec ptr.to.tv_nsec

-- `_sched_append`: the element goes before the first one that the test finds, or to the end.
unfoldable pub sched_append : List Sched → Sched → List Sched
unfolding is_later
sched_append [] elmnt = elmnt ∷ []
sched_append (ptr ∷ list) elmnt =
    if is_later ptr elmnt then elmnt ∷ ptr ∷ list else ptr ∷ sched_append list elmnt

-- `timetag && 32`, the logical "and" of two numbers.
unfoldable pub logical_and : ℕ → ℕ → ℕ
logical_and a b = if not (a == 0) && not (b == 0) then 1 else 0

-- `elmnt->to`. The seconds wrap as `uint64_t` and are then read as a signed `time_t`; the product
-- with 0x1p-32 and 1e9 is exact in `double`, and the cast to `long` cuts its fraction off.
unfoldable pub to_timespec : ℕ → Timespec
unfolding logical_and
to_timespec timetag = record {
  tv_sec = signed64 ((timetag / 2 ^ 32 + 2 ^ 64 - jan_1970) % 2 ^ 64);
  tv_nsec = logical_and timetag 32 * nsecs / 2 ^ 32;
}

-- `diff < 0.0` of `_beat` for the times `a` and `b`: the sign of the difference in nanoseconds,
-- which `double` keeps.
unfoldable pub is_before : Timespec → Timespec → Bool
is_before a b =
    ltb (pos_part a.tv_sec * nsecs + a.tv_nsec + neg_part b.tv_sec * nsecs)
      (pos_part b.tv_sec * nsecs + b.tv_nsec + neg_part a.tv_sec * nsecs)
