-- ===== src/Beat/Time.antt =====
-- The times of the rounds.
use osc2ftdidmx.Base.{
  ℕ, zero, suc, ◌+◌, ◌-◌, ◌*◌, ◌/◌, ◌<◌, ◌≤◌, ◌≡◌, refl, arith, ltb, ok, ℤ, pos, ◌+ℤ◌, pos_part,
  neg_part, Bool-cases, inl, inr,
}
use osc2ftdidmx.Sched.{Timespec, nsecs}
use osc2ftdidmx.Beat.{carry, next_beat}

-- `b` lies `d` nanoseconds after `a`.
abbrev pub IsAfter : Timespec → ℕ → Timespec → Type 0
IsAfter a d b =
    pos_part b.tv_sec * nsecs + b.tv_nsec + neg_part a.tv_sec * nsecs
    ≡ pos_part a.tv_sec * nsecs + a.tv_nsec + neg_part b.tv_sec * nsecs + d

next_second : (a : ℤ) → pos_part (a +ℤ pos 1) + neg_part a ≡ neg_part (a +ℤ pos 1) + pos_part a + 1
unfolding ◌+ℤ◌
next_second a = ground arith

carry_lem :
    (fuel : ℕ) (to : Timespec)
    → to.tv_nsec / nsecs < fuel
    → (next : Timespec) × (carry fuel to ≡ ok next) × (next.tv_nsec < nsecs) × IsAfter to 0 next
unfolding carry
carry_lem zero to h = absurd (omega arith)
carry_lem (suc fuel) to h = elim (Bool-cases (ltb to.tv_nsec nsecs)) [
  | inl small ↦ (to, rw small refl, ground arith, omega arith)
  | inr big ↦
      let (next, e, below, after) =
        carry_lem fuel (record { tv_sec = to.tv_sec +ℤ pos 1; tv_nsec = to.tv_nsec - nsecs })
          (ground arith) in
      (
        next,
        rw big e,
        below,
        (let large : nsecs ≤ to.tv_nsec = ground arith in omega (arith, next_second to.tv_sec)),
      )
]

-- The next round comes exactly `step` nanoseconds after this one, with its nanoseconds in range.
-- The carrying loop ends.
pub next_beat_lem :
    (step : ℕ) (to : Timespec)
    → (next : Timespec) × (next_beat step to ≡ ok next)
      × (next.tv_nsec < nsecs)
      × IsAfter to step next
unfolding next_beat
next_beat_lem step to =
    let (next, e, below, after) =
      carry_lem ((to.tv_nsec + step) / nsecs + 1)
        (record { tv_sec = to.tv_sec; tv_nsec = to.tv_nsec + step }) (omega arith) in
    (next, e, below, omega arith)
