-- ===== src/Tests/Scheduling.antt =====
-- The list of scheduled messages: the theorems at a concrete list and time tag.
use osc2ftdidmx.Base.{ℕ, ◌≡◌, refl, [], ◌∷◌, pos}
use osc2ftdidmx.Sched.{Sched, sched_append, to_timespec}
use osc2ftdidmx.Sched.Laws.{sched_append-fifo, tv_nsec-to_timespec}

abbrev at : ℕ → ℕ → Sched
at sec nsec = record { to = record { tv_sec = pos sec; tv_nsec = nsec }; len = 1; buf = b'/' ∷ [] }

sched_append-fifo_example : sched_append (at 9 0 ∷ []) (at 4 0) ≡ at 9 0 ∷ at 4 0 ∷ []
sched_append-fifo_example = sched_append-fifo (at 9 0 ∷ []) (at 4 0) (refl, tt)

tv_nsec-to_timespec_example : (to_timespec 16399944902328680448).tv_nsec ≡ 0
tv_nsec-to_timespec_example = tv_nsec-to_timespec 16399944902328680448
