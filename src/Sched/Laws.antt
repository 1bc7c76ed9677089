-- ===== src/Sched/Laws.antt =====
-- Where `_sched_append` puts an element, and what the time tags that the program makes of it.
use mathlib.Core.List.{Perm}
use mathlib.Core.List.Perm
use osc2ftdidmx.Base.{
  ℕ, ◌≡◌, refl, ap, true, false, List, [], ◌∷◌, ◌++◌, arith, Bool-cases, inl, inr,
}
use osc2ftdidmx.Sched.{Sched, is_later, sched_append, logical_and, to_timespec}

abbrev pub NoneLater : List Sched → Sched → Type 0
NoneLater [] e = Unit
NoneLater (x ∷ xs) e = (is_later x e ≡ false) × NoneLater xs e

abbrev pub HeadLater : List Sched → Sched → Type 0
HeadLater [] e = Unit
HeadLater (x ∷ xs) e = is_later x e ≡ true

-- `_sched_append` puts the element before the first one whose seconds and nanoseconds are both
-- greater, or at the end, and leaves the others in their order.
pub sched_append_lem :
    (list : List Sched) (e : Sched)
    → (front : List Sched) × (back : List Sched) × (list ≡ front ++ back)
      × (sched_append list e ≡ front ++ (e ∷ back))
      × NoneLater front e
      × HeadLater back e
unfolding sched_append
sched_append_lem [] e = ([], [], refl, refl, tt, tt)
sched_append_lem (x ∷ list) e = elim (Bool-cases (is_later x e)) [
  | inl later ↦ ([], x ∷ list, refl, rw later refl, tt, later)
  | inr sooner ↦
      let (front, back, same, placed, none_later, head_later) = sched_append_lem list e in
      (
        x ∷ front,
        back,
        ap (λ l. x ∷ l) same,
        rw sooner (ap (λ l. x ∷ l) placed),
        (sooner, none_later),
        head_later,
      )
]

-- `_sched_append` loses and repeats no element.
pub sched_append-perm : (list : List Sched) (e : Sched) → Perm (sched_append list e) (e ∷ list)
unfolding sched_append
sched_append-perm [] e = Perm.refl (e ∷ [])
sched_append-perm (x ∷ list) e = elim (Bool-cases (is_later x e)) [
  | inl later ↦ rw later (Perm.refl (e ∷ x ∷ list))
  | inr sooner ↦
      rw sooner (Perm.trans (Perm.cons x (sched_append-perm list e)) (Perm.swap e x list))
]

abbrev pub NoFraction : List Sched → Type 0
NoFraction [] = Unit
NoFraction (x ∷ xs) = (x.to.tv_nsec ≡ 0) × NoFraction xs

-- The nanoseconds of every time tag come out as 0: `timetag && 32` is a logical "and".
pub tv_nsec-to_timespec : (timetag : ℕ) → (to_timespec timetag).tv_nsec ≡ 0
unfolding to_timespec logical_and
tv_nsec-to_timespec timetag = ground arith

-- If all nanoseconds in the list are 0, `_sched_append` appends to the end, whatever the times
-- are.
pub sched_append-fifo :
    (list : List Sched) (e : Sched) → NoFraction list → sched_append list e ≡ list ++ (e ∷ [])
unfolding sched_append is_later
sched_append-fifo [] e h = refl
sched_append-fifo (x ∷ list) e h = ground (arith, sched_append-fifo list e h.1)
