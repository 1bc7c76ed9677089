-- ===== src/Dispatch/Grid.antt =====
-- The 512 slots as a grid of channels and priorities, and what assignments do to it.
use osc2ftdidmx.Base.{
  ℕ, ◌<◌, ◌≡◌, ◌≢◌, ◌∙◌, sym, refl, ap, Bool, Option, none, some, List, [], ◌∷◌, arith, ◌==◌, ◌&&◌,
  if◌then◌else◌, ℕ_discrete, get_elem?, set, length, length-set, get_elem?-set_self,
  get_elem?-set_ne,
}
use osc2ftdidmx.Slot.{Slot}
use osc2ftdidmx.Slot.Inv.{IsValid, slot_set_val-IsValid, slot_clr_val-IsValid}
use osc2ftdidmx.Slot.Spec.{view, slot_set_val_lem, slot_clr_val_lem}
use osc2ftdidmx.Dispatch.Spec.{Target, Assign, apply_value, assign, assign_then, assign_all}

-- There are 512 slots, each of them valid.
pub record GridValid (slots : List Slot) : Type 0 where
  pub sized : length slots ≡ 512
  pub each : (c : ℕ) → c < 512 → (s : Slot) × (get_elem? slots c ≡ some s) × IsValid s

abbrev pub slot_view : Option Slot → ℕ → Option ℕ
slot_view none p = none
slot_view (some s) p = view s p

-- What is set at a channel and a priority.
abbrev pub grid_view : List Slot → ℕ → ℕ → Option ℕ
grid_view slots c p = slot_view (get_elem? slots c) p

abbrev pub hits : Assign → ℕ → ℕ → Bool
hits a c p = (a.target.chan == c) && (a.target.prio == p)

-- The last assignment to a place decides.
unfoldable pub final : List Assign → ℕ → ℕ → Option ℕ → Option ℕ
final [] c p cur = cur
final (a ∷ more) c p cur = final more c p (if hits a c p then a.value else cur)

abbrev pub InRange : Target → Type 0
InRange t = (t.chan < 512) × (t.prio < 32)

abbrev pub AllInRange : List Assign → Type 0
AllInRange [] = Unit
AllInRange (a ∷ more) = InRange a.target × AllInRange more

apply_value_lem :
    (p : ℕ) (v : Option ℕ) (s : Slot)
    → IsValid s
    → p < 32
    → (t : Slot) × (apply_value p v s ≡ some t)
      × IsValid t
      × ((q : ℕ) → q < 32 → view t q ≡ (if p == q then v else view s q))
unfolding apply_value
apply_value_lem p none s valid h =
    let (t, e, shows) = slot_clr_val_lem s p valid h in
    (t, e, slot_clr_val-IsValid s p valid e, shows)
apply_value_lem p (some v) s valid h =
    let (t, e, shows) = slot_set_val_lem s p v valid h in
    (t, e, slot_set_val-IsValid s p v valid e, λ q k. shows q)

set-GridValid :
    (slots : List Slot) (c : ℕ) (t : Slot)
    → GridValid slots
    → IsValid t
    → c < 512
    → GridValid (set slots c t)
set-GridValid slots c t grid valid h = record {
  sized = length-set slots c t ∙ grid.sized;
  each = λ d k. at d k (ℕ_discrete c d);
}
  where
    at :
        (d : ℕ)
        → d < 512
        → Dec (c ≡ d)
        → (s : Slot) × (get_elem? (set slots c t) d ≡ some s) × IsValid s
    at d k (yes e) = (
      t,
      ap (get_elem? (set slots c t)) (sym e) ∙ get_elem?-set_self slots c t (rw grid.sized h),
      valid,
    )
    at d k (no ne) =
        let (s, here, ok) = grid.each d k in (s, get_elem?-set_ne slots t ne ∙ here, ok)

assign-some :
    (a : Assign) (slots : List Slot) (s t : Slot)
    → get_elem? slots a.target.chan ≡ some s
    → apply_value a.target.prio a.value s ≡ some t
    → assign a slots ≡ some (set slots a.target.chan t)
unfolding assign
assign-some a slots s t here e = ground arith

grid_view-set :
    (slots : List Slot) (a : Assign) (s t : Slot) (c p : ℕ)
    → get_elem? slots a.target.chan ≡ some s
    → a.target.chan < length slots
    → view t p ≡ (if a.target.prio == p then a.value else view s p)
    → grid_view (set slots a.target.chan t) c p
      ≡ (if hits a c p then a.value else grid_view slots c p)
grid_view-set slots a s t c p here bound shows = elim (ℕ_discrete a.target.chan c) [
  | yes e ↦
      let after : grid_view (set slots a.target.chan t) c p ≡ view t p =
        ap (λ o. slot_view o p)
          (ap (get_elem? (set slots a.target.chan t)) (sym e)
            ∙ get_elem?-set_self slots a.target.chan t bound) in
      let before : grid_view slots c p ≡ view s p =
        ap (λ o. slot_view o p) (ap (get_elem? slots) (sym e) ∙ here) in
      after ∙ shows ∙ in_row (view s p) (grid_view slots c p) (sym before) e
  | no ne ↦
      ap (λ o. slot_view o p) (get_elem?-set_ne slots t ne) ∙ other_row (grid_view slots c p) ne
]
  where
    in_row :
        (x y : Option ℕ)
        → x ≡ y
        → a.target.chan ≡ c
        → (if a.target.prio == p then a.value else x) ≡ (if hits a c p then a.value else y)
    in_row x y e e' = ground arith

    other_row : (y : Option ℕ) → a.target.chan ≢ c → y ≡ (if hits a c p then a.value else y)
    other_row y ne = ground arith

-- An assignment in range succeeds on a valid grid, keeps it valid and changes that place alone.
assign_lem :
    (a : Assign) (slots : List Slot)
    → GridValid slots
    → InRange a.target
    → (after : List Slot) × (assign a slots ≡ some after)
      × GridValid after
      × ((c p : ℕ)
          → p < 32
          → grid_view after c p ≡ (if hits a c p then a.value else grid_view slots c p))
assign_lem a slots grid range =
    let (s, here, valid) = grid.each a.target.chan range.0 in
    let (t, e, ok, shows) = apply_value_lem a.target.prio a.value s valid range.1 in
    (
      set slots a.target.chan t,
      assign-some a slots s t here e,
      set-GridValid slots a.target.chan t grid ok range.0,
      λ c p h. grid_view-set slots a s t c p here (rw grid.sized range.0) (shows p h),
    )

-- Assignments in range succeed on a valid grid, keep it valid, and leave at each place the value of
-- the last assignment to it.
pub assign_all_lem :
    (more : List Assign) (slots : List Slot)
    → GridValid slots
    → AllInRange more
    → (after : List Slot) × (assign_all more slots ≡ some after)
      × GridValid after
      × ((c p : ℕ) → p < 32 → grid_view after c p ≡ final more c p (grid_view slots c p))
unfolding assign_all assign_then final
assign_all_lem [] slots grid range = (slots, refl, grid, λ c p h. refl)
assign_all_lem (a ∷ more) slots grid range =
    let (mid, e, grid', shows) = assign_lem a slots grid range.0 in
    let (after, e', grid'', ends) = assign_all_lem more mid grid' range.1 in
    (after, rw (e, assign_then) e', grid'', λ c p h. ends c p h ∙ ap (final more c p) (shows c p h))
