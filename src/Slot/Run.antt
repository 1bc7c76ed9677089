-- ===== src/Slot/Run.antt =====
-- Whole sequences of updates of one slot against the map of priorities.
use osc2ftdidmx.Base.{
  ℕ, ◌<◌, ◌≡◌, ◌∙◌, refl, Option, none, some, List, [], ◌∷◌, arith, ◌==◌, if◌then◌else◌,
}
use osc2ftdidmx.Slot.{Slot, slot_set_val, slot_clr_val, slot_get_val}
use osc2ftdidmx.Slot.Inv.{IsValid, slot_set_val-IsValid, slot_clr_val-IsValid}
use osc2ftdidmx.Slot.Spec.{view, highest, slot_set_val_lem, slot_clr_val_lem}
use osc2ftdidmx.Slot.Get.{slot_get_val-highest, highest-cong}

-- A client's calls.
pub data Update : Type 0 where
  set_val : ℕ → ℕ → Update
  clr_val : ℕ → Update

unfoldable pub apply : Update → Slot → Option Slot
apply (set_val p v) s = slot_set_val s p v
apply (clr_val p) s = slot_clr_val s p

then_run : Option Slot → (Slot → Option Slot) → Option Slot
then_run none k = none
then_run (some s) k = k s

unfoldable pub run : List Update → Slot → Option Slot
unfolding then_run
run [] s = some s
run (u ∷ us) s = then_run (apply u s) (run us)

-- The same calls on a partial map.
abbrev pub spec_run : List Update → (ℕ → Option ℕ) → ℕ → Option ℕ
spec_run [] f q = f q
spec_run (set_val p v ∷ us) f q = spec_run us (λ r. if p == r then some v else f r) q
spec_run (clr_val p ∷ us) f q = spec_run us (λ r. if p == r then none else f r) q

abbrev pub InRange : List Update → Type 0
InRange [] = Unit
InRange (set_val p v ∷ us) = (p < 32) × InRange us
InRange (clr_val p ∷ us) = (p < 32) × InRange us

spec_run-cong :
    (us : List Update) (f g : ℕ → Option ℕ)
    → ((q : ℕ) → q < 32 → f q ≡ g q)
    → (q : ℕ) → q < 32
    → spec_run us f q ≡ spec_run us g q
spec_run-cong [] f g h q k = h q k
spec_run-cong (set_val p v ∷ us) f g h q k = spec_run-cong us _ _ (λ r l. ground (arith, h r l)) q k
spec_run-cong (clr_val p ∷ us) f g h q k = spec_run-cong us _ _ (λ r l. ground (arith, h r l)) q k

run-view :
    (us : List Update) (s : Slot)
    → IsValid s
    → InRange us
    → (t : Slot) × (run us s ≡ some t)
      × IsValid t
      × ((q : ℕ) → q < 32 → view t q ≡ spec_run us (view s) q)
unfolding run apply
run-view [] s v r = (s, refl, v, λ q k. refl)
run-view (set_val p x ∷ us) s v r =
    let (t, e, shows) = slot_set_val_lem s p x v r.0 in
    let (u, e', valid, ends) = run-view us t (slot_set_val-IsValid s p x v e) r.1 in
    (
      u,
      rw (e, run, then_run) e',
      valid,
      λ q k. ends q k ∙ spec_run-cong us _ _ (λ i l. shows i) q k,
    )
run-view (clr_val p ∷ us) s v r =
    let (t, e, shows) = slot_clr_val_lem s p v r.0 in
    let (u, e', valid, ends) = run-view us t (slot_clr_val-IsValid s p v e) r.1 in
    (u, rw (e, run, then_run) e', valid, λ q k. ends q k ∙ spec_run-cong us _ _ shows q k)

-- Any sequence of calls at priorities below 32 succeeds on a valid slot, and `slot_get_val` then
-- returns the value at the highest priority that the same calls leave set in a partial map.
pub slot_get_val-run :
    (us : List Update) (s : Slot)
    → IsValid s
    → InRange us
    → (t : Slot) × (run us s ≡ some t) × (slot_get_val t ≡ highest (spec_run us (view s)) 32)
slot_get_val-run us s v r =
    let (t, e, valid, shows) = run-view us s v r in
    (t, e, slot_get_val-highest t ∙ highest-cong _ _ 32 shows)
