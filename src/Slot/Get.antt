-- ===== src/Slot/Get.antt =====
-- `slot_has_val` and `slot_get_val` against the map of priorities, and whole runs of updates.
use osc2ftdidmx.Base.{
  ℕ, zero, suc, ◌<◌, ◌≡◌, ◌∙◌, sym, ap, refl, false, Option, none, some, arith, ◌==◌, bit-lt,
  bit_zero, eq-zero_of_bits, Bool-cases, inl, inr, ◌↔◌,
}
use osc2ftdidmx.Slot.{Slot, slot_set_val, slot_clr_val, slot_has_val, slot_get_val}
use osc2ftdidmx.Slot.Inv.{IsValid, slot_set_val-IsValid}
use osc2ftdidmx.Slot.Spec.{
  view, highest, scan-highest, highest-none, slot_set_val_lem, slot_clr_val_lem,
}

pub highest-cong :
    (f g : ℕ → Option ℕ) (n : ℕ) → ((p : ℕ) → p < n → f p ≡ g p) → highest f n ≡ highest g n
unfolding highest
highest-cong f g zero h = refl
highest-cong f g (suc n) h = ground (arith, h n, highest-cong f g n (λ p q. h p (omega arith)))

-- The highest priority that is set decides.
highest_of_top :
    (f : ℕ → Option ℕ) (n p v : ℕ)
    → p < n
    → f p ≡ some v
    → ((q : ℕ) → p < q → q < n → f q ≡ none)
    → highest f n ≡ v
unfolding highest
highest_of_top f zero p v h e above = elim h [ ]
highest_of_top f (suc n) p v h e above = elim (Bool-cases (p == n)) [
  | inl last ↦
      let here : f n ≡ some v = ap f (let same : n ≡ p = ground arith in same) ∙ e in
      rw (here, highest)
  | inr below ↦
      rw (above n (ground arith) (omega arith), highest)
        (highest_of_top f n p v (ground arith) e (λ q a b. above q a (omega arith)))
]

view-none_of_mask : (s : Slot) → s.mask ≡ 0 → (p : ℕ) → view s p ≡ none
view-none_of_mask s e p = rw (e, bit_zero)

-- `slot_get_val` is the value at the highest priority that is set, and 0 where none is.
pub slot_get_val-highest : (s : Slot) → slot_get_val s ≡ highest (view s) 32
unfolding slot_get_val
slot_get_val-highest s = elim (Bool-cases (s.mask == 0)) [
  | inl e ↦ ground (arith, highest-none (view s) 32 (λ p q. view-none_of_mask s (ground arith) p))
  | inr e ↦ rw e (scan-highest s 32)
]

-- On a valid slot, `slot_has_val` is false exactly when none of the 32 priorities is set.
pub slot_has_val-false_iff :
    (s : Slot) → IsValid s → (slot_has_val s ≡ false) ↔ ((p : ℕ) → p < 32 → view s p ≡ none)
unfolding slot_has_val
slot_has_val-false_iff s v = (
  λ e p q. view-none_of_mask s (ground arith) p,
  λ none_set.
      let zero_mask : s.mask ≡ 0 =
        eq-zero_of_bits 32 s.mask v.word (λ k q. ground (arith, none_set k q, bit-lt s.mask k)) in
      ground arith,
)

-- On a valid slot, setting a priority below 32 above which none is set makes its value the
-- slot's.
pub slot_set_val-takes_precedence :
    (s : Slot) (p v : ℕ)
    → IsValid s
    → p < 32
    → ((q : ℕ) → p < q → q < 32 → view s q ≡ none)
    → (t : Slot) × (slot_set_val s p v ≡ some t) × (slot_get_val t ≡ v)
slot_set_val-takes_precedence s p v valid h above =
    let (t, e, shows) = slot_set_val_lem s p v valid h in
    (
      t,
      e,
      slot_get_val-highest t
          ∙ highest_of_top (view t) 32 p v h (ground (arith, shows p))
              (λ q a b. ground (arith, shows q, above q a b)),
    )

-- On a valid slot, setting a priority below 32 that is not set and clearing it again brings back
-- the value from before.
pub slot_clr_val-slot_set_val :
    (s : Slot) (p v : ℕ)
    → IsValid s
    → p < 32
    → view s p ≡ none
    → (t : Slot) × (u : Slot) × (slot_set_val s p v ≡ some t)
      × (slot_clr_val t p ≡ some u)
      × (slot_get_val u ≡ slot_get_val s)
slot_clr_val-slot_set_val s p v valid h unset =
    let (t, e, set_shows) = slot_set_val_lem s p v valid h in
    let (u, e', clr_shows) = slot_clr_val_lem t p (slot_set_val-IsValid s p v valid e) h in
    (
      t,
      u,
      e,
      e',
      slot_get_val-highest u
          ∙ highest-cong (view u) (view s) 32
              (λ q k. ground (arith, clr_shows q k, set_shows q, unset))
          ∙ sym (slot_get_val-highest s),
    )
