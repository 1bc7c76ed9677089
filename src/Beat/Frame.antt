-- ===== src/Beat/Frame.antt =====
-- The frame that a round sends.
use osc2ftdidmx.Base.{
  ℕ, zero, suc, ◌+◌, ◌<◌, ◌≤◌, ◌≡◌, refl, ◌∙◌, sym, ap, some, List, arith, length, get_elem?, set,
  ok, length-set, ℕ_discrete, get_elem?-set_self, get_elem?-set_ne,
}
use osc2ftdidmx.Slot.{Slot, slot_get_val}
use osc2ftdidmx.Slot.Spec.{highest}
use osc2ftdidmx.Slot.Get.{slot_get_val-highest}
use osc2ftdidmx.Dispatch.Grid.{GridValid, grid_view, slot_view}
use osc2ftdidmx.Beat.{fill}

-- The value of a channel: that of its highest priority which is set, and 0 where none is.
abbrev pub level : List Slot → ℕ → ℕ
level slots c = highest (grid_view slots c) 32

level-slot :
    (slots : List Slot) (c : ℕ) (s : Slot)
    → get_elem? slots c ≡ some s
    → slot_get_val s ≡ level slots c
level-slot slots c s here = slot_get_val-highest s ∙ ap (λ o. highest (slot_view o) 32) (sym here)

module _ (slots : List Slot) (grid : GridValid slots) where
  -- The loop from `i` on has stored the channels from `i` on, and left the others alone.
  record Filled (i left : ℕ) (dmx : List ℕ) : Type 0 where
    out : List ℕ
    returns : fill slots i left dmx ≡ ok out
    same_length : length out ≡ length dmx
    inside : (c : ℕ) → i ≤ c → c < i + left → get_elem? out c ≡ some (level slots c)
    outside : (c : ℕ) → c < i → get_elem? out c ≡ get_elem? dmx c

  fill-Filled : (left i : ℕ) (dmx : List ℕ) → i + left ≤ 512 → length dmx ≡ 512 → Filled i left dmx
  unfolding fill
  fill-Filled zero i dmx h l = record {
    out = dmx;
    returns = refl;
    same_length = refl;
    inside = λ c p q. absurd (omega arith);
    outside = λ c p. refl;
  }
  fill-Filled (suc left) i dmx h l =
      let (s, here, valid) = grid.each i (omega arith) in
      let stored : List ℕ = set dmx i (slot_get_val s) in
      let same : length stored ≡ length dmx = length-set dmx i (slot_get_val s) in
      let rest : Filled (i + 1) left stored =
        fill-Filled left (i + 1) stored (omega arith) (same ∙ l) in
      let at_i : get_elem? rest.out i ≡ some (level slots i) =
        rest.outside i (omega arith)
        ∙ get_elem?-set_self dmx i (slot_get_val s) (omega arith)
        ∙ ap some (level-slot slots i s here) in
      record {
        out = rest.out;
        returns = rw here rest.returns;
        same_length = rest.same_length ∙ same;
        inside = λ c p q. elim (ℕ_discrete i c) [
          | yes e ↦ ap (get_elem? rest.out) (sym e) ∙ at_i ∙ ap (λ k. some (level slots k)) e
          | no ne ↦ rest.inside c (omega arith) (omega arith)
        ];
        outside = λ c p.
            rest.outside c (omega arith) ∙ get_elem?-set_ne dmx (slot_get_val s) (λ e. omega arith);
      }

  -- On 512 valid slots and a frame of 512 values, the loop ends, and stores for each channel the
  -- value of its highest priority that is set, or 0.
  pub fill_lem :
      (dmx : List ℕ)
      → length dmx ≡ 512
      → (out : List ℕ) × (fill slots 0 512 dmx ≡ ok out)
        × (length out ≡ 512)
        × ((c : ℕ) → c < 512 → get_elem? out c ≡ some (level slots c))
  fill_lem dmx l =
      let all : Filled 0 512 dmx = fill-Filled 512 0 dmx (omega arith) l in
      (all.out, all.returns, all.same_length ∙ l, λ c h. all.inside c (omega arith) (omega arith))
