-- ===== src/Varchunk/New.antt =====
-- The size of a new ring buffer, and that it holds the empty queue.
use native.Mathlib.Nat.{pow-suc}
use osc2ftdidmx.Base.{
  ℕ, zero, suc, ◌+◌, ◌*◌, ◌%◌, ◌^◌, ◌<◌, ◌≤◌, ◌≡◌, ◌⊎◌, inl, inr, ◌∙◌, ap, refl, [], arith, ltb, ok,
  some, Bool-cases, ℕ_discrete, ◌>>=◌, if◌then◌else◌,
}
use osc2ftdidmx.Varchunk.{Ring, grow, body_size, varchunk_init, varchunk_new}
use osc2ftdidmx.Varchunk.Valid.{Valid, sub_size_lem}

-- The least power of two that is not less.
abbrev pub LeastPower : ℕ → ℕ → Type 0
LeastPower minimum k = (minimum ≤ 2 ^ k) × ((k ≡ 0) ⊎ (2 ^ k < 2 * minimum))

grow_lem :
    (fuel j minimum : ℕ)
    → minimum ≤ 2 ^ 63
    → j ≤ 63
    → 64 ≤ fuel + j
    → (j ≡ 0) ⊎ (2 ^ j < 2 * minimum)
    → (k : ℕ) × (grow fuel (2 ^ j) minimum ≡ ok (2 ^ k)) × LeastPower minimum k
unfolding grow
grow_lem zero j minimum below range enough low = absurd (omega arith)
grow_lem (suc fuel) j minimum below range enough low = elim (Bool-cases (ltb (2 ^ j) minimum)) [
  | inl less ↦
      let more : 2 ^ j < minimum = ground (arith, less) in
      let further : suc j ≤ 63 = elim (ℕ_discrete j 63) [
        | yes e ↦ absurd (omega (arith, ap (λ n. 2 ^ n) e))
        | no ne ↦ omega arith
      ] in
      let doubled : 2 ^ j * 2 % 2 ^ 64 ≡ 2 ^ suc j = omega (arith, pow-suc 2 j) in
      let (k, grown, least) =
        grow_lem fuel (suc j) minimum below further (omega arith)
          (inr (omega (arith, pow-suc 2 j))) in
      (
        k,
        ap (λ b. if b then grow fuel (2 ^ j * 2 % 2 ^ 64) minimum else ok (2 ^ j)) less
            ∙ ap (λ m. grow fuel m minimum) doubled
            ∙ grown,
        least,
      )
  | inr stop ↦ (j, rw stop refl, (ground (arith, stop), low))
]

eight-pow : (k : ℕ) → 4 < 2 ^ k → 2 ^ k % 8 ≡ 0
eight-pow zero h = absurd (omega arith)
eight-pow (suc zero) h = absurd (omega arith)
eight-pow (suc (suc zero)) h = absurd (omega arith)
eight-pow (suc (suc (suc k))) h =
    omega (arith, pow-suc 2 k, pow-suc 2 (suc k), pow-suc 2 (suc (suc k)))

pub varchunk_init-Valid :
    (r : Ring) (k : ℕ) → 4 < 2 ^ k → 2 ^ k ≤ 2 ^ 31 → Valid (varchunk_init r (2 ^ k)) []
unfolding varchunk_init
varchunk_init-Valid r k large small = record {
  log = k;
  power = refl;
  eight = eight-pow k large;
  small = small;
  mask = sub_size_lem (2 ^ k) 1 (omega arith) (omega arith);
  used = 0;
  not_full = omega arith;
  aligned = (refl, refl);
  tail_inside = omega arith;
  head_at = ground arith;
  laid = refl;
}

-- For a minimum above four and of 30 bits at most, `varchunk_new` returns when memory is given; the size is
-- the least power of two that is not less than the minimum, and the buffer holds the empty queue.
pub varchunk_new_lem :
    (r : Ring) (minimum : ℕ)
    → 4 < minimum
    → minimum ≤ 2 ^ 30
    → (k : ℕ) × (s : Ring) × (varchunk_new 64 (some r) minimum ≡ ok (some s))
      × (s.size ≡ 2 ^ k)
      × LeastPower minimum k
      × Valid s []
unfolding varchunk_new body_size varchunk_init
varchunk_new_lem r minimum large small =
    let (k, grown, least) =
      grow_lem 64 0 minimum (omega arith) (omega arith) (omega arith) (inl refl) in
    let bounded : 2 ^ k ≤ 2 ^ 31 = elim least.1 [
      | inl zeroth ↦ omega (arith, ap (λ n. 2 ^ n) zeroth)
      | inr less ↦ omega arith
    ] in
    (
      k,
      varchunk_init r (2 ^ k),
      ap (λ o. o >>= λ size. ok (some (varchunk_init r size))) grown,
      refl,
      least,
      varchunk_init-Valid r k (omega arith) bounded,
    )
