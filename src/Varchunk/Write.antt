-- ===== src/Varchunk/Write.antt =====
-- Requests for space and the chunks that are written into it.
use osc2ftdidmx.Base.{
  ℕ, ◌+◌, ◌-◌, ◌*◌, ◌%◌, ◌^◌, ◌<◌, ◌≤◌, ◌≡◌, ◌⊎◌, inl, inr, ◌∙◌, ap, refl, List, arith, ltb,
  bit_and, none, some, Bool-cases, Option,
}
use osc2ftdidmx.Varchunk.{Ring, pad, sub_size, writable, readable, reserve, write_request_max}
use osc2ftdidmx.Varchunk.Laid.{wrap}
use osc2ftdidmx.Varchunk.Valid.{
  Valid, pad_lem, sub_size_lem, masked, writable_lem, readable_lem, head_inside,
}

-- The buffer holds the queue, and from `i` on there is space for a chunk of `n` bytes.
pub record Pending (r : Ring) (queue : List (List ℕ)) (n i : ℕ) : Type 0 where
  pub valid : Valid r queue
  pub short : n ≤ 2 ^ 31
  pub reserved : n ≤ r.rsvd
  pub place :
      ((r.gapd ≡ 0) × (i ≡ r.head + 8) × (r.head + 8 + pad n ≤ r.size))
      ⊎ ((r.gapd ≡ r.size - r.head) × (0 < r.gapd) × (i ≡ 8))
  pub room : valid.used + r.gapd + 8 + pad n < r.size

-- What was reserved before is of no matter.
pub reserve-Valid :
    (r : Ring) (queue : List (List ℕ)) (rsvd gapd : ℕ)
    → Valid r queue
    → Valid (reserve r rsvd gapd) queue
reserve-Valid r queue rsvd gapd v = record {
  log = v.log;
  power = v.power;
  eight = v.eight;
  small = v.small;
  mask = v.mask;
  used = v.used;
  not_full = v.not_full;
  aligned = v.aligned;
  tail_inside = v.tail_inside;
  head_at = v.head_at;
  laid = v.laid;
}

-- What a request returns: no space, when less than twice what it takes is free, or space for as many bytes
-- as it asked for.
abbrev pub Requested : Ring → List (List ℕ) → ℕ → Ring × Option ℕ → Type 0
Requested r queue n (s, none) = (s ≡ reserve r 0 0) × (r.size < readable r + 2 * (16 + pad n))
Requested r queue n (s, some i) = Pending s queue n i × (s ≡ reserve r s.rsvd s.gapd)

module _ (r : Ring) (queue : List (List ℕ)) (n : ℕ) (v : Valid r queue) (short : n ≤ 2 ^ 31) where
  abbrev space : ℕ
  space = r.size - 1 - v.used

  here-Pending :
      (rsvd : ℕ)
      → 16 + pad n ≤ rsvd
      → rsvd ≤ space
      → r.head + 8 + pad n ≤ r.size
      → Pending (reserve r rsvd 0) queue n (r.head + 8)
  unfolding reserve-Valid
  here-Pending rsvd enough below inside = record {
    valid = reserve-Valid r queue rsvd 0 v;
    short = short;
    reserved = omega (arith, pad_lem n short);
    place = inl (refl, refl, inside);
    room = omega (arith, v.not_full);
  }

  behind_gap-Pending :
      (rsvd : ℕ)
      → 16 + pad n ≤ rsvd
      → rsvd + (r.size - r.head) ≡ space
      → Pending (reserve r rsvd (r.size - r.head)) queue n 8
  unfolding reserve-Valid
  behind_gap-Pending rsvd enough all = record {
    valid = reserve-Valid r queue rsvd (r.size - r.head) v;
    short = short;
    reserved = omega (arith, pad_lem n short);
    place = inr (refl, omega (arith, head_inside r queue v), refl);
    room = omega (arith, v.not_full);
  }

  -- Let a ring buffer hold a queue, and let a request be for no more than 2 ^ 31 bytes. Then either
  -- `varchunk_write_request_max` returns null, reserves nothing, and fewer bytes are free than twice the sum of
  -- sixteen and that number, rounded up to a multiple of eight; or from the index that it returns on there is space for the chunk, inside the array
  -- and apart from the chunks of the queue, which stay as they are.
  pub write_request_max_lem : Requested r queue n (write_request_max r n)
  unfolding write_request_max
  write_request_max_lem =
      let inside = head_inside r queue v in
      let free = writable_lem r queue v in
      let taken = readable_lem r queue v in
      let end : (r.head + writable r) % 2 ^ 64 ≡ r.head + space =
        omega (arith, free, v.small, inside) in
      let len1 : sub_size r.size r.head ≡ r.size - r.head =
        sub_size_lem r.size r.head (omega (arith, v.small)) (omega arith) in
      let len2 : bit_and ((r.head + writable r) % 2 ^ 64) r.mask ≡ wrap r.size (r.head + space) =
        masked r queue v (r.head + writable r) (omega (arith, free))
        ∙ ap (λ k. wrap r.size (r.head + k)) free in
      rw (len2, end, len1, free)
        (elim (Bool-cases (ltb r.size (r.head + space))) [
          | inl over ↦ rw over (elim (Bool-cases (ltb (r.size - r.head) (16 + pad n))) [
            | inl short1 ↦
                rw short1 (elim (Bool-cases (ltb (wrap r.size (r.head + space)) (16 + pad n))) [
                  | inl short2 ↦ rw short2 (refl, ground (arith, over, short1, short2, taken))
                  | inr fits ↦ rw fits (
                    behind_gap-Pending (wrap r.size (r.head + space)) (ground (arith, fits))
                        (ground (arith, over)),
                    refl,
                  )
                ])
            | inr fits ↦ rw fits (
              here-Pending (r.size - r.head) (ground (arith, fits)) (ground (arith, over))
                  (ground (arith, fits)),
              refl,
            )
          ])
          | inr inner ↦ rw inner (elim (Bool-cases (ltb space (16 + pad n))) [
            | inl short ↦ rw short (refl, ground (arith, inner, short, taken))
            | inr fits ↦ rw fits (
              here-Pending space (ground (arith, fits)) (omega arith) (ground (arith, fits, inner)),
              refl,
            )
          ])
        ])

  -- No more is reserved than the array has.
  pub write_request_max-reserved : (write_request_max r n).0.rsvd ≤ r.size
  unfolding write_request_max
  write_request_max-reserved =
      let inside = head_inside r queue v in
      let free = writable_lem r queue v in
      let end : (r.head + writable r) % 2 ^ 64 ≡ r.head + space =
        omega (arith, free, v.small, inside) in
      let len1 : sub_size r.size r.head ≡ r.size - r.head =
        sub_size_lem r.size r.head (omega (arith, v.small)) (omega arith) in
      let len2 : bit_and ((r.head + writable r) % 2 ^ 64) r.mask ≡ wrap r.size (r.head + space) =
        masked r queue v (r.head + writable r) (omega (arith, free))
        ∙ ap (λ k. wrap r.size (r.head + k)) free in
      let small : wrap r.size (r.head + space) ≤ r.size = ground (arith, inside) in
      rw (len2, end, len1, free) (ground (arith, small))
