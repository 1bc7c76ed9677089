-- ===== src/Varchunk/Valid.antt =====
-- When a ring buffer holds a queue of chunks, and what its functions compute of the two indices.
use osc2ftdidmx.Base.{
  ℕ, ◌+◌, ◌-◌, ◌*◌, ◌/◌, ◌%◌, ◌^◌, ◌<◌, ◌≤◌, ◌≡◌, inl, inr, ◌∙◌, ap, List, arith, ltb, bit_and,
  bit_and_mask-lt, bit_and_mask-ge, Bool-cases,
}
use osc2ftdidmx.Varchunk.{Ring, pad, sub_size, writable, readable}
use osc2ftdidmx.Varchunk.Laid.{wrap, Laid}

-- The size is a power of two and a multiple of eight, of 31 bits; the indices are multiples of eight inside
-- the array; and in the bytes between them lie the chunks of the queue.
pub record Valid (r : Ring) (queue : List (List ℕ)) : Type 0 where
  pub log : ℕ
  pub power : r.size ≡ 2 ^ log
  pub eight : r.size % 8 ≡ 0
  pub small : r.size ≤ 2 ^ 31
  pub mask : r.mask ≡ r.size - 1
  pub used : ℕ
  pub not_full : used < r.size
  pub aligned : (r.tail % 8 ≡ 0) × (used % 8 ≡ 0)
  pub tail_inside : r.tail < r.size
  pub head_at : r.head ≡ wrap r.size (r.tail + used)
  pub laid : Laid r.size r.buf r.tail used queue

pub pad_lem : (n : ℕ) → n ≤ 2 ^ 31 → pad n ≡ (n + 7) / 8 * 8
unfolding pad
pad_lem n h = omega arith

pub sub_size_lem : (a b : ℕ) → a < 2 ^ 64 → b ≤ a → sub_size a b ≡ a - b
unfolding sub_size
sub_size_lem a b h q = omega arith

module _ (r : Ring) (queue : List (List ℕ)) (v : Valid r queue) where
  pub masked : (n : ℕ) → n < 2 * r.size → bit_and (n % 2 ^ 64) r.mask ≡ wrap r.size n
  masked n h =
      let whole : n % 2 ^ 64 ≡ n = omega (arith, v.small) in
      let low : r.mask ≡ 2 ^ v.log - 1 = omega (arith, v.mask, v.power) in
      rw (whole, low)
        (elim (Bool-cases (ltb n r.size)) [
          | inl lt ↦ rw lt (bit_and_mask-lt v.log n (ground (arith, v.power, lt)))
          | inr ge ↦ rw ge (
              bit_and_mask-ge v.log n (ground (arith, v.power, ge)) (omega (arith, v.power))
              ∙ omega (arith, v.power))
        ])

  pub head_inside : r.head < r.size
  head_inside = ground (arith, v.head_at, v.tail_inside, v.not_full)

  -- The difference of the indices, as `size_t` wraps and the mask cuts.
  forward :
      r.tail < r.head
      → bit_and ((sub_size r.tail r.head + r.size) % 2 ^ 64) r.mask ≡ r.size - (r.head - r.tail)
  unfolding sub_size
  forward h =
      let m : ℕ = r.size - (r.head - r.tail) in
      let cut : ((r.tail + 2 ^ 64 - r.head) % 2 ^ 64 + r.size) % 2 ^ 64 ≡ m % 2 ^ 64 =
        omega (arith, v.small, head_inside) in
      ap (λ n. bit_and n r.mask) cut ∙ masked m (omega arith) ∙ ground (arith, head_inside)

  backward :
      r.head ≤ r.tail
      → bit_and ((sub_size r.head r.tail + r.size) % 2 ^ 64) r.mask
        ≡ wrap r.size (r.size - (r.tail - r.head))
  unfolding sub_size
  backward h =
      let m : ℕ = r.size - (r.tail - r.head) in
      let cut : ((r.head + 2 ^ 64 - r.tail) % 2 ^ 64 + r.size) % 2 ^ 64 ≡ m % 2 ^ 64 =
        omega (arith, v.small, v.tail_inside) in
      ap (λ n. bit_and n r.mask) cut ∙ masked m (omega (arith, v.tail_inside))

  pub writable_lem : writable r ≡ r.size - 1 - v.used
  unfolding writable
  writable_lem = elim (Bool-cases (ltb r.tail r.head)) [
    | inl lt ↦
        let h : r.tail < r.head = ground (arith, lt) in
        rw (lt, forward h)
          (sub_size_lem (r.size - (r.head - r.tail)) 1 (omega (arith, v.small))
              (omega (arith, head_inside))
            ∙ ground (arith, v.head_at, v.tail_inside, v.not_full))
    | inr ge ↦ rw ge (elim (Bool-cases (ltb r.head r.tail)) [
      | inl lt ↦
          let h : r.head < r.tail = ground (arith, lt) in
          rw (lt, sub_size_lem r.tail r.head (omega (arith, v.small, v.tail_inside)) (omega arith))
            (sub_size_lem (r.tail - r.head) 1 (omega (arith, v.small, v.tail_inside)) (omega arith)
              ∙ ground (arith, v.head_at, v.tail_inside, v.not_full))
      | inr both ↦ rw both (
          sub_size_lem r.size 1 (omega (arith, v.small)) (omega (arith, v.not_full))
          ∙ ground (arith, v.head_at, v.tail_inside, v.not_full, ge, both))
    ])
  ]

  pub readable_lem : readable r ≡ v.used
  unfolding readable
  readable_lem = elim (Bool-cases (ltb r.tail r.head)) [
    | inl lt ↦
        let h : r.tail < r.head = ground (arith, lt) in
        rw lt (
          sub_size_lem r.head r.tail (omega (arith, v.small, head_inside)) (omega arith)
          ∙ ground (arith, v.head_at, v.tail_inside, v.not_full))
    | inr ge ↦
        let h : r.head ≤ r.tail = ground (arith, ge) in
        rw (ge, backward h) (ground (arith, v.head_at, v.tail_inside, v.not_full))
  ]
