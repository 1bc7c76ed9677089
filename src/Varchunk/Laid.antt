-- ===== src/Varchunk/Laid.antt =====
-- The chunks that lie in the array: each behind the one before it, the last may come after a gap at the
-- end of the array.
use osc2ftdidmx.Base.{
  ℕ, ◌+◌, ◌-◌, ◌<◌, ◌≤◌, ◌≡◌, ◌⊎◌, inl, inr, ◌∙◌, sym, ap, refl, subst, List, [], ◌∷◌, ◌++◌, arith,
  length, ltb, if◌then◌else◌,
}
use osc2ftdidmx.Varchunk.{load_word, pad}
use osc2ftdidmx.Varchunk.Buffer.{bytes_at, bytes_at-same, load_word-same}

-- An index that may have gone over the end of the array once.
abbrev pub wrap : ℕ → ℕ → ℕ
wrap size i = if ltb i size then i else i - size

-- What a chunk takes, header and padding included.
abbrev pub extent : List ℕ → ℕ
extent c = 8 + pad (length c)

-- A chunk with its header at an index.
pub record Chunk (size : ℕ) (buf : ℕ → ℕ) (i : ℕ) (c : List ℕ) : Type 0 where
  pub inside : i + extent c ≤ size
  pub padded : length c ≤ pad (length c)
  pub chunk_size : load_word buf i ≡ length c
  pub gap : load_word buf (i + 4) ≡ 0
  pub body : bytes_at buf (i + 8) (length c) ≡ c

-- The chunk begins at `p`, or at 0 behind a gap that begins at `p`.
abbrev pub Begins : ℕ → (ℕ → ℕ) → ℕ → ℕ → ℕ → Type 0
Begins size buf p start skip =
    ((start ≡ p) × (skip ≡ 0))
    ⊎ ((start ≡ 0) × (skip ≡ size - p) × (p + 8 ≤ size) × (load_word buf (p + 4) ≡ 1))

-- In the `used` bytes from `p` on lie these chunks.
abbrev pub Laid : ℕ → (ℕ → ℕ) → ℕ → ℕ → List (List ℕ) → Type 0
Laid size buf p used [] = used ≡ 0
Laid size buf p used (c ∷ queue) =
    (start : ℕ) × (skip : ℕ) × Begins size buf p start skip
    × Chunk size buf start c
    × (skip + extent c ≤ used)
    × Laid size buf (wrap size (start + extent c)) (used - (skip + extent c)) queue

-- Going on behind a chunk is going on from where it was laid.
pub wrap-next :
    (size p start skip step more : ℕ) (buf : ℕ → ℕ)
    → Begins size buf p start skip
    → p < size
    → start + step ≤ size
    → 0 < step
    → skip + step + more < size
    → wrap size (wrap size (start + step) + more) ≡ wrap size (p + (skip + step + more))
wrap-next size p start skip step more buf begins h inside some_step room = ground arith

pub wrap-start :
    (size p start skip more : ℕ) (buf : ℕ → ℕ)
    → Begins size buf p start skip
    → p < size
    → start + more < size
    → start + more ≡ wrap size (p + (skip + more))
wrap-start size p start skip more buf begins h inside = ground arith

-- Only the bytes in use matter.
abbrev pub Same : ℕ → (ℕ → ℕ) → (ℕ → ℕ) → ℕ → ℕ → Type 0
Same size buf cur p used = (k : ℕ) → k < used → cur (wrap size (p + k)) ≡ buf (wrap size (p + k))

Same-range :
    (size : ℕ) (buf cur : ℕ → ℕ) (p used start skip first last : ℕ)
    → Begins size buf p start skip
    → p < size
    → start + last ≤ size
    → skip + last ≤ used
    → Same size buf cur p used
    → (j : ℕ) → start + first ≤ j
    → j < start + last
    → cur j ≡ buf j
Same-range size buf cur p used start skip first last begins h inside room same j low high =
    let k : ℕ = j - start in
    let place : wrap size (p + (skip + k)) ≡ j =
      sym (wrap-start size p start skip k buf begins h (omega arith)) ∙ omega arith in
    subst (λ i. cur i ≡ buf i) place (same (skip + k) (omega arith))

Chunk-Same :
    (size : ℕ) (buf cur : ℕ → ℕ) (p used start skip : ℕ) (c : List ℕ)
    → Begins size buf p start skip
    → p < size
    → skip + extent c ≤ used
    → Same size buf cur p used
    → Chunk size buf start c
    → Chunk size cur start c
Chunk-Same size buf cur p used start skip c begins h room same chunk =
    let within = λ (first last : ℕ) (short : last ≤ extent c).
      Same-range size buf cur p used start skip first last begins h (omega (arith, chunk.inside))
        (omega arith) same in
    record {
      inside = chunk.inside;
      padded = chunk.padded;
      chunk_size =
          load_word-same buf cur start (λ j low high. within 0 4 (omega arith) j (omega arith) high)
          ∙ chunk.chunk_size;
      gap =
          load_word-same buf cur (start + 4)
            (λ j low high. within 4 8 (omega arith) j low (omega arith))
          ∙ chunk.gap;
      body =
          bytes_at-same buf cur (start + 8) (length c) (λ j low high.
            within 8 (8 + length c) (omega (arith, chunk.padded)) j low (omega arith))
          ∙ chunk.body;
    }

Begins-Same :
    (size : ℕ) (buf cur : ℕ → ℕ) (p used start skip : ℕ)
    → Begins size buf p start skip
    → p < size
    → skip + 8 ≤ used
    → Same size buf cur p used
    → Begins size cur p start skip
Begins-Same size buf cur p used start skip (inl at) h room same = inl at
Begins-Same size buf cur p used start skip (inr (low, gap, inside, marked)) h room same = inr (
  low,
  gap,
  inside,
  load_word-same buf cur (p + 4) (λ j above below.
        Same-range size buf cur p used p 0 4 8 (inl (refl, refl)) h (omega arith) (omega arith) same
          j above (omega arith))
      ∙ marked,
)

pub Laid-Same :
    (queue : List (List ℕ)) (size : ℕ) (buf cur : ℕ → ℕ) (p used : ℕ)
    → p < size
    → used < size
    → Same size buf cur p used
    → Laid size buf p used queue
    → Laid size cur p used queue
Laid-Same [] size buf cur p used h full same laid = laid
Laid-Same (c ∷ queue) size buf cur p used h full same (start, skip, begins, chunk, room, rest) =
    let next : ℕ = wrap size (start + extent c) in
    let after : Same size buf cur next (used - (skip + extent c)) = λ k q.
      subst (λ i. cur i ≡ buf i)
        (sym (
          wrap-next size p start skip (extent c) k buf begins h chunk.inside (omega arith)
            (omega arith)))
        (same (skip + extent c + k) (omega arith)) in
    (
      start,
      skip,
      Begins-Same size buf cur p used start skip begins h (omega arith) same,
      Chunk-Same size buf cur p used start skip c begins h room same chunk,
      room,
      Laid-Same queue size buf cur next (used - (skip + extent c)) (ground (arith, chunk.inside))
          (omega arith) after rest,
    )

-- Chunks that are laid behind those in the array.
pub Laid-append :
    (queue more : List (List ℕ)) (size : ℕ) (buf : ℕ → ℕ) (p used extra : ℕ)
    → p < size
    → used + extra < size
    → Laid size buf p used queue
    → Laid size buf (wrap size (p + used)) extra more
    → Laid size buf p (used + extra) (queue ++ more)
Laid-append [] more size buf p used extra h full none_used laid =
    let none : used ≡ 0 = none_used in
    let at : wrap size (p + used) ≡ p = ground arith in
    let all : extra ≡ used + extra = omega arith in
    subst (λ n. Laid size buf p n more) all (subst (λ i. Laid size buf i extra more) at laid)
Laid-append (c ∷ queue) more size buf p used extra h full (start, skip, begins, chunk, room, rest)
      laid =
    let next : ℕ = wrap size (start + extent c) in
    let left : ℕ = used - (skip + extent c) in
    let whole : skip + extent c + left ≡ used = omega arith in
    let same_end : wrap size (next + left) ≡ wrap size (p + used) =
      wrap-next size p start skip (extent c) left buf begins h chunk.inside (omega arith)
        (omega arith)
      ∙ ap (λ n. wrap size (p + n)) whole in
    let sum : left + extra ≡ used + extra - (skip + extent c) = omega arith in
    (
      start,
      skip,
      begins,
      chunk,
      omega arith,
      subst (λ n. Laid size buf next n (queue ++ more)) sum
          (Laid-append queue more size buf next left extra (ground (arith, chunk.inside))
            (omega arith) rest (subst (λ i. Laid size buf i extra more) (sym same_end) laid)),
    )
