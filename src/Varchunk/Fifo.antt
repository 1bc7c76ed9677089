-- ===== src/Varchunk/Fifo.antt =====
-- In whatever order the two threads call, no call fails and no chunk is lost, changed or overtaken.
use osc2ftdidmx.Base.{
  ℕ, ◌+◌, ◌-◌, ◌^◌, ◌<◌, ◌≤◌, ◌≡◌, ◌⊎◌, List, [], ◌∷◌, ◌++◌, arith, length, ok, none, some, Outcome,
  Option,
}
use osc2ftdidmx.Varchunk.{Ring, pad, readable, load_word}
use osc2ftdidmx.Varchunk.Valid.{Valid, readable_lem}
use osc2ftdidmx.Varchunk.Write.{Pending}
use osc2ftdidmx.Varchunk.Sharing.{Session, Call, ask, pass_on, look, take_off}

-- The space that the writer was given is free.
abbrev pub SpaceOk : Ring → Option (ℕ × ℕ) → Type 0
SpaceOk r none = Unit
SpaceOk r (some (n, i)) =
    (n ≤ 2 ^ 31)
    × (n ≤ r.rsvd)
    × (((r.gapd ≡ 0) × (i ≡ r.head + 8) × (r.head + 8 + pad n ≤ r.size))
        ⊎ ((r.gapd ≡ r.size - r.head) × (0 < r.gapd) × (i ≡ 8)))
    × (readable r + r.gapd + 8 + pad n < r.size)

-- The chunk that the reader was given is the first of the queue.
abbrev pub ChunkOk : Ring → List (List ℕ) → Option (ℕ × ℕ) → Type 0
ChunkOk r queue none = Unit
ChunkOk r queue (some (n, i)) =
    (c : List ℕ) × (rest : List (List ℕ)) × (queue ≡ c ∷ rest)
    × (n ≡ length c)
    × (i ≡ r.tail + 8)
    × (load_word r.buf (r.tail + 4) ≡ 0)

-- What was taken and what lies in the buffer is what was sent, in order.
pub record Fair (s : Session) : Type 0 where
  pub queue : List (List ℕ)
  pub order : s.taken ++ queue ≡ s.sent
  pub valid : Valid s.ring queue
  pub space : SpaceOk s.ring s.space
  pub chunk : ChunkOk s.ring queue s.chunk

-- The space that the writer was given is of `n` bytes.
abbrev pub Given : ℕ → Option (ℕ × ℕ) → Type 0
Given n none = Unit
Given n (some (m, i)) = m ≡ n

abbrev Step : ℕ → Outcome Session → Type 0
Step n o = (t : Session) × (o ≡ ok t) × Fair t × Given n t.space

SpaceOk-Pending :
    (r : Ring) (queue : List (List ℕ)) (n i : ℕ)
    → Valid r queue
    → SpaceOk r (some (n, i))
    → Pending r queue n i
SpaceOk-Pending r queue n i v (short, reserved, place, room) = record {
  valid = v;
  short = short;
  reserved = reserved;
  place = place;
  room = omega (arith, readable_lem r queue v);
}

-- A request is for no more than 31 bits can say, and of a space of `n` bytes no more is passed on.
abbrev pub Within : ℕ → Call → Type 0
Within n (ask m) = m ≤ 2 ^ 31
Within n (pass_on c) = length c ≤ n
Within n look = Unit
Within n take_off = Unit

abbrev pub asked_last : ℕ → Call → ℕ
asked_last n (ask m) = m
asked_last n (pass_on c) = n
asked_last n look = n
asked_last n take_off = n

abbrev pub AllWithin : ℕ → List Call → Type 0
AllWithin n [] = Unit
AllWithin n (a ∷ rest) = Within n a × AllWithin (asked_last n a) rest
