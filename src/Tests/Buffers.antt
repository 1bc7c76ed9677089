-- ===== src/Tests/Buffers.antt =====
-- Ring buffers: runs with wraps and gaps, and the theorems at such buffers.
use osc2ftdidmx.Base.{
  ℕ, ◌^◌, ◌≡◌, inl, refl, none, some, List, [], ◌∷◌, ◌++◌, arith, map, codes, ok, ◌>>=◌,
}
use osc2ftdidmx.Osc.Wire.Bundle.{OscPacket, message, encode}
use osc2ftdidmx.Beat.Bytes.{QueueFits}
use osc2ftdidmx.Beat.Ring.{alone}
use osc2ftdidmx.Varchunk.{
  Ring, varchunk_new, varchunk_init, write_request_max, write_advance, read_request, read_advance,
  store, patch, sub_size, pad,
}
use osc2ftdidmx.Varchunk.Buffer.{header_bytes}
use osc2ftdidmx.Varchunk.Valid.{Valid}
use osc2ftdidmx.Varchunk.Write.{Requested, write_request_max_lem}
use osc2ftdidmx.Varchunk.New.{LeastPower, varchunk_new_lem, varchunk_init-Valid}
use osc2ftdidmx.Varchunk.Sharing.{Session, Call, ask, pass_on, look, take_off, call, calls}
use osc2ftdidmx.Tests.Toy.{same}
use osc2ftdidmx.Tests.Wire.{malloc_ok}

abbrev pub memory : Ring
memory = record { size = 0; mask = 0; rsvd = 0; gapd = 0; head = 0; tail = 0; buf = λ i. 0 }

varchunk_new_lem_example :
    (k : ℕ) × (s : Ring) × (varchunk_new 64 (some memory) 8192 ≡ ok (some s))
    × (s.size ≡ 2 ^ k)
    × LeastPower 8192 k
    × Valid s []
varchunk_new_lem_example = varchunk_new_lem memory 8192 (omega arith) (omega arith)

abbrev sixty_four : Ring
sixty_four = record { size = 64; mask = 63; rsvd = 0; gapd = 0; head = 0; tail = 0; buf = λ i. 0 }

sixty_four-Valid : Valid sixty_four []
unfolding varchunk_init sub_size
sixty_four-Valid = varchunk_init-Valid memory 6 (omega arith) (omega arith)

write_request_max_lem_example : Requested sixty_four [] 5 (write_request_max sixty_four 5)
write_request_max_lem_example = write_request_max_lem sixty_four [] 5 sixty_four-Valid (omega arith)

abbrev session : Session
session = record { ring = sixty_four; space = none; chunk = none; sent = []; taken = [] }

-- Three chunks go through, the fourth comes after a gap, the fifth finds no space.
abbrev many_calls : List Call
many_calls =
    ask 8
    ∷ pass_on (1 ∷ 2 ∷ [])
    ∷ look
    ∷ take_off
    ∷ ask 8
    ∷ pass_on (3 ∷ [])
    ∷ ask 8
    ∷ pass_on (4 ∷ [])
    ∷ look
    ∷ take_off
    ∷ look
    ∷ ask 8
    ∷ pass_on (5 ∷ 6 ∷ 7 ∷ 8 ∷ 9 ∷ 10 ∷ 11 ∷ 12 ∷ [])
    ∷ ask 8
    ∷ pass_on (0 ∷ [])
    ∷ take_off
    ∷ look
    ∷ take_off
    ∷ look
    ∷ take_off
    ∷ []

abbrev outcome : Session → List (List ℕ) × ℕ
outcome t = (t.taken, t.ring.tail)

test_many_calls :
    (calls session many_calls >>= λ t. ok (outcome t))
    ≡ ok (((1 ∷ 2 ∷ []) ∷ (3 ∷ []) ∷ (4 ∷ []) ∷ (5 ∷ 6 ∷ 7 ∷ 8 ∷ 9 ∷ 10 ∷ 11 ∷ 12 ∷ []) ∷ []), 16)
unfolding calls call write_request_max write_advance read_request read_advance store
test_many_calls = refl

abbrev pub packet : OscPacket
packet = message (codes "/dmx/4/1") []

abbrev bytes : ℕ → ℕ
bytes = patch 0 (header_bytes 0 16 0 (λ i. 0) ++ encode packet) (λ i. 0)

abbrev pub filled : Ring
filled = record { size = 64; mask = 63; rsvd = 0; gapd = 0; head = 24; tail = 0; buf = bytes }

pub filled-Valid : Valid filled (encode packet ∷ [])
unfolding pad
filled-Valid = record {
  log = 6;
  power = refl;
  eight = refl;
  small = omega arith;
  mask = refl;
  used = 24;
  not_full = omega arith;
  aligned = (refl, refl);
  tail_inside = omega arith;
  head_at = refl;
  laid = (
    0,
    0,
    inl (refl, refl),
    record {
      inside = omega arith;
      padded = omega arith;
      chunk_size = refl;
      gap = refl;
      body = refl;
    },
    omega arith,
    refl,
  );
}

pub packet-QueueFits : QueueFits 4096 same malloc_ok (map alone (packet ∷ []))
packet-QueueFits = (((codes "dmx/4/1", refl), ground arith, tt), refl, omega arith, tt)
