-- ===== src/Varchunk/Sharing.antt =====
-- The two threads that share a ring buffer: their calls in any order.
use osc2ftdidmx.Base.{ℕ, List, [], ◌∷◌, ◌++◌, length, ok, none, some, Outcome, ◌>>=◌, Option}
use osc2ftdidmx.Varchunk.{Ring, read_request, read_advance, write_request_max, write_advance, store}
use osc2ftdidmx.Varchunk.Buffer.{bytes_at}

-- The writer asks for space of `n` bytes, or fills the space that it was given and passes it on; the reader
-- asks for a chunk, or takes its bytes and passes it back.
pub data Call : Type 0 where
  ask : ℕ → Call
  pass_on : List ℕ → Call
  look : Call
  take_off : Call

-- The ring, the space that the writer was given (its size and index), the chunk that the reader was given
-- (its size and index), and the logs of what was passed on and what was taken.
pub record Session : Type 0 where
  pub ring : Ring
  pub space : Option (ℕ × ℕ)
  pub chunk : Option (ℕ × ℕ)
  pub sent : List (List ℕ)
  pub taken : List (List ℕ)

abbrev with_size : ℕ → Option ℕ → Option (ℕ × ℕ)
with_size n none = none
with_size n (some i) = some (n, i)

-- A writer that was given no space passes nothing on: it calls `varchunk_write_advance` only under
-- `if((ptr = varchunk_write_request(...)))`.
abbrev pub fill_space : Session → List ℕ → Option (ℕ × ℕ) → Outcome Session
fill_space s c none = ok s
fill_space s c (some (n, i)) = store s.ring i c >>= λ r. write_advance r (length c) >>= λ u.
    ok (record s { ring = u; space = none; sent = s.sent ++ (c ∷ []) })

abbrev pub take_chunk : Session → Option (ℕ × ℕ) → Outcome Session
take_chunk s none = ok s
take_chunk s (some (n, i)) = read_advance s.ring >>= λ r.
    ok (record s { ring = r; chunk = none; taken = s.taken ++ (bytes_at s.ring.buf i n ∷ []) })

unfoldable pub call : Session → Call → Outcome Session
call s (ask n) =
    let got = write_request_max s.ring n in
    ok (record s { ring = got.0; space = with_size n got.1 })
call s (pass_on c) = fill_space s c s.space
call s look = read_request s.ring >>= λ got. ok (record s { ring = got.0; chunk = got.1 })
call s take_off = take_chunk s s.chunk

unfoldable pub calls : Session → List Call → Outcome Session
calls s [] = ok s
calls s (a ∷ rest) = call s a >>= λ t. calls t rest
