-- ===== src/Slip.antt =====
-- The SLIP frames of osc.lv2/osc.lv2/stream.h around packets on a TCP stream. Both functions work in place;
-- the decoder writes behind what it reads and the encoder goes from the back, so that no byte is
-- overwritten before it is read.
pub mod RoundTrip
use osc2ftdidmx.Base.{
  ℕ, zero, suc, ◌+◌, ◌-◌, Bool, true, false, Option, none, some, List, [], ◌∷◌, ◌++◌, ◌==◌,
  if◌then◌else◌, length, take, drop, Outcome, ok, no_fuel, ◌>>=◌,
}

abbrev pub slip_end : ℕ
slip_end = 192

abbrev pub slip_esc : ℕ
slip_esc = 219

abbrev pub slip_end_replace : ℕ
slip_end_replace = 220

abbrev pub slip_esc_replace : ℕ
slip_esc_replace = 221

-- How many bytes need an escape.
unfoldable pub specials : List ℕ → ℕ
specials [] = 0
specials (c ∷ cs) =
    if c == slip_end
    then specials cs + 1
    else if c == slip_esc
    then specials cs + 1
    else specials cs

unfoldable pub escaped : ℕ → List ℕ
escaped c =
    if c == slip_end
    then slip_esc ∷ slip_end_replace ∷ []
    else if c == slip_esc
    then slip_esc ∷ slip_esc_replace ∷ []
    else c ∷ []

-- The loop from the last byte to the first, behind which the end of the frame stands.
unfoldable pub escape_all : List ℕ → List ℕ
unfolding escaped
escape_all [] = slip_end ∷ []
escape_all (c ∷ cs) = escaped c ++ escape_all cs

-- `lv2_osc_slip_encode_inline`: the bytes of the frame.
unfoldable pub slip_encode : List ℕ → List ℕ
unfolding escape_all specials
slip_encode [] = []
slip_encode (c ∷ cs) =
    let size = 2 + length (c ∷ cs) + specials (c ∷ cs) in
    if size == length (c ∷ cs) + 2
    then slip_end ∷ ((c ∷ cs) ++ (slip_end ∷ []))
    else slip_end ∷ escape_all (c ∷ cs)

unfoldable pub replaced : ℕ → List ℕ
replaced c =
    if c == slip_end_replace
    then slip_end ∷ []
    else if c == slip_esc_replace
    then slip_esc ∷ []
    else []

abbrev pub one_more : Option ℕ → Option ℕ
one_more none = none
one_more (some parsed) = some (parsed + 1)

abbrev pub read_one : List ℕ → Option ℕ × List ℕ → Option ℕ × List ℕ
read_one written (parsed, more) = (one_more parsed, written ++ more)

-- The loop of the decoder, with whether an escape was read before: how many bytes it reads, or `none` when
-- they run out before the end of a frame, and what it writes.
unfoldable pub decode_from : Bool → List ℕ → Option ℕ × List ℕ
unfolding replaced
decode_from escape [] = (none, [])
decode_from true (c ∷ cs) = read_one (replaced c) (decode_from false cs)
decode_from false (c ∷ cs) =
    let after_escape = read_one [] (decode_from true cs) in
    let as_it_is = read_one (c ∷ []) (decode_from false cs) in
    if c == slip_esc then after_escape else if c == slip_end then (some 1, []) else as_it_is

-- What the decoder returns, stores in `*size`, and has written from the front of the bytes on.
pub record Decoded : Type 0 where
  pub parsed : ℕ
  pub size : ℕ
  pub written : List ℕ

-- A frame with no mark in front is read and gives nothing.
abbrev pub finish : Bool → ℕ → Option ℕ × List ℕ → Decoded
finish whole skipped (none, written) = record { parsed = 0; size = 0; written = written }
finish whole skipped (some n, written) = record {
  parsed = skipped + n;
  size = if whole then length written else 0;
  written = written;
}

-- `lv2_osc_slip_decode_inline`
unfoldable pub slip_decode : List ℕ → Decoded
unfolding decode_from
slip_decode [] = record { parsed = 0; size = 0; written = [] }
slip_decode (c ∷ cs) =
    if c == slip_end
    then finish true 1 (decode_from false cs)
    else finish false 0 (decode_from false (c ∷ cs))

-- The bytes after they were decoded in place.
abbrev pub overwritten : List ℕ → List ℕ → List ℕ
overwritten written bytes = written ++ drop (length written) bytes

-- The loop of `_lv2_osc_stream_run_tcp` over the bytes received: the packets passed on, and the bytes that
-- are kept for the next call. `write_ok` says for a size whether the driver gives space; each turn takes fuel.
module _ (write_ok : ℕ → Bool) where
  unfoldable pub dispatch : ℕ → List ℕ → Outcome (List (List ℕ) × List ℕ)
  unfolding slip_decode
  dispatch zero bytes = no_fuel
  dispatch (suc fuel) [] = ok ([], [])
  dispatch (suc fuel) (c ∷ cs) =
      let d = slip_decode (c ∷ cs) in
      let after = overwritten d.written (c ∷ cs) in
      let rest = dispatch fuel (drop d.parsed after) in
      let passed = rest >>= λ more. ok (take d.size after ∷ more.0, more.1) in
      let kept = ok ([], after) in
      if d.size == 0
      then (if d.parsed == 0 then kept else rest)
      else (if write_ok d.size then passed else kept)
