-- ===== src/Tests/Frames.antt =====
-- SLIP frames: runs, and the theorems at packets with bytes to escape.
use osc2ftdidmx.Base.{ℕ, ◌≡◌, refl, Bool, true, List, [], ◌∷◌, ◌++◌, arith, length, ok}
use osc2ftdidmx.Slip.{
  escaped, escape_all, specials, slip_encode, slip_decode, decode_from, dispatch,
}
use osc2ftdidmx.Slip.RoundTrip.{slip_decode-slip_encode}

abbrev packet : List ℕ
packet = 1 ∷ 192 ∷ 2 ∷ 219 ∷ []

test_slip_encode : slip_encode packet ≡ 192 ∷ 1 ∷ 219 ∷ 220 ∷ 2 ∷ 219 ∷ 221 ∷ 192 ∷ []
unfolding slip_encode escape_all specials escaped
test_slip_encode = refl

test_no_mark :
    slip_decode (1 ∷ 2 ∷ 192 ∷ 3 ∷ []) ≡ record { parsed = 3; size = 0; written = 1 ∷ 2 ∷ [] }
unfolding slip_decode decode_from
test_no_mark = refl

slip_decode-slip_encode_example :
    slip_decode (slip_encode packet ++ (7 ∷ []))
    ≡ record { parsed = length (slip_encode packet); size = 4; written = packet }
slip_decode-slip_encode_example = slip_decode-slip_encode packet (7 ∷ []) (omega arith)

abbrev always : ℕ → Bool
always n = true

-- The begin of a frame is decoded in place and loses the mark in front: its packet never arrives.
test_begin : dispatch always 2 (192 ∷ 1 ∷ 2 ∷ []) ≡ ok ([], 1 ∷ 2 ∷ 2 ∷ [])
unfolding dispatch slip_decode decode_from
test_begin = refl

test_begin_and_end : dispatch always 2 (1 ∷ 2 ∷ 2 ∷ 3 ∷ 192 ∷ []) ≡ ok ([], [])
unfolding dispatch slip_decode decode_from
test_begin_and_end = refl

abbrev two_packets : List (List ℕ)
two_packets = packet ∷ (5 ∷ 6 ∷ []) ∷ []
