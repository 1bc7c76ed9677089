-- ===== src/Stream/Udp/Overflow.antt =====
-- A datagram that is longer than the array has space for.
use osc2ftdidmx.Base.{
  ℕ, ◌+◌, ◌*◌, ◌-◌, ◌%◌, ◌^◌, ◌≤◌, ◌≡◌, ◌∙◌, refl, false, none, some, List, [], ◌∷◌, take, length,
  arith, fault, ltb, leb, length-take,
}
use osc2ftdidmx.Varchunk.{Ring, pad, writable, reserve, write_request_max, store}
use osc2ftdidmx.Varchunk.Valid.{Valid, pad_lem, writable_lem}
use osc2ftdidmx.Stream.{reqbuf, Sent, Net}
use osc2ftdidmx.Stream.Udp.{Received, datagram, recv_all, run_udp}

-- In an empty buffer at the start of the array the maximum is one byte short of the array.
request-start :
    (r : Ring)
    → Valid r []
    → r.head ≡ 0
    → 2048 ≤ r.size
    → write_request_max r reqbuf ≡ (reserve r (r.size - 1) 0, some 8)
unfolding write_request_max
request-start r v start large =
    let free : writable r ≡ r.size - 1 = writable_lem r [] v ∙ omega (arith, v.laid) in
    let end : (r.head + writable r) % 2 ^ 64 ≡ r.size - 1 = omega (arith, free, v.small) in
    let inside : ltb r.size (r.size - 1) ≡ false = ground arith in
    let padded = pad_lem reqbuf (omega arith) in
    let enough : ltb (r.size - 1) (2 * 8 + pad reqbuf) ≡ false = ground arith in
    let index : r.head + 8 ≡ 8 = omega arith in rw (end, free, inside, enough, index) refl

-- Let the ring buffer be empty, with an array of at least 2048 bytes and its head at the start of the array,
-- and let a stream with no peer find a datagram that is seven bytes shorter than the array, or longer. Then `_lv2_osc_stream_run_udp` has it stored
-- past the end of the array.
pub run_udp-overflow :
    (sends : List Sent) (net : Net) (from : ℕ) (bytes : List ℕ) (answers : List Received)
    → Valid net.rx []
    → net.rx.head ≡ 0
    → 2048 ≤ net.rx.size
    → net.peer ≡ none
    → net.rx.size ≤ length bytes + 7
    → run_udp sends (datagram from bytes ∷ answers) net ≡ fault
unfolding run_udp recv_all store
run_udp-overflow sends net from [] answers v start large alone long = absurd (omega arith)
run_udp-overflow sends net from (b ∷ bytes) answers v start large alone long =
    let c : List ℕ = b ∷ bytes in
    let past : leb (8 + length (take (net.rx.size - 1) c)) net.rx.size ≡ false =
      ground (arith, length-take (net.rx.size - 1) c) in
    rw (alone, request-start net.rx v start large, past) refl
