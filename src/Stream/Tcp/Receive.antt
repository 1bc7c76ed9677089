-- ===== src/Stream/Tcp/Receive.antt =====
-- SLIP frames that arrive on a connection: their packets lie in the ring buffer, in order.
use mathlib.Core.List.{append_assoc, append-nil}
use osc2ftdidmx.Base.{
  ℕ, zero, suc, ◌+◌, ◌*◌, ◌^◌, ◌<◌, ◌≤◌, ◌≡◌, ◌⊎◌, inl, inr, ◌∙◌, sym, ap, refl, subst, true, false,
  Option, none, some, List, [], ◌∷◌, ◌++◌, ◌==◌, take, drop, length, arith, Outcome, ok,
}
use osc2ftdidmx.Varchunk.{Ring, pad, readable, write_request_max}
use osc2ftdidmx.Varchunk.Valid.{Valid}
use osc2ftdidmx.Varchunk.Write.{Requested, write_request_max_lem}
use osc2ftdidmx.Varchunk.Commit.{write_advance_lem}
use osc2ftdidmx.Slip.{slip_encode, slip_decode, Decoded, overwritten}
use osc2ftdidmx.Slip.RoundTrip.{frames, slip_decode-slip_encode, take-append, behind, fits}
use osc2ftdidmx.Stream.{Event, with_errno, Net, write_req}
use osc2ftdidmx.Stream.Udp.Queue.{requested-Valid, readable-reserve}
use osc2ftdidmx.Stream.Tcp.{enomem, pass_frame, frames_in}

-- Packets have at least one byte, and at most 2^31.
abbrev pub Framed : List (List ℕ) → Type 0
Framed [] = Unit
Framed (p ∷ packets) = (0 < length p) × (length p ≤ 2 ^ 31) × Framed packets

-- Bytes are kept just when the ring buffer has no space for a packet, whose frame is then overwritten.
abbrev pub Ends : List (List ℕ) → Ring → List ℕ → Type 0
Ends left rx kept =
    ((left ≡ []) × (kept ≡ []))
    ⊎ ((p : List ℕ) × (ps : List (List ℕ)) × (left ≡ p ∷ ps)
        × (rx.size < readable rx + 2 * (16 + pad (length p)))
        × (kept ≡ overwritten p (frames (p ∷ ps))))

abbrev pub TookFrames :
    List (List ℕ) → Net → List (List ℕ) → Outcome (Net × Event × List ℕ) → Type 0
TookFrames packets net queue o =
    (next : Net) × (ev : Event) × (kept : List ℕ) × (taken : List (List ℕ)) × (left : List (List ℕ))
    × (o ≡ ok (next, ev, kept))
    × (packets ≡ taken ++ left)
    × Valid next.rx (queue ++ taken)
    × Ends left next.rx kept
    × (next.tx ≡ net.tx)
    × (next.output ≡ net.output)

-- A turn that finds a packet.
frames_in-step :
    (bytes packet : List ℕ) (parsed fuel : ℕ) (net : Net) (ev : Event)
    → slip_decode bytes ≡ record { parsed = parsed; size = length packet; written = packet }
    → 0 < length packet
    → frames_in (suc fuel) bytes net ev
      ≡ pass_frame
          (frames_in fuel (drop parsed (overwritten packet bytes)))
          (take (length packet) (overwritten packet bytes))
          (overwritten packet bytes)
          net
          ev
          (write_req net (length packet))
unfolding frames_in slip_decode
frames_in-step [] packet parsed fuel net ev e some_byte =
    absurd (omega (arith, ap (λ (d : Decoded). d.size) e))
frames_in-step (c ∷ cs) packet parsed fuel net ev e some_byte =
    let not_none : (length packet == 0) ≡ false = ground arith in rw (e, not_none) refl

module _ (packet : List ℕ) (packets : List (List ℕ)) (short : length packet ≤ 2 ^ 31)
    (again : Net → Event → Outcome (Net × Event × List ℕ))
    (takes : (net : Net) (ev : Event) (queue : List (List ℕ))
      → Valid net.rx queue
      → TookFrames packets net queue (again net ev)) where
  pass_frame-Took :
      (net : Net) (ev : Event) (queue : List (List ℕ)) (got : Ring × Option ℕ)
      → Valid net.rx queue
      → Requested net.rx queue (length packet) got
      → TookFrames
          (packet ∷ packets)
          net
          queue
          (pass_frame again packet (overwritten packet (frames (packet ∷ packets))) net ev got)
  pass_frame-Took net ev queue (r, none) v (at, full) = (
    record net { rx = r },
    with_errno ev enomem,
    overwritten packet (frames (packet ∷ packets)),
    [],
    packet ∷ packets,
    refl,
    refl,
    subst (Valid r) (sym (append-nil queue))
        (requested-Valid net.rx queue (length packet) (r, none) v (at, full)),
    inr (
      packet,
      packets,
      refl,
      subst (λ q. q.size < readable q + 2 * (16 + pad (length packet))) (sym at)
          (subst (λ k. net.rx.size < k + 2 * (16 + pad (length packet)))
            (sym (readable-reserve net.rx)) full),
      refl,
    ),
    refl,
    refl,
  )
  pass_frame-Took net ev queue (r, some i) v (p, at) =
      let (s, u, stored, passed, valid, grown) =
        write_advance_lem r queue (length packet) i packet p (omega arith) in
      let (next, more_ev, kept, taken, left, returns, split, holds, ends, tx, output) =
        takes (record net { rx = u }) (record ev { recv = true }) (queue ++ (packet ∷ [])) valid in
      (
        next,
        more_ev,
        kept,
        packet ∷ taken,
        left,
        rw (stored, passed) returns,
        ap (λ t. packet ∷ t) split,
        subst (Valid next.rx) (append_assoc queue (packet ∷ []) taken) holds,
        ends,
        tx,
        output,
      )

-- Let the ring buffer hold a queue, and let the bytes be whole frames of packets. Then the loop over them
-- returns without an access out of the array. The packets stand in their order behind the queue and no bytes
-- are kept, or the first packets stand there, and there is no space for the next.
pub frames_in-Took :
    (packets : List (List ℕ)) (fuel : ℕ) (net : Net) (ev : Event) (queue : List (List ℕ))
    → Valid net.rx queue
    → Framed packets
    → length packets < fuel
    → TookFrames packets net queue (frames_in fuel (frames packets) net ev)
unfolding frames_in
frames_in-Took packets zero net ev queue v framed more = absurd (omega arith)
frames_in-Took [] (suc fuel) net ev queue v framed more = (
  net,
  ev,
  [],
  [],
  [],
  refl,
  refl,
  subst (Valid net.rx) (sym (append-nil queue)) v,
  inl (refl, refl),
  refl,
  refl,
)
frames_in-Took (packet ∷ packets) (suc fuel) net ev queue v framed more =
    let frame : List ℕ = slip_encode packet in
    let bytes : List ℕ = frames (packet ∷ packets) in
    let got = write_request_max net.rx (length packet) in
    let rest : drop (length frame) (overwritten packet bytes) ≡ frames packets =
      behind frame (frames packets) packet (fits packet) in
    let front : take (length packet) (overwritten packet bytes) ≡ packet = take-append packet _ in
    let step =
      frames_in-step bytes packet (length frame) fuel net ev
        (slip_decode-slip_encode packet (frames packets) framed.0) framed.0 in
    subst (TookFrames (packet ∷ packets) net queue)
      (sym (
        step
        ∙ ap
            (λ t.
              pass_frame (frames_in fuel (drop (length frame) (overwritten packet bytes))) t
                (overwritten packet bytes) net ev got)
            front
        ∙ ap (λ t. pass_frame (frames_in fuel t) packet (overwritten packet bytes) net ev got)
            rest))
      (pass_frame-Took packet packets framed.1 (frames_in fuel (frames packets))
        (λ m e q w. frames_in-Took packets fuel m e q w framed.2 (omega arith)) net ev queue got v
        (write_request_max_lem net.rx queue (length packet) v framed.1))
