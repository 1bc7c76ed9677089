-- ===== src/Stream/Tcp/Send.antt =====
-- The chunks of the other ring buffer go out in SLIP frames.
use mathlib.Core.List.{append_assoc, append-nil}
use osc2ftdidmx.Base.{
  ℕ, ◌<◌, ◌≤◌, ◌≡◌, ◌⊎◌, inl, inr, ◌∙◌, sym, ap, refl, true, List, [], ◌∷◌, ◌++◌, map, leb, length,
  arith, Outcome, ok, ◌>>=◌,
}
use osc2ftdidmx.Varchunk.{Ring, read_request, read_advance}
use osc2ftdidmx.Varchunk.Valid.{Valid}
use osc2ftdidmx.Varchunk.Read.{read_request_empty, read_request_lem, read_advance_lem}
use osc2ftdidmx.Slip.{slip_encode}
use osc2ftdidmx.Slip.RoundTrip.{fits}
use osc2ftdidmx.Stream.{Event, with_errno, Sent, all_sent, send_blocks, some_sent, send_fails, Net}
use osc2ftdidmx.Stream.Udp.{eio}
use osc2ftdidmx.Stream.Tcp.{Link, buf_size, frame_of, after_frame, send_frame, send_frames}

-- Packets have at least one byte, and frames that `tx_buf` holds.
abbrev pub FramesFit : List (List ℕ) → Type 0
FramesFit [] = Unit
FramesFit (p ∷ packets) = (0 < length p) × (length (slip_encode p) ≤ buf_size) × FramesFit packets

-- The frames of some chunks were sent, in order, and the other chunks are kept. Of the stream only the ring
-- buffer and the output are changed, or it has also lost its connection.
abbrev pub GaveFrames : (Link → Link) → Link → List (List ℕ) → Outcome (Link × Event) → Type 0
GaveFrames lost l queue o =
    (net : Net) × (next : Link) × (ev : Event) × (gone : List (List ℕ)) × (kept : List (List ℕ))
    × (o ≡ ok (next, ev))
    × ((next ≡ record l { net = net }) ⊎ (next ≡ lost (record l { net = net })))
    × (queue ≡ gone ++ kept)
    × (net.output ≡ l.net.output ++ map slip_encode gone)
    × Valid net.tx kept
    × (net.rx ≡ l.net.rx)

frame_of_lem :
    (p : List ℕ) → length (slip_encode p) ≤ buf_size → frame_of true p ≡ ok (slip_encode p)
unfolding frame_of
frame_of_lem p h =
    let packet_fits : leb (length p) buf_size ≡ true = ground (arith, fits p, h) in
    let frame_fits : leb (length (slip_encode p)) buf_size ≡ true = ground (arith, h) in
    rw (packet_fits, frame_fits) refl

module _ (lost : Link → Link) where
  stop-Gave :
      (l : Link) (tx : Ring) (ev : Event) (queue : List (List ℕ))
      → Valid tx queue
      → GaveFrames lost l queue (ok (record l { net = record l.net { tx = tx } }, ev))
  stop-Gave l tx ev queue v = (
    record l.net { tx = tx },
    record l { net = record l.net { tx = tx } },
    ev,
    [],
    queue,
    refl,
    inl refl,
    refl,
    sym (append-nil l.net.output),
    v,
    refl,
  )

  module _ (again : Link → Event → Outcome (Link × Event))
      (gives : (l : Link) (ev : Event) (queue : List (List ℕ))
        → Valid l.net.tx queue
        → l.slip ≡ true
        → FramesFit queue
        → GaveFrames lost l queue (again l ev)) where
    after_frame-Gave :
        (l : Link) (ev : Event) (c frame : List ℕ) (queue : List (List ℕ)) (tx s : Ring)
        (answer : Sent)
        → l.slip ≡ true
        → FramesFit queue
        → 0 < length frame
        → frame ≡ slip_encode c
        → Valid tx (c ∷ queue)
        → read_advance tx ≡ ok s
        → Valid s queue
        → GaveFrames lost l
            (c ∷ queue)
            (after_frame lost again (record l { net = record l.net { tx = tx } }) ev frame answer)
    after_frame-Gave l ev c [] queue tx s answer slip fit some_byte same v advanced after =
        absurd (omega arith)
    after_frame-Gave l ev c (b ∷ frame) queue tx s all_sent slip fit some_byte same v advanced
          after =
        let (net, next, more, gone, kept, returns, state, split, output, holds, rx) =
          gives
            (record l {
              net = record l.net { tx = s; output = l.net.output ++ ((b ∷ frame) ∷ []) };
            })
            (record ev { send = true }) queue after slip fit in
        (
          net,
          next,
          more,
          c ∷ gone,
          kept,
          rw advanced returns,
          state,
          ap (λ t. c ∷ t) split,
          output
              ∙ append_assoc l.net.output ((b ∷ frame) ∷ []) (map slip_encode gone)
              ∙ ap (λ f. l.net.output ++ (f ∷ map slip_encode gone)) same,
          holds,
          rx,
        )
    after_frame-Gave l ev c (b ∷ frame) queue tx s send_blocks slip fit some_byte same v advanced
          after =
        stop-Gave l tx ev (c ∷ queue) v
    after_frame-Gave l ev c (b ∷ frame) queue tx s some_sent slip fit some_byte same v advanced
          after =
        stop-Gave l tx (with_errno ev eio) (c ∷ queue) v
    after_frame-Gave l ev c (b ∷ frame) queue tx s (send_fails errno) slip fit some_byte same v
          advanced after =
        (
          record l.net { tx = tx },
          lost (record l { net = record l.net { tx = tx } }),
          with_errno ev errno,
          [],
          c ∷ queue,
          refl,
          inr refl,
          refl,
          sym (append-nil l.net.output),
          v,
          refl,
        )

    send_frame-Gave :
        (answer : Sent) (l : Link) (ev : Event) (queue : List (List ℕ))
        → Valid l.net.tx queue
        → l.slip ≡ true
        → FramesFit queue
        → GaveFrames lost l queue (read_request l.net.tx >>= send_frame lost again answer l ev)
    send_frame-Gave answer l ev [] v slip fit =
        rw (read_request_empty l.net.tx v) (stop-Gave l l.net.tx ev [] v)
    send_frame-Gave answer l ev (c ∷ queue) v slip fit =
        let (t, given, front, less) = read_request_lem l.net.tx c queue v in
        let tx : Ring = record l.net.tx { tail = t } in
        let (s, advanced, after, fewer, moved) = read_advance_lem tx c queue front in
        let longer : 0 < length (slip_encode c) = omega (arith, fits c, fit.0) in
        let framed : frame_of l.slip c ≡ ok (slip_encode c) =
          ap (λ b. frame_of b c) slip ∙ frame_of_lem c fit.1 in
        rw (given, front.chunk.body, framed)
          (after_frame-Gave l ev c (slip_encode c) queue tx s answer slip fit.2 longer refl
            front.valid advanced after)

  pub send_frames-Gave :
      (answers : List Sent) (l : Link) (ev : Event) (queue : List (List ℕ))
      → Valid l.net.tx queue
      → l.slip ≡ true
      → FramesFit queue
      → GaveFrames lost l queue (send_frames lost answers l ev)
  unfolding send_frames
  send_frames-Gave [] l ev [] v slip fit =
      rw (read_request_empty l.net.tx v) (stop-Gave l l.net.tx ev [] v)
  send_frames-Gave [] l ev (c ∷ queue) v slip fit =
      let (t, given, front, less) = read_request_lem l.net.tx c queue v in
      rw given (stop-Gave l (record l.net.tx { tail = t }) ev (c ∷ queue) front.valid)
  send_frames-Gave (answer ∷ answers) l ev queue v slip fit =
      send_frame-Gave (send_frames lost answers)
        (λ m e q w s f. send_frames-Gave answers m e q w s f) answer l ev queue v slip fit
