-- ===== src/Stream/Tcp/Run.antt =====
-- A whole run of a stream with a connection and SLIP frames.
use osc2ftdidmx.Base.{
  ℕ, ◌+◌, ◌-◌, ◌<◌, ◌≤◌, ◌≡◌, ◌⊎◌, inl, inr, ◌∙◌, sym, ap, refl, subst, true, false, List, [], ◌∷◌,
  ◌++◌, map, take, length, length-append, arith, Outcome, ok, ◌>>=◌, if◌then◌else◌, Bool-cases,
}
use osc2ftdidmx.Varchunk.Valid.{Valid}
use osc2ftdidmx.Slip.{slip_encode}
use osc2ftdidmx.Slip.RoundTrip.{frames, fits}
use osc2ftdidmx.Stream.{Event, no_event, Net}
use osc2ftdidmx.Stream.Udp.Queue.{take-all}
use osc2ftdidmx.Stream.Tcp.{
  Came, came, Link, fd_open, closed, buf_size, frames_in, take_in, recv_slip, send_frames,
}
use osc2ftdidmx.Stream.Tcp.Receive.{Framed, Ends, frames_in-Took}
use osc2ftdidmx.Stream.Tcp.Send.{FramesFit, send_frames-Gave}
use osc2ftdidmx.Stream.Connection.{
  Answers, recv_any, with_conn, when_open, recv_prefix, run_tcp, handle_connection, accepted,
  connecting,
}

-- There are fewer packets than bytes in their frames.
frames-longer :
    (packets : List (List ℕ)) → Framed packets → length packets ≤ length (frames packets)
frames-longer [] framed = omega arith
frames-longer (p ∷ packets) framed = omega (
  arith,
  fits p,
  framed.0,
  frames-longer packets framed.2,
  length-append (slip_encode p) (frames packets),
)

take_in-step :
    (shut : Link → Link) (l : Link) (ev : Event) (bytes : List ℕ)
    → 0 < length bytes
    → l.kept ≡ []
    → take_in shut l ev bytes ≡ (
        frames_in (length bytes + 1) bytes l.net ev >>= λ s.
        ok (record l { net = s.0; kept = s.2 }, s.1))
take_in-step shut l ev [] some_byte none_kept = absurd (omega arith)
take_in-step shut l ev (b ∷ bytes) some_byte none_kept =
    ap
      (λ k.
        frames_in (length (k ++ (b ∷ bytes)) + 1) (k ++ (b ∷ bytes)) l.net ev
        >>= λ (s : Net × Event × List ℕ). ok (record l { net = s.0; kept = s.2 }, s.1))
      none_kept

-- The packets of the frames are in the ring buffer, all or the first.
abbrev pub Received : List (List ℕ) → Link → List (List ℕ) → Outcome (Link × Event) → Type 0
Received packets l queue o =
    (net : Net) × (kept : List ℕ) × (ev : Event) × (taken : List (List ℕ)) × (left : List (List ℕ))
    × (o ≡ ok (record l { net = net; kept = kept }, ev))
    × (packets ≡ taken ++ left)
    × Valid net.rx (queue ++ taken)
    × Ends left net.rx kept
    × (net.tx ≡ l.net.tx)
    × (net.output ≡ l.net.output)

pub recv_any-Received :
    (lost shut : Link → Link) (packets : List (List ℕ)) (more : List Came) (l : Link) (ev : Event)
    (queue : List (List ℕ))
    → l.slip ≡ true
    → l.kept ≡ []
    → Valid l.net.rx queue
    → Framed packets
    → 0 < length packets
    → length (frames packets) ≤ buf_size
    → Received packets l queue (recv_any lost shut (came (frames packets) ∷ more) l ev)
unfolding recv_any recv_slip
recv_any-Received lost shut packets more l ev queue slip none_kept v framed some_packet room =
    let bytes : List ℕ = frames packets in
    let long = frames-longer packets framed in
    let space : buf_size - length l.kept ≡ buf_size =
      ap (λ (k : List ℕ). buf_size - length k) none_kept in
    let whole : take (buf_size - length l.kept) bytes ≡ bytes =
      ap (λ n. take n bytes) space ∙ take-all buf_size bytes room in
    let (net, more_ev, kept, taken, left, returns, split, holds, ends, tx, output) =
      frames_in-Took packets (length bytes + 1) l.net ev queue v framed (omega (arith, long)) in
    (
      net,
      kept,
      more_ev,
      taken,
      left,
      ap
            (λ b.
              if b
              then recv_slip lost shut (came bytes) l ev
              else recv_prefix lost shut (came bytes ∷ more) l ev)
            slip
          ∙ ap (take_in shut l ev) whole
          ∙ take_in-step shut l ev bytes (omega (arith, long, some_packet)) none_kept
          ∙ ap
              (λ o.
                o >>= λ (s : Net × Event × List ℕ). ok (record l { net = s.0; kept = s.2 }, s.1))
              returns,
      split,
      holds,
      ends,
      tx,
      output,
    )

when_open-yes :
    (step : Link → Event → Outcome (Link × Event)) (l : Link) (ev : Event)
    → l.connected ≡ true
    → fd_open l ≡ true
    → when_open step (l, ev) ≡ step l ev
when_open-yes step l ev connected is_open =
    ap (λ b. if b then (if fd_open l then step l ev else ok (l, ev)) else ok (l, ev)) connected
    ∙ ap (λ b. if b then step l ev else ok (l, ev)) is_open

when_open-no :
    (step : Link → Event → Outcome (Link × Event)) (l : Link) (ev : Event)
    → l.connected ≡ false
    → when_open step (l, ev) ≡ ok (l, ev)
when_open-no step l ev apart =
    ap (λ b. if b then (if fd_open l then step l ev else ok (l, ev)) else ok (l, ev)) apart

closed_lem :
    (l : Link)
    → ((closed l).connected ≡ false) × (fd_open (closed l) ≡ false) × ((closed l).net ≡ l.net)
closed_lem l = elim (Bool-cases l.server) [
  | inl server ↦ rw server (refl, refl, refl)
  | inr client ↦ rw client (refl, refl, refl)
]

-- Let a stream with SLIP frames be connected, with its descriptor open and no bytes kept, let both ring
-- buffers hold queues, and let the chunks to send have at least one byte and frames that fit into `tx_buf`.
-- Let `recv` give whole frames of at least one packet, none of them empty, at most as many bytes as
-- `rx_buf` holds. Then `_lv2_osc_stream_run_tcp` returns without an access out of an array. The frames of
-- the first chunks, some or none, were put out in their order and the other chunks are still there. Either
-- the connection was lost while sending, and nothing was received; or the stream is connected, and the
-- packets stand in their order behind the queue of `rx` with no bytes kept; or the first ones do, less than
-- twice the bytes that a request for the next takes are free, and the frame of the next is kept with its
-- packet over its first bytes.
pub run_tcp_lem :
    (a : Answers) (l : Link) (out queue packets : List (List ℕ)) (more : List Came)
    → l.connected ≡ true
    → fd_open l ≡ true
    → l.slip ≡ true
    → l.kept ≡ []
    → Valid l.net.tx out
    → Valid l.net.rx queue
    → FramesFit out
    → Framed packets
    → 0 < length packets
    → length (frames packets) ≤ buf_size
    → a.recvs ≡ came (frames packets) ∷ more
    → (next : Link) × (ev : Event) × (gone : List (List ℕ)) × (kept : List (List ℕ)) × (run_tcp a l
        ≡ ok (next, ev))
      × (out ≡ gone ++ kept)
      × (next.net.output ≡ l.net.output ++ map slip_encode gone)
      × Valid next.net.tx kept
      × (((next.connected ≡ false) × (fd_open next ≡ false) × (next.net.rx ≡ l.net.rx))
          ⊎ ((taken : List (List ℕ)) × (left : List (List ℕ)) × (next.connected ≡ true)
              × (packets ≡ taken ++ left)
              × Valid next.net.rx (queue ++ taken)
              × Ends left next.net.rx next.kept))
unfolding run_tcp
run_tcp_lem a l out queue packets more connected is_open slip none_kept vt vr fit framed some_packet
      room arrives =
    let recv_step : Link → Event → Outcome (Link × Event) = recv_any closed closed a.recvs in
    let (net, mid, mid_ev, gone, kept, sent, state, split, output, holds, rx) =
      send_frames-Gave closed a.sends l no_event out vt slip fit in
    let begun : when_open (send_frames closed a.sends) (handle_connection a l) ≡ ok (mid, mid_ev) =
      ap
        (λ b. when_open (send_frames closed a.sends) (
          if b
          then (l, no_event)
          else if l.server
          then accepted a.accepts l
          else if l.sock
          then connecting a.connects l no_event
          else connecting a.connects (record l { sock = a.reinit.1 }) a.reinit.0))
        connected
      ∙ when_open-yes (send_frames closed a.sends) l no_event connected is_open
      ∙ sent in
    let both : run_tcp a l ≡ (when_open recv_step (mid, mid_ev) >>= λ s. ok (with_conn s)) =
      ap (λ o. o >>= when_open recv_step >>= λ (s : Link × Event). ok (with_conn s)) begun in
    elim state [
      | inr dropped ↦
          let (apart, shut, same) = closed_lem (record l { net = net }) in
          let off : mid.connected ≡ false = ap (λ (k : Link). k.connected) dropped ∙ apart in
          let net_same : mid.net ≡ net = ap (λ (k : Link). k.net) dropped ∙ same in
          (
            mid,
            (with_conn (mid, mid_ev)).1,
            gone,
            kept,
            both
                ∙ ap (λ o. o >>= λ (s : Link × Event). ok (with_conn s))
                    (when_open-no recv_step mid mid_ev off),
            split,
            ap (λ (n : Net). n.output) net_same ∙ output,
            subst (λ (n : Net). Valid n.tx kept) (sym net_same) holds,
            inl (off, ap fd_open dropped ∙ shut, ap (λ (n : Net). n.rx) net_same ∙ rx),
          )
      | inl goes_on ↦
          let m : Link = record l { net = net } in
          let (last, bytes, ev, taken, left, received, parts, valid, ends, tx, same) =
            recv_any-Received closed closed packets more m mid_ev queue slip none_kept
              (subst (λ r. Valid r queue) (sym rx) vr) framed some_packet room in
          let next : Link = record m { net = last; kept = bytes } in
          let asked : when_open recv_step (mid, mid_ev) ≡ ok (next, ev) =
            ap (λ k. when_open recv_step (k, mid_ev)) goes_on
            ∙ when_open-yes recv_step m mid_ev connected is_open
            ∙ ap (λ r. recv_any closed closed r m mid_ev) arrives
            ∙ received in
          (
            next,
            (with_conn (next, ev)).1,
            gone,
            kept,
            both ∙ ap (λ o. o >>= λ (s : Link × Event). ok (with_conn s)) asked,
            split,
            same ∙ output,
            subst (λ r. Valid r kept) (sym tx) holds,
            inr (taken, left, connected, parts, valid, ends),
          )
    ]
