-- ===== src/Stream/Tcp.antt =====
-- `_lv2_osc_stream_run_tcp` and `_lv2_osc_stream_run_ser`: packets in frames, on a connection or a serial line.
pub mod Prefix
pub mod Run
pub mod Send
pub mod Receive
use osc2ftdidmx.Base.{
  ℕ, zero, suc, ◌+◌, ◌-◌, ◌*◌, ◌^◌, Bool, true, false, ◌&&◌, Option, none, some, List, [], ◌∷◌,
  ◌++◌, ◌==◌, leb, if◌then◌else◌, take, drop, length, Outcome, ok, fault, no_fuel, ◌>>=◌,
}
use osc2ftdidmx.Osc.Writer.{be32}
use osc2ftdidmx.Osc.Memory.{big_endian32}
use osc2ftdidmx.Slip.{slip_encode, slip_decode, overwritten}
use osc2ftdidmx.Varchunk.{Ring, store}
use osc2ftdidmx.Varchunk.Buffer.{bytes_at}
use osc2ftdidmx.Stream.{
  Event, no_event, with_errno, reqbuf, Sent, all_sent, send_blocks, some_sent, send_fails, Net,
  write_req, write_adv, read_req, read_adv,
}
use osc2ftdidmx.Stream.Udp.{eio}

-- ENOMEM
abbrev pub enomem : ℕ
enomem = 12

-- The size of `tx_buf` and of `rx_buf`.
abbrev pub buf_size : ℕ
buf_size = 0x4000

-- `recv` and `read`: the bytes that wait, none when the other side has shut down; or it would block, or an error
-- number.
pub data Came : Type 0 where
  came : List ℕ → Came
  came_blocks : Came
  came_fails : ℕ → Came

-- A stream with a connection: which of `sock` and `fd` are open, and the bytes of `rx_buf` before `rx_off`.
pub record Link : Type 0 where
  pub net : Net
  pub server : Bool
  pub slip : Bool
  pub connected : Bool
  pub sock : Bool
  pub fd : Bool
  pub kept : List ℕ

-- `server ? &stream->fd : &stream->sock`, and whether it is open.
abbrev pub fd_open : Link → Bool
fd_open l = if l.server then l.fd else l.sock

-- `_close_socket(fd); stream->connected = false;`
abbrev pub closed : Link → Link
closed l =
    if l.server
    then record l { fd = false; connected = false }
    else record l { sock = false; connected = false }

-- What is sent for a packet from `tx_buf`, which holds it and is written with its frame in place; no bytes if
-- the packet is too long.
unfoldable pub frame_of : Bool → List ℕ → Outcome (List ℕ)
unfolding slip_encode
frame_of true packet =
    let frame = slip_encode packet in
    if leb (length packet) buf_size
    then if leb (length frame) buf_size then ok frame else fault
    else ok []
frame_of false packet =
    if leb (length packet + 4) buf_size then ok (be32 (length packet) ++ packet) else ok []

-- One turn of the loop that sends, where `lost` is what is done after an error. Without bytes to send nothing
-- is asked of the connection.
abbrev pub after_frame :
    (Link → Link)
    → (Link → Event → Outcome (Link × Event))
    → Link
    → Event
    → List ℕ
    → Sent
    → Outcome (Link × Event)
after_frame lost again l ev [] answer = read_adv l.net >>= λ r.
    again (record l { net = record l.net { tx = r } }) (record ev { send = true })
after_frame lost again l ev (b ∷ frame) all_sent = read_adv l.net >>= λ r.
    again (record l { net = record l.net { tx = r; output = l.net.output ++ ((b ∷ frame) ∷ []) } })
      (record ev { send = true })
after_frame lost again l ev (b ∷ frame) send_blocks = ok (l, ev)
after_frame lost again l ev (b ∷ frame) some_sent = ok (l, with_errno ev eio)
after_frame lost again l ev (b ∷ frame) (send_fails errno) = ok (lost l, with_errno ev errno)

abbrev pub send_frame :
    (Link → Link)
    → (Link → Event → Outcome (Link × Event))
    → Sent
    → Link
    → Event
    → Ring × Option (ℕ × ℕ)
    → Outcome (Link × Event)
send_frame lost again answer l ev (r, none) = ok (record l { net = record l.net { tx = r } }, ev)
send_frame lost again answer l ev (r, some (n, i)) =
    frame_of l.slip (bytes_at r.buf i n) >>= λ frame.
    after_frame lost again (record l { net = record l.net { tx = r } }) ev frame answer

unfoldable pub send_frames : (Link → Link) → List Sent → Link → Event → Outcome (Link × Event)
unfolding frame_of
send_frames lost [] l ev =
    read_req l.net >>= λ got. ok (record l { net = record l.net { tx = got.0 } }, ev)
send_frames lost (answer ∷ answers) l ev =
    read_req l.net >>= send_frame lost (send_frames lost answers) answer l ev

-- A packet that was decoded goes to the ring buffer; without space for it the bytes are kept as they are.
abbrev pub pass_frame :
    (Net → Event → Outcome (Net × Event × List ℕ))
    → List ℕ
    → List ℕ
    → Net
    → Event
    → Ring × Option ℕ
    → Outcome (Net × Event × List ℕ)
pass_frame again packet after net ev (r, none) =
    ok (record net { rx = r }, with_errno ev enomem, after)
pass_frame again packet after net ev (r, some i) = store r i packet >>= λ s.
    write_adv s (length packet) >>= λ u. again (record net { rx = u }) (record ev { recv = true })

-- The loop over the bytes in `rx_buf`, and those of them that stay for the next call.
unfoldable pub frames_in : ℕ → List ℕ → Net → Event → Outcome (Net × Event × List ℕ)
unfolding slip_decode
frames_in zero bytes net ev = no_fuel
frames_in (suc fuel) [] net ev = ok (net, ev, [])
frames_in (suc fuel) (c ∷ cs) net ev =
    let d = slip_decode (c ∷ cs) in
    let after = overwritten d.written (c ∷ cs) in
    let rest = frames_in fuel (drop d.parsed after) in
    let passed = pass_frame rest (take d.size after) after net ev (write_req net d.size) in
    if d.size == 0 then (if d.parsed == 0 then ok (net, ev, after) else rest net ev) else passed

-- Bytes with SLIP frames are received once: behind those that were kept, as far as `rx_buf` has space.
abbrev pub take_in : (Link → Link) → Link → Event → List ℕ → Outcome (Link × Event)
take_in shut l ev [] = ok (shut l, ev)
take_in shut l ev (b ∷ bytes) =
    let held = l.kept ++ (b ∷ bytes) in
    frames_in (length held + 1) held l.net ev >>= λ s. ok (record l { net = s.0; kept = s.2 }, s.1)

unfoldable pub recv_slip :
    (Link → Link) → (Link → Link) → Came → Link → Event → Outcome (Link × Event)
unfolding frames_in
recv_slip lost shut (came bytes) l ev = take_in shut l ev (take (buf_size - length l.kept) bytes)
recv_slip lost shut came_blocks l ev = ok (l, ev)
recv_slip lost shut (came_fails errno) l ev = ok (lost l, with_errno ev errno)
