-- ===== src/Stream/Udp.antt =====
-- `_lv2_osc_stream_run_udp`.
pub mod Queue
pub mod Send
pub mod Overflow
use osc2ftdidmx.Base.{
  ℕ, Bool, true, false, Option, none, some, List, [], ◌∷◌, ◌++◌, take, length, Outcome, ok, ◌>>=◌,
}
use osc2ftdidmx.Varchunk.{Ring, store}
use osc2ftdidmx.Varchunk.Buffer.{bytes_at}
use osc2ftdidmx.Stream.{
  write_req, write_adv, read_req, read_adv, Event, no_event, with_errno, reqbuf, Sent, all_sent,
  send_blocks, some_sent, send_fails, Net,
}

-- EIO
abbrev pub eio : ℕ
eio = 5

-- `recvfrom`: a datagram with the address that it comes from, or that it would block, or an error number.
pub data Received : Type 0 where
  datagram : ℕ → List ℕ → Received
  recv_blocks : Received
  recv_fails : ℕ → Received

-- One turn of the loop that sends: what `sendto` answers for a chunk, and the turns after it.
abbrev pub after_send :
    (Net → Event → Outcome (Net × Event)) → Net → Event → List ℕ → Sent → Outcome (Net × Event)
after_send again net ev bytes all_sent = read_adv net >>= λ r.
    again (record net { tx = r; output = net.output ++ (bytes ∷ []) }) (record ev { send = true })
after_send again net ev bytes send_blocks = ok (net, ev)
after_send again net ev bytes some_sent = ok (net, with_errno ev eio)
after_send again net ev bytes (send_fails errno) = ok (net, with_errno ev errno)

abbrev pub send_chunk :
    (Net → Event → Outcome (Net × Event))
    → Sent
    → Net
    → Event
    → Ring × Option (ℕ × ℕ)
    → Outcome (Net × Event)
send_chunk again answer net ev (r, none) = ok (record net { tx = r }, ev)
send_chunk again answer net ev (r, some (n, i)) =
    after_send again (record net { tx = r }) ev (bytes_at r.buf i n) answer

unfoldable pub send_all : List Sent → Net → Event → Outcome (Net × Event)
send_all [] net ev = read_req net >>= λ got. ok (record net { tx = got.0 }, ev)
send_all (answer ∷ answers) net ev = read_req net >>= send_chunk (send_all answers) answer net ev

-- What is left of a stream after it has received: the answers that were not asked for.
abbrev pub Receipt : Type 0
Receipt = Net × Event × List Received

-- One turn of the loop that receives into the space at the index `i`: `recvfrom` stores no more than the
-- maximum that `write_req` gives, and cuts off the rest of a datagram.
abbrev pub after_recv :
    (Net → Event → Outcome Receipt) → List Received → Net → Event → ℕ → Received → Outcome Receipt
after_recv again answers net ev i (datagram from []) = ok (net, ev, answers)
after_recv again answers net ev i (datagram from (b ∷ bytes)) =
    let stored = take net.rx.rsvd (b ∷ bytes) in
    store net.rx i stored >>= λ r. write_adv r (length stored) >>= λ s.
    again (record net { rx = s; peer = some from }) (record ev { recv = true })
after_recv again answers net ev i recv_blocks = ok (net, ev, answers)
after_recv again answers net ev i (recv_fails errno) = ok (net, with_errno ev errno, answers)

abbrev pub recv_into :
    (Net → Event → Outcome Receipt)
    → Received
    → List Received
    → Net
    → Event
    → Ring × Option ℕ
    → Outcome Receipt
recv_into again answer answers net ev (r, none) = ok (record net { rx = r }, ev, answer ∷ answers)
recv_into again answer answers net ev (r, some i) =
    after_recv again answers (record net { rx = r }) ev i answer

unfoldable pub recv_all : List Received → Net → Event → Outcome Receipt
recv_all [] net ev = ok (record net { rx = (write_req net reqbuf).0 }, ev, [])
recv_all (answer ∷ answers) net ev =
    recv_into (recv_all answers) answer answers net ev (write_req net reqbuf)

-- It sends when there is a peer, and then receives.
unfoldable pub run_udp : List Sent → List Received → Net → Outcome Receipt
unfolding send_all recv_all
run_udp sends answers net =
    let sent : Outcome (Net × Event) = elim net.peer [
      | none ↦ ok (net, no_event)
      | some address ↦ send_all sends net no_event
    ] in
    sent >>= λ s. recv_all answers s.0 s.1
