-- ===== src/Stream.antt =====
-- The streams of osc.lv2/osc.lv2/stream.h, with the driver of main.c behind them: `write_req` and `write_adv`
-- are calls on the ring buffer `rx`, `read_req` and `read_adv` on `tx`. What the sockets answer is a list of
-- answers, one for each call; at its end a socket would block.
pub mod Udp
pub mod Tcp
pub mod Connection
pub mod Url
pub mod Reinit
pub mod Frame
use osc2ftdidmx.Base.{Outcome, ℕ, Bool, true, false, Option, none, some, List, []}
use osc2ftdidmx.Varchunk.{Ring, write_request_max, write_advance, read_request, read_advance}

-- `LV2_OSC_Enum`: the bits SEND, RECV and CONN, and the error number in the bits of ERR.
pub record Event : Type 0 where
  pub send : Bool
  pub recv : Bool
  pub conn : Bool
  pub err : ℕ

-- `LV2_OSC_NONE`
abbrev pub no_event : Event
no_event = record { send = false; recv = false; conn = false; err = 0 }

-- `LV2_OSC_STREAM_ERRNO`
abbrev pub with_errno : Event → ℕ → Event
with_errno ev errno = record ev { err = errno }

-- The least space that a receiver asks for, `LV2_OSC_STREAM_REQBUF`.
abbrev pub reqbuf : ℕ
reqbuf = 1024

-- `sendto`, `send` and `write`: all bytes went, it would block, some bytes went, or an error number.
pub data Sent : Type 0 where
  all_sent : Sent
  send_blocks : Sent
  some_sent : Sent
  send_fails : ℕ → Sent

-- The fields `peer` (an address, if `peer.len` is not zero) and `data` of a stream: the ring buffers of
-- `app->rb`; and what was sent.
pub record Net : Type 0 where
  pub rx : Ring
  pub tx : Ring
  pub peer : Option ℕ
  pub output : List (List ℕ)

-- `_write_req`, `_write_adv`, `_read_req` and `_read_adv` of main.c, on the ring buffers.
abbrev pub write_req : Net → ℕ → Ring × Option ℕ
write_req net minimum = write_request_max net.rx minimum

abbrev pub write_adv : Ring → ℕ → Outcome Ring
write_adv rx written = write_advance rx written

abbrev pub read_req : Net → Outcome (Ring × Option (ℕ × ℕ))
read_req net = read_request net.tx

abbrev pub read_adv : Net → Outcome Ring
read_adv net = read_advance net.tx
