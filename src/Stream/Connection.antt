-- ===== src/Stream/Connection.antt =====
-- The rest of `_lv2_osc_stream_run_tcp` and `_lv2_osc_stream_run_ser`: connections, frames with a prefix, and the
-- choice of a transport in `lv2_osc_stream_run`.
use osc2ftdidmx.Base.{
  ℕ, ◌-◌, ◌^◌, Bool, true, false, Option, none, some, List, [], ◌∷◌, if◌then◌else◌, take, length,
  Outcome, ok, ◌>>=◌,
}
use osc2ftdidmx.Osc.Memory.{big_endian32}
use osc2ftdidmx.Varchunk.{Ring, store}
use osc2ftdidmx.Stream.{Event, no_event, with_errno, reqbuf, Sent, write_req, write_adv}
use osc2ftdidmx.Stream.Udp.{Received, run_udp}
use osc2ftdidmx.Stream.Tcp.{
  Came, came, came_blocks, came_fails, Link, fd_open, closed, send_frames, recv_slip,
}

-- `(size_t)-1`, which an error of the second `recv` hands on as the number of bytes.
abbrev pub minus_one : ℕ
minus_one = 2 ^ 64 - 1

-- The second `recv` of a turn, for the bytes behind a prefix, and what is passed on of them.
abbrev pub recv_body : ℕ → ℕ → Ring → Came → Outcome Ring
recv_body prefix i r (came bytes) =
    store r i (take prefix bytes) >>= λ s. write_adv s (length (take prefix bytes))
recv_body prefix i r came_blocks = write_adv r minus_one
recv_body prefix i r (came_fails errno) = write_adv r minus_one

abbrev pub passed_on :
    (Link → Event → Outcome (Link × Event)) → Link → Event → Outcome Ring → Outcome (Link × Event)
passed_on again l ev o =
    o >>= λ r. again (record l { net = record l.net { rx = r } }) (record ev { recv = true })

-- `while( (buf = write_req(...)) )`: a turn for the space that was found.
abbrev pub with_space :
    (Link → ℕ → Outcome (Link × Event)) → Link → Event → Ring × Option ℕ → Outcome (Link × Event)
with_space turn l ev (r, none) = ok (record l { net = record l.net { rx = r } }, ev)
with_space turn l ev (r, some i) = turn (record l { net = record l.net { rx = r } }) i

-- The loop for frames with a prefix. Each turn asks for four bytes and, when four came, for as many as they say;
-- of fewer than four bytes the number is passed on, and no bytes. At the end of the answers `recv` would block.
unfoldable pub recv_prefix :
    (Link → Link) → (Link → Link) → List Came → Link → Event → Outcome (Link × Event)
recv_prefix lost shut [] l ev = with_space (λ m i. ok (m, ev)) l ev (write_req l.net reqbuf)
recv_prefix lost shut (came_blocks ∷ answers) l ev =
    with_space (λ m i. ok (m, ev)) l ev (write_req l.net reqbuf)
recv_prefix lost shut (came_fails errno ∷ answers) l ev =
    with_space (λ m i. ok (lost m, with_errno ev errno)) l ev (write_req l.net reqbuf)
recv_prefix lost shut (came [] ∷ answers) l ev =
    with_space (λ m i. ok (shut m, ev)) l ev (write_req l.net reqbuf)
recv_prefix lost shut (came (a ∷ b ∷ c ∷ d ∷ more) ∷ []) l ev =
    with_space
      (λ m i.
        passed_on (recv_prefix lost shut []) m ev
          (recv_body (big_endian32 a b c d) i m.net.rx came_blocks))
      l ev (write_req l.net reqbuf)
recv_prefix lost shut (came (a ∷ b ∷ c ∷ d ∷ more) ∷ body ∷ answers) l ev =
    with_space
      (λ m i.
        passed_on (recv_prefix lost shut answers) m ev
          (recv_body (big_endian32 a b c d) i m.net.rx body))
      l ev (write_req l.net reqbuf)
recv_prefix lost shut (came (a ∷ few) ∷ answers) l ev =
    with_space
      (λ m i.
        passed_on (recv_prefix lost shut answers) m ev (write_adv m.net.rx (length (a ∷ few))))
      l ev (write_req l.net reqbuf)

-- What the calls of a run answer: `accept`, with the errors of `fcntl` and the four `setsockopt` after it, or
-- none when it fails; what `_lv2_osc_stream_reinit` gives, if the client has no socket: the event and whether
-- there is one; whether `connect` succeeds; then `send` and `recv`.
pub record Answers : Type 0 where
  pub accepts : Option (List (Option ℕ))
  pub reinit : Event × Bool
  pub connects : Bool
  pub sends : List Sent
  pub recvs : List Came

-- The last error stays.
abbrev pub after_options : List (Option ℕ) → Event → Event
after_options [] ev = ev
after_options (none ∷ results) ev = after_options results ev
after_options (some errno ∷ results) ev = after_options results (with_errno ev errno)

abbrev pub accepted : Option (List (Option ℕ)) → Link → Link × Event
accepted none l = (record l { fd = false }, no_event)
accepted (some results) l =
    (record l { fd = true; connected = true }, after_options results no_event)

-- `connect` on no socket fails.
abbrev pub connecting : Bool → Link → Event → Link × Event
connecting connects l ev =
    if l.sock then (if connects then (record l { connected = true }, ev) else (l, ev)) else (l, ev)

abbrev pub handle_connection : Answers → Link → Link × Event
handle_connection a l =
    if l.connected
    then (l, no_event)
    else if l.server
    then accepted a.accepts l
    else if l.sock
    then connecting a.connects l no_event
    else connecting a.connects (record l { sock = a.reinit.1 }) a.reinit.0

abbrev pub first_recv : List Came → Came
first_recv [] = came_blocks
first_recv (answer ∷ answers) = answer

unfoldable pub recv_any :
    (Link → Link) → (Link → Link) → List Came → Link → Event → Outcome (Link × Event)
unfolding recv_slip recv_prefix
recv_any lost shut answers l ev =
    if l.slip
    then recv_slip lost shut (first_recv answers) l ev
    else recv_prefix lost shut answers l ev

abbrev pub with_conn : Link × Event → Link × Event
with_conn (l, ev) = (l, if l.connected then record ev { conn = true } else ev)

-- A step of the run that needs a connection that is open.
abbrev pub when_open :
    (Link → Event → Outcome (Link × Event)) → Link × Event → Outcome (Link × Event)
when_open step (l, ev) =
    if l.connected then (if fd_open l then step l ev else ok (l, ev)) else ok (l, ev)

unfoldable pub run_tcp : Answers → Link → Outcome (Link × Event)
unfolding send_frames recv_any
run_tcp a l =
    when_open (send_frames closed a.sends) (handle_connection a l)
    >>= when_open (recv_any closed closed a.recvs)
    >>= λ s. ok (with_conn s)

-- A serial line is not closed: an error of `read` leaves the line open and the stream without a connection.
abbrev pub kept_open : Link → Link
kept_open l = l

abbrev pub not_connected : Link → Link
not_connected l = record l { connected = false }

abbrev pub if_open : (Link → Event → Outcome (Link × Event)) → Link × Event → Outcome (Link × Event)
if_open step (l, ev) = if l.sock then step l ev else ok (l, ev)

unfoldable pub run_ser : List Sent → List Came → Link → Outcome (Link × Event)
unfolding send_frames recv_any
run_ser sends recvs l =
    if_open (send_frames kept_open sends) (l, no_event)
    >>= if_open (recv_any not_connected kept_open recvs)
    >>= λ s. ok (with_conn s)

-- `socket_type`: SOCK_DGRAM, SOCK_STREAM, and any other.
pub data SocketType : Type 0 where
  sock_dgram sock_stream other_type : SocketType

unfoldable pub stream_run : SocketType → Answers → List Received → Link → Outcome (Link × Event)
unfolding run_udp run_tcp run_ser
stream_run sock_dgram a datagrams l =
    run_udp a.sends datagrams l.net >>= λ s. ok (record l { net = s.0 }, s.1)
stream_run sock_stream a datagrams l = run_tcp a l
stream_run other_type a datagrams l = run_ser a.sends a.recvs l

-- `lv2_osc_stream_pollin`, with the error of `poll` if it fails; whether a descriptor is ready is not asked.
unfoldable pub stream_pollin :
    Option ℕ → SocketType → Answers → List Received → Link → Outcome (Link × Event)
unfolding stream_run
stream_pollin (some errno) type a datagrams l = ok (l, with_errno no_event errno)
stream_pollin none type a datagrams l = stream_run type a datagrams l
