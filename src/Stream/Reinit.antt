-- ===== src/Stream/Reinit.antt =====
-- `_lv2_osc_stream_reinit` and `lv2_osc_stream_init`: the calls that make a stream from its URL.
pub mod Made
use osc2ftdidmx.Base.{ℕ, Bool, true, false, Option, none, some, List, [], ◌∷◌, ◌++◌, if◌then◌else◌}
use osc2ftdidmx.Stream.{Event, no_event, with_errno}
use osc2ftdidmx.Stream.Tcp.{enomem}
use osc2ftdidmx.Stream.Url.{
  Kind, udp, tcp_slip, tcp_prefix, serial, Host, is_server, Target, line, host, refused, eprototype,
  parse_url,
}

-- The calls, by what they are for; `address_length` is the test of `res->ai_addrlen`. Each is made once at most.
pub data Request : Type 0 where
  open_line set_ndelay set_attributes : Request
  socket_call set_nonblock set_sndbuf set_rcvbuf set_reuseaddr : Request
  resolve address_length bind_call : Request
  set_broadcast set_nodelay set_keepalive listen_call : Request

-- Which descriptors are open, whether a peer is connected, and whether the copy of the URL is allocated.
pub record Endpoint : Type 0 where
  pub sock : Bool
  pub fd : Bool
  pub connected : Bool
  pub dup : Bool

abbrev pub addresses : Bool → List Request
addresses true = resolve ∷ address_length ∷ bind_call ∷ []
addresses false = bind_call ∷ resolve ∷ address_length ∷ []

abbrev pub tcp_options : Bool → List Request
tcp_options true = set_nodelay ∷ set_keepalive ∷ listen_call ∷ []
tcp_options false = set_nodelay ∷ set_keepalive ∷ []

abbrev pub options_of : Kind → Bool → Bool → List Request
options_of udp false server = set_broadcast ∷ []
options_of udp true server = []
options_of kind inet6 server = tcp_options server

-- The calls after `socket`, in order.
abbrev pub requests_of : Kind → Host → List Request
requests_of kind h =
    set_nonblock
    ∷ set_sndbuf
    ∷ set_rcvbuf
    ∷ set_reuseaddr
    ∷ (addresses (is_server h) ++ options_of kind h.inet6 (is_server h))

-- Where C tests a length, the error is EPROTOTYPE; it is `errno` else.
abbrev pub error_of : Request → ℕ → ℕ
error_of address_length errno = eprototype
error_of q errno = errno

abbrev pub or_later : Request → Option ℕ → Option ℕ → Option ℕ
or_later q later none = later
or_later q later (some errno) = some (error_of q errno)

-- Calls are made up to the first that fails, where `answer` gives the value of `errno` after it.
unfoldable pub first_failure : (Request → Option ℕ) → List Request → Option ℕ
first_failure answer [] = none
first_failure answer (q ∷ qs) = or_later q (first_failure answer qs) (answer q)

-- From the label `fail` on.
abbrev pub failed : Endpoint → ℕ → Endpoint × Event
failed s errno = (record s { dup = false; sock = false }, with_errno no_event errno)

abbrev pub finished : Bool → Endpoint → Option ℕ → Endpoint × Event
finished connects s (some errno) = failed s errno
finished connects s none = (
  if connects then record s { dup = false; connected = true } else record s { dup = false },
  no_event,
)

-- `socket` or `open` first, and the other calls on what it opens.
abbrev pub opened :
    (Request → Option ℕ) → Request → List Request → Bool → Endpoint → Option ℕ → Endpoint × Event
opened answer q qs connects s (some errno) = failed s errno
opened answer q qs connects s none =
    finished connects (record s { sock = true }) (first_failure answer qs)

-- `connect` is called by a client over TCP, and its error is passed over.
abbrev pub connects_to : Kind → Host → Bool → Bool
connects_to udp h connects = false
connects_to kind h connects = if is_server h then false else connects

abbrev pub reach : (Request → Option ℕ) → Bool → Endpoint → Target → Endpoint × Event
reach answer connects s (refused errno) = failed s errno
reach answer connects s (line path) =
    opened answer open_line (set_ndelay ∷ set_attributes ∷ []) true s (answer open_line)
reach answer connects s (host kind h) =
    opened answer socket_call (requests_of kind h) (connects_to kind h connects) s
      (answer socket_call)

-- `_lv2_osc_stream_reinit`, where `strdup_ok` says whether the URL can be copied.
unfoldable pub reinit : Bool → (Request → Option ℕ) → Bool → List ℕ → Endpoint → Endpoint × Event
unfolding parse_url first_failure
reinit strdup_ok answer connects url s =
    let shut = record s { sock = false; fd = false } in
    if strdup_ok
    then reach answer connects (record shut { dup = true }) (parse_url url)
    else (shut, with_errno no_event enomem)

-- `lv2_osc_stream_init`; the URL is shorter than PATH_MAX.
unfoldable pub osc_stream_init : Bool → (Request → Option ℕ) → Bool → List ℕ → Endpoint × Event
unfolding reinit
osc_stream_init strdup_ok answer connects url =
    reinit strdup_ok answer connects url
      (record { sock = false; fd = false; connected = false; dup = false })
