-- ===== src/Stream/Url/RoundTrip.antt =====
-- URLs are printed and read again.
use osc2ftdidmx.Base.{
  ℕ, ◌<◌, ◌≡◌, ◌≢◌, sym, ap, refl, Bool, true, false, Option, none, some, List, [], ◌∷◌, ◌++◌, ◌==◌,
  codes, length, arith,
}
use osc2ftdidmx.Stream.Url.{
  Kind, udp, tcp_slip, tcp_prefix, serial, strip, first_prefix, cut, Target, line, host, refused,
  at_percent, parse_host, parse_url, enoprotoopt,
}

-- The mark does not occur.
abbrev pub Free : ℕ → List ℕ → Type 0
Free mark [] = Unit
Free mark (c ∷ s) = ((c == mark) ≡ false) × Free mark s

abbrev pub kind_text : Kind → List ℕ
kind_text udp = codes "osc.udp://"
kind_text tcp_slip = codes "osc.tcp://"
kind_text tcp_prefix = codes "osc.prefix.tcp://"
kind_text serial = codes "osc.serial://"

abbrev pub host_text : Bool → List ℕ → Option (List ℕ) → List ℕ → List ℕ
host_text false node iface service = node ++ (b':' ∷ service)
host_text true node none service = b'[' ∷ (node ++ (b']' ∷ b':' ∷ service))
host_text true node (some iface) service =
    b'[' ∷ (node ++ (b'%' ∷ (iface ++ (b']' ∷ b':' ∷ service))))

abbrev pub url_of : Target → List ℕ
url_of (line path) = kind_text serial ++ path
url_of (host kind h) = kind_text kind ++ host_text h.inet6 h.node h.iface h.service
url_of (refused errno) = []

-- The marks stand in no name: for IPv4 neither '[', '%', ']' nor ':'; for IPv6 neither '%' nor ']'.
abbrev pub NamesClean : Bool → List ℕ → Option (List ℕ) → List ℕ → Type 0
NamesClean false node iface service =
    Free b'[' node
    × Free b'%' node
    × Free b']' node
    × Free b':' node
    × (iface ≡ none)
    × Free b'%' service
    × Free b']' service
NamesClean true node none service = Free b'%' node × Free b']' node × Free b'%' service
NamesClean true node (some iface) service = Free b'%' node × Free b']' iface

abbrev pub Clean : Target → Type 0
Clean (line path) = 0 < length path
Clean (host kind h) = (kind ≢ serial) × NamesClean h.inet6 h.node h.iface h.service
Clean (refused errno) = errno ≡ enoprotoopt

cut-found :
    (mark : ℕ) (s rest : List ℕ)
    → Free mark s
    → (mark == mark) ≡ true
    → cut mark (s ++ (mark ∷ rest)) ≡ some (s, rest)
unfolding cut
cut-found mark [] rest free same = rw same refl
cut-found mark (c ∷ s) rest free same = rw (free.0, cut-found mark s rest free.1 same) refl

cut-none : (mark : ℕ) (s : List ℕ) → Free mark s → cut mark s ≡ none
unfolding cut
cut-none mark [] free = refl
cut-none mark (c ∷ s) free = rw (free.0, cut-none mark s free.1) refl

Free-append : (mark : ℕ) (s t : List ℕ) → Free mark s → Free mark t → Free mark (s ++ t)
Free-append mark [] t f g = g
Free-append mark (c ∷ s) t f g = (f.0, Free-append mark s t f.1 g)

abbrev host_of : Kind → Bool → List ℕ → Option (List ℕ) → List ℕ → Target
host_of kind inet6 node iface service =
    host kind (record { inet6 = inet6; node = node; iface = iface; service = service })

inet4_names :
    (kind : Kind) (node service : List ℕ)
    → NamesClean false node none service
    → at_percent kind false (node ++ (b':' ∷ service)) (cut b'%' (node ++ (b':' ∷ service)))
      ≡ host_of kind false node none service
inet4_names kind node service
      (no_open, no_percent, no_close, no_colon, plain, percent_free, close_free) =
    let percent =
      cut-none b'%' (node ++ (b':' ∷ service))
        (Free-append b'%' node (b':' ∷ service) no_percent (refl, percent_free)) in
    let close =
      cut-none b']' (node ++ (b':' ∷ service))
        (Free-append b']' node (b':' ∷ service) no_close (refl, close_free)) in
    rw (percent, close, cut-found b':' node service no_colon refl) refl

parse_host-inet4 :
    (kind : Kind) (node service : List ℕ)
    → NamesClean false node none service
    → parse_host kind (node ++ (b':' ∷ service)) ≡ host_of kind false node none service
parse_host-inet4 kind [] service clean = inet4_names kind [] service clean
parse_host-inet4 kind (c ∷ node) service clean =
    rw clean.0.0 (inet4_names kind (c ∷ node) service clean)

parse_host-inet6 :
    (kind : Kind) (node : List ℕ) (iface : Option (List ℕ)) (service : List ℕ)
    → NamesClean true node iface service
    → parse_host kind (host_text true node iface service) ≡ host_of kind true node iface service
unfolding cut
parse_host-inet6 kind node none service clean =
    let no_percent =
      cut-none b'%' (node ++ (b']' ∷ b':' ∷ service))
        (Free-append b'%' node (b']' ∷ b':' ∷ service) clean.0 (refl, (refl, clean.2))) in
    let bracket = cut-found b']' node (b':' ∷ service) clean.1 refl in rw (no_percent, bracket) refl
parse_host-inet6 kind node (some iface) service clean =
    let percent = cut-found b'%' node (iface ++ (b']' ∷ b':' ∷ service)) clean.0 refl in
    let bracket = cut-found b']' iface (b':' ∷ service) clean.1 refl in rw (percent, bracket) refl

parse_host-host_text :
    (kind : Kind) (inet6 : Bool) (node : List ℕ) (iface : Option (List ℕ)) (service : List ℕ)
    → NamesClean inet6 node iface service
    → parse_host kind (host_text inet6 node iface service) ≡ host_of kind inet6 node iface service
parse_host-host_text kind false node none service clean = parse_host-inet4 kind node service clean
parse_host-host_text kind false node (some iface) service (a, b, c, d, plain, e, f) = cc
parse_host-host_text kind true node iface service clean =
    parse_host-inet6 kind node iface service clean

-- A URL for a serial line with a path, or for a host with a node, perhaps the interface of an IPv6 address, and
-- a service, whose names have none of the marks between them, is taken apart into just these; and a text with
-- none of the prefixes is refused when it is empty.
pub parse_url-url_of : (t : Target) → Clean t → parse_url (url_of t) ≡ t
unfolding parse_url first_prefix strip
parse_url-url_of (line []) clean = absurd (omega arith)
parse_url-url_of (line (c ∷ path)) clean = refl
parse_url-url_of (host udp h) clean =
    parse_host-host_text udp h.inet6 h.node h.iface h.service clean.1
parse_url-url_of (host tcp_slip h) clean =
    parse_host-host_text tcp_slip h.inet6 h.node h.iface h.service clean.1
parse_url-url_of (host tcp_prefix h) clean =
    parse_host-host_text tcp_prefix h.inet6 h.node h.iface h.service clean.1
parse_url-url_of (host serial h) clean = absurd (clean.0 refl)
parse_url-url_of (refused errno) clean = ap (λ e. refused e) (sym clean)
