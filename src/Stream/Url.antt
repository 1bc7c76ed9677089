-- ===== src/Stream/Url.antt =====
-- How `_lv2_osc_stream_reinit` takes a URL apart. A text is the list of its bytes without the null byte; where C
-- puts a null byte into it, it is cut in two.
pub mod RoundTrip
use osc2ftdidmx.Base.{
  ℕ, Bool, true, false, Option, none, some, List, [], ◌∷◌, ◌++◌, ◌==◌, if◌then◌else◌, codes,
}
use osc2ftdidmx.Stream.Connection.{SocketType, sock_dgram, sock_stream, other_type}

-- EDESTADDRREQ, EPROTOTYPE, ENOPROTOOPT
abbrev pub edestaddrreq : ℕ
edestaddrreq = 89

abbrev pub eprototype : ℕ
eprototype = 91

abbrev pub enoprotoopt : ℕ
enoprotoopt = 92

-- What a prefix sets: `socket_type` and `slip`, or `serial`.
pub data Kind : Type 0 where
  udp tcp_slip tcp_prefix serial : Kind

-- `strncmp(ptr, prefix, strlen(prefix)) == 0`, and what lies behind the prefix.
unfoldable pub strip : List ℕ → List ℕ → Option (List ℕ)
strip [] s = some s
strip (p ∷ prefix) [] = none
strip (p ∷ prefix) (c ∷ s) = let rest = strip prefix s in if p == c then rest else none

-- The first of the prefixes that the URL has.
unfoldable pub first_prefix : List (List ℕ × Kind) → List ℕ → Option (Kind × List ℕ)
unfolding strip
first_prefix [] url = none
first_prefix ((prefix, kind) ∷ prefixes) url = elim (strip prefix url) [
  | none ↦ first_prefix prefixes url
  | some ptr ↦ some (kind, ptr)
]

abbrev pub prefixes : List (List ℕ × Kind)
prefixes =
    (codes "osc.udp://", udp)
    ∷ (codes "osc.tcp://", tcp_slip)
    ∷ (codes "osc.slip.tcp://", tcp_slip)
    ∷ (codes "osc.prefix.tcp://", tcp_prefix)
    ∷ (codes "osc.serial://", serial)
    ∷ []

-- `strchr`, and the null byte in its place: what is in front, and what is behind.
unfoldable pub cut : ℕ → List ℕ → Option (List ℕ × List ℕ)
cut mark [] = none
cut mark (c ∷ s) =
    let rest = elim (cut mark s) as (λ _. Option (List ℕ × List ℕ)) [
      | none ↦ none
      | some (front, behind) ↦ some (c ∷ front, behind)
    ] in
    if c == mark then some ([], s) else rest

-- `node`, `iface` and `service`, and whether the family is AF_INET6. An empty `node` is a null pointer, and the
-- stream a server.
pub record Host : Type 0 where
  pub inet6 : Bool
  pub node : List ℕ
  pub iface : Option (List ℕ)
  pub service : List ℕ

pub data Target : Type 0 where
  line : List ℕ → Target
  host : Kind → Host → Target
  refused : ℕ → Target

-- Each of `node` and `iface` ends at the first cut behind it.
pub data Open : Type 0 where
  in_node : Open
  in_iface : List ℕ → Open
  ended : List ℕ → Option (List ℕ) → Open

abbrev pub end_at : Open → List ℕ → List ℕ × Option (List ℕ)
end_at in_node text = (text, none)
end_at (in_iface node) text = (node, some text)
end_at (ended node iface) text = (node, iface)

abbrev pub at_colon : Kind → Bool → Open → Option (List ℕ × List ℕ) → Target
at_colon kind inet6 so_far none = refused edestaddrreq
at_colon kind inet6 so_far (some (text, service)) =
    let names = end_at so_far text in
    host kind (record { inet6 = inet6; node = names.0; iface = names.1; service = service })

abbrev pub at_bracket : Kind → Bool → Open → List ℕ → Option (List ℕ × List ℕ) → Target
at_bracket kind inet6 so_far ptr none = at_colon kind inet6 so_far (cut b':' ptr)
at_bracket kind inet6 so_far ptr (some (text, behind)) =
    let names = end_at so_far text in
    if inet6
    then at_colon kind inet6 (ended names.0 names.1) (cut b':' behind)
    else refused edestaddrreq

abbrev pub at_percent : Kind → Bool → List ℕ → Option (List ℕ × List ℕ) → Target
at_percent kind inet6 ptr none = at_bracket kind inet6 in_node ptr (cut b']' ptr)
at_percent kind inet6 ptr (some (node, behind)) =
    if inet6
    then at_bracket kind inet6 (in_iface node) behind (cut b']' behind)
    else refused eprototype

abbrev pub parse_host : Kind → List ℕ → Target
parse_host kind [] = refused edestaddrreq
parse_host kind (c ∷ s) =
    if c == b'['
    then at_percent kind true s (cut b'%' s)
    else at_percent kind false (c ∷ s) (cut b'%' (c ∷ s))

abbrev pub parse_kind : Option (Kind × List ℕ) → Target
parse_kind none = refused enoprotoopt
parse_kind (some (serial, [])) = refused edestaddrreq
parse_kind (some (serial, c ∷ s)) = line (c ∷ s)
parse_kind (some (kind, ptr)) = parse_host kind ptr

unfoldable pub parse_url : List ℕ → Target
unfolding first_prefix cut
parse_url url = parse_kind (first_prefix prefixes url)

-- `server`
abbrev pub is_server : Host → Bool
is_server h = elim h.node [ [] ↦ true | _ ↦ false ]
