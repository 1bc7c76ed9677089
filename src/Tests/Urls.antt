-- ===== src/Tests/Urls.antt =====
-- URLs, and the making of streams: runs, and the theorems at concrete URLs.
use osc2ftdidmx.Base.{ℕ, ◌≡◌, ◌≢◌, refl, true, false, Option, none, some, [], codes, arith}
use osc2ftdidmx.Stream.{no_event}
use osc2ftdidmx.Stream.Url.{
  udp, tcp_slip, Host, host, refused, parse_url, first_prefix, strip, cut, edestaddrreq, eprototype,
  enoprotoopt,
}
use osc2ftdidmx.Stream.Url.RoundTrip.{parse_url-url_of}
use osc2ftdidmx.Stream.Reinit.{Request, resolve, listen_call, osc_stream_init}
use osc2ftdidmx.Stream.Reinit.Made.{Made, Cause, osc_stream_init-Made, osc_stream_init-silent}

-- The server that the program makes when no URL is given.
abbrev everyone : Host
everyone = record { inet6 = false; node = []; iface = none; service = codes "6666" }

abbrev local : Host
local = record {
  inet6 = true;
  node = codes "fe80::1";
  iface = some (codes "eth0");
  service = codes "77";
}

test_url : parse_url (codes "osc.udp://:6666") ≡ host udp everyone
unfolding parse_url first_prefix strip cut
test_url = refl

test_refused :
    (parse_url (codes "http://x") ≡ refused enoprotoopt)
    × (parse_url (codes "osc.tcp://") ≡ refused edestaddrreq)
    × (parse_url (codes "osc.tcp://x") ≡ refused edestaddrreq)
    × (parse_url (codes "osc.udp://a%b:1") ≡ refused eprototype)
unfolding parse_url first_prefix strip cut
test_refused = (refl, refl, refl, refl)

parse_url-url_of_example : parse_url (codes "osc.tcp://[fe80::1%eth0]:77") ≡ host tcp_slip local
parse_url-url_of_example = parse_url-url_of (host tcp_slip local) ((λ e. cc), ground arith)

-- Of the calls only `listen` fails, with EADDRINUSE.
abbrev in_use : Request → Option ℕ
in_use listen_call = some 98
in_use _ = none

osc_stream_init-Made_example :
    Made
      (Cause in_use true (codes "osc.tcp://:80"))
      (osc_stream_init true in_use true (codes "osc.tcp://:80"))
osc_stream_init-Made_example = osc_stream_init-Made in_use true (codes "osc.tcp://:80")

abbrev unknown : Request → Option ℕ
unknown resolve = some 0
unknown _ = none

only_resolve : (q : Request) → q ≢ resolve → unknown q ≡ none
only_resolve resolve other = absurd (other refl)
only_resolve _ other = refl

osc_stream_init-silent_example :
    ((osc_stream_init true unknown false (codes "osc.udp://:6666")).0.sock ≡ false)
    × ((osc_stream_init true unknown false (codes "osc.udp://:6666")).1 ≡ no_event)
osc_stream_init-silent_example =
    osc_stream_init-silent unknown false (codes "osc.udp://:6666") udp everyone test_url refl
      only_resolve
