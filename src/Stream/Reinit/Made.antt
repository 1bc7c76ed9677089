-- ===== src/Stream/Reinit/Made.antt =====
-- What is open and allocated after a stream was made, or could not be made.
use osc2ftdidmx.Base.{
  ℕ, ◌≡◌, ◌≢◌, ◌⊎◌, inl, inr, ◌∙◌, ap, refl, Bool, true, false, Option, none, some, List, [], ◌∷◌,
  ◌++◌,
}
use osc2ftdidmx.Stream.{Event, no_event, with_errno}
use osc2ftdidmx.Stream.Url.{Kind, Host, is_server, Target, line, host, refused, parse_url}
use osc2ftdidmx.Stream.Reinit.{
  Request, resolve, address_length, bind_call, set_nonblock, set_sndbuf, set_rcvbuf, set_reuseaddr,
  addresses, options_of, socket_call, open_line, set_ndelay, set_attributes, Endpoint, requests_of,
  error_of, first_failure, failed, finished, or_later, opened, connects_to, reach, reinit,
  osc_stream_init,
}

-- A call of these failed, with this error.
abbrev pub Failed : (Request → Option ℕ) → ℕ → Type 0
Failed answer e = (q : Request) × (errno : ℕ) × (answer q ≡ some errno) × (e ≡ error_of q errno)

abbrev Fails : (Request → Option ℕ) → Option ℕ → Type 0
Fails answer o = (o ≡ none) ⊎ ((e : ℕ) × (o ≡ some e) × Failed answer e)

or_later-Fails :
    (answer : Request → Option ℕ) (q : Request) (later o : Option ℕ)
    → answer q ≡ o
    → Fails answer later
    → Fails answer (or_later q later o)
or_later-Fails answer q later none fine fails = fails
or_later-Fails answer q later (some errno) bad fails =
    inr (error_of q errno, refl, (q, errno, bad, refl))

first_failure-Fails :
    (answer : Request → Option ℕ) (qs : List Request) → Fails answer (first_failure answer qs)
unfolding first_failure
first_failure-Fails answer [] = inl refl
first_failure-Fails answer (q ∷ qs) =
    or_later-Fails answer q (first_failure answer qs) (answer q) refl
      (first_failure-Fails answer qs)

abbrev or_zero : Option ℕ → ℕ
or_zero none = 0
or_zero (some e) = e

module _ (answer : Request → Option ℕ) (fails : answer resolve ≡ some 0)
    (others : (q : Request) → q ≢ resolve → answer q ≡ none) where
  first_failure-skip :
      (q : Request) (qs : List Request)
      → q ≢ resolve
      → first_failure answer (q ∷ qs) ≡ first_failure answer qs
  unfolding first_failure
  first_failure-skip q qs other = ap (or_later q (first_failure answer qs)) (others q other)

  first_failure-here : (qs : List Request) → first_failure answer (resolve ∷ qs) ≡ some 0
  unfolding first_failure
  first_failure-here qs = ap (or_later resolve (first_failure answer qs)) fails

  first_failure-addresses :
      (server : Bool) (qs : List Request) → first_failure answer (addresses server ++ qs) ≡ some 0
  first_failure-addresses true qs = first_failure-here (address_length ∷ bind_call ∷ qs)
  first_failure-addresses false qs =
      first_failure-skip bind_call (resolve ∷ address_length ∷ qs) (λ e. cc)
      ∙ first_failure-here (address_length ∷ qs)

  first_failure-resolve :
      (kind : Kind) (h : Host) → first_failure answer (requests_of kind h) ≡ some 0
  first_failure-resolve kind h =
      let qs = addresses (is_server h) ++ options_of kind h.inet6 (is_server h) in
      first_failure-skip set_nonblock (set_sndbuf ∷ set_rcvbuf ∷ set_reuseaddr ∷ qs) (λ e. cc)
      ∙ first_failure-skip set_sndbuf (set_rcvbuf ∷ set_reuseaddr ∷ qs) (λ e. cc)
      ∙ first_failure-skip set_rcvbuf (set_reuseaddr ∷ qs) (λ e. cc)
      ∙ first_failure-skip set_reuseaddr qs (λ e. cc)
      ∙ first_failure-addresses (is_server h) (options_of kind h.inet6 (is_server h))

-- The copy of the URL is freed and no connection is open; there is a socket and no error, or there is none, and
-- the error that the cause has.
abbrev pub Made : (ℕ → Type 0) → Endpoint × Event → Type 0
Made Cause (s, ev) =
    (s.dup ≡ false)
    × (s.fd ≡ false)
    × (((s.sock ≡ true) × (ev ≡ no_event))
        ⊎ ((s.sock ≡ false)
            × (s.connected ≡ false)
            × (e : ℕ) × (ev ≡ with_errno no_event e)
            × Cause e))

module _ (answer : Request → Option ℕ) (Cause : ℕ → Type 0)
    (cause : (e : ℕ) → Failed answer e → Cause e) where
  finished-Made :
      (connects : Bool) (s : Endpoint) (o : Option ℕ)
      → s.fd ≡ false
      → s.connected ≡ false
      → s.sock ≡ true
      → Fails answer o
      → Made Cause (finished connects s o)
  finished-Made false s none no_fd apart has_sock fails = (refl, no_fd, inl (has_sock, refl))
  finished-Made true s none no_fd apart has_sock fails = (refl, no_fd, inl (has_sock, refl))
  finished-Made connects s (some e) no_fd apart has_sock (inl nothing) = cc
  finished-Made connects s (some e) no_fd apart has_sock (inr (d, same, failure)) = (
    refl,
    no_fd,
    inr (refl, apart, d, ap (λ o. with_errno no_event (or_zero o)) same, cause d failure),
  )

  opened-Made :
      (q : Request) (qs : List Request) (connects : Bool) (s : Endpoint) (o : Option ℕ)
      → answer q ≡ o
      → ((e : ℕ) → e ≡ error_of q e)
      → s.fd ≡ false
      → s.connected ≡ false
      → Made Cause (opened answer q qs connects s o)
  opened-Made q qs connects s none fine plain no_fd apart =
      finished-Made connects (record s { sock = true }) (first_failure answer qs) no_fd apart refl
        (first_failure-Fails answer qs)
  opened-Made q qs connects s (some errno) bad plain no_fd apart =
      (refl, no_fd, inr (refl, apart, errno, refl, cause errno (q, errno, bad, plain errno)))

module _ (answer : Request → Option ℕ) (connects : Bool) (url : List ℕ) where
  -- Why no stream is made: the URL is refused, or a call failed.
  abbrev pub Cause : ℕ → Type 0
  Cause e = (parse_url url ≡ refused e) ⊎ Failed answer e

  reach-Made :
      (s : Endpoint) (t : Target)
      → parse_url url ≡ t
      → s.fd ≡ false
      → s.connected ≡ false
      → Made Cause (reach answer connects s t)
  reach-Made s (refused errno) e no_fd apart = (refl, no_fd, inr (refl, apart, errno, refl, inl e))
  reach-Made s (line path) e no_fd apart =
      opened-Made answer Cause (λ e f. inr f) open_line (set_ndelay ∷ set_attributes ∷ []) true s
        (answer open_line) refl (λ d. refl) no_fd apart
  reach-Made s (host kind h) e no_fd apart =
      opened-Made answer Cause (λ e f. inr f) socket_call (requests_of kind h)
        (connects_to kind h connects) s (answer socket_call) refl (λ d. refl) no_fd apart

  -- When the URL can be copied, `lv2_osc_stream_init` frees the copy and leaves no connection open. Either it
  -- gives no error, and there is a socket; or it gives the error of the URL that is refused or of a call that
  -- failed, and every descriptor is closed.
  pub osc_stream_init-Made : Made Cause (osc_stream_init true answer connects url)
  unfolding osc_stream_init reinit
  osc_stream_init-Made =
      reach-Made (record { sock = false; fd = false; connected = false; dup = true })
        (parse_url url) refl refl refl

  -- For a URL with a host, let `getaddrinfo` fail and every other call succeed. `getaddrinfo` does not set
  -- `errno`: when that is 0, `lv2_osc_stream_init` returns 0 and there is no socket.
  pub osc_stream_init-silent :
      (kind : Kind) (h : Host)
      → parse_url url ≡ host kind h
      → answer resolve ≡ some 0
      → ((q : Request) → q ≢ resolve → answer q ≡ none)
      → ((osc_stream_init true answer connects url).0.sock ≡ false)
        × ((osc_stream_init true answer connects url).1 ≡ no_event)
  unfolding osc_stream_init reinit first_failure
  osc_stream_init-silent kind h parsed fails others =
      let s : Endpoint = record { sock = false; fd = false; connected = false; dup = true } in
      let qs : List Request = requests_of kind h in
      let c : Bool = connects_to kind h connects in
      let whole : reach answer connects s (parse_url url) ≡ failed (record s { sock = true }) 0 =
        ap (reach answer connects s) parsed
        ∙ ap (opened answer socket_call qs c s) (others socket_call (λ e. cc))
        ∙ ap (finished c (record s { sock = true }))
            (first_failure-resolve answer fails others kind h) in
      (ap (λ (r : Endpoint × Event). r.0.sock) whole, ap (λ (r : Endpoint × Event). r.1) whole)
