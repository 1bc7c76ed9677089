-- ===== src/Stream/Tcp/Prefix.antt =====
-- Frames with a prefix: what whole frames give, and what a frame gives whose bytes have not come yet.
use mathlib.Core.List.{append_assoc, append-nil}
use osc2ftdidmx.Base.{
  ℕ, ◌+◌, ◌*◌, ◌/◌, ◌%◌, ◌^◌, ◌<◌, ◌≤◌, ◌≡◌, ◌⊎◌, inl, inr, sym, ap, refl, subst, true, false,
  Option, none, some, List, [], ◌∷◌, ◌++◌, take, length, leb, arith, Outcome, ok, fault,
}
use osc2ftdidmx.Osc.Memory.{big_endian32}
use osc2ftdidmx.Osc.Writer.{be32}
use osc2ftdidmx.Varchunk.{Ring, pad, readable, write_request_max, write_advance}
use osc2ftdidmx.Varchunk.Valid.{Valid}
use osc2ftdidmx.Varchunk.Write.{Requested, write_request_max_lem, write_request_max-reserved}
use osc2ftdidmx.Varchunk.Commit.{write_advance_lem}
use osc2ftdidmx.Stream.{Event, reqbuf, Net}
use osc2ftdidmx.Stream.Udp.Queue.{requested-Valid, readable-reserve, take-all}
use osc2ftdidmx.Stream.Tcp.{Came, came, came_blocks, Link}
use osc2ftdidmx.Stream.Connection.{minus_one, recv_body, passed_on, with_space, recv_prefix}

-- What the two calls of a turn answer for each packet.
abbrev pub prefixed : List (List ℕ) → List Came
prefixed [] = []
prefixed (p ∷ packets) = came (be32 (length p)) ∷ came p ∷ prefixed packets

abbrev pub Requestable : List (List ℕ) → Type 0
Requestable [] = Unit
Requestable (p ∷ packets) = (length p ≤ reqbuf) × Requestable packets

abbrev pub TookBodies : List (List ℕ) → Link → List (List ℕ) → Outcome (Link × Event) → Type 0
TookBodies packets l queue o =
    (net : Net) × (ev : Event) × (taken : List (List ℕ)) × (left : List (List ℕ)) × (o
      ≡ ok (record l { net = net }, ev))
    × (packets ≡ taken ++ left)
    × Valid net.rx (queue ++ taken)
    × ((left ≡ []) ⊎ (net.rx.size < readable net.rx + 2 * (16 + pad reqbuf)))
    × (net.tx ≡ l.net.tx)
    × (net.output ≡ l.net.output)
    × (net.peer ≡ l.net.peer)

prefix_lem :
    (n : ℕ)
    → n ≤ reqbuf
    → big_endian32 (n / 2 ^ 24 % 256) (n / 2 ^ 16 % 256) (n / 2 ^ 8 % 256) (n % 256) ≡ n
prefix_lem n h = omega (arith, h)

full-Took :
    (packets : List (List ℕ)) (l : Link) (ev : Event) (queue : List (List ℕ)) (r : Ring)
    → Valid l.net.rx queue
    → Requested l.net.rx queue reqbuf (r, none)
    → TookBodies packets l queue (ok (record l { net = record l.net { rx = r } }, ev))
full-Took packets l ev queue r v (at, full) = (
  record l.net { rx = r },
  ev,
  [],
  packets,
  refl,
  refl,
  subst (Valid r) (sym (append-nil queue))
      (requested-Valid l.net.rx queue reqbuf (r, none) v (at, full)),
  inr (
      subst (λ q. q.size < readable q + 2 * (16 + pad reqbuf)) (sym at)
        (subst (λ k. l.net.rx.size < k + 2 * (16 + pad reqbuf)) (sym (readable-reserve l.net.rx))
          full)),
  refl,
  refl,
  refl,
)

module _ (packet : List ℕ) (packets : List (List ℕ)) (short : length packet ≤ reqbuf)
    (again : Link → Event → Outcome (Link × Event))
    (takes : (l : Link) (ev : Event) (queue : List (List ℕ))
      → Valid l.net.rx queue
      → TookBodies packets l queue (again l ev)) where
  with_space-Took :
      (l : Link) (ev : Event) (queue : List (List ℕ)) (got : Ring × Option ℕ)
      → Valid l.net.rx queue
      → Requested l.net.rx queue reqbuf got
      → TookBodies (packet ∷ packets) l queue (
          with_space
            (λ m i. passed_on again m ev (recv_body (length packet) i m.net.rx (came packet)))
            l
            ev
            got)
  with_space-Took l ev queue (r, none) v req = full-Took (packet ∷ packets) l ev queue r v req
  with_space-Took l ev queue (r, some i) v (p, at) =
      let (s, u, stored, passed, valid, grown) =
        write_advance_lem r queue reqbuf i packet p short in
      let whole : take (length packet) packet ≡ packet =
        take-all (length packet) packet (omega arith) in
      let (net, more_ev, taken, left, returns, split, holds, all, tx, output, peer) =
        takes (record l { net = record l.net { rx = u } }) (record ev { recv = true })
          (queue ++ (packet ∷ [])) valid in
      (
        net,
        more_ev,
        packet ∷ taken,
        left,
        rw (whole, stored, passed) returns,
        ap (λ t. packet ∷ t) split,
        subst (Valid net.rx) (append_assoc queue (packet ∷ []) taken) holds,
        all,
        tx,
        output,
        peer,
      )

nothing-Took :
    (l : Link) (ev : Event) (queue : List (List ℕ)) (got : Ring × Option ℕ)
    → Valid l.net.rx queue
    → Requested l.net.rx queue reqbuf got
    → TookBodies [] l queue (with_space (λ m i. ok (m, ev)) l ev got)
nothing-Took l ev queue (r, none) v req = full-Took [] l ev queue r v req
nothing-Took l ev queue (r, some i) v req = (
  record l.net { rx = r },
  ev,
  [],
  [],
  refl,
  refl,
  subst (Valid r) (sym (append-nil queue))
      (requested-Valid l.net.rx queue reqbuf (r, some i) v req),
  inl refl,
  refl,
  refl,
  refl,
)

blocked :
    (prefix : ℕ) (again : Link → Event → Outcome (Link × Event)) (l : Link) (ev : Event)
    (queue : List (List ℕ)) (got : Ring × Option ℕ)
    → Valid l.net.rx queue
    → Requested l.net.rx queue reqbuf got
    → readable l.net.rx + 2 * (16 + pad reqbuf) ≤ l.net.rx.size
    → got.0.rsvd ≤ l.net.rx.size
    → with_space (λ m i. passed_on again m ev (recv_body prefix i m.net.rx came_blocks)) l ev got
      ≡ fault
unfolding write_advance
blocked prefix again l ev queue (r, none) v (at, full) space bound =
    absurd (omega (arith, full, space))
blocked prefix again l ev queue (r, some i) v req space bound =
    let large : leb minus_one r.rsvd ≡ false = ground (arith, bound, v.small) in rw large refl

module _ (lost shut : Link → Link) where
  -- Let the ring buffer hold a queue, and let `recv` give whole frames with a prefix, of at most 1024 bytes
  -- each, and then block. Then the loop that receives returns without an access out of the array, and the
  -- packets stand in their order behind the queue: all of them, or the first ones when less than twice the
  -- sum of sixteen and 1024 bytes are free. Of the connection nothing but the ring buffer is changed: neither
  -- the other ring buffer, nor what was sent, nor the peer.
  pub recv_prefix-Took :
      (packets : List (List ℕ)) (l : Link) (ev : Event) (queue : List (List ℕ))
      → Valid l.net.rx queue
      → Requestable packets
      → TookBodies packets l queue (recv_prefix lost shut (prefixed packets) l ev)
  unfolding recv_prefix
  recv_prefix-Took [] l ev queue v fit =
      nothing-Took l ev queue (write_request_max l.net.rx reqbuf) v
        (write_request_max_lem l.net.rx queue reqbuf v (omega arith))
  recv_prefix-Took (packet ∷ packets) l ev queue v fit = rw (prefix_lem (length packet) fit.0) (
      with_space-Took packet packets fit.0 (recv_prefix lost shut (prefixed packets))
        (λ m e q w. recv_prefix-Took packets m e q w fit.1) l ev queue
        (write_request_max l.net.rx reqbuf) v
        (write_request_max_lem l.net.rx queue reqbuf v (omega arith)))

  -- Let the ring buffer hold a queue and have space for a request. When four bytes of a prefix have come and
  -- `recv` would block for the bytes of the packet, its result -1 is passed on as a number of bytes, and the
  -- assertion of `varchunk_write_advance` fails.
  pub recv_prefix-blocks :
      (prefix : ℕ) (answers : List Came) (l : Link) (ev : Event) (queue : List (List ℕ))
      → Valid l.net.rx queue
      → readable l.net.rx + 2 * (16 + pad reqbuf) ≤ l.net.rx.size
      → recv_prefix lost shut (came (be32 prefix) ∷ came_blocks ∷ answers) l ev ≡ fault
  unfolding recv_prefix
  recv_prefix-blocks prefix answers l ev queue v space =
      blocked prefix (recv_prefix lost shut answers) l ev queue (write_request_max l.net.rx reqbuf)
        v (write_request_max_lem l.net.rx queue reqbuf v (omega arith)) space
        (write_request_max-reserved l.net.rx queue reqbuf v (omega arith))
