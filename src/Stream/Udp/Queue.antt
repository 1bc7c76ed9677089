-- ===== src/Stream/Udp/Queue.antt =====
-- The datagrams that arrive lie in the ring buffer, in order.
use mathlib.Core.List.{append_assoc, append-nil}
use osc2ftdidmx.Base.{
  ℕ, zero, suc, ◌+◌, ◌*◌, ◌<◌, ◌≤◌, ◌≡◌, ◌⊎◌, inl, inr, sym, ap, refl, subst, true, Option, none,
  some, List, [], ◌∷◌, ◌++◌, take, length, arith, Outcome, ok,
}
use osc2ftdidmx.Varchunk.{Ring, pad, readable, reserve, write_request_max}
use osc2ftdidmx.Varchunk.Valid.{Valid}
use osc2ftdidmx.Varchunk.Write.{Requested, reserve-Valid, write_request_max_lem}
use osc2ftdidmx.Varchunk.Commit.{write_advance_lem}
use osc2ftdidmx.Stream.{Event, with_errno, reqbuf, Net}
use osc2ftdidmx.Stream.Udp.{
  Received, datagram, recv_blocks, recv_fails, Receipt, recv_into, recv_all,
}

-- The datagrams that come before an empty one, an error and the end.
abbrev pub arrivals : List Received → List (List ℕ)
arrivals [] = []
arrivals (datagram from [] ∷ answers) = []
arrivals (datagram from (b ∷ bytes) ∷ answers) = (b ∷ bytes) ∷ arrivals answers
arrivals (recv_blocks ∷ answers) = []
arrivals (recv_fails errno ∷ answers) = []

-- No datagram is longer than what the receiver asks for.
abbrev pub Small : Received → Type 0
Small (datagram from bytes) = length bytes ≤ reqbuf
Small _ = Unit

abbrev pub AllSmall : List Received → Type 0
AllSmall [] = Unit
AllSmall (answer ∷ answers) = Small answer × AllSmall answers

-- Some of the datagrams were taken, in order; all of them, unless there is no space.
abbrev pub Took : List Received → Net → List (List ℕ) → Outcome Receipt → Type 0
Took answers net queue o =
    (next : Net) × (ev : Event) × (unread : List Received) × (taken : List (List ℕ)) × (left : List
      (List ℕ))
    × (o ≡ ok (next, ev, unread))
    × (arrivals answers ≡ taken ++ left)
    × Valid next.rx (queue ++ taken)
    × ((left ≡ []) ⊎ (next.rx.size < readable next.rx + 2 * (16 + pad reqbuf)))
    × (next.tx ≡ net.tx)
    × (next.output ≡ net.output)

pub take-all : (n : ℕ) (xs : List ℕ) → length xs ≤ n → take n xs ≡ xs
take-all zero [] h = refl
take-all zero (x ∷ xs) h = absurd (omega arith)
take-all (suc n) [] h = refl
take-all (suc n) (x ∷ xs) h = ap (λ t. x ∷ t) (take-all n xs (omega arith))

pub readable-reserve : (r : Ring) → readable (reserve r 0 0) ≡ readable r
unfolding readable
readable-reserve r = refl

stop-Took :
    (answers unread : List Received) (net : Net) (rx : Ring) (ev : Event) (queue : List (List ℕ))
    → arrivals answers ≡ []
    → Valid rx queue
    → Took answers net queue (ok (record net { rx = rx }, ev, unread))
stop-Took answers unread net rx ev queue none_left v = (
  record net { rx = rx },
  ev,
  unread,
  [],
  [],
  refl,
  none_left,
  subst (Valid rx) (sym (append-nil queue)) v,
  inl refl,
  refl,
  refl,
)

pub requested-Valid :
    (r : Ring) (queue : List (List ℕ)) (n : ℕ) (got : Ring × Option ℕ)
    → Valid r queue
    → Requested r queue n got
    → Valid got.0 queue
requested-Valid r queue n (s, none) v (at, full) =
    subst (λ q. Valid q queue) (sym at) (reserve-Valid r queue 0 0 v)
requested-Valid r queue n (s, some i) v (pending, at) = pending.valid

module _ (answers : List Received)
    (again : (net : Net) (ev : Event) (queue : List (List ℕ))
      → Valid net.rx queue
      → Took answers net queue (recv_all answers net ev)) where
  recv_into-Took :
      (answer : Received) (net : Net) (ev : Event) (queue : List (List ℕ)) (got : Ring × Option ℕ)
      → Small answer
      → Valid net.rx queue
      → Requested net.rx queue reqbuf got
      → Took (answer ∷ answers) net queue (recv_into (recv_all answers) answer answers net ev got)
  recv_into-Took answer net ev queue (r, none) small v (at, full) = (
    record net { rx = r },
    ev,
    answer ∷ answers,
    [],
    arrivals (answer ∷ answers),
    refl,
    refl,
    subst (Valid r) (sym (append-nil queue))
        (requested-Valid net.rx queue reqbuf (r, none) v (at, full)),
    inr (
        subst (λ q. q.size < readable q + 2 * (16 + pad reqbuf)) (sym at)
          (subst (λ k. net.rx.size < k + 2 * (16 + pad reqbuf)) (sym (readable-reserve net.rx))
            full)),
    refl,
    refl,
  )
  recv_into-Took (datagram from []) net ev queue (r, some i) small v (p, at) =
      stop-Took (datagram from [] ∷ answers) answers net r ev queue refl p.valid
  recv_into-Took recv_blocks net ev queue (r, some i) small v (p, at) =
      stop-Took (recv_blocks ∷ answers) answers net r ev queue refl p.valid
  recv_into-Took (recv_fails errno) net ev queue (r, some i) small v (p, at) =
      stop-Took (recv_fails errno ∷ answers) answers net r (with_errno ev errno) queue refl p.valid
  recv_into-Took (datagram from (b ∷ bytes)) net ev queue (r, some i) small v (p, at) =
      let c : List ℕ = b ∷ bytes in
      let whole : take r.rsvd c ≡ c = take-all r.rsvd c (omega (arith, p.reserved, small)) in
      let (s, u, stored, passed, valid, kept) = write_advance_lem r queue reqbuf i c p small in
      let (next, more_ev, unread, taken, left, returns, split, holds, all, tx, output) =
        again (record net { rx = u; peer = some from }) (record ev { recv = true })
          (queue ++ (c ∷ [])) valid in
      (
        next,
        more_ev,
        unread,
        c ∷ taken,
        left,
        rw (whole, stored, passed) returns,
        ap (λ t. c ∷ t) split,
        subst (Valid next.rx) (append_assoc queue (c ∷ []) taken) holds,
        all,
        tx,
        output,
      )

-- Let the ring buffer hold a queue, and let no datagram be longer than 1024 bytes. Then the loop that receives
-- returns without an access out of the array. The datagrams that come before an empty one, an error and the
-- end then stand behind the queue, whole and in their order: all of them, or the first ones when less than
-- twice the bytes that a request takes are free; and the ring buffer `tx` and the output are as before.
pub recv_all-Took :
    (answers : List Received) (net : Net) (ev : Event) (queue : List (List ℕ))
    → Valid net.rx queue
    → AllSmall answers
    → Took answers net queue (recv_all answers net ev)
unfolding recv_all
recv_all-Took [] net ev queue v small =
    stop-Took [] [] net (write_request_max net.rx reqbuf).0 ev queue refl (
      requested-Valid net.rx queue reqbuf (write_request_max net.rx reqbuf) v
        (write_request_max_lem net.rx queue reqbuf v (omega arith)))
recv_all-Took (answer ∷ answers) net ev queue v small =
    recv_into-Took answers (λ m e q w. recv_all-Took answers m e q w small.1) answer net ev queue
      (write_request_max net.rx reqbuf) small.0 v
      (write_request_max_lem net.rx queue reqbuf v (omega arith))
