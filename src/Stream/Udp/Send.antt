-- ===== src/Stream/Udp/Send.antt =====
-- The chunks of the other ring buffer are sent, and a whole run of a stream over UDP.
use mathlib.Core.List.{append_assoc, append-nil}
use osc2ftdidmx.Base.{
  ℕ, ◌+◌, ◌*◌, ◌<◌, ◌≡◌, ◌⊎◌, ◌∙◌, sym, ap, refl, subst, true, Option, none, some, List, [], ◌∷◌,
  ◌++◌, Outcome, ok, ◌>>=◌,
}
use osc2ftdidmx.Varchunk.{Ring, readable, pad, read_request, read_advance}
use osc2ftdidmx.Varchunk.Valid.{Valid}
use osc2ftdidmx.Varchunk.Read.{read_request_empty, read_request_lem, read_advance_lem}
use osc2ftdidmx.Stream.{
  Event, no_event, with_errno, reqbuf, Sent, all_sent, send_blocks, some_sent, send_fails, Net,
}
use osc2ftdidmx.Stream.Udp.{eio, Received, after_send, send_chunk, send_all, recv_all, run_udp}
use osc2ftdidmx.Stream.Udp.Queue.{arrivals, AllSmall, recv_all-Took}

-- Some chunks of the queue were sent, in order, and the others are kept.
abbrev pub Gave : Net → List (List ℕ) → Outcome (Net × Event) → Type 0
Gave net queue o =
    (next : Net) × (ev : Event) × (gone : List (List ℕ)) × (kept : List (List ℕ)) × (o
      ≡ ok (next, ev))
    × (queue ≡ gone ++ kept)
    × (next.output ≡ net.output ++ gone)
    × Valid next.tx kept
    × (next.rx ≡ net.rx)
    × (next.peer ≡ net.peer)

stop-Gave :
    (net : Net) (tx : Ring) (ev : Event) (queue : List (List ℕ))
    → Valid tx queue
    → Gave net queue (ok (record net { tx = tx }, ev))
stop-Gave net tx ev queue v =
    (record net { tx = tx }, ev, [], queue, refl, refl, sym (append-nil net.output), v, refl, refl)

module _ (again : Net → Event → Outcome (Net × Event))
    (gives : (net : Net) (ev : Event) (queue : List (List ℕ))
      → Valid net.tx queue
      → Gave net queue (again net ev)) where
  after_send-Gave :
      (net : Net) (ev : Event) (c : List ℕ) (queue : List (List ℕ)) (tx s : Ring) (answer : Sent)
      → Valid tx (c ∷ queue)
      → read_advance tx ≡ ok s
      → Valid s queue
      → Gave net (c ∷ queue) (after_send again (record net { tx = tx }) ev c answer)
  after_send-Gave net ev c queue tx s all_sent v advanced after =
      let (next, more, gone, kept, returns, split, output, holds, rx, peer) =
        gives (record net { tx = s; output = net.output ++ (c ∷ []) }) (record ev { send = true })
          queue after in
      (
        next,
        more,
        c ∷ gone,
        kept,
        rw advanced returns,
        ap (λ t. c ∷ t) split,
        output ∙ append_assoc net.output (c ∷ []) gone,
        holds,
        rx,
        peer,
      )
  after_send-Gave net ev c queue tx s send_blocks v advanced after =
      stop-Gave net tx ev (c ∷ queue) v
  after_send-Gave net ev c queue tx s some_sent v advanced after =
      stop-Gave net tx (with_errno ev eio) (c ∷ queue) v
  after_send-Gave net ev c queue tx s (send_fails errno) v advanced after =
      stop-Gave net tx (with_errno ev errno) (c ∷ queue) v

  send_chunk-Gave :
      (answer : Sent) (net : Net) (ev : Event) (queue : List (List ℕ))
      → Valid net.tx queue
      → Gave net queue (read_request net.tx >>= send_chunk again answer net ev)
  send_chunk-Gave answer net ev [] v =
      rw (read_request_empty net.tx v) (stop-Gave net net.tx ev [] v)
  send_chunk-Gave answer net ev (c ∷ queue) v =
      let (t, given, front, less) = read_request_lem net.tx c queue v in
      let tx : Ring = record net.tx { tail = t } in
      let (s, advanced, after, fewer, moved) = read_advance_lem tx c queue front in
      rw (given, front.chunk.body)
        (after_send-Gave net ev c queue tx s answer front.valid advanced after)

send_all-Gave :
    (answers : List Sent) (net : Net) (ev : Event) (queue : List (List ℕ))
    → Valid net.tx queue
    → Gave net queue (send_all answers net ev)
unfolding send_all
send_all-Gave [] net ev [] v = rw (read_request_empty net.tx v) (stop-Gave net net.tx ev [] v)
send_all-Gave [] net ev (c ∷ queue) v =
    let (t, given, front, less) = read_request_lem net.tx c queue v in
    rw given (stop-Gave net (record net.tx { tail = t }) ev (c ∷ queue) front.valid)
send_all-Gave (answer ∷ answers) net ev queue v =
    send_chunk-Gave (send_all answers) (λ m e q w. send_all-Gave answers m e q w) answer net ev
      queue v

send_first :
    (sends : List Sent) (net : Net) (queue : List (List ℕ)) (peer : Option ℕ)
    → Valid net.tx queue
    → Gave net queue (elim peer as (λ _. Outcome (Net × Event)) [
      | none ↦ ok (net, no_event)
      | some address ↦ send_all sends net no_event
    ])
send_first sends net queue none v = stop-Gave net net.tx no_event queue v
send_first sends net queue (some address) v = send_all-Gave sends net no_event queue v

-- Let both ring buffers hold queues, and let no datagram be longer than 1024 bytes. Then
-- `_lv2_osc_stream_run_udp` returns without an access out of an array. The first chunks of `tx`, some or none,
-- were put out in their order and the others are still there; and of the datagrams that come before an empty
-- one, an error and the end, all stand in their order behind the queue of `rx`, or the first ones when less than
-- twice the bytes that a request takes are free.
pub run_udp_lem :
    (sends : List Sent) (answers : List Received) (net : Net) (out queue : List (List ℕ))
    → Valid net.tx out
    → Valid net.rx queue
    → AllSmall answers
    → (next : Net) × (ev : Event) × (unread : List Received) × (gone : List (List ℕ)) × (kept : List
        (List ℕ))
      × (taken : List (List ℕ)) × (left : List (List ℕ)) × (run_udp sends answers net
          ≡ ok (next, ev, unread))
      × (out ≡ gone ++ kept)
      × (next.output ≡ net.output ++ gone)
      × Valid next.tx kept
      × (arrivals answers ≡ taken ++ left)
      × Valid next.rx (queue ++ taken)
      × ((left ≡ []) ⊎ (next.rx.size < readable next.rx + 2 * (16 + pad reqbuf)))
unfolding run_udp
run_udp_lem sends answers net out queue vt vr small =
    let (mid, mid_ev, gone, kept, sent, split, output, holds, rx, peer) =
      send_first sends net out net.peer vt in
    let (next, ev, unread, taken, left, received, parts, valid, all, tx, same) =
      recv_all-Took answers mid mid_ev queue (subst (λ r. Valid r queue) (sym rx) vr) small in
    (
      next,
      ev,
      unread,
      gone,
      kept,
      taken,
      left,
      ap (λ o. o >>= λ (s : Net × Event). recv_all answers s.0 s.1) sent ∙ received,
      split,
      same ∙ output,
      subst (λ r. Valid r kept) (sym tx) holds,
      parts,
      valid,
      all,
    )
