-- ===== src/Beat/Drain.antt =====
-- Which scheduled messages a round handles.
use osc2ftdidmx.Base.{
  ℕ, ◌+◌, ◌≡◌, refl, List, [], ◌∷◌, arith, ok, Outcome, ◌>>=◌, zero, suc, ◌<◌, false, subst, sym,
  ap, ◌∙◌, drop, if◌then◌else◌, Bool-cases, inl, inr, length,
}
use osc2ftdidmx.Sched.{Timespec, Sched, is_before}
use osc2ftdidmx.Sched.Laws.{NoFraction}
use osc2ftdidmx.Packet.{PacketOps, App, immediate}
use osc2ftdidmx.Packet.Laws.{handle_osc_packet-immediate}
use osc2ftdidmx.Packet.Total.{
  WellFormed, AllSchedulable, AppValid, Handled, handle_osc_packet_total,
}
use osc2ftdidmx.Beat.{Chunk, handle, drain_chunks, drain_list, with_list}

-- The messages up to the first that is not due, and the rest.
abbrev pub due : Timespec → List Sched → List Sched
due to [] = []
due to (e ∷ list) = if is_before to e.to then [] else e ∷ due to list

abbrev pub not_due : Timespec → List Sched → List Sched
not_due to [] = []
not_due to (e ∷ list) = if is_before to e.to then e ∷ list else not_due to list

module _ {R A : Type 0} (o : PacketOps R A) (Good : List ℕ → ℕ → Type 0)
    (formed : WellFormed Good o) where
  abbrev pub ChunksGood : List Chunk → Type 0
  ChunksGood [] = Unit
  ChunksGood (c ∷ chunks) = Good c.buf c.len × ChunksGood chunks

  handle-Handled :
      (app : App R A) (buf : List ℕ) (len : ℕ)
      → Good buf len
      → AppValid o Good app
      → Handled o Good formed (handle o app buf len)
  unfolding handle
  handle-Handled app buf len good valid =
      handle_osc_packet_total o Good formed (length buf + 1) app immediate buf len (omega arith)
        good valid

  -- All packets of the ring buffer are handled, if the reader accepts them.
  pub drain_chunks_total :
      (chunks : List Chunk) (app : App R A)
      → ChunksGood chunks
      → AppValid o Good app
      → Handled o Good formed (drain_chunks o chunks app)
  unfolding drain_chunks
  drain_chunks_total [] app good valid = (app, refl, valid)
  drain_chunks_total (c ∷ chunks) app good valid =
      let (mid, e, valid') = handle-Handled app c.buf c.len good.0 valid in
      let (next, e', valid'') = drain_chunks_total chunks mid good.1 valid' in
      (next, rw e e', valid'')

  drain_list_step :
      (fuel : ℕ) (to : Timespec) (e : Sched) (list : List Sched) (app next : App R A)
      → app.list ≡ e ∷ list
      → is_before to e.to ≡ false
      → handle o app e.buf e.len ≡ ok next
      → drain_list o (suc fuel) to app ≡ drain_list o fuel to (with_list o next (drop 1 next.list))
  unfolding drain_list
  drain_list_step fuel to e list app next l now handled =
      let turn : List Sched → Outcome (App R A) = λ xs. elim xs [
        | [] ↦ ok app
        | elmnt ∷ rest ↦
            (if is_before to elmnt.to
              then ok app
              else (handle o app elmnt.buf elmnt.len >>= λ mid.
                  drain_list o fuel to (with_list o mid (drop 1 mid.list))))
      ] in
      ap turn l ∙ rw (now, handled) refl

  drain_list_from :
      (to : Timespec) (fuel : ℕ) (app : App R A) (list : List Sched)
      → app.list ≡ list
      → length list < fuel
      → AppValid o Good app
      → (next : App R A) × (drain_list o fuel to app ≡ ok next)
        × AppValid o Good next
        × (next.list ≡ not_due to list)
  unfolding drain_list with_list
  drain_list_from to zero app list l h valid = absurd (omega arith)
  drain_list_from to (suc fuel) app [] l h valid = (app, rw l refl, valid, l)
  drain_list_from to (suc fuel) app (e ∷ list) l h valid = elim (Bool-cases (is_before to e.to)) [
    | inl early ↦ rw early (app, rw (l, early) refl, valid, l)
    | inr now ↦
        let all : AllSchedulable o Good (e ∷ list) =
          subst (AllSchedulable o Good) l valid.schedulable in
        let none_frac : NoFraction (e ∷ list) = subst NoFraction l valid.no_fraction in
        let (mid, same, mid_valid) = handle-Handled app e.buf e.len all.0.0 valid in
        let kept : mid.list ≡ e ∷ list =
          (handle_osc_packet-immediate o (length e.buf + 1) app mid e.buf e.len all.0.1
            (unfold handle in same)).0
          ∙ l in
        let rest : drop 1 mid.list ≡ list = ap (drop 1) kept in
        let (next, ends, next_valid, left) =
          drain_list_from to fuel (with_list o mid (drop 1 mid.list)) list rest (omega arith)
            (record {
              grid = mid_valid.grid;
              no_fraction = subst NoFraction (sym rest) none_frac.1;
              schedulable = subst (AllSchedulable o Good) (sym rest) all.1;
            }) in
        rw now (next, drain_list_step fuel to e list app mid l now same ∙ ends, next_valid, left)
  ]

  -- In a valid state and with more fuel than messages, the loop over the scheduled messages ends
  -- and keeps the state valid. It takes the messages up to the first one that is not due off the
  -- list, and leaves that one and all behind it, due or not.
  pub drain_list_total :
      (fuel : ℕ) (to : Timespec) (app : App R A)
      → length app.list < fuel
      → AppValid o Good app
      → (next : App R A) × (drain_list o fuel to app ≡ ok next)
        × AppValid o Good next
        × (next.list ≡ not_due to app.list)
  drain_list_total fuel to app h valid = drain_list_from to fuel app app.list refl h valid
