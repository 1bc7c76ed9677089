-- ===== src/Packet/Total.antt =====
-- `_handle_osc_packet` returns, for packets that the reader accepts.
use osc2ftdidmx.Base.{
  ℕ, zero, suc, ◌+◌, ◌<◌, ◌≡◌, refl, true, false, some, List, [], ◌∷◌, ◌++◌, ◌==◌, length, take,
  arith, Outcome, ok, Bool-cases, inl, inr, sym, subst,
}
use osc2ftdidmx.Osc.Args.{Value}
use osc2ftdidmx.Dispatch.Refine.{Reads}
use osc2ftdidmx.Dispatch.Grid.{GridValid}
use osc2ftdidmx.Dispatch.Message.{handle_osc_message_lem}
use osc2ftdidmx.Sched.{Sched, to_timespec}
use osc2ftdidmx.Sched.Laws.{NoFraction, sched_append-fifo, tv_nsec-to_timespec}
use osc2ftdidmx.Packet.{
  Item, PacketOps, App, immediate, sizeof_sched, with_state, deliver, schedule, handle_message,
  handle_items, handle_osc_packet,
}
use osc2ftdidmx.Packet.Laws.{NoFraction-append}

module _ (Good : List ℕ → ℕ → Type 0) where
  -- The items of a bundle of `n` bytes lie inside of it and are well-formed in turn.
  abbrev pub ItemsFit : ℕ → List Item → Type 0
  ItemsFit n [] = Unit
  ItemsFit n (itm ∷ items) = (length itm.body < n) × Good itm.body itm.size × ItemsFit n items

  -- What the reader finds in a packet that is `Good`: a bundle has items that fit, and a message has a
  -- type string and arguments that come to an end. Only the `len` bytes of the packet count.
  pub record WellFormed {R A : Type 0} (o : PacketOps R A) : Type 0 where
    pub bundles :
        (buf : List ℕ) (len : ℕ)
        → Good buf len
        → o.is_bundle (o.initialize buf len) ≡ true
        → ItemsFit (length buf) (o.bundle_items (o.initialize buf len) len)
    pub messages :
        (buf : List ℕ) (len : ℕ)
        → Good buf len
        → o.is_message (o.initialize buf len) ≡ true
        → (r : R) × (a : A) × (vs : List Value) × (o.args.message_begin (o.initialize buf len) len
            ≡ (r, some a))
          × Reads o.args r (some a) vs
    pub copies :
        (buf : List ℕ) (len : ℕ)
        → Good buf len
        → o.is_bundle (o.initialize buf len) ≡ false
        → Good (take len buf) len × (o.is_bundle (o.initialize (take len buf) len) ≡ false)

module _ {R A : Type 0} (o : PacketOps R A) (Good : List ℕ → ℕ → Type 0) where
  -- A scheduled packet is `Good` and no bundle.
  abbrev pub Schedulable : Sched → Type 0
  Schedulable e = Good e.buf e.len × (o.is_bundle (o.initialize e.buf e.len) ≡ false)

  abbrev pub AllSchedulable : List Sched → Type 0
  AllSchedulable [] = Unit
  AllSchedulable (e ∷ list) = Schedulable e × AllSchedulable list

  -- The slots are valid, no scheduled time has nanoseconds, and the scheduled packets are messages that
  -- the reader accepts.
  pub record AppValid (app : App R A) : Type 0 where
    pub grid : GridValid app.state.slots
    pub no_fraction : NoFraction app.list
    pub schedulable : AllSchedulable app.list

  AllSchedulable-append :
      (xs : List Sched) (e : Sched)
      → AllSchedulable xs
      → Schedulable e
      → AllSchedulable (xs ++ (e ∷ []))
  AllSchedulable-append [] e h k = (k, tt)
  AllSchedulable-append (x ∷ xs) e h k = (h.0, AllSchedulable-append xs e h.1 k)

module _ {R A : Type 0} (o : PacketOps R A) (Good : List ℕ → ℕ → Type 0)
    (formed : WellFormed Good o) where
  abbrev pub Handled : Outcome (App R A) → Type 0
  Handled result = (next : App R A) × (result ≡ ok next) × AppValid o Good next

  deliver-Handled :
      (app : App R A) (buf : List ℕ) (len : ℕ)
      → Good buf len
      → o.is_message (o.initialize buf len) ≡ true
      → AppValid o Good app
      → Handled (deliver o app (o.initialize buf len) len)
  unfolding deliver with_state
  deliver-Handled app buf len good m valid =
      let reader : R = o.initialize buf len in
      let (r, a, vs, begins, reads) = formed.messages buf len good m in
      let (next, e, grid, shows) =
        handle_osc_message_lem o.args o.pattern_match app.state reader r len a vs valid.grid begins
          reads in
      (
        record app { state = next },
        rw e refl,
        record { grid = grid; no_fraction = valid.no_fraction; schedulable = valid.schedulable },
      )

  schedule-AppValid :
      (app : App R A) (timetag : ℕ) (buf : List ℕ) (len : ℕ)
      → Good buf len
      → o.is_bundle (o.initialize buf len) ≡ false
      → AppValid o Good app
      → AppValid o Good (schedule o app timetag buf len)
  unfolding schedule
  schedule-AppValid app timetag buf len good b valid =
      elim (Bool-cases (o.malloc_ok app.mallocs (sizeof_sched + len))) [
        | inl given ↦
            let e : Sched = record { to = to_timespec timetag; len = len; buf = take len buf } in
            rw given (record {
              grid = valid.grid;
              no_fraction =
                  subst NoFraction (sym (sched_append-fifo app.list e valid.no_fraction))
                    (NoFraction-append app.list e valid.no_fraction (tv_nsec-to_timespec timetag));
              schedulable =
                  subst (AllSchedulable o Good)
                    (sym (sched_append-fifo app.list e valid.no_fraction))
                    (AllSchedulable-append o Good app.list e valid.schedulable
                      (formed.copies buf len good b));
            })
        | inr refused ↦ rw refused (record {
          grid = valid.grid;
          no_fraction = valid.no_fraction;
          schedulable = valid.schedulable;
        })
      ]

  handle_message-Handled :
      (app : App R A) (timetag : ℕ) (buf : List ℕ) (len : ℕ)
      → Good buf len
      → o.is_bundle (o.initialize buf len) ≡ false
      → o.is_message (o.initialize buf len) ≡ true
      → AppValid o Good app
      → Handled (handle_message o app (o.initialize buf len) timetag buf len)
  unfolding handle_message
  handle_message-Handled app timetag buf len good b m valid =
      elim (Bool-cases (timetag == immediate)) [
        | inl now ↦ rw now (deliver-Handled app buf len good m valid)
        | inr later ↦ rw later (
          schedule o app timetag buf len,
          refl,
          schedule-AppValid app timetag buf len good b valid,
        )
      ]

  handle_items-Handled :
      (n : ℕ) (handle : App R A → ℕ → List ℕ → ℕ → Outcome (App R A))
      → ((app : App R A) (timetag : ℕ) (buf : List ℕ) (len : ℕ)
          → length buf < n
          → Good buf len
          → AppValid o Good app
          → Handled (handle app timetag buf len))
      → (items : List Item) (app : App R A) → ItemsFit Good n items
      → AppValid o Good app
      → Handled (handle_items o handle items app)
  unfolding handle_items
  handle_items-Handled n handle each [] app fit valid = (app, refl, valid)
  handle_items-Handled n handle each (itm ∷ items) app fit valid =
      let (mid, e, valid') = each app itm.timetag itm.body itm.size fit.0 fit.1 valid in
      let (next, e', valid'') = handle_items-Handled n handle each items mid fit.2 valid' in
      (next, rw e e', valid'')

  -- In a valid state, on a packet that the reader accepts and with fuel above its length,
  -- `_handle_osc_packet` returns and keeps the state valid:
  -- bundles may be nested as they like.
  pub handle_osc_packet_total :
      (fuel : ℕ) (app : App R A) (timetag : ℕ) (buf : List ℕ) (len : ℕ)
      → length buf < fuel
      → Good buf len
      → AppValid o Good app
      → Handled (handle_osc_packet o fuel app timetag buf len)
  unfolding handle_osc_packet
  handle_osc_packet_total zero app timetag buf len h good valid = absurd (omega arith)
  handle_osc_packet_total (suc fuel) app timetag buf len h good valid =
      let reader : R = o.initialize buf len in
      elim (Bool-cases (o.is_bundle reader)) [
        | inl b ↦ rw b (
            handle_items-Handled (length buf) (handle_osc_packet o fuel)
              (λ next tag body size below good_body ok_app.
                handle_osc_packet_total fuel next tag body size (omega arith) good_body ok_app)
              (o.bundle_items reader len) app (formed.bundles buf len good b) valid)
        | inr b ↦ rw b (elim (Bool-cases (o.is_message reader)) [
          | inl m ↦ rw m (handle_message-Handled app timetag buf len good b m valid)
          | inr m ↦ rw m (app, refl, valid)
        ])
      ]
