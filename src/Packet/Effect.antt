-- ===== src/Packet/Effect.antt =====
-- What a packet says to the grid of channels and priorities, when all of its messages are immediate,
-- and that `_handle_osc_packet` does it.
use osc2ftdidmx.Base.{
  ℕ, zero, suc, ◌<◌, ◌≡◌, ◌∙◌, sym, refl, ap, subst, Option, true, false, none, some, List, [], ◌∷◌,
  ◌++◌, ◌⊎◌, inl, inr, drop, arith, Outcome, ok,
}
use osc2ftdidmx.Osc.Tree.{walk}
use osc2ftdidmx.Osc.Args.{Value}
use osc2ftdidmx.Dispatch.Tables.{tree_root}
use osc2ftdidmx.Dispatch.Spec.{Assign, targets, spread}
use osc2ftdidmx.Dispatch.Refine.{Reads}
use osc2ftdidmx.Dispatch.Grid.{GridValid, grid_view, final}
use osc2ftdidmx.Dispatch.Message.{handle_osc_message_lem}
use osc2ftdidmx.Packet.{
  Item, PacketOps, App, immediate, with_state, deliver, handle_message, handle_items,
  handle_osc_packet,
}

pub final-append :
    (xs ys : List Assign) (c p : ℕ) (cur : Option ℕ)
    → final (xs ++ ys) c p cur ≡ final ys c p (final xs c p cur)
unfolding final
final-append [] ys c p cur = refl
final-append (a ∷ xs) ys c p cur = final-append xs ys c p _

module _ {R A : Type 0} (o : PacketOps R A) where
  -- A message with a type string and arguments that end says to deal the arguments out.
  abbrev pub SaysMessage : List ℕ → ℕ → List Assign → Type 0
  SaysMessage buf len xs =
      (r : R) × (a : A) × (vs : List Value) × (o.args.message_begin (o.initialize buf len) len
        ≡ (r, some a))
      × Reads o.args r (some a) vs
      × (xs
          ≡ spread vs none
              (targets (walk o.pattern_match tree_root 0 (drop 1 (o.args.arg_path a))) 0))

  -- The items of a bundle say what they say one after the other.
  abbrev pub SaysItems : (ℕ → List ℕ → ℕ → List Assign → Type 0) → List Item → List Assign → Type 0
  SaysItems says [] xs = xs ≡ []
  SaysItems says (itm ∷ items) xs =
      (here : List Assign) × (rest : List Assign) × (xs ≡ here ++ rest)
      × says itm.timetag itm.body itm.size here
      × SaysItems says items rest

  -- The packet says these assignments: a bundle what its items say, an immediate message what it deals
  -- out, anything else nothing. Bundles are nested less deep than the first number.
  abbrev pub Says : ℕ → ℕ → List ℕ → ℕ → List Assign → Type 0
  Says zero timetag buf len xs = zero ≡ suc zero
  Says (suc depth) timetag buf len xs =
      ((o.is_bundle (o.initialize buf len) ≡ true)
        × SaysItems (Says depth) (o.bundle_items (o.initialize buf len) len) xs)
      ⊎ (((o.is_bundle (o.initialize buf len) ≡ false)
            × (o.is_message (o.initialize buf len) ≡ true)
            × (timetag ≡ immediate)
            × SaysMessage buf len xs)
          ⊎ ((o.is_bundle (o.initialize buf len) ≡ false)
              × (o.is_message (o.initialize buf len) ≡ false)
              × (xs ≡ [])))

  -- The result has done the assignments and nothing else.
  pub record Does (app : App R A) (xs : List Assign) (result : Outcome (App R A)) : Type 0 where
    pub next : App R A
    pub returns : result ≡ ok next
    pub grid : GridValid next.state.slots
    pub same_list : next.list ≡ app.list
    pub shows :
        (c p : ℕ)
        → p < 32
        → grid_view next.state.slots c p ≡ final xs c p (grid_view app.state.slots c p)

  pub nothing-Does : (app : App R A) → GridValid app.state.slots → Does app [] (ok app)
  unfolding final
  nothing-Does app grid = record {
    next = app;
    returns = refl;
    grid = grid;
    same_list = refl;
    shows = λ c p h. refl;
  }

  handle_message-Does :
      (app : App R A) (buf : List ℕ) (len : ℕ) (xs : List Assign)
      → GridValid app.state.slots
      → SaysMessage buf len xs
      → Does app xs (handle_message o app (o.initialize buf len) immediate buf len)
  unfolding handle_message deliver with_state
  handle_message-Does app buf len xs grid says =
      let (r, a, vs, begins, reads, deals) = says in
      let (next, e, valid, shows) =
        handle_osc_message_lem o.args o.pattern_match app.state (o.initialize buf len) r len a vs
          grid begins reads in
      record {
        next = record app { state = next };
        returns = rw e refl;
        grid = valid;
        same_list = refl;
        shows = λ c p h.
            shows c p h ∙ ap (λ x. final x c p (grid_view app.state.slots c p)) (sym deals);
      }

  handle_items-Does :
      (says : ℕ → List ℕ → ℕ → List Assign → Type 0)
      (handle : App R A → ℕ → List ℕ → ℕ → Outcome (App R A))
      → ((app : App R A) (timetag : ℕ) (buf : List ℕ) (len : ℕ) (xs : List Assign)
          → GridValid app.state.slots
          → says timetag buf len xs
          → Does app xs (handle app timetag buf len))
      → (items : List Item) (app : App R A) (xs : List Assign) → GridValid app.state.slots
      → SaysItems says items xs
      → Does app xs (handle_items o handle items app)
  unfolding handle_items
  handle_items-Does says handle each [] app xs grid said =
      subst (λ x. Does app x (ok app)) (sym said) (nothing-Does app grid)
  handle_items-Does says handle each (itm ∷ items) app xs grid said =
      let (here, rest, both, first, others) = said in
      let one : Does app here (handle app itm.timetag itm.body itm.size) =
        each app itm.timetag itm.body itm.size here grid first in
      let more : Does one.next rest (handle_items o handle items one.next) =
        handle_items-Does says handle each items one.next rest one.grid others in
      record {
        next = more.next;
        returns = rw one.returns more.returns;
        grid = more.grid;
        same_list = more.same_list ∙ one.same_list;
        shows = λ c p h.
            more.shows c p h
            ∙ ap (final rest c p) (one.shows c p h)
            ∙ sym (final-append here rest c p _)
            ∙ ap (λ x. final x c p (grid_view app.state.slots c p)) (sym both);
      }

  -- On valid slots, when all messages of a packet are immediate and the reader finds their
  -- arguments, `_handle_osc_packet` returns, has done exactly the
  -- assignments that the packet says, one item of a bundle after the other, and schedules
  -- nothing. The fuel is the depth to which bundles are nested.
  pub handle_osc_packet-Does :
      (depth : ℕ) (app : App R A) (timetag : ℕ) (buf : List ℕ) (len : ℕ) (xs : List Assign)
      → GridValid app.state.slots
      → Says depth timetag buf len xs
      → Does app xs (handle_osc_packet o depth app timetag buf len)
  unfolding handle_osc_packet
  handle_osc_packet-Does zero app timetag buf len xs grid says = absurd (omega arith)
  handle_osc_packet-Does (suc depth) app timetag buf len xs grid (inl says) = rw says.0 (
      handle_items-Does (Says depth) (handle_osc_packet o depth)
        (λ next tag body size ys valid said.
          handle_osc_packet-Does depth next tag body size ys valid said)
        (o.bundle_items (o.initialize buf len) len) app xs grid says.1)
  handle_osc_packet-Does (suc depth) app timetag buf len xs grid (inr (inl says)) =
      rw (says.0, says.1, says.2) (handle_message-Does app buf len xs grid says.3)
  handle_osc_packet-Does (suc depth) app timetag buf len xs grid (inr (inr says)) =
      rw (says.0, says.1) (subst (λ x. Does app x (ok app)) (sym says.2) (nothing-Does app grid))
