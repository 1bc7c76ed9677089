-- ===== src/Beat/Round.antt =====
-- A whole round of the output thread, and any number of them.
use osc2ftdidmx.Base.{
  ℕ, ◌/◌, false, ◌+◌, arith, ◌<◌, ◌≡◌, ◌⊎◌, inl, inr, refl, true, some, List, [], ◌∷◌, length,
  get_elem?, ok, ◌==◌, ◌||◌, if◌then◌else◌, ℤ, pos, Bool-cases,
}
use osc2ftdidmx.Sched.{Timespec, nsecs}
use osc2ftdidmx.Packet.{PacketOps}
use osc2ftdidmx.Packet.Total.{WellFormed, AppValid}
use osc2ftdidmx.Ftdi.{Call, write_data, Trace, ftdi_xmit}
use osc2ftdidmx.Ftdi.Device.{opened, device, ftdi_xmit_lem}
use osc2ftdidmx.Beat.{Chunk, Beat, Input, sizeof_dmx, send, round, rounds, step_ns, beat_thread}
use osc2ftdidmx.Beat.Time.{IsAfter, next_beat_lem}
use osc2ftdidmx.Beat.Frame.{level, fill_lem}
use osc2ftdidmx.Beat.Drain.{ChunksGood, drain_chunks_total, drain_list_total}

-- The application's state is valid, the frame has 512 values and the device is open.
pub record BeatValid {R A : Type 0} (o : PacketOps R A) (Good : List ℕ → ℕ → Type 0)
    (beat : Beat R A) : Type 0 where
  pub app_valid : AppValid o Good beat.app
  pub sized : length beat.dmx.values ≡ 512
  pub device_open : device beat.trace ≡ opened

-- The newest call wrote all of the frame of the start code and the 512 channels of the state, each
-- with the value of its highest priority.
pub record Sent {R A : Type 0} (beat : Beat R A) : Type 0 where
  pub older : Trace
  pub written :
      beat.trace
      ≡ record {
        call = write_data (beat.dmx.start_code ∷ beat.dmx.values);
        result = pos sizeof_dmx;
      }
        ∷ older
  pub levels : (c : ℕ) → c < 512 → get_elem? beat.dmx.values c ≡ some (level beat.app.state.slots c)

module _ {R A : Type 0} (o : PacketOps R A) (Good : List ℕ → ℕ → Type 0)
    (formed : WellFormed Good o) (answer : Trace → Call → ℤ) where
  -- What a round gives: the state stays valid, the next round is exactly `step` nanoseconds later, and
  -- the frame was sent or the thread is to end.
  pub record Rounded (step : ℕ) (beat next : Beat R A) : Type 0 where
    pub valid : BeatValid o Good next
    pub in_time : IsAfter beat.to step next.to
    pub in_range : next.to.tv_nsec < nsecs
    pub outcome : (next.done ≡ true) ⊎ Sent next

  send-Rounded :
      (step : ℕ) (beat : Beat R A)
      → BeatValid o Good beat
      → ((c : ℕ) → c < 512 → get_elem? beat.dmx.values c ≡ some (level beat.app.state.slots c))
      → (next : Beat R A) × (send answer step beat ≡ ok next) × Rounded step beat next
  unfolding send
  send-Rounded step beat valid levels =
      let frame : List ℕ = beat.dmx.start_code ∷ beat.dmx.values in
      let r : ℕ = (ftdi_xmit answer frame sizeof_dmx beat.trace).0 in
      let u : Trace = (ftdi_xmit answer frame sizeof_dmx beat.trace).1 in
      let (to, e, range, after) = next_beat_lem step beat.to in
      let (still_open, sent) = ftdi_xmit_lem answer frame sizeof_dmx beat.trace valid.device_open in
      (
        record beat { to = to; done = if r == 0 then beat.done else true; trace = u },
        rw e refl,
        record {
          valid = record {
            app_valid = valid.app_valid;
            sized = valid.sized;
            device_open = still_open;
          };
          in_time = after;
          in_range = range;
          outcome = elim sent [
            | inl s ↦ inr (record { older = _; written = s.1; levels = levels })
            | inr f ↦ inl (rw f refl)
          ];
        },
      )

  -- In a valid state with the device open, and with packets that the reader accepts, a round to
  -- which the thread is woken returns. It keeps the state valid,
  -- computes the time of the next round, and has sent the frame of the new state, unless a call
  -- of libftdi failed and the thread is to end.
  pub round_total :
      (step : ℕ) (chunks : List Chunk) (beat : Beat R A)
      → ChunksGood o Good formed chunks
      → BeatValid o Good beat
      → (next : Beat R A) × (round o answer step true chunks beat ≡ ok next)
        × Rounded step beat next
  unfolding round
  round_total step chunks beat good valid =
      let (mid, e, mid_valid) =
        drain_chunks_total o Good formed chunks beat.app good valid.app_valid in
      let (app, e', app_valid, left) =
        drain_list_total o Good formed (length mid.list + 1) beat.to mid (omega arith) mid_valid in
      let (values, e'', sized, levels) =
        fill_lem app.state.slots app_valid.grid beat.dmx.values valid.sized in
      let filled : Beat R A = record beat {
        app = app;
        dmx = record beat.dmx { values = values };
      } in
      let (next, sends, rounded) =
        send-Rounded step filled
          (record { app_valid = app_valid; sized = sized; device_open = valid.device_open })
          levels in
      (
        next,
        rw (e, e', e'') sends,
        record {
          valid = rounded.valid;
          in_time = rounded.in_time;
          in_range = rounded.in_range;
          outcome = rounded.outcome;
        },
      )

  any_round :
      (step : ℕ) (i : Input) (beat : Beat R A)
      → ChunksGood o Good formed i.chunks
      → BeatValid o Good beat
      → (next : Beat R A) × (round o answer step i.woken i.chunks beat ≡ ok next)
        × BeatValid o Good next
  any_round step i beat good valid = elim (Bool-cases i.woken) [
    | inl woken ↦
        let (next, e, rounded) = round_total step i.chunks beat good valid in
        (next, rw woken e, rounded.valid)
    | inr asleep ↦ (beat, rw asleep (unfold round in refl), valid)
  ]

  abbrev pub InputsGood : List Input → Type 0
  InputsGood [] = Unit
  InputsGood (i ∷ inputs) = ChunksGood o Good formed i.chunks × InputsGood inputs

  -- The thread goes through any number of rounds, with packets that the reader accepts, and leaves the state
  -- valid and the device open for `_ftdi_deinit`.
  pub rounds_total :
      (step : ℕ) (inputs : List Input) (beat : Beat R A)
      → InputsGood inputs
      → BeatValid o Good beat
      → (next : Beat R A) × (rounds o answer step inputs beat ≡ ok next) × BeatValid o Good next
  unfolding rounds
  rounds_total step [] beat good valid = (beat, refl, valid)
  rounds_total step (i ∷ inputs) beat good valid = elim (Bool-cases (beat.done || i.stopped)) [
    | inl over ↦ rw over (
      record beat { done = true },
      refl,
      record { app_valid = valid.app_valid; sized = valid.sized; device_open = valid.device_open },
    )
    | inr runs ↦
        let (mid, e, mid_valid) = any_round step i beat good.0 valid in
        let (next, e', next_valid) = rounds_total step inputs mid good.1 mid_valid in
        rw runs (next, rw e e', next_valid)
  ]

  -- With a rate above 0, in a valid state with the device open, the thread goes through any
  -- number of rounds, with packets that the reader accepts, and
  -- leaves the state valid and the device open for `_ftdi_deinit`.
  pub beat_thread_total :
      (fps : ℕ) (now : Timespec) (inputs : List Input) (beat : Beat R A)
      → 0 < fps
      → InputsGood inputs
      → BeatValid o Good beat
      → (next : Beat R A) × (beat_thread o answer fps now inputs beat ≡ ok next)
        × BeatValid o Good next
  unfolding beat_thread step_ns
  beat_thread_total fps now inputs beat h good valid =
      let (next, e, next_valid) =
        rounds_total (nsecs / fps) inputs (record beat { to = now }) good
          (record {
            app_valid = valid.app_valid;
            sized = valid.sized;
            device_open = valid.device_open;
          }) in
      let positive : (fps == 0) ≡ false = ground arith in (next, rw positive e, next_valid)
