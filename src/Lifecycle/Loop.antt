-- ===== src/Lifecycle/Loop.antt =====
-- `_loop` and the reconnecting loop of `main`: what they acquire they release, on every path.
use osc2ftdidmx.Base.{
  ℕ, ◌≡◌, inl, inr, refl, ap, sym, subst, ◌∙◌, Bool, true, false, List, [], ◌∷◌, ok, ◌>>=◌, ℤ, pos,
  negsuc, Bool-cases,
}
use osc2ftdidmx.Ftdi.{Trace, Ids, ftdi_init, ftdi_deinit}
use osc2ftdidmx.Ftdi.Device.{raw, opened, device, ftdi_init_lem, ftdi_deinit_lem}
use osc2ftdidmx.Lifecycle.Release.{Idle, Ringed, osc_deinit-Ringed}
use osc2ftdidmx.Lifecycle.Init.{SafeStart, Inited, osc_init-Inited}
use osc2ftdidmx.Lifecycle.{
  Sys, Env, Result, returning, osc_deinit, thread_deinit, sched_deinit, osc_init, with_trace,
  shut_down, run_threads, open_device, after_init, loop, reconnecting, run_main,
}

module _ (env : Env) where
  -- What the threads do: they allocate no ring buffer and free none, and leave the device open.
  pub record Runs : Type 0 where
    pub keeps_rings : (s : Sys) → Ringed s → Ringed (env.threads s)
    pub keeps_device : (s : Sys) → device s.trace ≡ opened → device (env.threads s).trace ≡ opened

  -- `_loop` ends without a double free, and with everything released.
  pub record Released (result : Result) : Type 0 where
    pub r : ℤ
    pub t : Sys
    pub returns : result ≡ ok (r, t)
    pub idle : Idle t

  -- The end of `_loop`: both ring buffers are freed, and the device was released before.
  finish :
      (r : ℤ) (s : Sys)
      → Ringed s
      → device s.trace ≡ raw
      → s.running ≡ false
      → s.list ≡ []
      → Released (returning r (osc_deinit s))
  finish r s ringed no_device no_thread no_message =
      let (t, e, empty, trace, thread, list) = osc_deinit-Ringed s ringed in
      record {
        r = r;
        t = t;
        returns = rw e refl;
        idle = record {
          no_block = empty;
          no_device = ap device trace ∙ no_device;
          no_thread = thread ∙ no_thread;
          no_message = list ∙ no_message;
        };
      }

  Ringed-ext : (s t : Sys) → Ringed s → t.rx ≡ s.rx → t.tx ≡ s.tx → t.live ≡ s.live → Ringed t
  Ringed-ext s t ringed rx tx live = record {
    rx_block = ringed.rx_block;
    tx_block = ringed.tx_block;
    rx_set = rx ∙ ringed.rx_set;
    tx_set = tx ∙ ringed.tx_set;
    both = live ∙ ringed.both;
    apart = ringed.apart;
  }

  run_threads-Released :
      (runs : Runs) (s : Sys)
      → Ringed s
      → device s.trace ≡ opened
      → s.running ≡ false
      → s.list ≡ []
      → Released (run_threads env s)
  unfolding run_threads shut_down with_trace thread_deinit sched_deinit
  run_threads-Released runs s ringed open_dev no_thread no_message =
      elim (Bool-cases (env.create_ok s)) [
        | inl created ↦
            let started : Sys = record s { running = true } in
            let after : Sys = env.threads started in
            let rings : Ringed after =
              runs.keeps_rings started (Ringed-ext s started ringed refl refl refl) in
            let down : Sys = record after {
              running = false;
              list = [];
              trace = ftdi_deinit env.answer after.trace;
            } in
            rw created (
              finish (pos 0) down (Ringed-ext after down rings refl refl refl)
                (ftdi_deinit_lem env.answer after.trace (runs.keeps_device started open_dev)) refl
                refl)
        | inr refused ↦
            let down : Sys = record s { trace = ftdi_deinit env.answer s.trace } in
            rw refused (
              finish (negsuc 0) down (Ringed-ext s down ringed refl refl refl)
                (ftdi_deinit_lem env.answer s.trace open_dev) no_thread no_message)
      ]

  open_device-Released :
      (runs : Runs) (ids : Ids) (s : Sys)
      → Ringed s
      → device s.trace ≡ raw
      → s.running ≡ false
      → s.list ≡ []
      → Released (open_device env ids s)
  unfolding open_device with_trace
  open_device-Released runs ids s ringed no_device no_thread no_message =
      let t : Trace = (ftdi_init env.answer ids s.trace).1 in
      let traced : Sys = record s { trace = t } in
      let rings : Ringed traced = Ringed-ext s traced ringed refl refl refl in
      elim (ftdi_init_lem env.answer ids s.trace no_device) [
        | inl opens ↦
            rw opens.0 (run_threads-Released runs traced rings opens.1 no_thread no_message)
        | inr fails ↦ rw fails.0 (finish (negsuc 0) traced rings fails.1 no_thread no_message)
      ]

  -- Whatever fails in it, `_loop`, begun with nothing held, frees no block twice and ends with
  -- everything released: no live ring buffer, a raw device context, no thread and no scheduled
  -- message. The threads are to keep the ring buffers and the device as they are. There are no
  -- pointers from an earlier run, or the ring buffers are allocated.
  pub loop-Released :
      (runs : Runs) (ids : Ids) (s : Sys) → Idle s → SafeStart env s → Released (loop env ids s)
  unfolding loop after_init
  loop-Released runs ids s idle start = from_init (osc_init-Inited env s idle.no_block start)
    where
      from_init : Inited env s (osc_init env s) → Released (osc_init env s >>= after_init env ids)
      from_init init =
          subst (λ m. Released (m >>= after_init env ids)) (sym init.returns)
            (elim init.held [
              | inl held ↦
                  subst (λ r. Released (after_init env ids (r, init.t))) (sym held.0)
                    (open_device-Released runs ids init.t held.1
                      (ap device init.kept.same_trace ∙ idle.no_device)
                      (init.kept.same_thread ∙ idle.no_thread)
                      (init.kept.same_list ∙ idle.no_message))
              | inr freed ↦
                  subst (λ r. Released (after_init env ids (r, init.t))) (sym freed.0)
                    (record {
                      r = negsuc 0;
                      t = init.t;
                      returns = refl;
                      idle = record {
                        no_block = freed.1;
                        no_device = ap device init.kept.same_trace ∙ idle.no_device;
                        no_thread = init.kept.same_thread ∙ idle.no_thread;
                        no_message = init.kept.same_list ∙ idle.no_message;
                      };
                    })
            ])

  -- While all ring buffers are allocated, reconnecting goes on as often as it is asked for, and ends with
  -- everything released.
  pub reconnecting-Released :
      (runs : Runs) (given : (n : ℕ) → env.new_ok n ≡ true) (ids : Ids) (reads : List Bool) (r : ℤ)
      (s : Sys)
      → Idle s
      → Released (reconnecting env ids reads (r, s))
  unfolding reconnecting
  reconnecting-Released runs given ids [] r s idle = record {
    r = r;
    t = s;
    returns = refl;
    idle = idle;
  }
  reconnecting-Released runs given ids (false ∷ reads) r s idle = record {
    r = r;
    t = s;
    returns = refl;
    idle = idle;
  }
  reconnecting-Released runs given ids (true ∷ reads) r s idle =
      let first : Released (loop env ids s) = loop-Released runs ids s idle (inr given) in
      subst (λ m. Released (m >>= reconnecting env ids reads)) (sym first.returns)
        (reconnecting-Released runs given ids reads first.r first.t first.idle)

  -- Begun with nothing held, `_loop`, run once and then as often as it is to reconnect, frees no
  -- block twice and ends with everything released, if all ring buffers are allocated and the
  -- threads keep the ring buffers and the device as they are.
  pub run_main-Released :
      (runs : Runs) (given : (n : ℕ) → env.new_ok n ≡ true) (ids : Ids) (reads : List Bool)
      (s : Sys)
      → Idle s
      → Released (run_main env ids reads s)
  unfolding run_main
  run_main-Released runs given ids reads s idle =
      let first : Released (loop env ids s) = loop-Released runs ids s idle (inr given) in
      subst (λ m. Released (m >>= reconnecting env ids reads)) (sym first.returns)
        (reconnecting-Released runs given ids reads first.r first.t first.idle)
