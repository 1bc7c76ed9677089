-- ===== src/Lifecycle/Init.antt =====
-- `_osc_init`: the ring buffers that are held on every path.
use osc2ftdidmx.Base.{
  ℕ, ◌+◌, ◌≡◌, ◌⊎◌, inl, inr, refl, sym, subst, ◌∙◌, true, false, none, some, [], ◌∷◌, ok, ℤ, pos,
  negsuc, arith, Bool-cases,
}
use mathlib.Core.Bool.{false≢true}
use osc2ftdidmx.Lifecycle.{
  Sys, Env, Result, osc_deinit, varchunk_new, set_rx, set_tx, open_stream, osc_failure, init_stream,
  check_tx, check_rx, osc_init,
}
use osc2ftdidmx.Lifecycle.Release.{Ringed, Kept, osc_deinit-Ringed, osc_deinit-one, osc_deinit-none}

module _ (env : Env) where
  -- The ring buffers are allocated, or there are no pointers from an earlier run.
  abbrev pub SafeStart : Sys → Type 0
  SafeStart s = ((s.rx ≡ none) × (s.tx ≡ none)) ⊎ ((n : ℕ) → env.new_ok n ≡ true)

  -- `_osc_init` fails and has released all, or succeeds and holds both ring buffers.
  pub record Inited (s : Sys) (result : Result) : Type 0 where
    pub r : ℤ
    pub t : Sys
    pub returns : result ≡ ok (r, t)
    pub kept : Kept s t
    pub held : ((r ≡ pos 0) × Ringed t) ⊎ ((r ≡ negsuc 0) × (t.live ≡ []))

  osc_failure-Inited :
      (s0 s : Sys)
      → Kept s0 s
      → (t : Sys) × (osc_deinit s ≡ ok t)
        × (t.live ≡ [])
        × (t.trace ≡ s.trace)
        × (t.running ≡ s.running)
        × (t.list ≡ s.list)
      → Inited s0 (osc_failure env s)
  unfolding osc_failure
  osc_failure-Inited s0 s kept (t, e, empty, trace, thread, list) = record {
    r = negsuc 0;
    t = t;
    returns = rw e refl;
    kept = record {
      same_trace = trace ∙ kept.same_trace;
      same_thread = thread ∙ kept.same_thread;
      same_list = list ∙ kept.same_list;
    };
    held = inr (refl, empty);
  }

  init_stream-Inited : (s0 s : Sys) → Kept s0 s → Ringed s → Inited s0 (init_stream env s)
  unfolding init_stream open_stream
  init_stream-Inited s0 s kept ringed = elim (Bool-cases (env.stream_init s).success) [
    | inl success ↦ rw success (record {
      r = pos 0;
      t = open_stream env s;
      returns = refl;
      kept = record {
        same_trace = kept.same_trace;
        same_thread = kept.same_thread;
        same_list = kept.same_list;
      };
      held = inl (
        refl,
        record {
          rx_block = ringed.rx_block;
          tx_block = ringed.tx_block;
          rx_set = ringed.rx_set;
          tx_set = ringed.tx_set;
          both = ringed.both;
          apart = ringed.apart;
        },
      );
    })
    | inr failed ↦
        let after : Sys = open_stream env s in
        rw failed (
          osc_failure-Inited s0 after
            (record {
              same_trace = kept.same_trace;
              same_thread = kept.same_thread;
              same_list = kept.same_list;
            })
            (osc_deinit-Ringed after (record {
              rx_block = ringed.rx_block;
              tx_block = ringed.tx_block;
              rx_set = ringed.rx_set;
              tx_set = ringed.tx_set;
              both = ringed.both;
              apart = ringed.apart;
            })))
  ]

  -- The states after `varchunk_new`.
  abbrev pub with_rx : Sys → Sys
  with_rx s = record s { rx = some s.blocks; live = s.blocks ∷ s.live; blocks = s.blocks + 1 }

  abbrev pub with_tx : Sys → Sys
  with_tx s = record s { tx = some s.blocks; live = s.blocks ∷ s.live; blocks = s.blocks + 1 }

  pub set_rx-given : (s : Sys) → env.new_ok s.blocks ≡ true → set_rx env s ≡ with_rx s
  unfolding set_rx varchunk_new
  set_rx-given s h = rw h refl

  pub set_tx-given : (s : Sys) → env.new_ok s.blocks ≡ true → set_tx env s ≡ with_tx s
  unfolding set_tx varchunk_new
  set_tx-given s h = rw h refl

  pub set_rx-refused :
      (s : Sys)
      → env.new_ok s.blocks ≡ false
      → set_rx env s ≡ record s { rx = none; blocks = s.blocks + 1 }
  unfolding set_rx varchunk_new
  set_rx-refused s h = rw h refl

  set_tx-refused :
      (s : Sys)
      → env.new_ok s.blocks ≡ false
      → set_tx env s ≡ record s { tx = none; blocks = s.blocks + 1 }
  unfolding set_tx varchunk_new
  set_tx-refused s h = rw h refl

  -- With the first ring buffer given, the second is given or the first is freed.
  check_tx-given :
      (s : Sys)
      → s.live ≡ []
      → env.new_ok (s.blocks + 1) ≡ true
      → Inited s (check_tx env (set_tx env (with_rx s)))
  unfolding check_tx
  check_tx-given s empty h =
      subst (λ u. Inited s (check_tx env u)) (sym (set_tx-given (with_rx s) h))
        (init_stream-Inited s (with_tx (with_rx s))
          (record { same_trace = refl; same_thread = refl; same_list = refl })
          (record {
            rx_block = s.blocks;
            tx_block = s.blocks + 1;
            rx_set = refl;
            tx_set = refl;
            both = rw empty refl;
            apart = omega arith;
          }))

  check_tx-refused :
      (s : Sys)
      → s.live ≡ []
      → env.new_ok (s.blocks + 1) ≡ false
      → Inited s (check_tx env (set_tx env (with_rx s)))
  unfolding check_tx
  check_tx-refused s empty h =
      subst (λ u. Inited s (check_tx env u)) (sym (set_tx-refused (with_rx s) h))
        (osc_failure-Inited s without
          (record { same_trace = refl; same_thread = refl; same_list = refl })
          (osc_deinit-one without s.blocks refl refl (rw empty refl)))
    where
      without : Sys
      without = record (with_rx s) { tx = none; blocks = s.blocks + 1 + 1 }

  -- Without the first ring buffer and with no pointer from before nothing is freed.
  osc_init-fresh :
      (s : Sys)
      → s.live ≡ []
      → s.tx ≡ none
      → env.new_ok s.blocks ≡ false
      → Inited s (osc_init env s)
  unfolding osc_init check_rx
  osc_init-fresh s empty no_tx h =
      subst (λ u. Inited s (check_rx env u)) (sym (set_rx-refused s h))
        (osc_failure-Inited s without
          (record { same_trace = refl; same_thread = refl; same_list = refl })
          (osc_deinit-none without refl no_tx empty))
    where
      without : Sys
      without = record s { rx = none; blocks = s.blocks + 1 }

  osc_init-rx : (s : Sys) → s.live ≡ [] → env.new_ok s.blocks ≡ true → Inited s (osc_init env s)
  unfolding osc_init check_rx
  osc_init-rx s empty given =
      subst (λ u. Inited s (check_rx env u)) (sym (set_rx-given s given))
        (elim (Bool-cases (env.new_ok (s.blocks + 1))) [
          | inl h ↦ check_tx-given s empty h
          | inr h ↦ check_tx-refused s empty h
        ])

  -- `_osc_init` fails and has freed what it allocated, or succeeds and holds both ring buffers.
  pub osc_init-Inited : (s : Sys) → s.live ≡ [] → SafeStart s → Inited s (osc_init env s)
  osc_init-Inited s empty start = elim (Bool-cases (env.new_ok s.blocks)) [
    | inl h ↦ osc_init-rx s empty h
    | inr h ↦ elim start [
      | inl fresh ↦ osc_init-fresh s empty fresh.1 h
      | inr given ↦ absurd (false≢true (sym h ∙ given s.blocks))
    ]
  ]
