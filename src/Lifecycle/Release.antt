-- ===== src/Lifecycle/Release.antt =====
-- `_osc_deinit`: what it releases, by the ring buffers that are held.
use osc2ftdidmx.Base.{ℕ, ◌<◌, ◌≡◌, false, none, some, [], ◌∷◌, ok, arith}
use osc2ftdidmx.Ftdi.Device.{raw, device}
use osc2ftdidmx.Lifecycle.{Sys, release, varchunk_free, free_ring, stream_deinit, osc_deinit}

-- Nothing is held: no block is live, the libftdi context is raw, no thread runs and no message is
-- scheduled. The pointers to the ring buffers may dangle.
pub record Idle (s : Sys) : Type 0 where
  pub no_block : s.live ≡ []
  pub no_device : device s.trace ≡ raw
  pub no_thread : s.running ≡ false
  pub no_message : s.list ≡ []

-- The two ring buffers are live and the rest is as before.
pub record Ringed (s : Sys) : Type 0 where
  pub rx_block : ℕ
  pub tx_block : ℕ
  pub rx_set : s.rx ≡ some rx_block
  pub tx_set : s.tx ≡ some tx_block
  pub both : s.live ≡ tx_block ∷ rx_block ∷ []
  pub apart : rx_block < tx_block

pub osc_deinit-Ringed :
    (s : Sys)
    → Ringed s
    → (t : Sys) × (osc_deinit s ≡ ok t)
      × (t.live ≡ [])
      × (t.trace ≡ s.trace)
      × (t.running ≡ s.running)
      × (t.list ≡ s.list)
unfolding osc_deinit stream_deinit free_ring varchunk_free release
osc_deinit-Ringed s ringed = (
  record (stream_deinit s) { live = [] },
  ground arith,
  ground arith,
  ground arith,
  ground arith,
  ground arith,
)

-- `_osc_deinit` with one ring buffer, and with none.
pub osc_deinit-one :
    (s : Sys) (b : ℕ)
    → s.rx ≡ some b
    → s.tx ≡ none
    → s.live ≡ b ∷ []
    → (t : Sys) × (osc_deinit s ≡ ok t)
      × (t.live ≡ [])
      × (t.trace ≡ s.trace)
      × (t.running ≡ s.running)
      × (t.list ≡ s.list)
unfolding osc_deinit stream_deinit free_ring varchunk_free release
osc_deinit-one s b e e' l = (
  record (stream_deinit s) { live = [] },
  ground arith,
  ground arith,
  ground arith,
  ground arith,
  ground arith,
)

pub osc_deinit-none :
    (s : Sys)
    → s.rx ≡ none
    → s.tx ≡ none
    → s.live ≡ []
    → (t : Sys) × (osc_deinit s ≡ ok t)
      × (t.live ≡ [])
      × (t.trace ≡ s.trace)
      × (t.running ≡ s.running)
      × (t.list ≡ s.list)
unfolding osc_deinit stream_deinit free_ring
osc_deinit-none s e e' l =
    (stream_deinit s, ground arith, ground arith, ground arith, ground arith, ground arith)

-- What a step leaves besides its result.
pub record Kept (s t : Sys) : Type 0 where
  pub same_trace : t.trace ≡ s.trace
  pub same_thread : t.running ≡ s.running
  pub same_list : t.list ≡ s.list
