-- ===== src/Client/Frame.antt =====
-- What the calls of other threads, and of the callback, leave alone while the worker runs.
use py_net_ft.Common.{ℕ, ◌≡◌, true, List, [], ◌∷◌, arith}
use py_net_ft.Transport.{SendResult}
use py_net_ft.Client.State.{Impl}
use py_net_ft.Client.Command.{
  Call, biases, reads_health, stops, call, interlude, bias, health, stop_locked, end_stream,
}

-- Every counter and every other member that only the worker writes.
pub record Keeps {F : Type 0} (s t : Impl F) : Type 0 where
  pub config_eq : t.config ≡ s.config
  pub callback_eq : t.callback ≡ s.callback
  pub fault_latch_eq : t.fault_latch ≡ s.fault_latch
  pub latest_eq : t.latest ≡ s.latest
  pub ft_sequence_eq : t.ft_sequence ≡ s.ft_sequence
  pub last_delivery_at_eq : t.last_delivery_at ≡ s.last_delivery_at
  pub generation_eq : t.generation ≡ s.generation
  pub delivered_generation_eq : t.delivered_generation ≡ s.delivered_generation
  pub consecutive_malformed_eq : t.consecutive_malformed ≡ s.consecutive_malformed
  pub health_eq : t.health ≡ record s.health { state = t.health.state }
  pub stopping_stays : s.stopping ≡ true → t.stopping ≡ true

module _ {F : Type 0} where
  pub Keeps-refl : (s : Impl F) → Keeps s s
  Keeps-refl s = ground arith

  Keeps-trans : (s t u : Impl F) → Keeps s t → Keeps t u → Keeps s u
  Keeps-trans s t u p q = ground arith

  bias-Keeps : (s : Impl F) (a b : SendResult) → Keeps s (bias s a b).0
  unfolding bias
  bias-Keeps s a b = ground arith

  health-Keeps : (s : Impl F) (now : ℕ) → Keeps s (health s now).0
  unfolding health
  health-Keeps s now = ground arith

  pub end_stream-Keeps :
      (s : Impl F) (a : SendResult)
      → Keeps s (end_stream s a) × ((end_stream s a).stopping ≡ s.stopping)
  unfolding end_stream
  end_stream-Keeps s a = ground arith

  asked-Keeps :
      (s : Impl F) (a : SendResult)
      → Keeps s (end_stream (record s { stopping = true }) a)
        × ((end_stream (record s { stopping = true }) a).stopping ≡ true)
  asked-Keeps s a = ground (arith, end_stream-Keeps (record s { stopping = true }) a)

  stop_locked-Keeps :
      (s : Impl F) (self : ℕ) (a : SendResult)
      → Keeps s (stop_locked s self a).0 × ((stop_locked s self a).0.stopping ≡ true)
  unfolding stop_locked
  stop_locked-Keeps s self a = let (k, stops') = asked-Keeps s a in ground arith

  call-Keeps : (s : Impl F) (c : Call) → Keeps s (call s c)
  unfolding call
  call-Keeps s (biases a b) = bias-Keeps s a b
  call-Keeps s (reads_health now) = health-Keeps s now
  call-Keeps s (stops self a) = (stop_locked-Keeps s self a).0

  pub interlude-Keeps : (s : Impl F) (calls : List Call) → Keeps s (interlude s calls)
  unfolding interlude
  interlude-Keeps s [] = Keeps-refl s
  interlude-Keeps s (c ∷ calls) =
      Keeps-trans s (call s c) (interlude (call s c) calls) (call-Keeps s c)
        (interlude-Keeps (call s c) calls)
