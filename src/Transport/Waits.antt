-- ===== src/Transport/Waits.antt =====
-- The wait of `receive` of core/src/detail/udp_transport_posix.cpp, which a signal interrupts.
use py_net_ft.Common.{
  ℕ, suc, zero, ◌+◌, ◌*◌, ◌-◌, ◌≤◌, ◌<◌, ◌≡◌, refl, Bool, true, false, List, [], ◌∷◌, length, leb,
  arith, if_cases,
}
use py_net_ft.Double.{Double}
use py_net_ft.Time.{seconds_of}
use py_net_ft.Transport.{
  Poll, events, no_events, signal, poll_failed, Waited, waiting, wait, after_poll,
  timeout_milliseconds,
}

-- Whatever the timeouts, the clock does not go back between the signals, and takes `tick` at least for each.
abbrev pub IsTimed : ℕ → ℕ → List (ℕ → Poll) → Type 0
IsTimed tick start [] = Unit
IsTimed tick start (answer ∷ rest) =
    (milliseconds : ℕ) → elim (answer milliseconds) as (λ _. Type 0) [
      | signal now ↦ (start + tick ≤ now) × IsTimed tick now rest
      | _ ↦ Unit
    ]

suc_mul : (n tick : ℕ) → suc n * tick ≡ tick + n * tick
suc_mul n tick = ground arith

absurd_time :
    (start tick now deadline : ℕ) → deadline ≤ start → start + tick ≤ now → ¬ (now < deadline)
absurd_time start tick now deadline h later early = omega (arith, h, later, early)

abbrev pub is_over : Waited → Bool
is_over waiting = false
is_over _ = true

module _ {F : Type 0} ⦃d : Double F⦄ where
  step_ends :
      (tick start deadline : ℕ) (rest : List (ℕ → Poll)) (next : F → Waited) (p : Poll)
      → (elim p as (λ _. Type 0) [
        | signal now ↦ (start + tick ≤ now) × IsTimed tick now rest
        | _ ↦ Unit
      ])
      → ((now : ℕ)
          → start + tick ≤ now
          → now < deadline
          → IsTimed tick now rest
          → (left : F) → is_over (next left) ≡ true)
      → is_over (after_poll deadline next p) ≡ true
  step_ends tick start deadline rest next (events invalid) t h = refl
  step_ends tick start deadline rest next no_events t h = refl
  step_ends tick start deadline rest next (poll_failed error) t h = refl
  step_ends tick start deadline rest next (signal now) (later, timed) h =
      if_cases (λ w. is_over w ≡ true) (leb deadline now) (λ e. refl)
        (λ e. h now later (ground (arith, e)) timed (seconds_of (deadline - now)))

  -- Where at least `tick` passes up to each signal, the wait is over after at most as many calls of `poll` as
  -- there are such ticks up to the deadline, and one: signals do not keep it going for ever, whatever else
  -- `poll` answers and whatever time remains.
  pub signals_end :
      (n tick start deadline : ℕ) (answers : List (ℕ → Poll)) (remaining : F)
      → deadline ≤ start + n * tick
      → suc n ≤ length answers
      → IsTimed tick start answers
      → is_over (wait answers remaining deadline) ≡ true
  unfolding wait
  signals_end n tick start deadline [] remaining h l t = ground (arith, l)
  signals_end zero tick start deadline (answer ∷ rest) remaining h l t =
      step_ends tick start deadline rest (λ left. wait rest left deadline)
        (answer (timeout_milliseconds remaining)) (t (timeout_milliseconds remaining))
        (λ now later early timed left.
          elim (absurd_time start tick now deadline (omega (arith, h)) later early) [ ])
  signals_end (suc n) tick start deadline (answer ∷ rest) remaining h l t =
      step_ends tick start deadline rest (λ left. wait rest left deadline)
        (answer (timeout_milliseconds remaining)) (t (timeout_milliseconds remaining))
        (λ now later early timed left.
          signals_end n tick now deadline rest left (omega (arith, h, later, suc_mul n tick))
            (omega (arith, l)) timed)
