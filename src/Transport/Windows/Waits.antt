-- ===== src/Transport/Windows/Waits.antt =====
-- The wait of `receive` of core/src/detail/udp_transport_windows.cpp, in slices.
use py_net_ft.Common.{
  ℕ, suc, zero, ◌+◌, ◌*◌, ◌≤◌, ◌<◌, ◌≡◌, refl, ap, Bool, true, false, List, [], ◌∷◌, length, ◌++◌,
  if_both, if◌then◌else◌, arith,
}
use py_net_ft.Double.{Double}
use py_net_ft.Transport.Windows.{
  Slice, Poll, events, no_events, poll_failed, Waited, gave_up, waiting, wait, poll_milliseconds,
  after_poll,
}

-- The clock does not go back between the slices, and takes `tick` at least where a wait brings no event.
abbrev pub IsTimed : ℕ → ℕ → List Slice → Type 0
IsTimed tick start [] = Unit
IsTimed tick start (s ∷ slices) = (start + tick ≤ s.later) × IsTimed tick s.later slices

suc_mul : (n tick : ℕ) → suc n * tick ≡ tick + n * tick
suc_mul n tick = ground arith

abbrev pub is_over : Waited → Bool
is_over waiting = false
is_over _ = true

after_poll-over :
    (deadline later : ℕ) (rest : Waited) (p : Poll)
    → (later < deadline → is_over rest ≡ true)
    → is_over (after_poll deadline later rest p) ≡ true
after_poll-over deadline later rest (events e) h = refl
after_poll-over deadline later rest no_events h = ground (arith, h)
after_poll-over deadline later rest (poll_failed error) h = ground arith

module _ (F : Type 0) ⦃d : Double F⦄ where
  -- Where the clock takes at least `tick` for a slice, the wait is over after at most as many slices as there
  -- are such ticks up to the deadline, and one: it does not go on for ever, whatever WinSock answers.
  pub wait_ends :
      (n tick start deadline : ℕ) (slices : List Slice)
      → deadline ≤ start + n * tick
      → suc n ≤ length slices
      → IsTimed tick start slices
      → is_over (wait F slices deadline) ≡ true
  unfolding wait
  wait_ends n tick start deadline [] h l t = ground (arith, l)
  wait_ends zero tick start deadline (s ∷ slices) h l (t, ts) =
      if_both (λ w. is_over w ≡ true) s.shutdown_requested refl
        (after_poll-over deadline s.later (wait F slices deadline)
          (s.answer (poll_milliseconds F deadline s.now)) (λ early. ground (arith, early, h, t)))
  wait_ends (suc n) tick start deadline (s ∷ slices) h l (t, ts) =
      let later : deadline ≤ s.later + n * tick = omega (arith, h, t, suc_mul n tick) in
      if_both (λ w. is_over w ≡ true) s.shutdown_requested refl
        (after_poll-over deadline s.later (wait F slices deadline)
          (s.answer (poll_milliseconds F deadline s.now))
          (λ early. wait_ends n tick s.later deadline slices later (omega (arith, l)) ts))

  -- A shutdown ends the wait when the slice after it begins, whatever deadline there is and whatever WinSock
  -- would answer from there on: what the wait ends with is settled by the slices before.
  pub wait_stops :
      (front back : List Slice) (s : Slice) (deadline : ℕ)
      → s.shutdown_requested ≡ true
      → (wait F (front ++ (s ∷ back)) deadline ≡ wait F (front ++ (s ∷ [])) deadline)
        × (is_over (wait F (front ++ (s ∷ back)) deadline) ≡ true)
  unfolding wait
  wait_stops [] back s deadline e = rw e (refl, refl)
  wait_stops (f ∷ front) back s deadline e =
      let (same, over) = wait_stops front back s deadline e in
      (
        ap
            (λ (w : Waited).
              if f.shutdown_requested
              then gave_up
              else after_poll deadline f.later w (f.answer (poll_milliseconds F deadline f.now)))
            same,
        if_both (λ w. is_over w ≡ true) f.shutdown_requested refl
            (after_poll-over deadline f.later (wait F (front ++ (s ∷ back)) deadline)
              (f.answer (poll_milliseconds F deadline f.now)) (λ early. over)),
      )
