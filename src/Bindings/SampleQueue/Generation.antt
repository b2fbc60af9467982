-- ===== src/Bindings/SampleQueue/Generation.antt =====
-- Readers and `close` in bindings/python/sample_queue.cpp: a reader that has captured the generation before
-- a close never gets a sample that is pushed after it, even if the queue is reset in between.
use py_net_ft.Common.{ℕ, suc, ◌+◌, ◌^◌, ◌<◌, ◌≡◌, ◌≢◌, refl, List, [], ◌∷◌, arith, add64}
use py_net_ft.Bindings.SampleQueue.{SampleQueue, push, read_woken, close, reset, nothing, closed}

-- What the owner of the queue does, from the first close on.
pub data Step (A : Type 0) : Type 0 where
  pushes : A → Step A
  reads : ℕ → Step A
  closes : Step A
  resets : Step A

abbrev pub count_closes : {A : Type 0} → List (Step A) → ℕ
count_closes [] = 0
count_closes (closes ∷ ss) = suc (count_closes ss)
count_closes (_ ∷ ss) = count_closes ss

module _ {A : Type 0} where
  unfoldable pub step : SampleQueue A → Step A → SampleQueue A
  step q (pushes a) = push q a
  step q (reads generation) = (read_woken q generation).0
  step q closes = close q
  step q resets = reset q

  unfoldable pub steps : SampleQueue A → List (Step A) → SampleQueue A
  steps q [] = q
  steps q (s ∷ ss) = steps (step q s) ss

  count_closes-cons :
      (s : Step A) (ss : List (Step A))
      → count_closes (s ∷ ss) ≡ count_closes (s ∷ []) + count_closes ss
  count_closes-cons (pushes a) ss = omega arith
  count_closes-cons (reads generation) ss = omega arith
  count_closes-cons closes ss = omega arith
  count_closes-cons resets ss = omega arith

  step-generation :
      (q : SampleQueue A) (s : Step A)
      → q.close_generation < 2 ^ 64
      → (step q s).close_generation ≡ add64 q.close_generation (count_closes (s ∷ []))
  unfolding step push read_woken close reset
  step-generation q (pushes a) h = ground arith
  step-generation q (reads generation) h = ground arith
  step-generation q closes h = refl
  step-generation q resets h = omega arith

  steps-generation :
      (q : SampleQueue A) (ss : List (Step A))
      → q.close_generation < 2 ^ 64
      → (steps q ss).close_generation ≡ add64 q.close_generation (count_closes ss)
  unfolding steps
  steps-generation q [] h = omega arith
  steps-generation q (s ∷ ss) h =
      let here = step-generation q s h in
      omega (arith, steps-generation (step q s) ss (omega arith), count_closes-cons s ss)

  pub generation_moved :
      (q : SampleQueue A) (ss : List (Step A))
      → q.close_generation < 2 ^ 64
      → count_closes ss + 1 < 2 ^ 64
      → (steps (close q) ss).close_generation ≢ q.close_generation
  unfolding close
  generation_moved q ss h k = omega (arith, steps-generation (close q) ss (omega arith))

  -- After a close and fewer than 2 ^ 64 closes in all, whatever else was pushed, read and reset, a reader that
  -- captured the generation before the close is told that the queue is closed, and takes nothing.
  pub read_after_close :
      (q : SampleQueue A) (ss : List (Step A))
      → q.close_generation < 2 ^ 64
      → count_closes ss + 1 < 2 ^ 64
      → read_woken (steps (close q) ss) q.close_generation ≡ (steps (close q) ss, nothing closed)
  unfolding read_woken
  read_after_close q ss h k =
      let later : (steps (close q) ss).close_generation ≢ q.close_generation =
        generation_moved q ss h k in
      ground arith
