-- ===== src/Bindings/NativeClient/Stop.antt =====
-- `NativeClient::stop` of bindings/python/native_client.cpp against the calls that wait on other threads.
use py_net_ft.Common.{
  ℕ, ◌+◌, ◌^◌, ◌<◌, ◌≡◌, ◌≢◌, refl, ap, ◌∙◌, sym, subst, false, Option, some, List, ◌∷◌, arith,
}
use py_net_ft.Double.{Double}
use py_net_ft.Types.{Sample}
use py_net_ft.Transport.{SendResult}
use py_net_ft.Bindings.SampleQueue.{SampleQueue, read_woken, close, nothing, closed}
use py_net_ft.Bindings.SampleQueue.Generation.{
  Step, count_closes, steps, read_after_close, generation_moved,
}
use py_net_ft.Bindings.NativeClient.{
  NativeClient, ReadRound, WaitRound, read_round, read_loop, wait_loop, stop, returns,
}

module _ {F : Type 0} ⦃d : Double F⦄ where
  -- The queue that `stop` leaves, after the steps of its owner from then on.
  abbrev pub queue_after :
      NativeClient F → ℕ → SendResult → List (Step (Sample F)) → SampleQueue (Sample F)
  queue_after n self sent ss = steps (stop n self sent).0.queue ss

  stopped-close :
      (n : NativeClient F) (self : ℕ) (sent : SendResult)
      → (stop n self sent).0.queue ≡ close n.queue
  unfolding stop close
  stopped-close n self sent = refl

  round_closed :
      (r : ReadRound F) (limit : Option F) (generation started_at : ℕ)
      → read_woken r.queue generation ≡ (r.queue, nothing closed)
      → read_round limit generation started_at r ≡ returns (nothing closed) r.queue
  unfolding read_round
  round_closed r limit generation started_at e = ground (arith, e)

  loop_closed :
      (r : ReadRound F) (rounds : List (ReadRound F)) (limit : Option F) (generation started_at : ℕ)
      → read_woken r.queue generation ≡ (r.queue, nothing closed)
      → read_loop (r ∷ rounds) limit generation started_at ≡ some (nothing closed, r.queue)
  unfolding read_loop
  loop_closed r rounds limit generation started_at e =
      rw (read_loop, round_closed r limit generation started_at e)

  wait_closed :
      (w : WaitRound) (waits : List WaitRound) (seconds : F) (generation started_at : ℕ)
      → w.generation ≢ generation
      → wait_loop (w ∷ waits) seconds generation started_at ≡ some false
  unfolding wait_loop
  wait_closed w waits seconds generation started_at e = ground arith

  read_stopped :
      (n : NativeClient F) (self : ℕ) (sent : SendResult) (ss : List (Step (Sample F)))
      → n.queue.close_generation < 2 ^ 64
      → count_closes ss + 1 < 2 ^ 64
      → read_woken (queue_after n self sent ss) n.queue.close_generation
        ≡ (queue_after n self sent ss, nothing closed)
  read_stopped n self sent ss h k = rw (stopped-close n self sent, read_after_close n.queue ss h k)

  -- A call of `read` or of `wait_for_first_sample` that began before a `stop` ends with the first pass that
  -- it makes afterwards, within its timeout or not: the reader gets no sample and is told that the queue is
  -- closed, and the other returns false. So it does even if the client is running again by then and the
  -- queue has been reset and filled, as long as there were fewer than 2 ^ 64 closes.
  pub stop_ends_waiting :
      (n : NativeClient F) (self : ℕ) (sent : SendResult) (ss : List (Step (Sample F)))
      (r : ReadRound F) (rounds : List (ReadRound F)) (limit : Option F) (w : WaitRound)
      (waits : List WaitRound) (seconds : F) (started_at : ℕ)
      → n.queue.close_generation < 2 ^ 64
      → count_closes ss + 1 < 2 ^ 64
      → r.queue ≡ queue_after n self sent ss
      → w.generation ≡ (queue_after n self sent ss).close_generation
      → (read_loop (r ∷ rounds) limit n.queue.close_generation started_at
          ≡ some (nothing closed, queue_after n self sent ss))
        × (wait_loop (w ∷ waits) seconds n.queue.close_generation started_at ≡ some false)
  stop_ends_waiting n self sent ss r rounds limit w waits seconds started_at h k same seen =
      let before = n.queue.close_generation in
      let told : read_woken r.queue before ≡ (r.queue, nothing closed) =
        subst (λ q. read_woken q before ≡ (q, nothing closed)) (sym same)
          (read_stopped n self sent ss h k) in
      let found : w.generation ≡ (steps (close n.queue) ss).close_generation =
        seen ∙ ap (λ q. (steps q ss).close_generation) (stopped-close n self sent) in
      (
        loop_closed r rounds limit before started_at told ∙ ap (λ q. some (nothing closed, q)) same,
        wait_closed w waits seconds before started_at
            (λ e. generation_moved n.queue ss h k (sym found ∙ e)),
      )
