-- ===== src/Bindings/NativeClient/Read.antt =====
-- What `NativeClient::read` of bindings/python/native_client.cpp returns, and when.
use py_net_ft.Common.{
  ℕ, ◌-◌, ◌≡◌, ◌≢◌, refl, ◌∙◌, true, false, Option, none, some, List, [], ◌∷◌, arith,
}
use py_net_ft.Double.{Double}
use py_net_ft.Types.{Sample}
use py_net_ft.Bindings.SampleQueue.{SampleQueue, ReadResult, timeout}
use py_net_ft.Bindings.NativeClient.{
  ReadRound, ReadStep, returns, again, read_round, read_loop, expired,
}

module _ {F : Type 0} ⦃d : Double F⦄ where
  -- Some pass found the limit reached, with the client running and not faulted.
  pub data Expires (limit : Option F) (started_at : ℕ) : List (ReadRound F) → Type 0 where
    here :
        {r : ReadRound F} {rounds : List (ReadRound F)}
        → expired limit (r.now - started_at) ≡ true
        → r.still_running ≡ true
        → r.faulted_later ≡ false
        → Expires limit started_at (r ∷ rounds)
    there :
        {r : ReadRound F} {rounds : List (ReadRound F)}
        → Expires limit started_at rounds
        → Expires limit started_at (r ∷ rounds)

  abbrev ended :
      ReadResult (Sample F)
      → SampleQueue (Sample F)
      → Option (ReadResult (Sample F) × SampleQueue (Sample F))
  ended result q = some (result, q)

  round_times_out :
      (r : ReadRound F) (limit : Option F) (generation started_at : ℕ)
      (result : ReadResult (Sample F)) (q : SampleQueue (Sample F))
      → read_round limit generation started_at r ≡ returns result q
      → result.status ≡ timeout
      → (expired limit (r.now - started_at) ≡ true)
        × (r.still_running ≡ true)
        × (r.faulted_later ≡ false)
  unfolding read_round
  round_times_out r limit generation started_at result q e t = ground arith

  -- A read that reports a timeout has waited up to its limit: some pass of its loop found the limit
  -- reached, and the client still running and without a fault.
  pub read_times_out :
      (rounds : List (ReadRound F)) (limit : Option F) (generation started_at : ℕ)
      (result : ReadResult (Sample F)) (q : SampleQueue (Sample F))
      → read_loop rounds limit generation started_at ≡ ended result q
      → result.status ≡ timeout
      → Expires limit started_at rounds
  unfolding read_loop
  read_times_out [] limit generation started_at result q = λ e t. ground arith
  read_times_out (r ∷ rounds) limit generation started_at result q =
      go (read_round limit generation started_at r) refl
        (read_times_out rounds limit generation started_at result q)
    where
      status_of :
          (x : ReadResult (Sample F)) (y : SampleQueue (Sample F))
          → ended x y ≡ ended result q
          → x.status ≡ result.status
      status_of x y e = ground arith

      go :
          (step : ReadStep F)
          → read_round limit generation started_at r ≡ step
          → (read_loop rounds limit generation started_at ≡ ended result q
              → result.status ≡ timeout
              → Expires limit started_at rounds)
          → (elim step as (λ _. Option (ReadResult (Sample F) × SampleQueue (Sample F))) [
            | returns result' q' ↦ some (result', q')
            | again ↦ read_loop rounds limit generation started_at
          ])
            ≡ ended result q
          → result.status ≡ timeout
          → Expires limit started_at (r ∷ rounds)
      go (returns x y) p rest e t =
          let (a, b, c) =
            round_times_out r limit generation started_at x y p (status_of x y e ∙ t) in
          here a b c
      go again p rest e t = there (rest e t)

  -- A read without a limit never reports a timeout.
  pub read_unlimited :
      (rounds : List (ReadRound F)) (generation started_at : ℕ) (result : ReadResult (Sample F))
      (q : SampleQueue (Sample F))
      → read_loop rounds none generation started_at ≡ ended result q
      → result.status ≢ timeout
  read_unlimited rounds generation started_at result q e t =
      never rounds (read_times_out rounds none generation started_at result q e t)
    where
      never : (rs : List (ReadRound F)) → Expires none started_at rs → ⊥
      never [] x = elim x [ ]
      never (r ∷ rs) (here a b c) = ground arith
      never (r ∷ rs) (there x) = never rs x
