-- ===== src/Client/Threads/Phases.antt =====
-- The phases that the threads of a client go through, which every step keeps to.
use py_net_ft.Common.{ℕ, ◌≡◌, Bool, true, false, Option, none, some, List, [], ◌∷◌, arith}
use py_net_ft.Client.State.{Impl}
use py_net_ft.Client.Threads.{System, Joiner, stopping}
use py_net_ft.Client.Threads.Kept.{StandsAs}

-- Nothing, or one thread.
pub data AtMost (w : ℕ) : List ℕ → Type 0 where
  gone : AtMost w []
  one : AtMost w (w ∷ [])

module _ {F : Type 0} where
  -- Whose handle the client holds, and how its flags stand.
  abbrev pub Holds : Impl F → Option ℕ → Bool → Bool → Type 0
  Holds s worker joining exited =
      (s.worker ≡ worker) × (s.joining ≡ joining) × (s.worker_exited ≡ exited)

  pub data IsPhase (y : System F) : Type 0 where
    -- no thread and no handle
    idle :
        Holds y.client none false true
        → y.looping ≡ []
        → y.leaving ≡ []
        → y.pending_joins ≡ []
        → IsPhase y
    -- the worker is in its loop
    running :
        (w : ℕ)
        → Holds y.client (some w) false false
        → y.client.active_worker_id ≡ w
        → y.looping ≡ w ∷ []
        → y.leaving ≡ []
        → y.pending_joins ≡ []
        → IsPhase y
    -- it is on its way out, or has ended, and nobody joins it
    left :
        (w : ℕ) (threads : List ℕ)
        → AtMost w threads
        → Holds y.client (some w) false true
        → y.looping ≡ []
        → y.leaving ≡ threads
        → y.pending_joins ≡ []
        → IsPhase y
    -- a `stop` joins it while it is in its loop
    awaited :
        (w : ℕ)
        → Holds y.client none true false
        → y.client.active_worker_id ≡ w
        → y.looping ≡ w ∷ []
        → y.leaving ≡ []
        → y.pending_joins ≡ (stopping, w) ∷ []
        → IsPhase y
    -- a `start` or a `stop` joins it when it is on its way out or has ended
    collected :
        (k : Joiner) (w : ℕ) (threads : List ℕ)
        → AtMost w threads
        → Holds y.client none true true
        → y.looping ≡ []
        → y.leaving ≡ threads
        → y.pending_joins ≡ (k, w) ∷ []
        → IsPhase y

  -- A step that changes nothing of how the threads stand.
  pub kept :
      (y : System F) (s : Impl F)
      → StandsAs y.client s
      → IsPhase y
      → IsPhase (record y { client = s })
  kept y s k (idle h a b c) = idle (ground (arith, h, k)) a b c
  kept y s k (running w h e a b c) = running w (ground (arith, h, k)) (ground (arith, e, k)) a b c
  kept y s k (left w ts t h a b c) = left w ts t (ground (arith, h, k)) a b c
  kept y s k (awaited w h e a b c) = awaited w (ground (arith, h, k)) (ground (arith, e, k)) a b c
  kept y s k (collected j w ts t h a b c) = collected j w ts t (ground (arith, h, k)) a b c
