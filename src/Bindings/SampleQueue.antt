-- ===== src/Bindings/SampleQueue.antt =====
-- bindings/python/sample_queue.hpp and sample_queue.cpp, without their test hooks. A method is the part of
-- it under the lock; of `read_for` the part after the wait, on the queue as it is then.
pub mod Fifo
pub mod Order
pub mod Generation
use py_net_ft.Common.{
  ℕ, Bool, true, false, ◌||◌, not, Option, none, some, List, [], ◌∷◌, ◌++◌, ◌==◌, if◌then◌else◌,
  length, inc64, is_nil,
}
use py_net_ft.Exception.{Result, ok, throws, invalid_argument}

pub data ReadStatus : Type 0 where
  sample timeout closed : ReadStatus

pub record ReadResult (A : Type 0) : Type 0 where
  pub status : ReadStatus
  pub sample : Option A

pub record SampleQueue (A : Type 0) : Type 0 where
  pub capacity : ℕ
  pub samples : List A
  pub dropped_count : ℕ
  pub close_generation : ℕ
  pub closed : Bool

module _ {A : Type 0} where
  abbrev pub fresh_queue : ℕ → SampleQueue A
  fresh_queue capacity = record {
    capacity = capacity;
    samples = [];
    dropped_count = 0;
    close_generation = 0;
    closed = false;
  }

  -- The constructor.
  unfoldable pub new_queue : ℕ → Result (SampleQueue A)
  new_queue capacity =
      if capacity == 0
      then throws (invalid_argument "sample queue capacity must be greater than zero")
      else ok (fresh_queue capacity)

  abbrev pub pop_front : List A → List A
  pop_front [] = []
  pop_front (a ∷ rest) = rest

  -- A full queue loses its oldest sample.
  unfoldable pub push : SampleQueue A → A → SampleQueue A
  push q a =
      if length q.samples == q.capacity
      then record q {
        samples = pop_front q.samples ++ (a ∷ []);
        dropped_count = inc64 q.dropped_count;
      }
      else record q { samples = q.samples ++ (a ∷ []) }

  -- The condition that a reader waits for.
  unfoldable pub is_ready : SampleQueue A → ℕ → Bool
  is_ready q generation =
      q.closed || not (q.close_generation == generation) || not (is_nil q.samples)

  abbrev pub nothing : ReadStatus → ReadResult A
  nothing status = record { status = status; sample = none }

  abbrev take_front : SampleQueue A → List A → SampleQueue A × ReadResult A
  take_front q [] = (q, nothing timeout)
  take_front q (a ∷ rest) =
      (record q { samples = rest }, record { status = sample; sample = some a })

  -- The end of `read_for_locked`. `is_ready` rules out an empty queue in its last line.
  unfoldable pub read_woken : SampleQueue A → ℕ → SampleQueue A × ReadResult A
  unfolding is_ready
  read_woken q generation =
      if not (is_ready q generation)
      then (q, nothing timeout)
      else if q.closed || not (q.close_generation == generation)
      then (q, nothing closed)
      else take_front q q.samples

  unfoldable pub close : SampleQueue A → SampleQueue A
  close q = record q { closed = true; close_generation = inc64 q.close_generation }

  unfoldable pub reset : SampleQueue A → SampleQueue A
  reset q = record q { samples = []; dropped_count = 0; closed = false }
