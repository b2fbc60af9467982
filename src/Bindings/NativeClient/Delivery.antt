-- ===== src/Bindings/NativeClient/Delivery.antt =====
-- From the record to the reader: the samples that the core of bindings/python/native_client.cpp delivers are those
-- that its callback queues, and those that readers get.
pub mod Counts
use mathlib.Core.List.{Sublist}
use py_net_ft.Common.{
  ℕ, ◌+◌, ◌^◌, ◌<◌, ◌≡◌, refl, sym, ap, subst, ◌∙◌, Bool, true, false, not, ◌&&◌, Option, none,
  some, List, [], ◌∷◌, ◌++◌, if◌then◌else◌, arith, length, add64, inc64,
}
use py_net_ft.Exception.{Result}
use py_net_ft.Double.{Double}
use py_net_ft.Protocol.{RawRecord}
use py_net_ft.Types.{SensorConfiguration, Sample}
use py_net_ft.Client.State.{Impl}
use py_net_ft.Client.Command.{Call, interlude}
use py_net_ft.Client.Frame.{Keeps, interlude-Keeps}
use py_net_ft.Client.Kept.{Stands, Keeps-Stands, Keeps-Agree, handle_record-Stands}
use py_net_ft.Client.Delivery.{lets_pass, is_delivered, handle_record_delivers}
use py_net_ft.Client.Record.{
  returns, account, account_for, handle_record, make_sample, is_finite_sample, too_soon,
}
use py_net_ft.Bindings.SampleQueue.{SampleQueue, ReadResult, push, read_woken}
use py_net_ft.Bindings.SampleQueue.Fifo.{IsBounded}
use py_net_ft.Bindings.SampleQueue.Order.{
  Event, pushes, reads, given, to_list, serve, serve-sublist, serve_conserves,
}
use py_net_ft.Bindings.NativeClient.{NativeClient}
use py_net_ft.Bindings.NativeClient.Callback.{
  Activity, arrives, takes, meanwhile, push_argument, callback_argument, receive_record, operate,
}

module _ {F : Type 0} where
  -- The samples that readers got.
  abbrev pub got : List (ReadResult (Sample F)) → List (Sample F)
  got [] = []
  got (r ∷ rs) = to_list r.sample ++ got rs

pass_twice :
    {A : Type 0} (a b f : Bool) (x : A)
    → (if (a && not (a && b)) && f then some x else none)
      ≡ (if a && not b && f && true then some x else none)
pass_twice a b f x = ground arith

module _ {F : Type 0} ⦃d : Double F⦄ (c : SensorConfiguration F) where
  -- The samples of the records that are delivered, one after the other.
  abbrev pub delivered : Impl F → List Activity → List (Sample F)
  delivered s [] = []
  delivered s (arrives r t calls ∷ es) =
      let rest = delivered (handle_record s r t calls returns).0 es in
      if is_delivered s c r t returns then make_sample c r t ∷ rest else rest
  delivered s (takes ∷ es) = delivered s es
  delivered s (meanwhile calls ∷ es) = delivered (interlude s calls) es

  -- The same on the queue alone.
  abbrev pub queue_events : Impl F → List Activity → List (Event (Sample F))
  queue_events s [] = []
  queue_events s (arrives r t calls ∷ es) =
      let rest = queue_events (handle_record s r t calls returns).0 es in
      if is_delivered s c r t returns then pushes (make_sample c r t) ∷ rest else rest
  queue_events s (takes ∷ es) = reads ∷ queue_events s es
  queue_events s (meanwhile calls ∷ es) = queue_events (interlude s calls) es

  pub given-queue_events :
      (s : Impl F) (es : List Activity) → given (queue_events s es) ≡ delivered s es
  given-queue_events s [] = refl
  given-queue_events s (arrives r t calls ∷ es) =
      let rest = given-queue_events (handle_record s r t calls returns).0 es in
      go (is_delivered s c r t returns) _ _ rest
    where
      go :
          (b : Bool) (xs : List (Event (Sample F))) (ys : List (Sample F))
          → given xs ≡ ys
          → given (if b then pushes (make_sample c r t) ∷ xs else xs)
            ≡ (if b then make_sample c r t ∷ ys else ys)
      go true xs ys e = ap (λ (zs : List (Sample F)). make_sample c r t ∷ zs) e
      go false xs ys e = e
  given-queue_events s (takes ∷ es) = given-queue_events s es
  given-queue_events s (meanwhile calls ∷ es) = given-queue_events (interlude s calls) es

  -- A client whose callback is set and whose configuration is known.
  pub record IsFeeding (s : Impl F) : Type 0 where
    pub configuration_eq : s.health.sensor_configuration ≡ some c
    pub callback : ℕ
    pub callback_eq : s.callback ≡ some callback

  pub Stands-IsFeeding : (s t : Impl F) → Stands s t → IsFeeding s → IsFeeding t
  Stands-IsFeeding s t k w = record {
    configuration_eq = k.configuration_eq ∙ w.configuration_eq;
    callback = w.callback;
    callback_eq = k.callback_eq ∙ w.callback_eq;
  }

  callback_argument-is_delivered :
      (s : Impl F) (r : RawRecord) (t : ℕ)
      → IsFeeding s
      → callback_argument s r t
        ≡ (if is_delivered s c r t returns then some (make_sample c r t) else none)
  unfolding callback_argument account account_for
  callback_argument-is_delivered s r t w =
      rw (w.configuration_eq, w.callback_eq)
        (pass_twice (lets_pass s r) (too_soon s.config.sample_rate_limit_hz s.last_delivery_at t)
          (is_finite_sample (make_sample c r t)) (make_sample c r t))

  receive_record-push :
      (n : NativeClient F) (r : RawRecord) (t : ℕ) (calls : List Call)
      → IsFeeding n.client
      → receive_record n r t calls ≡ (
          let s = (handle_record n.client r t calls returns).0 in
          if is_delivered n.client c r t returns
          then record n { client = s; queue = push n.queue (make_sample c r t) }
          else record n { client = s })
  unfolding receive_record
  receive_record-push n r t calls w =
      rw (callback_argument-is_delivered n.client r t w)
        (go (is_delivered n.client c r t returns) _ (make_sample c r t))
    where
      go :
          (b : Bool) (s : Impl F) (x : Sample F)
          → record n { client = s; queue = push_argument n.queue (if b then some x else none) } ≡ (
              if b
              then record n { client = s; queue = push n.queue x }
              else record n { client = s })
      go true s x = refl
      go false s x = refl

  -- The queue goes through the same events alone.
  pub record Matches (x : NativeClient F × List (ReadResult (Sample F)))
      (y : SampleQueue (Sample F) × List (Sample F)) : Type 0 where
    pub queue_eq : x.0.queue ≡ y.0
    pub got_eq : got x.1 ≡ y.1

  pub operate-Matches :
      (n : NativeClient F) (es : List Activity)
      → IsFeeding n.client
      → Matches (operate n es) (serve n.queue (queue_events n.client es))
  unfolding operate serve
  operate-Matches n [] w = record { queue_eq = refl; got_eq = refl }
  operate-Matches n (arrives r t calls ∷ es) w =
      let s = (handle_record n.client r t calls returns).0 in
      let ws = Stands-IsFeeding n.client s (handle_record-Stands n.client r t calls returns) w in
      let x = make_sample c r t in
      rw (receive_record-push n r t calls w) (
        go (is_delivered n.client c r t returns) s x (queue_events s es)
          (operate-Matches (record n { client = s; queue = push n.queue x }) es ws)
          (operate-Matches (record n { client = s }) es ws))
    where
      go :
          (b : Bool) (s : Impl F) (x : Sample F) (rest : List (Event (Sample F)))
          → Matches
              (operate (record n { client = s; queue = push n.queue x }) es)
              (serve (push n.queue x) rest)
          → Matches (operate (record n { client = s }) es) (serve n.queue rest)
          → Matches
              (operate
                (if b
                  then record n { client = s; queue = push n.queue x }
                  else record n { client = s })
                es)
              (serve n.queue (if b then pushes x ∷ rest else rest))
      go true s x rest m o = m
      go false s x rest m o = o
  operate-Matches n (takes ∷ es) w =
      let (q, result) = read_woken n.queue n.queue.close_generation in
      let rest = operate-Matches (record n { queue = q }) es w in
      record {
        queue_eq = rest.queue_eq;
        got_eq = ap (λ (xs : List (Sample F)). to_list result.sample ++ xs) rest.got_eq;
      }
  operate-Matches n (meanwhile calls ∷ es) w =
      let s = interlude n.client calls in
      let rest =
        operate-Matches (record n { client = s }) es
          (Stands-IsFeeding n.client s (Keeps-Stands _ s (interlude-Keeps n.client calls)) w) in
      record { queue_eq = rest.queue_eq; got_eq = rest.got_eq }

  -- Let the client be running with its callback set, its configuration known and its queue open. Whatever
  -- records arrive, whichever readers take from the queue and whichever calls are made in between: what
  -- the readers got, followed by what is still queued, is a subsequence of what was queued and of the
  -- samples that the core delivered. So readers get none but those, in their order, and none twice.
  pub operate-sublist :
      (n : NativeClient F) (es : List Activity)
      → IsFeeding n.client
      → n.queue.closed ≡ false
      → Sublist
          (got (operate n es).1 ++ (operate n es).0.queue.samples)
          (n.queue.samples ++ delivered n.client es)
  operate-sublist n es w o =
      let m = operate-Matches n es w in
      rw (m.queue_eq, m.got_eq, ← given-queue_events n.client es)
        (serve-sublist n.queue (queue_events n.client es) o)
