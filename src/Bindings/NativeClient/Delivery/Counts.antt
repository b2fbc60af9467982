-- ===== src/Bindings/NativeClient/Delivery/Counts.antt =====
-- The counters of the core and of the queue of bindings/python/native_client.cpp agree.
use py_net_ft.Common.{
  ℕ, suc, ◌+◌, ◌^◌, ◌≤◌, ◌<◌, ◌≡◌, refl, ap, ◌∙◌, Bool, true, false, Option, some, List, [], ◌∷◌,
  if◌then◌else◌, arith, length, add64, inc64,
}
use py_net_ft.Double.{Double}
use py_net_ft.Types.{SensorConfiguration, Sample}
use py_net_ft.Client.State.{Impl}
use py_net_ft.Client.Command.{interlude}
use py_net_ft.Client.Frame.{Keeps, interlude-Keeps}
use py_net_ft.Client.Kept.{Keeps-Stands, Keeps-Agree, handle_record-Stands}
use py_net_ft.Client.Delivery.{is_delivered, handle_record_delivers}
use py_net_ft.Client.Record.{returns, handle_record, make_sample}
use py_net_ft.Bindings.SampleQueue.{SampleQueue, read_woken}
use py_net_ft.Bindings.SampleQueue.Fifo.{IsBounded}
use py_net_ft.Bindings.SampleQueue.Order.{serve_conserves}
use py_net_ft.Bindings.NativeClient.{NativeClient}
use py_net_ft.Bindings.NativeClient.Callback.{
  Activity, arrives, takes, meanwhile, receive_record, operate,
}
use py_net_ft.Bindings.NativeClient.Delivery.{
  got, delivered, queue_events, given-queue_events, IsFeeding, Stands-IsFeeding, operate-Matches,
}

-- The last entry, or what is given for none.
abbrev pub last_or : {A : Type 0} → Option A → List A → Option A
last_or o [] = o
last_or o (x ∷ xs) = last_or (some x) xs

module _ {F : Type 0} ⦃d : Double F⦄ (c : SensorConfiguration F) where
  -- What the core shows of the samples `xs` after it has delivered them.
  record Tells (s : Impl F) (xs : List (Sample F)) (u : Impl F) : Type 0 where
    count_eq : u.health.delivered_count ≡ add64 s.health.delivered_count (length xs)
    latest_eq : u.latest ≡ last_or s.latest xs

  Keeps-Tells : (s t u : Impl F) (xs : List (Sample F)) → Keeps s t → Tells t xs u → Tells s xs u
  Keeps-Tells s t u xs k w = record {
    count_eq = w.count_eq ∙ ap (λ (m : ℕ). add64 m (length xs)) (Keeps-Agree s t k).delivered_eq;
    latest_eq = w.latest_eq ∙ ap (λ (o : Option (Sample F)). last_or o xs) k.latest_eq;
  }

  record-Tells :
      (b : Bool) (s t u : Impl F) (x : Sample F) (xs : List (Sample F))
      → s.health.delivered_count < 2 ^ 64
      → t.latest ≡ (if b then some x else s.latest)
      → t.health.delivered_count
        ≡ (if b then inc64 s.health.delivered_count else s.health.delivered_count)
      → Tells t xs u
      → Tells s (if b then x ∷ xs else xs) u
  record-Tells true s t u x xs h p q w = record {
    count_eq = omega (arith, w.count_eq, q);
    latest_eq = w.latest_eq ∙ ap (λ (o : Option (Sample F)). last_or o xs) p;
  }
  record-Tells false s t u x xs h p q w = record {
    count_eq = omega (arith, w.count_eq, q);
    latest_eq = w.latest_eq ∙ ap (λ (o : Option (Sample F)). last_or o xs) p;
  }

  fits : (b : Bool) (m k : ℕ) → m < 2 ^ 64 → k ≡ (if b then inc64 m else m) → k < 2 ^ 64
  fits b m k h e = ground arith

  operate-Tells :
      (n : NativeClient F) (es : List Activity)
      → IsFeeding c n.client
      → n.client.health.delivered_count < 2 ^ 64
      → Tells n.client (delivered c n.client es) (operate n es).0.client
  unfolding operate receive_record
  operate-Tells n [] w h = record { count_eq = omega arith; latest_eq = refl }
  operate-Tells n (arrives r t calls ∷ es) w h =
      let s = (handle_record n.client r t calls returns).0 in
      let ws = Stands-IsFeeding c n.client s (handle_record-Stands n.client r t calls returns) w in
      let (p, _, _, q) = handle_record_delivers n.client c r t calls returns w.configuration_eq in
      record-Tells (is_delivered n.client c r t returns) n.client s _ (make_sample c r t) _ h p q (
        operate-Tells (receive_record n r t calls) es ws
          (fits (is_delivered n.client c r t returns) _ _ h q))
  operate-Tells n (takes ∷ es) w h =
      operate-Tells (record n { queue = (read_woken n.queue n.queue.close_generation).0 }) es w h
  operate-Tells n (meanwhile calls ∷ es) w h =
      let s = interlude n.client calls in
      let k = interlude-Keeps n.client calls in
      Keeps-Tells n.client s _ _ k (
        operate-Tells (record n { client = s }) es
          (Stands-IsFeeding c n.client s (Keeps-Stands _ s k) w)
          (omega (arith, h, (Keeps-Agree _ s k).delivered_eq)))

  fewer :
      {A : Type 0} (b : Bool) (x : A) (xs : List A) (m : ℕ)
      → length xs ≤ m
      → length (if b then x ∷ xs else xs) ≤ suc m
  fewer b x xs m h = ground arith

  delivered_short : (s : Impl F) (es : List Activity) → length (delivered c s es) ≤ length es
  delivered_short s [] = omega arith
  delivered_short s (arrives r t calls ∷ es) =
      fewer (is_delivered s c r t returns) (make_sample c r t) _ _
        (delivered_short (handle_record s r t calls returns).0 es)
  delivered_short s (takes ∷ es) = omega (arith, delivered_short s es)
  delivered_short s (meanwhile calls ∷ es) = omega (arith, delivered_short (interlude s calls) es)

  -- Let the client be running with its callback set, its configuration known and its queue open and
  -- within its bound, and let the two counters leave room for so many events. Whatever arrives, is read and is called: the
  -- samples that readers got, those still queued and those counted as dropped grow together by exactly as
  -- many as the core counts as delivered; and the latest sample is the last one delivered.
  pub operate_conserves :
      (n : NativeClient F) (es : List Activity)
      → IsFeeding c n.client
      → IsBounded n.queue
      → n.queue.closed ≡ false
      → n.client.health.delivered_count + length es < 2 ^ 64
      → n.queue.dropped_count + length es < 2 ^ 64
      → let (m, results) = operate n es in
        (length (got results)
            + length m.queue.samples
            + m.queue.dropped_count
            + n.client.health.delivered_count
          ≡ length n.queue.samples + n.queue.dropped_count + m.client.health.delivered_count)
        × (m.client.latest ≡ last_or n.client.latest (delivered c n.client es))
  operate_conserves n es w b o h k =
      let m = operate-Matches c n es w in
      let t = operate-Tells n es w (omega (arith, h)) in
      let same = ap length (given-queue_events c n.client es) in
      let short = delivered_short n.client es in
      let counted =
        serve_conserves n.queue (queue_events c n.client es) b o (omega (arith, k, same)) in
      (
        omega (
          arith,
          ap length m.got_eq,
          ap (λ (q : SampleQueue (Sample F)). length q.samples) m.queue_eq,
          ap (λ (q : SampleQueue (Sample F)). q.dropped_count) m.queue_eq,
          t.count_eq,
          same,
          counted,
          h,
        ),
        t.latest_eq,
      )
