-- ===== src/Client/Threads/Alone.antt =====
-- The worker thread of a client of core/src/detail/client_impl.cpp: there is one at most, and each is joined.
use py_net_ft.Common.{
  ℕ, ◌+◌, ◌≤◌, ◌≡◌, refl, ap, sym, ◌⊎◌, inl, inr, Bool, true, false, Option, none, some, List, [],
  ◌∷◌, length, is_nil, not, All, ◌==◌, ==_iff, Bool-cases, if◌then◌else◌, subst, arith,
}
use py_net_ft.Exception.{Result}
use py_net_ft.Double.{Double}
use py_net_ft.Transport.{SendResult}
use py_net_ft.Client.State.{Impl}
use py_net_ft.Client.Command.{returned, bias, health, stop_locked}
use py_net_ft.Client.Lifecycle.{started, refused, already_running, start_locked}
use py_net_ft.Client.Threads.{
  System, stopping, Joiner, work, Step, starts, stops, biases, reads_health, joins_worker, works,
  leaves, ends, Reachable, initially, next, has, has_join,
}
use py_net_ft.Client.Threads.Kept.{bias-StandsAs, health-StandsAs, work-StandsAs}
use py_net_ft.Client.Threads.Phases.{
  AtMost, gone, one, IsPhase, idle, running, left, awaited, collected, kept,
}
use py_net_ft.Client.Threads.Started.{start-IsPhase}
use py_net_ft.Client.Threads.Halted.{stop-IsPhase, stop_locked-returned}
use py_net_ft.Client.Threads.Ended.{join-IsPhase, leave-IsPhase, end-IsPhase}

-- One for a handle in `worker_`, none for none.
abbrev pub held : Option ℕ → ℕ
held none = 0
held (some w) = 1

All-has : (P : ℕ → Type 0) (w : ℕ) (us : List ℕ) → All P us → has w us ≡ true → P w
All-has P w [] ps h = ground (arith, h)
All-has P w (u ∷ us) (p, ps) h = elim (Bool-cases (w == u)) [
  | inl e ↦ subst P (sym ((==_iff w u).0 e)) p
  | inr e ↦ All-has P w us ps (rw⁻¹ (ap (λ (b : Bool). if b then true else has w us) e) h)
]

All-nil : (P : ℕ → Type 0) (us : List ℕ) → us ≡ [] → All P us
All-nil P us e = subst (All P) (sym e) tt

All-one : (P : ℕ → Type 0) (v : ℕ) (us : List ℕ) → us ≡ v ∷ [] → P v → All P us
All-one P v us e p = subst (All P) (sym e) (p, tt)

All-AtMost : (P : ℕ → Type 0) (v : ℕ) (ts us : List ℕ) → AtMost v ts → us ≡ ts → P v → All P us
All-AtMost P v ts us gone e p = All-nil P us e
All-AtMost P v ts us one e p = All-one P v us e p

AtMost-one : (v : ℕ) (ts us : List ℕ) → AtMost v ts → us ≡ ts → length us ≤ 1
AtMost-one v ts us gone e = ground (arith, e)
AtMost-one v ts us one e = ground (arith, e)

join_found :
    (k : Joiner) (v : ℕ) (js : List (Joiner × ℕ)) → js ≡ (k, v) ∷ [] → has_join v js ≡ some k
join_found k v js e = ground (arith, e)

module _ {F : Type 0} where
  pub record IsOneWorker (y : System F) : Type 0 where
    pub one_thread : length y.looping + length y.leaving ≤ 1
    pub one_handle : held y.client.worker + length y.pending_joins ≤ 1
    pub looping_held :
        All
          (λ w.
            (y.client.worker_exited ≡ false)
            × (y.client.active_worker_id ≡ w)
            × ((y.client.worker ≡ some w) ⊎ (has_join w y.pending_joins ≡ some stopping)))
          y.looping
    pub leaving_held :
        All
          (λ w.
            (y.client.worker_exited ≡ true)
            × ((y.client.worker ≡ some w) ⊎ ((k : Joiner) × (has_join w y.pending_joins ≡ some k))))
          y.leaving
    pub joining_eq : y.client.joining ≡ not (is_nil y.pending_joins)

  IsPhase-IsOneWorker : (y : System F) → IsPhase y → IsOneWorker y
  IsPhase-IsOneWorker y (idle h a b c) = record {
    one_thread = ground (arith, a, b);
    one_handle = ground (arith, h, c);
    looping_held = All-nil _ y.looping a;
    leaving_held = All-nil _ y.leaving b;
    joining_eq = ground (arith, h, c);
  }
  IsPhase-IsOneWorker y (running w h e a b c) = record {
    one_thread = ground (arith, a, b);
    one_handle = ground (arith, h, c);
    looping_held = All-one _ w y.looping a (h.2, e, inl h.0);
    leaving_held = All-nil _ y.leaving b;
    joining_eq = ground (arith, h, c);
  }
  IsPhase-IsOneWorker y (left w ts t h a b c) = record {
    one_thread = let n = AtMost-one w ts y.leaving t b in ground (arith, a, n);
    one_handle = ground (arith, h, c);
    looping_held = All-nil _ y.looping a;
    leaving_held = All-AtMost _ w ts y.leaving t b (h.2, inl h.0);
    joining_eq = ground (arith, h, c);
  }
  IsPhase-IsOneWorker y (awaited w h e a b c) = record {
    one_thread = ground (arith, a, b);
    one_handle = ground (arith, h, c);
    looping_held = All-one _ w y.looping a (h.2, e, inr (join_found stopping w y.pending_joins c));
    leaving_held = All-nil _ y.leaving b;
    joining_eq = ground (arith, h, c);
  }
  IsPhase-IsOneWorker y (collected k w ts t h a b c) = record {
    one_thread = let n = AtMost-one w ts y.leaving t b in ground (arith, a, n);
    one_handle = ground (arith, h, c);
    looping_held = All-nil _ y.looping a;
    leaving_held = All-AtMost _ w ts y.leaving t b (h.2, inr (k, join_found k w y.pending_joins c));
    joining_eq = ground (arith, h, c);
  }

module _ {F : Type 0} ⦃d : Double F⦄ where
  step-IsPhase : (y z : System F) → Step y z → IsPhase y → IsPhase z
  step-IsPhase y z (starts self callback creation l) p = start-IsPhase y self callback creation p
  step-IsPhase y z (stops self sent l) p = stop-IsPhase y self sent p
  step-IsPhase y z (biases a b) p = kept y (bias y.client a b).0 (bias-StandsAs y.client a b) p
  step-IsPhase y z (reads_health now) p =
      kept y (health y.client now).0 (health-StandsAs y.client now) p
  step-IsPhase y z (joins_worker k w j l m) p = join-IsPhase y k w j l m p
  step-IsPhase y z (works w m l) p = kept y (work y.client m) (work-StandsAs y.client m) p
  step-IsPhase y z (leaves w sent l m) p = leave-IsPhase y w sent l p
  step-IsPhase y z (ends w l) p = end-IsPhase y w l p

  pub Reachable-IsPhase : (y : System F) → Reachable y → IsPhase y
  Reachable-IsPhase y (initially c) = idle (refl, refl, refl) refl refl refl
  Reachable-IsPhase y (next {y = x} r s) = step-IsPhase x y s (Reachable-IsPhase x r)

  -- Whatever calls of `start`, `stop`, `bias` and `health` the threads make, in whatever order their locked
  -- parts come and however their joins and the worker run in between, there is one worker thread at most,
  -- in its loop or on its way out, and one handle at most, in the client or with the thread that joins; a
  -- worker that lives has its handle in one of the two places, so that none is lost; one in its loop has not
  -- set `worker_exited_`, and only a `stop` joins it; and a join is marked by `joining_` as long as it is
  -- waited for.
  pub Reachable-IsOneWorker : (y : System F) → Reachable y → IsOneWorker y
  Reachable-IsOneWorker y r = IsPhase-IsOneWorker y (Reachable-IsPhase y r)

  pub live_worker :
      (y : System F) (w : ℕ)
      → Reachable y
      → has w y.looping ≡ true
      → (y.client.worker_exited ≡ false)
        × (y.client.active_worker_id ≡ w)
        × ((y.client.worker ≡ some w) ⊎ (has_join w y.pending_joins ≡ some stopping))
  live_worker y w r l = All-has _ w y.looping (Reachable-IsOneWorker y r).looping_held l

  -- In every state that is reached so, a worker in its loop that calls `stop` or `start`, from its callback,
  -- does not wait: `stop` returns, and never joins the thread that it runs on, and `start` is refused as
  -- already running and changes nothing.
  pub worker_never_waits :
      (y : System F) (w : ℕ) (sent : SendResult) (callback : Option ℕ) (creation : Result ℕ)
      → Reachable y
      → has w y.looping ≡ true
      → ((stop_locked y.client w sent).1 ≡ returned)
        × (start_locked y.client w callback creation ≡ (y.client, refused already_running))
  unfolding start_locked
  worker_never_waits y w sent callback creation r l =
      let (exited, active, place) = live_worker y w r l in
      (stop_locked-returned y.client w sent exited active, ground (arith, exited, active))

  launches_only :
      (s : Impl F) (self : ℕ) (callback : Option ℕ) (creation : Result ℕ)
      → (start_locked s self callback creation).1 ≡ started
      → (s.worker ≡ none) × (s.joining ≡ false)
  unfolding start_locked
  launches_only s self callback creation e = ground (arith, e)

  alone :
      (y : System F)
      → IsPhase y
      → y.client.worker ≡ none
      → y.client.joining ≡ false
      → (y.looping ≡ []) × (y.leaving ≡ []) × (y.pending_joins ≡ [])
  alone y (idle h a b c) e j = (a, b, c)
  alone y (running w h a b c f) e j = ground (arith, h, e)
  alone y (left w ts t h a b c) e j = ground (arith, h, e)
  alone y (awaited w h a b c f) e j = ground (arith, h, j)
  alone y (collected k w ts t h a b c) e j = ground (arith, h, j)

  -- In every state that is reached so, a `start` that begins a new worker finds that no worker lives, in its
  -- loop or on its way out, and that no join is waited for.
  pub launches_alone :
      (y : System F) (self : ℕ) (callback : Option ℕ) (creation : Result ℕ)
      → Reachable y
      → (start_locked y.client self callback creation).1 ≡ started
      → (y.looping ≡ []) × (y.leaving ≡ []) × (y.pending_joins ≡ [])
  launches_alone y self callback creation r e =
      let (n, j) = launches_only y.client self callback creation e in
      alone y (Reachable-IsPhase y r) n j
