-- ===== src/Client/Threads/Ended.antt =====
-- The end of a worker of core/src/detail/client_impl.cpp, and the join of it, keep to the phases of the
-- threads.
use py_net_ft.Common.{ℕ, ◌≡◌, refl, ap, sym, ◌∙◌, true, false, none, some, List, [], ◌∷◌, arith}
use py_net_ft.Transport.{SendResult}
use py_net_ft.Client.State.{Impl}
use py_net_ft.Client.Command.{stop_joined}
use py_net_ft.Client.Lifecycle.{start_reaped}
use py_net_ft.Client.Threads.{
  System, joined_client, Joiner, stopping, starting, without, has, has_join, join_step, leave_step,
  leave, end_step,
}
use py_net_ft.Client.Threads.Kept.{close_session-StandsAs, show_stopped-StandsAs}
use py_net_ft.Client.Threads.Phases.{
  AtMost, gone, one, Holds, IsPhase, idle, running, left, awaited, collected,
}

no_thread : (w v : ℕ) (ts : List ℕ) → AtMost v ts → w ≡ v → has w ts ≡ false → ts ≡ []
no_thread w v ts gone e m = refl
no_thread w v ts one e m = ground (arith, e, m)

ends_none : (w v : ℕ) (ts : List ℕ) → AtMost v ts → has w ts ≡ true → without w ts ≡ []
ends_none w v ts gone m = ground (arith, m)
ends_none w v ts one m = ground (arith, m)

module _ {F : Type 0} where
  pub joined-Holds :
      (k : Joiner) (s : Impl F) → Holds s none true true → Holds (joined_client k s) none false true
  unfolding stop_joined start_reaped
  joined-Holds starting s h = ground (arith, h)
  joined-Holds stopping s h = ground (arith, h)

  -- The join is that of the one handle that is out.
  pub join-IsPhase :
      (y : System F) (k : Joiner) (w : ℕ)
      → has_join w y.pending_joins ≡ some k
      → has w y.looping ≡ false
      → has w y.leaving ≡ false
      → IsPhase y
      → IsPhase (join_step y k w)
  unfolding join_step
  join-IsPhase y k w j l m (idle h a b c) = ground (arith, j, c)
  join-IsPhase y k w j l m (running v h e a b c) = ground (arith, j, c)
  join-IsPhase y k w j l m (left v ts t h a b c) = ground (arith, j, c)
  join-IsPhase y k w j l m (awaited v h e a b c) = ground (arith, j, c, l, a)
  join-IsPhase y k w j l m (collected i v ts t h a b c) =
      let e : w ≡ v = ground (arith, j, c) in
      idle (joined-Holds k y.client h) a (b ∙ no_thread w v ts t e (ap (has w) (sym b) ∙ m))
        (ground (arith, e, c))

  pub leave-IsPhase :
      (y : System F) (w : ℕ) (sent : SendResult)
      → has w y.looping ≡ true
      → IsPhase y
      → IsPhase (leave_step y w sent)
  unfolding leave_step leave
  leave-IsPhase y w sent l (idle h a b c) = ground (arith, l, a)
  leave-IsPhase y w sent l (running v h e a b c) =
      left v (v ∷ []) one (ground (arith, h, close_session-StandsAs y.client sent))
        (ground (arith, l, a)) (ground (arith, l, a, b)) c
  leave-IsPhase y w sent l (left v ts t h a b c) = ground (arith, l, a)
  leave-IsPhase y w sent l (awaited v h e a b c) =
      collected stopping v (v ∷ []) one (ground (arith, h, close_session-StandsAs y.client sent))
        (ground (arith, l, a)) (ground (arith, l, a, b)) c
  leave-IsPhase y w sent l (collected i v ts t h a b c) = ground (arith, l, a)

  pub end-IsPhase :
      (y : System F) (w : ℕ) → has w y.leaving ≡ true → IsPhase y → IsPhase (end_step y w)
  unfolding end_step
  end-IsPhase y w l (idle h a b c) = ground (arith, l, b)
  end-IsPhase y w l (running v h e a b c) = ground (arith, l, b)
  end-IsPhase y w l (left v ts t h a b c) =
      left v [] gone (ground (arith, h, show_stopped-StandsAs y.client)) a
        (ap (without w) b ∙ ends_none w v ts t (ap (has w) (sym b) ∙ l)) c
  end-IsPhase y w l (awaited v h e a b c) = ground (arith, l, b)
  end-IsPhase y w l (collected k v ts t h a b c) =
      collected k v [] gone (ground (arith, h, show_stopped-StandsAs y.client)) a
        (ap (without w) b ∙ ends_none w v ts t (ap (has w) (sym b) ∙ l)) c
