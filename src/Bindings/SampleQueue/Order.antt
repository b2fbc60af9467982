-- ===== src/Bindings/SampleQueue/Order.antt =====
-- An open queue under any sequence of pushes and reads: order, and conservation.
use mathlib.Core.List.{append_assoc, append-nil, Sublist}
use mathlib.Core.List.Sublist as Sublists
use py_net_ft.Common.{
  ◌+◌, ◌^◌, ◌<◌, ◌≡◌, ap, sym, subst, ◌∙◌, false, inl, inr, Option, none, some, List, [], ◌∷◌, ◌++◌,
  ◌==◌, length, arith, Bool-cases,
}
use py_net_ft.Bindings.SampleQueue.{SampleQueue, push, read_woken, pop_front}
use py_net_ft.Bindings.SampleQueue.Fifo.{
  IsBounded, push-IsBounded, push-kept, read_current, length-push, dropped_count-push,
}

-- What happens to an open queue: pushes, and reads of the current generation.
pub data Event (A : Type 0) : Type 0 where
  pushes : A → Event A
  reads : Event A

abbrev pub given : {A : Type 0} → List (Event A) → List A
given [] = []
given (pushes a ∷ es) = a ∷ given es
given (reads ∷ es) = given es

abbrev pub to_list : {A : Type 0} → Option A → List A
to_list none = []
to_list (some a) = a ∷ []

module _ {A : Type 0} where
  -- The queue at the end, and what the readers got.
  unfoldable pub serve : SampleQueue A → List (Event A) → SampleQueue A × List A
  serve q [] = (q, [])
  serve q (pushes a ∷ es) = serve (push q a) es
  serve q (reads ∷ es) =
      let (q', result) = read_woken q q.close_generation in
      let (end, rest) = serve q' es in (end, to_list result.sample ++ rest)

  tail_sublist : (xs : List A) → Sublist (pop_front xs) xs
  tail_sublist [] = Sublists.refl []
  tail_sublist (x ∷ xs) = Sublists.cons x (Sublists.refl xs)

  push-sublist : (q : SampleQueue A) (a : A) → Sublist (push q a).samples (q.samples ++ (a ∷ []))
  unfolding push
  push-sublist q a = elim (Bool-cases (length q.samples == q.capacity)) [
    | inl full ↦ rw full (Sublists.append (tail_sublist q.samples) (Sublists.refl (a ∷ [])))
    | inr room ↦ rw room (Sublists.refl (q.samples ++ (a ∷ [])))
  ]

  -- Readers of an open queue get the samples in the order of arrival, none of them twice: what they got,
  -- followed by what is still queued, is a subsequence of what was queued and pushed.
  pub serve-sublist :
      (q : SampleQueue A) (es : List (Event A))
      → q.closed ≡ false
      → Sublist ((serve q es).1 ++ (serve q es).0.samples) (q.samples ++ given es)
  unfolding serve
  serve-sublist q [] o = rw (append-nil q.samples) (Sublists.refl q.samples)
  serve-sublist q (pushes a ∷ es) o =
      Sublists.trans (serve-sublist (push q a) es ((push-kept q a).1 ∙ o)) (
        rw (← append_assoc q.samples (a ∷ []) (given es))
          (Sublists.append (push-sublist q a) (Sublists.refl (given es))))
  serve-sublist q (reads ∷ es) o = elim (read_current q o) [
    | inl (e, r) ↦ rw r (serve-sublist q es o)
    | inr (a, rest, e, r) ↦ rw r (
        subst
          (λ (xs : List A).
            Sublist
              (a ∷ (serve (record q { samples = rest }) es).1
                ++ (serve (record q { samples = rest }) es).0.samples)
              (xs ++ given es))
          (sym e) (Sublists.cons-cons a (serve-sublist (record q { samples = rest }) es o)))
  ]

  -- From an open queue within its bound no sample is lost without being counted: those that were got,
  -- those still queued and those counted as dropped are together as many as those queued, pushed and
  -- counted before, as long as the counter does not wrap.
  pub serve_conserves :
      (q : SampleQueue A) (es : List (Event A))
      → IsBounded q
      → q.closed ≡ false
      → q.dropped_count + length (given es) < 2 ^ 64
      → length (serve q es).1 + length (serve q es).0.samples + (serve q es).0.dropped_count
        ≡ length q.samples + length (given es) + q.dropped_count
  unfolding serve
  serve_conserves q [] b o h = omega arith
  serve_conserves q (pushes a ∷ es) b o h =
      let dropped = dropped_count-push q a b (omega arith) in
      let held = length-push q a b in
      let rest =
        serve_conserves (push q a) es (push-IsBounded q a b) ((push-kept q a).1 ∙ o)
          (omega (arith, b.length_le)) in
      omega (arith, b.length_le, b.capacity_pos)
  serve_conserves q (reads ∷ es) b o h = elim (read_current q o) [
    | inl (e, r) ↦ rw r (serve_conserves q es b o h)
    | inr (a, rest, e, r) ↦
        let b' : IsBounded (record q { samples = rest }) = record {
          capacity_pos = b.capacity_pos;
          length_le = omega (arith, ap length e, b.length_le);
        } in
        rw r (omega (arith, ap length e, serve_conserves (record q { samples = rest }) es b' o h))
  ]
