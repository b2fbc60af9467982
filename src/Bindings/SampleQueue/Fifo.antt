-- ===== src/Bindings/SampleQueue/Fifo.antt =====
-- What the queue of bindings/python/sample_queue.cpp keeps of the samples that are pushed, and in which
-- order readers get them.
use mathlib.Core.List.{append_assoc, append-nil}
use py_net_ft.Common.{
  ℕ, ◌+◌, ◌-◌, ◌^◌, ◌≤◌, ◌<◌, ◌≡◌, refl, ap, sym, ◌∙◌, false, ◌⊎◌, inl, inr, some, List, [], ◌∷◌,
  ◌++◌, ◌==◌, length, drop, length-append, length-drop, drop-append, drop-drop, arith, add64, min,
  Bool-cases, ==_iff,
}
use py_net_ft.Bindings.SampleQueue.{
  SampleQueue, push, read_woken, pop_front, nothing, timeout, sample,
}

-- The last `n` entries of a list.
abbrev pub take_last : {A : Type 0} → ℕ → List A → List A
take_last n xs = drop (length xs - n) xs

module _ {A : Type 0} where
  pub record IsBounded (q : SampleQueue A) : Type 0 where
    pub capacity_pos : 0 < q.capacity
    pub length_le : length q.samples ≤ q.capacity

  -- Several pushes.
  unfoldable pub push_all : SampleQueue A → List A → SampleQueue A
  push_all q [] = q
  push_all q (a ∷ as') = push_all (push q a) as'

  pop_front-drop : (xs : List A) → pop_front xs ≡ drop 1 xs
  pop_front-drop [] = refl
  pop_front-drop (x ∷ xs) = refl

  take_last-append :
      (n : ℕ) (xs ys : List A) → take_last n (take_last n xs ++ ys) ≡ take_last n (xs ++ ys)
  take_last-append n xs ys =
      let k = length xs - n in
      let m = length (take_last n xs ++ ys) - n in
      let sizes : k + m ≡ length (xs ++ ys) - n =
        omega (arith, length-append (take_last n xs) ys, length-drop k xs, length-append xs ys) in
      ap (drop m) (sym (drop-append k xs ys (omega arith)))
      ∙ drop-drop m k (xs ++ ys)
      ∙ ap (λ (i : ℕ). drop i (xs ++ ys)) sizes

  pub push-capacity : (q : SampleQueue A) (a : A) → (push q a).capacity ≡ q.capacity
  unfolding push
  push-capacity q a = ground arith

  pub push-samples :
      (q : SampleQueue A) (a : A)
      → IsBounded q
      → (push q a).samples ≡ take_last q.capacity (q.samples ++ (a ∷ []))
  unfolding push
  push-samples q a b = elim (Bool-cases (length q.samples == q.capacity)) [
    | inl full ↦
        let one : length (q.samples ++ (a ∷ [])) - q.capacity ≡ 1 =
          omega (arith, length-append q.samples (a ∷ []), (==_iff _ _).0 full) in
        rw (full, one, pop_front-drop q.samples)
          (sym
            (drop-append 1 q.samples (a ∷ []) (omega (arith, (==_iff _ _).0 full, b.capacity_pos))))
    | inr room ↦
        let zero' : length (q.samples ++ (a ∷ [])) - q.capacity ≡ 0 =
          ground (arith, length-append q.samples (a ∷ []), b.length_le) in
        rw (room, zero')
  ]

  pub length-push :
      (q : SampleQueue A) (a : A)
      → IsBounded q
      → length (push q a).samples ≡ min q.capacity (length q.samples + 1)
  length-push q a b = omega (
    arith,
    ap length (push-samples q a b),
    length-drop (length (q.samples ++ (a ∷ [])) - q.capacity) (q.samples ++ (a ∷ [])),
    length-append q.samples (a ∷ []),
    b.length_le,
  )

  pub dropped_count-push :
      (q : SampleQueue A) (a : A)
      → IsBounded q
      → q.dropped_count < 2 ^ 64
      → (push q a).dropped_count ≡ add64 q.dropped_count (length q.samples + 1 - q.capacity)
  unfolding push
  dropped_count-push q a b h = elim (Bool-cases (length q.samples == q.capacity)) [
    | inl full ↦ rw full (omega (arith, (==_iff _ _).0 full))
    | inr room ↦ rw room (ground (arith, b.length_le))
  ]

  pub push-IsBounded : (q : SampleQueue A) (a : A) → IsBounded q → IsBounded (push q a)
  push-IsBounded q a b = record {
    capacity_pos = rw (push-capacity q a) b.capacity_pos;
    length_le = omega (arith, push-capacity q a, length-push q a b);
  }

  push_all-samples :
      (q : SampleQueue A) (as' : List A)
      → IsBounded q
      → (push_all q as').samples ≡ take_last q.capacity (q.samples ++ as')
  unfolding push_all
  push_all-samples q [] b =
      let none_over : length q.samples - q.capacity ≡ 0 = omega (arith, b.length_le) in
      rw (append-nil q.samples, none_over)
  push_all-samples q (a ∷ as') b =
      push_all-samples (push q a) as' (push-IsBounded q a b)
      ∙ ap (λ (n : ℕ). take_last n ((push q a).samples ++ as')) (push-capacity q a)
      ∙ ap (λ (xs : List A). take_last q.capacity (xs ++ as')) (push-samples q a b)
      ∙ take_last-append q.capacity (q.samples ++ (a ∷ [])) as'
      ∙ ap (take_last q.capacity) (append_assoc q.samples (a ∷ []) as')

  pub push-kept :
      (q : SampleQueue A) (a : A)
      → ((push q a).close_generation ≡ q.close_generation) × ((push q a).closed ≡ q.closed)
  unfolding push
  push-kept q a = ground arith

  push_all-counts :
      (q : SampleQueue A) (as' : List A)
      → IsBounded q
      → q.dropped_count < 2 ^ 64
      → ((push_all q as').dropped_count
          ≡ add64 q.dropped_count (length q.samples + length as' - q.capacity))
        × ((push_all q as').close_generation ≡ q.close_generation)
        × ((push_all q as').closed ≡ q.closed)
  unfolding push_all
  push_all-counts q [] b h = (omega (arith, b.length_le), refl, refl)
  push_all-counts q (a ∷ as') b h =
      let counted = dropped_count-push q a b h in
      let rest = push_all-counts (push q a) as' (push-IsBounded q a b) (omega arith) in
      let kept = push-kept q a in
      (
        omega (arith, length-push q a b, push-capacity q a, b.length_le),
        rest.1 ∙ kept.0,
        rest.2 ∙ kept.1,
      )

  -- After any number of pushes a queue within its bound holds the last `capacity` of what it held and
  -- was given, in the order of arrival, and has counted the rest as dropped; its generation and whether
  -- it is closed stay.
  pub push_all-take_last :
      (q : SampleQueue A) (as' : List A)
      → IsBounded q
      → q.dropped_count < 2 ^ 64
      → ((push_all q as').samples ≡ take_last q.capacity (q.samples ++ as'))
        × ((push_all q as').dropped_count
            ≡ add64 q.dropped_count (length q.samples + length as' - q.capacity))
        × ((push_all q as').close_generation ≡ q.close_generation)
        × ((push_all q as').closed ≡ q.closed)
  push_all-take_last q as' b h =
      let (dropped, generation, open') = push_all-counts q as' b h in
      (push_all-samples q as' b, dropped, generation, open')

  -- What a reader of the current generation gets from an open queue: the oldest sample, which leaves the
  -- queue; and a timeout only if there is none.
  pub read_current :
      (q : SampleQueue A)
      → q.closed ≡ false
      → ((q.samples ≡ []) × (read_woken q q.close_generation ≡ (q, nothing timeout)))
        ⊎ ((a : A) × (rest : List A) × (q.samples ≡ a ∷ rest)
            × (read_woken q q.close_generation
                ≡ (record q { samples = rest }, record { status = sample; sample = some a })))
  unfolding read_woken
  read_current q o = go q.samples refl
    where
      go :
          (xs : List A)
          → q.samples ≡ xs
          → ((q.samples ≡ []) × (read_woken q q.close_generation ≡ (q, nothing timeout)))
            ⊎ ((a : A) × (rest : List A) × (q.samples ≡ a ∷ rest)
                × (read_woken q q.close_generation
                    ≡ (record q { samples = rest }, record { status = sample; sample = some a })))
      go [] e = inl (e, ground arith)
      go (a ∷ rest) e = inr (a, rest, e, ground arith)
