-- ===== src/Sequence/Rdt.antt =====
-- `RdtSequenceTracker` of core/src/detail/sequence.cpp against sequence numbers that do not wrap.
use Prim.Native.Nat.{max}
use py_net_ft.Common.{
  ℕ, suc, ◌+◌, ◌-◌, ◌%◌, ◌^◌, ◌≤◌, ◌<◌, ◌≡◌, refl, true, List, [], ◌∷◌, map, arith, length, ltb,
  ◌==◌, if◌then◌else◌,
}
use py_net_ft.Sequence.{
  RdtSequenceTracker, SequenceObservation, rdt_observe, contiguous, gapped, duplicate, out_of_order,
  new_rdt_tracker,
}

-- A number as the wire shows it.
abbrev pub wrap32 : ℕ → ℕ
wrap32 n = n % 2 ^ 32

abbrev pub tracking : ℕ → RdtSequenceTracker
tracking p = record { has_last = true; previous = wrap32 p }

-- What a number `c` is after `p`, were they never to wrap.
abbrev pub true_observation : ℕ → ℕ → SequenceObservation
true_observation p c =
    if c == p
    then record { kind = duplicate; gap = 0 }
    else if ltb c p
    then record { kind = out_of_order; gap = 0 }
    else if c == p + 1
    then record { kind = contiguous; gap = 0 }
    else record { kind = gapped; gap = c - p - 1 }

-- As long as a number is less than 2 ^ 31 ahead of the last accepted one and at most 2 ^ 31 behind it,
-- the tracker tells from the wrapped numbers what the true numbers are to one another, and it follows
-- the greater one.
pub rdt_observe_unwrapped :
    (p c : ℕ)
    → c < p + 2 ^ 31
    → p ≤ c + 2 ^ 31
    → rdt_observe (tracking p) (wrap32 c) ≡ (tracking (max p c), true_observation p c)
unfolding rdt_observe
rdt_observe_unwrapped p c h k = ground arith

-- The tracker and the sum of the gaps after a list of numbers.
unfoldable pub observe_all : RdtSequenceTracker → List ℕ → RdtSequenceTracker × ℕ
observe_all t [] = (t, 0)
observe_all t (c ∷ cs) =
    let (t', o) = rdt_observe t c in let (t'', lost) = observe_all t' cs in (t'', o.gap + lost)

-- Each number is above the one before it, by less than 2 ^ 31.
abbrev pub Ascends : ℕ → List ℕ → Type 0
Ascends p [] = Unit {0}
Ascends p (c ∷ cs) = (p < c) × (c < p + 2 ^ 31) × Ascends c cs

abbrev pub last_of : ℕ → List ℕ → ℕ
last_of p [] = p
last_of p (c ∷ cs) = last_of c cs

ahead :
    (p c : ℕ)
    → p < c
    → c < p + 2 ^ 31
    → ((rdt_observe (tracking p) (wrap32 c)).0 ≡ tracking c)
      × ((rdt_observe (tracking p) (wrap32 c)).1.gap + suc p ≡ c)
unfolding rdt_observe
ahead p c h k = ground arith

le-last_of : (p : ℕ) (cs : List ℕ) → Ascends p cs → p ≤ last_of p cs
le-last_of p [] a = omega arith
le-last_of p (c ∷ cs) (h, k, a) = omega (arith, le-last_of c cs a)

observe_all_from :
    (p : ℕ) (cs : List ℕ)
    → Ascends p cs
    → let (t, lost) = observe_all (tracking p) (map wrap32 cs) in
      (t ≡ tracking (last_of p cs)) × (lost + length cs + p ≡ last_of p cs)
unfolding observe_all
observe_all_from p [] a = (refl, omega arith)
observe_all_from p (c ∷ cs) (h, k, a) = ground (arith, ahead p c h k, observe_all_from c cs a)

-- From a new tracker, and over numbers that ascend by less than 2 ^ 31 each: those counted as lost and
-- those seen are together as many as there are from the first to the last, both included; and the tracker
-- holds the last.
pub observe_all_accounts :
    (c : ℕ) (cs : List ℕ)
    → Ascends c cs
    → let (t, lost) = observe_all new_rdt_tracker (map wrap32 (c ∷ cs)) in
      (t ≡ tracking (last_of c cs)) × (lost + length (c ∷ cs) ≡ last_of c cs - c + 1)
unfolding observe_all
observe_all_accounts c cs a = ground (arith, fresh c, observe_all_from c cs a, le-last_of c cs a)
  where
    fresh :
        (n : ℕ)
        → ((rdt_observe new_rdt_tracker (wrap32 n)).0 ≡ tracking n)
          × ((rdt_observe new_rdt_tracker (wrap32 n)).1.gap ≡ 0)
    fresh n = unfold rdt_observe in (refl, refl)
