-- ===== src/Discovery/Bounds.antt =====
-- The bound of the response in core/src/discovery.cpp, over all the calls of a transfer.
use mathlib.Core.List.{append_assoc, append-nil}
use py_net_ft.Common.{
  ℕ, zero, suc, ◌+◌, ◌-◌, ◌*◌, ◌/◌, ◌%◌, ◌≤◌, ◌<◌, ◌≡◌, refl, ap, sym, ◌∙◌, Bool, true, false, ◌&&◌,
  not, List, [], ◌∷◌, ◌++◌, ltb, ◌==◌, length, length-append, take, All, arith, u64_mod, ◌⊎◌, inl,
  inr, Bool-cases, if_both, if_cases,
}
use py_net_ft.XmlConfig.Characters.{Text}
use py_net_ft.Discovery.Response.{
  ResponseBuffer, new_response, maximum_response_bytes, Write, append_response, written,
}

take-length : (xs : Text) → take (length xs) xs ≡ xs
take-length [] = refl
take-length (x ∷ xs) = ap (◌∷◌ x) (take-length xs)

length-take : (n : ℕ) (xs : Text) → length (take n xs) ≤ n
length-take zero xs = omega arith
length-take (suc n) [] = omega arith
length-take (suc n) (x ∷ xs) = omega (arith, length-take n xs)

-- `size` and `count` are of `std::size_t`, and there are as many bytes as their product says.
pub record IsWrite (w : Write) : Type 0 where
  pub size_lt : w.size < u64_mod
  pub count_lt : w.count < u64_mod
  pub length_eq : length w.bytes ≡ w.size * w.count

-- All the bytes, in order.
abbrev pub all_bytes : List Write → Text
all_bytes [] = []
all_bytes (w ∷ ws) = w.bytes ++ all_bytes ws

abbrev pub is_whole : ResponseBuffer → Bool
is_whole r = not r.too_large && not r.write_failed

product_fits :
    (size count : ℕ)
    → count < u64_mod
    → not (size == 0) && ltb ((u64_mod - 1) / size) count ≡ false
    → size * count < u64_mod
product_fits size count h e = grind arith

-- One call.
record Appended (r : ResponseBuffer) (w : Write) (r' : ResponseBuffer) : Type 0 where
  within : length r'.body ≤ maximum_response_bytes
  flags : is_whole r' ≡ true → is_whole r ≡ true
  whole : is_whole r' ≡ true → r'.body ≡ r.body ++ w.bytes

append_response-Appended :
    (r : ResponseBuffer) (w : Write)
    → length r.body ≤ maximum_response_bytes
    → IsWrite w
    → Appended r w (append_response r w).0
unfolding append_response
append_response-Appended r w h v =
    let Q = λ (x : ResponseBuffer × ℕ). Appended r w x.0 in
    if_cases Q (not (w.size == 0) && ltb ((u64_mod - 1) / w.size) w.count)
      (λ _. record { within = h; flags = λ e. ground arith; whole = λ e. ground arith })
      (λ fits.
        if_cases Q
          (ltb ((maximum_response_bytes + u64_mod - length r.body) % u64_mod)
            (w.size * w.count % u64_mod))
          (λ _. record { within = h; flags = λ e. ground arith; whole = λ e. ground arith })
          (λ room.
            if_both Q (not w.stored)
              (record { within = h; flags = λ e. ground arith; whole = λ e. ground arith })
              (stored (product_fits w.size w.count v.count_lt fits) room)))
  where
    stored :
        w.size * w.count < u64_mod
        → ltb
            ((maximum_response_bytes + u64_mod - length r.body) % u64_mod)
            (w.size * w.count % u64_mod)
          ≡ false
        → Appended r w (record r { body = r.body ++ take (w.size * w.count % u64_mod) w.bytes })
    stored k room =
        let all : w.size * w.count % u64_mod ≡ length w.bytes = omega (arith, v.length_eq) in
        let taken : take (w.size * w.count % u64_mod) w.bytes ≡ w.bytes =
          ap (λ (n : ℕ). take n w.bytes) all ∙ take-length w.bytes in
        let left : length w.bytes ≤ maximum_response_bytes - length r.body = ground (arith, all) in
        record {
          within = omega (
            arith,
            ap (λ (xs : Text). length (r.body ++ xs)) taken,
            length-append r.body w.bytes,
          );
          flags = λ e. e;
          whole = λ e. ap (λ (xs : Text). r.body ++ xs) taken;
        }

record Filled (r : ResponseBuffer) (ws : List Write) (r' : ResponseBuffer) : Type 0 where
  within : length r'.body ≤ maximum_response_bytes
  flags : is_whole r' ≡ true → is_whole r ≡ true
  whole : is_whole r' ≡ true → r'.body ≡ r.body ++ all_bytes ws

written-Filled :
    (ws : List Write) (r : ResponseBuffer)
    → length r.body ≤ maximum_response_bytes
    → All IsWrite ws
    → Filled r ws (written ws r)
unfolding written
written-Filled [] r h v = record {
  within = h;
  flags = λ e. e;
  whole = λ e. sym (append-nil r.body);
}
written-Filled (w ∷ ws) r h (v, vs) =
    let r' = (append_response r w).0 in
    let a = append_response-Appended r w h v in
    let b = written-Filled ws r' a.within vs in
    record {
      within = b.within;
      flags = λ e. a.flags (b.flags e);
      whole = λ e.
          b.whole e
          ∙ ap (λ (xs : Text). xs ++ all_bytes ws) (a.whole (b.flags e))
          ∙ append_assoc r.body w.bytes (all_bytes ws);
    }

pub written-whole :
    (ws : List Write)
    → All IsWrite ws
    → is_whole (written ws new_response) ≡ true
    → (length (all_bytes ws) ≤ maximum_response_bytes)
      × ((written ws new_response).body ≡ all_bytes ws)
written-whole ws v e =
    let f = written-Filled ws new_response (omega arith) v in
    (omega (arith, ap length (f.whole e), f.within), f.whole e)

-- However the response comes in pieces, the buffer never holds more than 65536 bytes; and either one of its
-- two flags is set, or it holds every byte, in order.
pub written_bounded :
    (ws : List Write)
    → All IsWrite ws
    → (length (written ws new_response).body ≤ maximum_response_bytes)
      × ((is_whole (written ws new_response) ≡ false)
          ⊎ ((written ws new_response).body ≡ all_bytes ws))
written_bounded ws v =
    let f = written-Filled ws new_response (omega arith) v in
    (
      f.within,
      elim (Bool-cases (is_whole (written ws new_response))) [
        | inl e ↦ inr (f.whole e)
        | inr e ↦ inl e
      ],
    )
