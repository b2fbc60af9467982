-- ===== src/XmlConfig/Termination.antt =====
-- The loop of `extract_required_fields` of core/src/detail/xml_config.cpp comes to its end.
use Prim.Native.Char.{Char}
use Prim.Native.String.{String}
use py_net_ft.Common.{
  ℕ, zero, suc, ◌≤◌, ◌<◌, ◌≡◌, refl, ap, not, Option, none, some, [], ◌∷◌, arith, length, drop,
  length-drop, if_both, ◌&&◌,
}
use py_net_ft.Exception.{Result, ok, throws, ◌>>=◌}
use py_net_ft.XmlConfig.Characters.{
  Text, chars, starts_with, before_markup, cut, tag_end, next_quote, put_before, is, is_open, trim,
}
use py_net_ft.XmlConfig.Scanner.{
  Scan, take_markup, take_tag, scan, append_required_text, skip, take_cdata, after_tag, new_scan,
  PerTag,
}
use py_net_ft.XmlConfig.Fields.{extract_required_fields, finish_loop, finish_scan}

-- What a search leaves is no longer than what it was given.
abbrev Within : ℕ → Option (Text × Text) → Type 0
Within n none = Unit
Within n (some (before, after)) = length after ≤ n

put_before-Within :
    (n : ℕ) (c : Char) (o : Option (Text × Text)) → Within n o → Within (suc n) (put_before c o)
put_before-Within n c none w = tt
put_before-Within n c (some (before, after)) w = omega arith

cut-Within : (ending text : Text) → Within (length text) (cut ending text)
unfolding cut
cut-Within ending [] = tt
cut-Within ending (c ∷ cs) =
    if_both (Within (length (c ∷ cs))) (starts_with ending (c ∷ cs))
      (omega (arith, length-drop (length ending) (c ∷ cs)))
      (put_before-Within (length cs) c (cut ending cs) (cut-Within ending cs))

tag_end-Within : (quote : Option ℕ) (text : Text) → Within (length text) (tag_end quote text)
unfolding tag_end
tag_end-Within quote [] = tt
tag_end-Within quote (c ∷ cs) =
    if_both (Within (length (c ∷ cs))) (not (is_open quote) && is b'>' c) (omega arith)
      (put_before-Within (length cs) c _ (tag_end-Within (next_quote quote c) cs))

before_markup-Within : (text : Text) → length (before_markup text).1 ≤ length text
unfolding before_markup
before_markup-Within [] = omega arith
before_markup-Within (c ∷ cs) = ground (arith, before_markup-Within cs)

-- What a round leaves is shorter than what it was given.
abbrev Shrinks : ℕ → Result (Scan × Text) → Type 0
Shrinks n (throws e) = Unit
Shrinks n (ok (s, after)) = length after ≤ n

skip-Shrinks :
    (n m : ℕ) (s : Scan) (message : String) (o : Option (Text × Text))
    → m ≤ n
    → Within m o
    → Shrinks n (skip s message o)
skip-Shrinks n m s message none h w = tt
skip-Shrinks n m s message (some (before, after)) h w = omega arith

take_cdata-Shrinks :
    (n m : ℕ) (s : Scan) (o : Option (Text × Text))
    → m ≤ n
    → Within m o
    → Shrinks n (take_cdata s o)
take_cdata-Shrinks n m s none h w = tt
take_cdata-Shrinks n m s (some (before, after)) h w = omega arith

tagged-Shrinks :
    (n : ℕ) (r : Result Scan) (rest : Text) → length rest ≤ n → Shrinks n (r >>= λ s. ok (s, rest))
tagged-Shrinks n (throws e) rest h = tt
tagged-Shrinks n (ok s) rest h = h

after_tag-Shrinks :
    (n : ℕ) (s : Scan) (o : Option (Text × Text)) → Within n o → Shrinks n (after_tag s o)
after_tag-Shrinks n s none w = tt
after_tag-Shrinks n s (some (tag, rest)) w = tagged-Shrinks n (take_tag s (trim tag)) rest w

drop-cons : (k : ℕ) (c : Char) (cs : Text) → length (drop (suc k) (c ∷ cs)) ≤ length cs
drop-cons k c cs = omega (arith, length-drop k cs)

take_markup-Shrinks :
    (s : Scan) (c : Char) (cs : Text) → Shrinks (length cs) (take_markup s (c ∷ cs))
unfolding take_markup
take_markup-Shrinks s c cs =
    let P = Shrinks (length cs) in
    if_both P (starts_with (chars "<!--") (c ∷ cs))
      (skip-Shrinks _ _ s _ _ (drop-cons 3 c cs) (cut-Within (chars "-->") (drop 4 (c ∷ cs))))
      (if_both P (starts_with (chars "<![CDATA[") (c ∷ cs))
        (take_cdata-Shrinks _ _ s _ (drop-cons 8 c cs) (cut-Within (chars "]]>") (drop 9 (c ∷ cs))))
        (if_both P (starts_with (chars "<?") (c ∷ cs))
          (skip-Shrinks _ _ s _ _ (drop-cons 1 c cs) (cut-Within (chars "?>") (drop 2 (c ∷ cs))))
          (if_both P (starts_with (chars "<!") (c ∷ cs)) tt
            (after_tag-Shrinks _ s _ (tag_end-Within none cs)))))

-- The loop has an outcome.
record Ends (o : Option (Result Scan)) : Type 0 where
  outcome : Result Scan
  outcome_eq : o ≡ some outcome

scan-Ends : (rounds : ℕ) (s : Scan) (text : Text) → length text < rounds → Ends (scan rounds s text)
unfolding scan
scan-Ends zero s text h = elim h [ ]
scan-Ends (suc rounds) s [] h = record { outcome = ok s; outcome_eq = refl }
scan-Ends (suc rounds) s (c ∷ cs) h =
    over (before_markup (c ∷ cs)).1 (append_required_text s (before_markup (c ∷ cs)).0)
      (before_markup-Within (c ∷ cs)) (λ t after k. scan-Ends rounds t after (omega arith))
  where
    within :
        (r : Result (Scan × Text))
        → Shrinks (length cs) r
        → ((t : Scan) (after : Text) → length after ≤ length cs → Ends (scan rounds t after))
        → Ends (elim r as (λ _. Option (Result Scan)) [
          | throws e ↦ some (throws e)
          | ok (t, after) ↦ scan rounds t after
        ])
    within (throws e) w again = record { outcome = throws e; outcome_eq = refl }
    within (ok (t, after)) w again = again t after w

    weaker : (m n : ℕ) (r : Result (Scan × Text)) → m ≤ n → Shrinks m r → Shrinks n r
    weaker m n (throws e) k w = tt
    weaker m n (ok (t, after)) k w = omega arith

    over :
        (rest : Text) (t : Scan)
        → length rest ≤ length (c ∷ cs)
        → ((t : Scan) (after : Text) → length after ≤ length cs → Ends (scan rounds t after))
        → Ends (elim rest as (λ _. Option (Result Scan)) [
          | [] ↦ some (ok t)
          | d ∷ ds ↦ elim (take_markup t (d ∷ ds)) [
            | throws e ↦ some (throws e)
            | ok (t', after) ↦ scan rounds t' after
          ]
        ])
    over [] t k again = record { outcome = ok t; outcome_eq = refl }
    over (d ∷ ds) t k again =
        within (take_markup t (d ∷ ds))
          (weaker (length ds) (length cs) (take_markup t (d ∷ ds)) (omega arith)
            (take_markup-Shrinks t d ds))
          again

-- For every text the extraction of the fields ends: it gives the fields, or an error, and its loop never
-- runs out of the rounds it is given, one more than there are characters.
pub extract_required_fields_total :
    (xml : Text) → (r : Result (PerTag Text)) × (extract_required_fields xml ≡ some r)
unfolding extract_required_fields
extract_required_fields_total xml =
    let e = scan-Ends (suc (length xml)) new_scan xml (omega arith) in
    (e.outcome >>= finish_scan, ap finish_loop e.outcome_eq)
