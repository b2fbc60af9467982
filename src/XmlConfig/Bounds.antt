-- ===== src/XmlConfig/Bounds.antt =====
-- The fields that `extract_required_fields` of core/src/detail/xml_config.cpp returns.
use Prim.Native.Char.{Char, code}
use py_net_ft.Common.{
  Bool, leb, ◌||◌, ◌&&◌, ◌==◌, if_cases, suc, ◌≤◌, ◌≡◌, refl, ap, sym, ◌∙◌, false, not, Option,
  none, some, [], ◌∷◌, arith, length, is_nil, if_both, subst,
}
use py_net_ft.Exception.{Result, ok, throws, bind_ok, ok_inj}
use py_net_ft.XmlConfig.Characters.{is_whitespace, Text, chars, trim, trim_front, trim_back}
use py_net_ft.XmlConfig.Scanner.{
  Scan, PerTag, get, RequiredTag, new_scan, scan, prodname, cfgcpf, cfgcpt, scfgfu, scfgtu,
}
use py_net_ft.XmlConfig.Fields.{
  checked_field, finish_field, finish_fields, finish_scan, missing_field, finish_loop,
  extract_required_fields, maximum_field_length,
}

-- A space, or one of the characters from the tab to the carriage return.
abbrev pub is_space : Char → Bool
is_space c = code c == 32 || leb 9 (code c) && leb (code c) 13

-- The first character is a blank, or the last.
abbrev pub begins_blank : Text → Bool
begins_blank [] = false
begins_blank (c ∷ cs) = is_space c

abbrev pub ends_blank : Text → Bool
ends_blank [] = false
ends_blank (c ∷ []) = is_space c
ends_blank (c ∷ d ∷ cs) = ends_blank (d ∷ cs)

is_space-is_whitespace : (c : Char) → is_space c ≡ is_whitespace c
is_space-is_whitespace c = ground arith

begins-trim_front : (v : Text) → begins_blank (trim_front v) ≡ false
unfolding trim_front
begins-trim_front [] = refl
begins-trim_front (c ∷ cs) = ground (arith, is_space-is_whitespace c, begins-trim_front cs)

begins-trim_back : (v : Text) → begins_blank v ≡ false → begins_blank (trim_back v) ≡ false
unfolding trim_back
begins-trim_back [] e = refl
begins-trim_back (c ∷ cs) e = ground (arith, e)

ends-cons :
    (c : Char) (rest : Text)
    → ends_blank rest ≡ false
    → is_nil rest && is_whitespace c ≡ false
    → ends_blank (c ∷ rest) ≡ false
ends-cons c [] e f = is_space-is_whitespace c ∙ f
ends-cons c (d ∷ rest) e f = e

ends-trim_back : (v : Text) → ends_blank (trim_back v) ≡ false
unfolding trim_back
ends-trim_back [] = refl
ends-trim_back (c ∷ cs) =
    if_cases (λ (w : Text). ends_blank w ≡ false) (is_nil (trim_back cs) && is_whitespace c)
      (λ e. refl) (λ e. ends-cons c (trim_back cs) (ends-trim_back cs) e)

trim_front-clean : (v : Text) → begins_blank v ≡ false → trim_front v ≡ v
unfolding trim_front
trim_front-clean [] e = refl
trim_front-clean (c ∷ cs) e = ground (arith, e, is_space-is_whitespace c)

trim_back-clean : (v : Text) → ends_blank v ≡ false → trim_back v ≡ v
unfolding trim_back
trim_back-clean [] e = refl
trim_back-clean (c ∷ []) e = ground (arith, e, is_space-is_whitespace c)
trim_back-clean (c ∷ d ∷ cs) e = ground (arith, trim_back-clean (d ∷ cs) e)

-- Not empty, with no blank at either end, and within the limit of a field.
pub record IsField (v : Text) : Type 0 where
  pub not_empty : is_nil v ≡ false
  pub no_blank_first : begins_blank v ≡ false
  pub no_blank_last : ends_blank v ≡ false
  pub length_le : length v ≤ 128

pub trim-IsField : (v : Text) → IsField v → trim v ≡ v
unfolding trim
trim-IsField v w =
    ap trim_back (trim_front-clean v w.no_blank_first) ∙ trim_back-clean v w.no_blank_last

trim_ends : (v : Text) → (begins_blank (trim v) ≡ false) × (ends_blank (trim v) ≡ false)
unfolding trim
trim_ends v = (begins-trim_back (trim_front v) (begins-trim_front v), ends-trim_back (trim_front v))

checked_field-IsField : (t : RequiredTag) (v w : Text) → checked_field t (trim v) ≡ ok w → IsField w
unfolding checked_field
checked_field-IsField t v w e =
    let (same, n, k) = facts (trim v) e in
    record {
      not_empty = ap is_nil (sym same) ∙ n;
      no_blank_first = ap begins_blank (sym same) ∙ (trim_ends v).0;
      no_blank_last = ap ends_blank (sym same) ∙ (trim_ends v).1;
      length_le = omega (arith, ap length same, k);
    }
  where
    facts :
        (u : Text)
        → checked_field t u ≡ ok w
        → (u ≡ w) × (is_nil u ≡ false) × (length u ≤ maximum_field_length)
    facts u p = ground arith

default_name : Text
default_name = chars "ATI Net F/T"

default_name-IsField : IsField default_name
unfolding default_name trim
default_name-IsField = record {
  not_empty = refl;
  no_blank_first = refl;
  no_blank_last = refl;
  length_le = omega arith;
}

missing_field-IsField : (t : RequiredTag) (v : Text) → missing_field t ≡ ok v → IsField v
unfolding default_name
missing_field-IsField prodname v e = subst IsField (ok_inj default_name v e) default_name-IsField
missing_field-IsField cfgcpf v e = ground arith
missing_field-IsField cfgcpt v e = ground arith
missing_field-IsField scfgfu v e = ground arith
missing_field-IsField scfgtu v e = ground arith

finish_field-IsField : (s : Scan) (t : RequiredTag) (v : Text) → finish_field s t ≡ ok v → IsField v
unfolding finish_field
finish_field-IsField s t v =
    if_both (λ (r : Result Text). r ≡ ok v → IsField v) (get s.seen t)
      (checked_field-IsField t (get s.fields t) v) (missing_field-IsField t v)

finish_fields-IsField :
    (s : Scan) (fields : PerTag Text)
    → finish_fields s ≡ ok fields
    → (t : RequiredTag) → IsField (get fields t)
unfolding finish_fields
finish_fields-IsField s fields e =
    let (p, ep, e1) = bind_ok (finish_field s prodname) _ fields e in
    let (f, ef, e2) = bind_ok (finish_field s cfgcpf) _ fields e1 in
    let (c, ec, e3) = bind_ok (finish_field s cfgcpt) _ fields e2 in
    let (fu, efu, e4) = bind_ok (finish_field s scfgfu) _ fields e3 in
    let (tu, etu, e5) = bind_ok (finish_field s scfgtu) _ fields e4 in
    go p f c fu tu (finish_field-IsField s prodname p ep) (finish_field-IsField s cfgcpf f ef)
      (finish_field-IsField s cfgcpt c ec) (finish_field-IsField s scfgfu fu efu)
      (finish_field-IsField s scfgtu tu etu) e5
  where
    go :
        (p f c fu tu : Text)
        → IsField p
        → IsField f
        → IsField c
        → IsField fu
        → IsField tu
        → ok (record {
          prodname_at = p;
          cfgcpf_at = f;
          cfgcpt_at = c;
          scfgfu_at = fu;
          scfgtu_at = tu;
        })
          ≡ ok fields
        → (t : RequiredTag) → IsField (get fields t)
    go p f c fu tu wp wf wc wfu wtu q =
        subst (λ (r : PerTag Text). (t : RequiredTag) → IsField (get r t)) (ok_inj _ fields q) each
      where
        each :
            (t : RequiredTag)
            → IsField (
                get
                  (record {
                    prodname_at = p;
                    cfgcpf_at = f;
                    cfgcpt_at = c;
                    scfgfu_at = fu;
                    scfgtu_at = tu;
                  })
                  t)
        each prodname = wp
        each cfgcpf = wf
        each cfgcpt = wc
        each scfgfu = wfu
        each scfgtu = wtu

finish_scan-IsField :
    (s : Scan) (fields : PerTag Text)
    → finish_scan s ≡ ok fields
    → (t : RequiredTag) → IsField (get fields t)
unfolding finish_scan
finish_scan-IsField s fields =
    if_both
      (λ (r : Result (PerTag Text)). r ≡ ok fields → (t : RequiredTag) → IsField (get fields t))
      (not (is_nil s.elements)) (λ e. ground arith) (finish_fields-IsField s fields)

-- Every field of a page that is accepted, the display name of legacy firmware included, is not empty, has
-- no blank at either end, and has 128 characters at most.
pub extract_required_fields-IsField :
    (xml : Text) (fields : PerTag Text)
    → extract_required_fields xml ≡ some (ok fields)
    → (t : RequiredTag) → IsField (get fields t)
unfolding extract_required_fields
extract_required_fields-IsField xml fields = of_loop (scan (suc (length xml)) new_scan xml)
  where
    of_loop :
        (o : Option (Result Scan))
        → finish_loop o ≡ some (ok fields)
        → (t : RequiredTag) → IsField (get fields t)
    of_loop none e = ground arith
    of_loop (some (throws x)) e = ground arith
    of_loop (some (ok s)) e = finish_scan-IsField s fields (inner (finish_scan s) e)
      where
        inner : (r : Result (PerTag Text)) → some r ≡ some (ok fields) → r ≡ ok fields
        inner r e = ground arith
