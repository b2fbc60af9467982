-- ===== src/XmlConfig/RoundTrip.antt =====
-- A page with the five fields is read back by `extract_required_fields` of
-- core/src/detail/xml_config.cpp.
use py_net_ft.Common.{
  ℕ, suc, ◌-◌, ◌≤◌, ◌≡◌, refl, ap, ◌∙◌, Bool, true, false, ◌||◌, Option, none, some, List, [], ◌∷◌,
  ◌++◌, arith, length, length-append, is_nil,
}
use py_net_ft.Exception.{Result, ok, throws}
use py_net_ft.XmlConfig.Characters.{
  Text, chars, is, before_markup, tag_end, trim, first_word, has_separator, ends_with_slash,
}
use py_net_ft.XmlConfig.Scanner.{
  Scan, OpenElement, PerTag, get, set_at, all_tags, RequiredTag, prodname, cfgcpf, cfgcpt, scfgfu,
  scfgtu, tag_name, required_tag, tag_among, new_scan, scan, take_markup, take_tag, open_element,
  close_element, append_required_text,
}
use py_net_ft.XmlConfig.Fields.{
  checked_field, finish_field, finish_fields, finish_scan, finish_loop, extract_required_fields,
  maximum_field_length,
}
use py_net_ft.XmlConfig.Bounds.{IsField, trim-IsField}

-- No character begins markup.
abbrev pub has_markup : Text → Bool
has_markup [] = false
has_markup (c ∷ cs) = is b'<' c || has_markup cs

abbrev pub IsPlain : Text → Type 0
IsPlain v = has_markup v ≡ false

-- An element with the tag, before what follows it.
abbrev pub element : RequiredTag → Text → Text → Text
element t v rest =
    "<" ∷ (chars (tag_name t) ++ ">" ∷ (v ++ ("<" ∷ "/" ∷ (chars (tag_name t) ++ (">" ∷ rest)))))

-- The page: the five elements, with a text before each.
abbrev pub page : Text → PerTag Text → Text
page gap f =
    chars "<netft>"
    ++ (gap
        ++ element prodname f.prodname_at (
            gap
            ++ element cfgcpf f.cfgcpf_at (
                gap
                ++ element cfgcpt f.cfgcpt_at (
                    gap
                    ++ element scfgfu f.scfgfu_at
                        (gap ++ element scfgtu f.scfgtu_at (chars "</netft>"))))))

before_markup-plain :
    (v rest : Text) → IsPlain v → before_markup (v ++ ("<" ∷ rest)) ≡ (v, "<" ∷ rest)
unfolding before_markup
before_markup-plain [] rest p = refl
before_markup-plain (c ∷ cs) rest p = ground (arith, before_markup-plain cs rest)

abbrev continue : ℕ → Result (Scan × Text) → Option (Result Scan)
continue rounds r = elim r [ throws e ↦ some (throws e) | ok (s, after) ↦ scan rounds s after ]

abbrev after_text : ℕ → Scan → Text × Text → Option (Result Scan)
after_text rounds s (before, rest) = elim rest [
  | [] ↦ some (ok (append_required_text s before))
  | d ∷ ds ↦ continue rounds (take_markup (append_required_text s before) (d ∷ ds))
]

-- A text before markup.
scan-plain :
    (v rest : Text) (s : Scan) (n : ℕ)
    → IsPlain v
    → scan (suc n) s (v ++ ("<" ∷ rest))
      ≡ continue n (take_markup (append_required_text s v) ("<" ∷ rest))
unfolding scan
scan-plain [] rest s n p = ap (after_text n s) (before_markup-plain [] rest p)
scan-plain (c ∷ cs) rest s n p = ap (after_text n s) (before_markup-plain (c ∷ cs) rest p)

abbrev outer : List OpenElement
outer = record { name = chars "netft"; required = none } ∷ []

abbrev inner : RequiredTag → List OpenElement
inner t = record { name = chars (tag_name t); required = some t } ∷ outer

abbrev between : PerTag Text → PerTag Bool → Scan
between fields seen = record { fields = fields; seen = seen; elements = outer }

take_markup_open :
    (t : RequiredTag) (fields : PerTag Text) (seen : PerTag Bool) (rest : Text)
    → get seen t ≡ false
    → take_markup (between fields seen) ("<" ∷ (chars (tag_name t) ++ (">" ∷ rest)))
      ≡ ok (record { fields = fields; seen = set_at seen t true; elements = inner t }, rest)
unfolding take_markup tag_end take_tag trim open_element first_word ends_with_slash required_tag
    tag_among
take_markup_open prodname fields seen rest e = rw e refl
take_markup_open cfgcpf fields seen rest e = rw e refl
take_markup_open cfgcpt fields seen rest e = rw e refl
take_markup_open scfgfu fields seen rest e = rw e refl
take_markup_open scfgtu fields seen rest e = rw e refl

take_markup_close :
    (t : RequiredTag) (fields : PerTag Text) (seen : PerTag Bool) (rest : Text)
    → take_markup
        (record { fields = fields; seen = seen; elements = inner t })
        ("<" ∷ "/" ∷ (chars (tag_name t) ++ (">" ∷ rest)))
      ≡ ok (between fields seen, rest)
unfolding take_markup tag_end take_tag trim close_element has_separator
take_markup_close prodname fields seen rest = refl
take_markup_close cfgcpf fields seen rest = refl
take_markup_close cfgcpt fields seen rest = refl
take_markup_close scfgfu fields seen rest = refl
take_markup_close scfgtu fields seen rest = refl

-- What an element leaves.
abbrev stored : RequiredTag → Text → PerTag Text → PerTag Bool → Scan
stored t v fields seen = between (set_at fields t (get fields t ++ v)) (set_at seen t true)

scan-element :
    (t : RequiredTag) (gap v rest : Text) (fields : PerTag Text) (seen : PerTag Bool) (n : ℕ)
    → IsPlain gap
    → IsPlain v
    → get seen t ≡ false
    → scan (suc (suc n)) (between fields seen) (gap ++ element t v rest)
      ≡ scan n (stored t v fields seen) rest
unfolding append_required_text
scan-element t gap v rest fields seen n g p e =
    scan-plain gap _ (between fields seen) (suc n) g
    ∙ ap (continue (suc n)) (take_markup_open t fields seen _ e)
    ∙ scan-plain v _ _ n p
    ∙ ap (continue n)
        (take_markup_close t (set_at fields t (get fields t ++ v)) (set_at seen t true) rest)

take_netft :
    (rest : Text) (n : ℕ)
    → scan (suc n) new_scan (chars "<netft>" ++ rest)
      ≡ scan n (between (all_tags []) (all_tags false)) rest
unfolding scan before_markup append_required_text take_markup tag_end take_tag trim open_element
    first_word ends_with_slash required_tag tag_among
take_netft rest n = refl

take_end :
    (fields : PerTag Text) (seen : PerTag Bool) (n : ℕ)
    → scan (suc (suc n)) (between fields seen) (chars "</netft>")
      ≡ some (ok (record { fields = fields; seen = seen; elements = [] }))
unfolding scan before_markup append_required_text take_markup tag_end take_tag trim close_element
    has_separator
take_end fields seen n = refl

-- Twelve rounds, and one to see the end.
abbrev rounds_after : ℕ → ℕ
rounds_after n = suc (suc (suc (suc (suc (suc (suc (suc (suc (suc (suc (suc (suc n))))))))))))

-- Each of the five fields can stand in an element.
abbrev pub AllPlain : PerTag Text → Type 0
AllPlain f = (t : RequiredTag) → IsField (get f t) × IsPlain (get f t)

abbrev finished_scan : PerTag Text → Scan
finished_scan f = record { fields = f; seen = all_tags true; elements = [] }

scan-page :
    (gap : Text) (f : PerTag Text) (n : ℕ)
    → IsPlain gap
    → AllPlain f
    → scan (rounds_after n) new_scan (page gap f) ≡ some (ok (finished_scan f))
scan-page gap f n g p =
    take_netft _ _
    ∙ scan-element prodname gap f.prodname_at _ _ _ _ g (p prodname).1 refl
    ∙ scan-element cfgcpf gap f.cfgcpf_at _ _ _ _ g (p cfgcpf).1 refl
    ∙ scan-element cfgcpt gap f.cfgcpt_at _ _ _ _ g (p cfgcpt).1 refl
    ∙ scan-element scfgfu gap f.scfgfu_at _ _ _ _ g (p scfgfu).1 refl
    ∙ scan-element scfgtu gap f.scfgtu_at _ _ _ _ g (p scfgtu).1 refl
    ∙ take_end _ _ n

checked_field-trim : (t : RequiredTag) (v : Text) → IsField v → checked_field t (trim v) ≡ ok v
unfolding checked_field
checked_field-trim t v w =
    ap (checked_field t) (trim-IsField v w) ∙ passes v w.not_empty w.length_le
  where
    passes :
        (v : Text) → is_nil v ≡ false → length v ≤ maximum_field_length → checked_field t v ≡ ok v
    passes v e h = ground (arith, e)

finish_field-IsField :
    (f : PerTag Text) (t : RequiredTag)
    → IsField (get f t)
    → finish_field (finished_scan f) t ≡ ok (get f t)
unfolding finish_field
finish_field-IsField f prodname w = checked_field-trim prodname f.prodname_at w
finish_field-IsField f cfgcpf w = checked_field-trim cfgcpf f.cfgcpf_at w
finish_field-IsField f cfgcpt w = checked_field-trim cfgcpt f.cfgcpt_at w
finish_field-IsField f scfgfu w = checked_field-trim scfgfu f.scfgfu_at w
finish_field-IsField f scfgtu w = checked_field-trim scfgtu f.scfgtu_at w

finish_scan-page : (f : PerTag Text) → AllPlain f → finish_scan (finished_scan f) ≡ ok f
unfolding finish_scan finish_fields
finish_scan-page f p =
    rw
      (
        finish_field-IsField f prodname (p prodname).0,
        finish_field-IsField f cfgcpf (p cfgcpf).0,
        finish_field-IsField f cfgcpt (p cfgcpt).0,
        finish_field-IsField f scfgfu (p scfgfu).0,
        finish_field-IsField f scfgtu (p scfgtu).0,
      )
      refl

page-length :
    (gap v rest : Text) → 12 ≤ length (chars "<netft>" ++ (gap ++ element prodname v rest))
page-length gap v rest = omega (arith, length-append gap (element prodname v rest))

-- A page that `page` writes is accepted, and its fields are read back: in a `<netft>` element the five
-- elements in their order, each with its field as its text, and before each of them one and the same text;
-- where neither that text nor a field has a `<`, and each field is not empty, has no blank at either end and
-- has 128 characters at most.
pub extract_required_fields-page :
    (gap : Text) (f : PerTag Text)
    → IsPlain gap
    → AllPlain f
    → extract_required_fields (page gap f) ≡ some (ok f)
unfolding extract_required_fields
extract_required_fields-page gap f g p =
    let n = length (page gap f) - 12 in
    let enough : suc (length (page gap f)) ≡ rounds_after n =
      omega (arith, page-length gap f.prodname_at _) in
    ap (λ (k : ℕ). finish_loop (scan k new_scan (page gap f))) enough
    ∙ ap finish_loop (scan-page gap f n g p)
    ∙ ap some (finish_scan-page f p)
