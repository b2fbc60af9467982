-- ===== src/XmlConfig/Scanner.antt =====
-- `extract_required_fields` of core/src/detail/xml_config.cpp: its loop over the markup.
use Prim.Native.String.{String, ◌++◌ as add}
use py_net_ft.Common.{
  ℕ, zero, suc, Bool, true, false, ◌||◌, not, Option, none, some, List, [], ◌∷◌, ◌++◌,
  if◌then◌else◌, is_nil, drop,
}
use py_net_ft.Exception.{Result, ok, throws, discovery_error, ◌>>=◌}
use py_net_ft.XmlConfig.Characters.{
  Text, chars, same_text, trim, starts_with, before_markup, cut, tag_end, first_word, has_separator,
  starts_with_slash, ends_with_slash, drop_last,
}

-- The entries of `kRequiredTags`, and their spelling.
pub data RequiredTag : Type 0 where
  prodname cfgcpf cfgcpt scfgfu scfgtu : RequiredTag

abbrev pub tag_name : RequiredTag → String
tag_name prodname = "prodname"
tag_name cfgcpf = "cfgcpf"
tag_name cfgcpt = "cfgcpt"
tag_name scfgfu = "scfgfu"
tag_name scfgtu = "scfgtu"

-- The loop over the table; `none` for -1.
unfoldable pub tag_among : List RequiredTag → Text → Option RequiredTag
tag_among [] name = none
tag_among (t ∷ ts) name = if same_text name (chars (tag_name t)) then some t else tag_among ts name

unfoldable pub required_tag : Text → Option RequiredTag
unfolding tag_among
required_tag name = tag_among (prodname ∷ cfgcpf ∷ cfgcpt ∷ scfgfu ∷ scfgtu ∷ []) name

-- An array with an entry for each required tag.
pub record PerTag (A : Type 0) : Type 0 where
  pub prodname_at : A
  pub cfgcpf_at : A
  pub cfgcpt_at : A
  pub scfgfu_at : A
  pub scfgtu_at : A

module _ {A : Type 0} where
  abbrev pub get : PerTag A → RequiredTag → A
  get v prodname = v.prodname_at
  get v cfgcpf = v.cfgcpf_at
  get v cfgcpt = v.cfgcpt_at
  get v scfgfu = v.scfgfu_at
  get v scfgtu = v.scfgtu_at

  abbrev pub set_at : PerTag A → RequiredTag → A → PerTag A
  set_at v prodname a = record v { prodname_at = a }
  set_at v cfgcpf a = record v { cfgcpf_at = a }
  set_at v cfgcpt a = record v { cfgcpt_at = a }
  set_at v scfgfu a = record v { scfgfu_at = a }
  set_at v scfgtu a = record v { scfgtu_at = a }

  abbrev pub all_tags : A → PerTag A
  all_tags a = record {
    prodname_at = a;
    cfgcpf_at = a;
    cfgcpt_at = a;
    scfgfu_at = a;
    scfgtu_at = a;
  }

pub record OpenElement : Type 0 where
  pub name : Text
  pub required : Option RequiredTag

-- The locals of the loop; the innermost element is the first.
pub record Scan : Type 0 where
  pub fields : PerTag Text
  pub seen : PerTag Bool
  pub elements : List OpenElement

abbrev pub new_scan : Scan
new_scan = record { fields = all_tags []; seen = all_tags false; elements = [] }

abbrev pub append_to : Option RequiredTag → PerTag Text → Text → PerTag Text
append_to none fields text = fields
append_to (some t) fields text = set_at fields t (get fields t ++ text)

abbrev pub current : List OpenElement → Option RequiredTag
current [] = none
current (e ∷ es) = e.required

unfoldable pub append_required_text : Scan → Text → Scan
append_required_text s text = record s { fields = append_to (current s.elements) s.fields text }

abbrev pub refuse : {A : Type 0} → String → Result A
refuse message = throws (discovery_error message)

abbrev pub only_once : RequiredTag → String
only_once t = add (add "sensor configuration field '" (tag_name t)) "' must appear exactly once"

-- What follows the end of a comment or the like.
abbrev pub skip : Scan → String → Option (Text × Text) → Result (Scan × Text)
skip s message none = refuse message
skip s message (some (_, rest)) = ok (s, rest)

abbrev pub take_cdata : Scan → Option (Text × Text) → Result (Scan × Text)
take_cdata s none = refuse "sensor configuration contains unterminated CDATA"
take_cdata s (some (text, rest)) = ok (append_required_text s text, rest)

-- A closing tag, without its slash.
abbrev pub close_named : Scan → Text → List OpenElement → Result Scan
close_named s name [] = refuse "sensor configuration contains malformed element nesting"
close_named s name (e ∷ es) =
    if is_nil name || has_separator name || not (same_text e.name name)
    then refuse "sensor configuration contains malformed element nesting"
    else ok (record s { elements = es })

unfoldable pub close_element : Scan → Text → Result Scan
close_element s name = close_named s name s.elements

abbrev pub mark_seen : Scan → Option RequiredTag → Result Scan
mark_seen s none = ok s
mark_seen s (some t) =
    if get s.seen t then refuse (only_once t) else ok (record s { seen = set_at s.seen t true })

abbrev pub is_some : Option RequiredTag → Bool
is_some none = false
is_some (some t) = true

-- An opening tag, without its last slash where it closes itself.
unfoldable pub open_element : Scan → Text → (self_closing : Bool) → Result Scan
open_element s tag self_closing =
    let name = first_word tag in
    if is_nil name || starts_with_slash name
    then refuse "sensor configuration contains malformed markup"
    else if is_some (current s.elements)
    then refuse "sensor configuration fields must contain text only"
    else mark_seen s (required_tag name) >>= λ marked. ok (
        if self_closing then marked else record marked {
          elements = record { name = name; required = required_tag name } ∷ marked.elements;
        })

-- A trimmed tag.
unfoldable pub take_tag : Scan → Text → Result Scan
unfolding close_element open_element trim
take_tag s tag =
    if is_nil tag
    then refuse "sensor configuration contains malformed markup"
    else if starts_with_slash tag
    then close_element s (trim (drop 1 tag))
    else if ends_with_slash tag
    then open_element s (trim (drop_last tag)) true
    else open_element s tag false

abbrev pub after_tag : Scan → Option (Text × Text) → Result (Scan × Text)
after_tag s none = refuse "sensor configuration contains unterminated markup"
after_tag s (some (tag, rest)) = take_tag s (trim tag) >>= λ s'. ok (s', rest)

-- One round of the loop, from a `<` on.
unfoldable pub take_markup : Scan → Text → Result (Scan × Text)
unfolding take_tag append_required_text
take_markup s text =
    if starts_with (chars "<!--") text
    then skip s "sensor configuration contains an unterminated comment"
        (cut (chars "-->") (drop 4 text))
    else if starts_with (chars "<![CDATA[") text
    then take_cdata s (cut (chars "]]>") (drop 9 text))
    else if starts_with (chars "<?") text
    then skip s "sensor configuration contains unterminated markup" (cut (chars "?>") (drop 2 text))
    else if starts_with (chars "<!") text
    then refuse "sensor configuration contains unsupported markup"
    else after_tag s (tag_end none (drop 1 text))

-- The loop; `none` where the rounds run out.
unfoldable pub scan : ℕ → Scan → Text → Option (Result Scan)
scan zero s text = none
scan (suc rounds) s [] = some (ok s)
scan (suc rounds) s (c ∷ cs) =
    let (before, rest) = before_markup (c ∷ cs) in
    let s' = append_required_text s before in
    elim rest [
      | [] ↦ some (ok s')
      | d ∷ ds ↦ elim (take_markup s' (d ∷ ds)) [
        | throws e ↦ some (throws e)
        | ok (s'', after) ↦ scan rounds s'' after
      ]
    ]
