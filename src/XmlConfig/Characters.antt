-- ===== src/XmlConfig/Characters.antt =====
-- The texts of core/src/detail/xml_config.cpp and their searches. A text is a list of characters, each of
-- them one byte; a position in the text is the list of what follows it.
use Prim.Native.Char.{Char, code}
use Prim.Native.String.{String}
use py_net_ft.Common.{
  ℕ, Bool, true, false, ◌&&◌, ◌||◌, not, Option, none, some, List, [], ◌∷◌, ◌==◌, if◌then◌else◌,
  is_nil, drop, length,
}

abbrev pub Text : Type 0
Text = List Char

-- A literal, and a `std::string` made of a text.
abbrev pub chars : String → Text
chars String.[] = []
chars (String.◌∷◌ c s) = c ∷ chars s

abbrev pub to_string : Text → String
to_string [] = String.[]
to_string (c ∷ cs) = String.◌∷◌ c (to_string cs)

abbrev pub is : ℕ → Char → Bool
is n c = code c == n

-- `==` of two texts.
abbrev pub same_text : Text → Text → Bool
same_text [] [] = true
same_text [] (_ ∷ _) = false
same_text (_ ∷ _) [] = false
same_text (c ∷ cs) (d ∷ ds) = code c == code d && same_text cs ds

abbrev pub is_whitespace : Char → Bool
is_whitespace c = is 32 c || is 9 c || is 10 c || is 13 c || is 12 c || is 11 c

-- The two loops of `trim_ascii_whitespace`.
unfoldable pub trim_front : Text → Text
trim_front [] = []
trim_front (c ∷ cs) = let rest = trim_front cs in if is_whitespace c then rest else c ∷ cs

-- The trailing blanks go, so a blank goes if nothing is left behind it.
unfoldable pub trim_back : Text → Text
trim_back [] = []
trim_back (c ∷ cs) =
    let rest = trim_back cs in if is_nil rest && is_whitespace c then [] else c ∷ rest

unfoldable pub trim : Text → Text
unfolding trim_front trim_back
trim value = trim_back (trim_front value)

-- `xml.substr(markup, n) == prefix`, with the size of the prefix for `n`.
abbrev pub starts_with : Text → Text → Bool
starts_with [] text = true
starts_with (p ∷ ps) [] = false
starts_with (p ∷ ps) (c ∷ cs) = code p == code c && starts_with ps cs

-- What stands before the first `<`, and the rest from it on; nothing where there is none.
unfoldable pub before_markup : Text → Text × Text
before_markup [] = ([], [])
before_markup (c ∷ cs) =
    let (before, rest) = before_markup cs in if is b'<' c then ([], c ∷ cs) else (c ∷ before, rest)

abbrev pub put_before : Char → Option (Text × Text) → Option (Text × Text)
put_before c none = none
put_before c (some (before, after)) = some (c ∷ before, after)

-- `find`: what stands before the first occurrence of `ending`, and what follows it.
unfoldable pub cut : Text → Text → Option (Text × Text)
cut ending [] = none
cut ending (c ∷ cs) =
    let later = put_before c (cut ending cs) in
    if starts_with ending (c ∷ cs) then some ([], drop (length ending) (c ∷ cs)) else later

-- The quote after a character, for the quote before it.
abbrev pub next_quote : Option ℕ → Char → Option ℕ
next_quote (some q) c = if is q c then none else some q
next_quote none c = if is b'\'' c || is b'"' c then some (code c) else none

abbrev pub is_open : Option ℕ → Bool
is_open none = false
is_open (some q) = true

-- `find_tag_end`: what stands before the first `>` that no quotes enclose, and what follows it.
unfoldable pub tag_end : Option ℕ → Text → Option (Text × Text)
tag_end quote [] = none
tag_end quote (c ∷ cs) =
    let later = put_before c (tag_end (next_quote quote c) cs) in
    if not (is_open quote) && is b'>' c then some ([], cs) else later

-- `find_first_of` with the blanks: what stands before the first of them.
unfoldable pub first_word : Text → Text
first_word [] = []
first_word (c ∷ cs) = let rest = first_word cs in if is_whitespace c then [] else c ∷ rest

-- Some character is a blank or a slash.
unfoldable pub has_separator : Text → Bool
has_separator [] = false
has_separator (c ∷ cs) = is_whitespace c || is b'/' c || has_separator cs

abbrev pub starts_with_slash : Text → Bool
starts_with_slash [] = false
starts_with_slash (c ∷ cs) = is b'/' c

-- `tag.back() == '/'`, and the text without its last character.
unfoldable pub ends_with_slash : Text → Bool
ends_with_slash [] = false
ends_with_slash (c ∷ []) = is b'/' c
ends_with_slash (c ∷ d ∷ cs) = ends_with_slash (d ∷ cs)

unfoldable pub drop_last : Text → Text
drop_last [] = []
drop_last (c ∷ []) = []
drop_last (c ∷ d ∷ cs) = c ∷ drop_last (d ∷ cs)
