-- ===== src/Status/Text.antt =====
-- `decode_status` of core/src/status.cpp: the text of a status word.
use Prim.Native.String.{String, ◌++◌}
use text.Mathlib.TextLemmas.{append_assoc, append-nil, nil-append, cons-append}
use py_net_ft.Common.{
  zero, suc, ◌^◌, Option, none, some, ℕ, ◌/◌, ◌%◌, ◌≡◌, refl, ap, sym, ◌∙◌, Bool, true, false, List,
  [], ◌∷◌, ◌==◌, if◌then◌else◌, is_empty, arith, All,
}

-- The bits and their names, the highest first. Each mask is one bit.
abbrev pub status_bits : List (ℕ × String)
status_bits =
    (0x80000000, "error summary")
    ∷ (0x40000000, "CPU or RAM error")
    ∷ (0x20000000, "digital board error")
    ∷ (0x10000000, "analog board error")
    ∷ (0x08000000, "serial link communication error")
    ∷ (0x04000000, "program memory verification error")
    ∷ (0x02000000, "halted due to configuration errors")
    ∷ (0x01000000, "settings validation error")
    ∷ (0x00800000, "configuration incompatible with calibration")
    ∷ (0x00400000, "network communication failure")
    ∷ (0x00200000, "CAN communication error")
    ∷ (0x00100000, "RDT communication error")
    ∷ (0x00080000, "EtherNet/IP protocol failure")
    ∷ (0x00040000, "DeviceNet protocol failure")
    ∷ (0x00020000, "transducer saturation or A/D error")
    ∷ (0x00010000, "monitor condition latched")
    ∷ (0x00004000, "watchdog timeout error")
    ∷ (0x00002000, "stack check error")
    ∷ (0x00001000, "serial EEPROM I2C failure")
    ∷ (0x00000800, "serial flash SPI failure")
    ∷ (0x00000400, "analog board watchdog timeout")
    ∷ (0x00000200, "excessive strain gage excitation current")
    ∷ (0x00000100, "insufficient strain gage excitation current")
    ∷ (0x00000080, "artificial analog ground out of range")
    ∷ (0x00000040, "analog board power supply too high")
    ∷ (0x00000020, "analog board power supply too low")
    ∷ (0x00000010, "serial link data unavailable")
    ∷ (0x00000008, "reference voltage or power monitoring error")
    ∷ (0x00000004, "internal temperature error")
    ∷ (0x00000002, "HTTP protocol failure")
    ∷ []

-- `(status & mask) != 0` of a mask that is one bit.
abbrev pub has_bit : ℕ → ℕ → Bool
has_bit status mask = status / mask % 2 == 1

-- `result += name`, after a comma where `result` has a name already.
abbrev add_name : String → String → String
add_name result name = if is_empty result then result ++ name else (result ++ ", ") ++ name

-- The loop over the table.
unfoldable pub add_names : List (ℕ × String) → ℕ → String → String
add_names [] status result = result
add_names ((mask, name) ∷ bits) status result =
    add_names bits status (if has_bit status mask then add_name result name else result)

unfoldable pub decode_status : ℕ → String
unfolding add_names
decode_status status = if status == 0 then "healthy" else add_names status_bits status ""

-- The names whose bits are set.
abbrev pub set_names : List (ℕ × String) → ℕ → List String
set_names [] status = []
set_names ((mask, name) ∷ bits) status =
    if has_bit status mask then name ∷ set_names bits status else set_names bits status

-- The names of the bits by their numbers, from bit 0 up. Bits 15 and 0 have none.
abbrev pub bit_names : List (Option String)
bit_names =
    none
    ∷ some "HTTP protocol failure"
    ∷ some "internal temperature error"
    ∷ some "reference voltage or power monitoring error"
    ∷ some "serial link data unavailable"
    ∷ some "analog board power supply too low"
    ∷ some "analog board power supply too high"
    ∷ some "artificial analog ground out of range"
    ∷ some "insufficient strain gage excitation current"
    ∷ some "excessive strain gage excitation current"
    ∷ some "analog board watchdog timeout"
    ∷ some "serial flash SPI failure"
    ∷ some "serial EEPROM I2C failure"
    ∷ some "stack check error"
    ∷ some "watchdog timeout error"
    ∷ none
    ∷ some "monitor condition latched"
    ∷ some "transducer saturation or A/D error"
    ∷ some "DeviceNet protocol failure"
    ∷ some "EtherNet/IP protocol failure"
    ∷ some "RDT communication error"
    ∷ some "CAN communication error"
    ∷ some "network communication failure"
    ∷ some "configuration incompatible with calibration"
    ∷ some "settings validation error"
    ∷ some "halted due to configuration errors"
    ∷ some "program memory verification error"
    ∷ some "serial link communication error"
    ∷ some "analog board error"
    ∷ some "digital board error"
    ∷ some "CPU or RAM error"
    ∷ some "error summary"
    ∷ []

abbrev pub name_at : List (Option String) → ℕ → Option String
name_at [] n = none
name_at (name ∷ names) zero = name
name_at (name ∷ names) (suc n) = name_at names n

abbrev pub bit_name : ℕ → Option String
bit_name n = name_at bit_names n

-- A bit of a word.
abbrev pub is_set : ℕ → ℕ → Bool
is_set word n = word / 2 ^ n % 2 == 1

abbrev pub listed : Option String → Bool → List String → List String
listed none set names = names
listed (some name) set names = if set then name ∷ names else names

-- The names of the bits of a word that are set, among those below the given one, the highest first.
abbrev pub names_below : ℕ → ℕ → List String
names_below zero word = []
names_below (suc n) word = listed (bit_name n) (is_set word n) (names_below n word)

-- The table that the names make.
abbrev row : ℕ → Option String → List (ℕ × String) → List (ℕ × String)
row n none rows = rows
row n (some name) rows = (2 ^ n, name) ∷ rows

abbrev rows_below : ℕ → List (ℕ × String)
rows_below zero = []
rows_below (suc n) = row n (bit_name n) (rows_below n)

status_bits-rows : rows_below 32 ≡ status_bits
status_bits-rows = refl

set_names-row :
    (n word : ℕ) (name : Option String) (rows : List (ℕ × String))
    → set_names (row n name rows) word ≡ listed name (is_set word n) (set_names rows word)
set_names-row n word none rows = refl
set_names-row n word (some name) rows = refl

set_names-below : (n word : ℕ) → set_names (rows_below n) word ≡ names_below n word
set_names-below zero word = refl
set_names-below (suc n) word =
    set_names-row n word (bit_name n) (rows_below n)
    ∙ ap (listed (bit_name n) (is_set word n)) (set_names-below n word)

-- Each of them after a comma, and all of them with commas in between.
abbrev pub continued : List String → String
continued [] = ""
continued (name ∷ names) = ", " ++ name ++ continued names

abbrev pub joined : List String → String
joined [] = ""
joined (name ∷ names) = name ++ continued names

-- Every name of a table has a letter.
abbrev IsNamed : ℕ × String → Type 0
IsNamed (mask, name) = is_empty name ≡ false

append-not_empty : (s t : String) → is_empty s ≡ false → is_empty (s ++ t) ≡ false
append-not_empty String.[] t e = ground arith
append-not_empty (String.◌∷◌ c s) t e = rw (cons-append c s t) refl

add_name-more :
    (result name : String) → is_empty result ≡ false → add_name result name ≡ result ++ ", " ++ name
add_name-more result name e =
    ap (λ (b : Bool). if b then result ++ name else (result ++ ", ") ++ name) e
    ∙ append_assoc result ", " name

add_names_step :
    (b : Bool) (bits : List (ℕ × String)) (status : ℕ) (result name : String)
    → is_empty result ≡ false
    → ((r : String)
        → is_empty r ≡ false
        → add_names bits status r ≡ r ++ continued (set_names bits status))
    → add_names bits status (if b then add_name result name else result)
      ≡ result ++ continued (if b then name ∷ set_names bits status else set_names bits status)
add_names_step true bits status result name e rest =
    let more = add_name-more result name e in
    ap (add_names bits status) more
    ∙ rest (result ++ ", " ++ name) (append-not_empty result (", " ++ name) e)
    ∙ append_assoc result (", " ++ name) (continued (set_names bits status))
    ∙ ap (λ (s : String). result ++ s) (append_assoc ", " name (continued (set_names bits status)))
add_names_step false bits status result name e rest = rest result e

add_names-more :
    (bits : List (ℕ × String)) (status : ℕ) (result : String)
    → is_empty result ≡ false
    → add_names bits status result ≡ result ++ continued (set_names bits status)
unfolding add_names
add_names-more [] status result e = sym (append-nil result)
add_names-more ((mask, name) ∷ bits) status result e =
    add_names_step (has_bit status mask) bits status result name e
      (λ r ne. add_names-more bits status r ne)

add_names_start :
    (b : Bool) (bits : List (ℕ × String)) (status : ℕ) (name : String)
    → is_empty name ≡ false
    → add_names bits status "" ≡ joined (set_names bits status)
    → add_names bits status (if b then add_name "" name else "")
      ≡ joined (if b then name ∷ set_names bits status else set_names bits status)
add_names_start true bits status name e rest =
    ap (add_names bits status) (nil-append name) ∙ add_names-more bits status name e
add_names_start false bits status name e rest = rest

add_names-joined :
    (bits : List (ℕ × String)) (status : ℕ)
    → All IsNamed bits
    → add_names bits status "" ≡ joined (set_names bits status)
unfolding add_names
add_names-joined [] status a = refl
add_names-joined ((mask, name) ∷ bits) status (n, a) =
    add_names_start (has_bit status mask) bits status name n (add_names-joined bits status a)

status_bits-IsNamed : All IsNamed status_bits
status_bits-IsNamed = ground arith

-- The text of a status word is "healthy" for zero. For every other word it is the names of those of its bits
-- that are set and have one, from bit 31 down to bit 0, with a comma and a space between two of them and
-- nothing before the first; bits 15 and 0 have no name, so that a word of these alone has an empty text.
pub decode_status-joined :
    (status : ℕ)
    → decode_status status ≡ (if status == 0 then "healthy" else joined (names_below 32 status))
unfolding decode_status
decode_status-joined status =
    ap (λ (s : String). if status == 0 then "healthy" else s)
      (add_names-joined status_bits status status_bits-IsNamed
        ∙ ap joined (
            ap (λ (bits : List (ℕ × String)). set_names bits status) (sym status_bits-rows)
            ∙ set_names-below 32 status))
