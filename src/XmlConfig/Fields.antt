-- ===== src/XmlConfig/Fields.antt =====
-- `extract_required_fields` of core/src/detail/xml_config.cpp: the checks after its loop, and the whole.
use Prim.Native.String.{String, ◌++◌}
use py_net_ft.Common.{ℕ, suc, not, Option, none, some, if◌then◌else◌, is_nil, length, ltb}
use py_net_ft.Exception.{Result, ok, ◌>>=◌}
use py_net_ft.XmlConfig.Characters.{Text, chars, trim}
use py_net_ft.XmlConfig.Scanner.{
  RequiredTag, tag_name, PerTag, get, Scan, new_scan, refuse, only_once, scan, prodname, cfgcpf,
  cfgcpt, scfgfu, scfgtu,
}

abbrev pub maximum_field_length : ℕ
maximum_field_length = 128

abbrev field_error : RequiredTag → String → String
field_error t problem = ("sensor configuration field '" ++ tag_name t) ++ problem

-- A field that its tag was seen for.
unfoldable pub checked_field : RequiredTag → Text → Result Text
checked_field t value =
    if is_nil value
    then refuse (field_error t "' is empty")
    else if ltb maximum_field_length (length value)
    then refuse (field_error t "' is too long")
    else ok value

-- Legacy firmware may omit the display name.
abbrev pub missing_field : RequiredTag → Result Text
missing_field prodname = ok (chars "ATI Net F/T")
missing_field t = refuse (only_once t)

unfoldable pub finish_field : Scan → RequiredTag → Result Text
unfolding checked_field trim
finish_field s t = if get s.seen t then checked_field t (trim (get s.fields t)) else missing_field t

-- The loop over the fields, in the order of the table.
unfoldable pub finish_fields : Scan → Result (PerTag Text)
unfolding finish_field
finish_fields s = do
  p ← finish_field s prodname
  f ← finish_field s cfgcpf
  t ← finish_field s cfgcpt
  fu ← finish_field s scfgfu
  tu ← finish_field s scfgtu
  ok (record { prodname_at = p; cfgcpf_at = f; cfgcpt_at = t; scfgfu_at = fu; scfgtu_at = tu })

unfoldable pub finish_scan : Scan → Result (PerTag Text)
unfolding finish_fields
finish_scan s =
    if not (is_nil s.elements)
    then refuse "sensor configuration contains malformed element nesting"
    else finish_fields s

abbrev pub finish_loop : Option (Result Scan) → Option (Result (PerTag Text))
finish_loop none = none
finish_loop (some s) = some (s >>= finish_scan)

-- Each round of the loop takes a character at least, so it is given one round more than there are characters.
unfoldable pub extract_required_fields : Text → Option (Result (PerTag Text))
unfolding scan finish_scan
extract_required_fields xml = finish_loop (scan (suc (length xml)) new_scan xml)
