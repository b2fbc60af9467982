-- ===== src/Protocol.antt =====
-- core/src/detail/protocol.hpp and protocol.cpp: the RDT request and record codecs. A buffer is a list
-- of bytes; the pointer that may be null is an Option.
pub mod Wire
use py_net_ft.Common.{
  ℕ, ◌+◌, ◌-◌, ◌*◌, ◌/◌, ◌%◌, ◌^◌, Option, none, some, List, [], ◌∷◌, leb, ◌==◌, if◌then◌else◌,
  length, drop, arith,
}
use py_net_ft.Common.Int.{ℤ, pos, negsuc}

pub data Command : Type 0 where
  stop_streaming start_realtime start_buffered reset_condition_latch set_software_bias : Command

-- The underlying `std::uint16_t` of a command.
unfoldable pub command_value : Command → ℕ
command_value stop_streaming = 0x0000
command_value start_realtime = 0x0002
command_value start_buffered = 0x0003
command_value reset_condition_latch = 0x0041
command_value set_software_bias = 0x0042

pub record RawRecord : Type 0 where
  pub rdt_sequence : ℕ
  pub ft_sequence : ℕ
  pub status : ℕ
  pub fx : ℤ
  pub fy : ℤ
  pub fz : ℤ
  pub tx : ℤ
  pub ty : ℤ
  pub tz : ℤ

pub data ProtocolError : Type 0 where
  bad_size : ℕ → ProtocolError
  null_data : ProtocolError

pub data Decoded : Type 0 where
  decoded : RawRecord → Decoded
  refused : ProtocolError → Decoded

-- `data[0] << 24 | data[1] << 16 | data[2] << 8 | data[3]` on bytes, so the parts do not overlap. A
-- read past the end of the buffer, which `decode_record` rules out, is 0.
unfoldable pub read_u32 : List ℕ → ℕ
read_u32 (a ∷ b ∷ c ∷ d ∷ _) = a * 2 ^ 24 + b * 2 ^ 16 + c * 2 ^ 8 + d
read_u32 _ = 0

-- `-static_cast<std::int32_t>(~value) - 1`, where `~value` is `2 ^ 32 - 1 - value`.
unfoldable pub signed_of : ℕ → ℤ
signed_of value = if leb value 0x7fffffff then pos value else negsuc (2 ^ 32 - 1 - value)

unfoldable pub read_i32 : List ℕ → ℤ
read_i32 bytes = signed_of (read_u32 bytes)

-- `static_cast<std::uint8_t>(value >> bits)`.
abbrev byte_of : ℕ → ℕ → ℕ
byte_of value bits = value / 2 ^ bits % 256

unfoldable pub encode_request : Command → ℕ → List ℕ
unfolding command_value
encode_request command count =
    let value = command_value command in
    0x12
    ∷ 0x34
    ∷ byte_of value 8
    ∷ byte_of value 0
    ∷ byte_of count 24
    ∷ byte_of count 16
    ∷ byte_of count 8
    ∷ byte_of count 0
    ∷ []

-- The nine fields at their offsets.
unfoldable pub record_at : List ℕ → RawRecord
record_at bytes = record {
  rdt_sequence = read_u32 bytes;
  ft_sequence = read_u32 (drop 4 bytes);
  status = read_u32 (drop 8 bytes);
  fx = read_i32 (drop 12 bytes);
  fy = read_i32 (drop 16 bytes);
  fz = read_i32 (drop 20 bytes);
  tx = read_i32 (drop 24 bytes);
  ty = read_i32 (drop 28 bytes);
  tz = read_i32 (drop 32 bytes);
}

abbrev decode_data : Option (List ℕ) → Decoded
decode_data none = refused null_data
decode_data (some bytes) = decoded (record_at bytes)

-- `data` and `size` are separate arguments in the source; the size is tested before the pointer.
unfoldable pub decode_record : Option (List ℕ) → ℕ → Decoded
decode_record buffer size = if size == 36 then decode_data buffer else refused (bad_size size)
