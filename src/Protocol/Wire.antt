-- ===== src/Protocol/Wire.antt =====
-- An independent description of the RDT wire format, big endian with two's complement counts, and the
-- proof that the codecs of core/src/detail/protocol.cpp read and write it.
use py_net_ft.Common.{
  ℕ, ◌+◌, ◌-◌, ◌*◌, ◌/◌, ◌%◌, ◌^◌, ◌≤◌, ◌<◌, ◌≡◌, refl, some, List, [], ◌∷◌, ◌++◌, ap, length, drop,
  length-drop, drop-drop, All, All-drop, arith, zero, suc,
}
use py_net_ft.Common.Int.{ℤ, pos, negsuc}
use py_net_ft.Protocol.{
  RawRecord, Command, command_value, read_u32, read_i32, signed_of, record_at, decode_record,
  decoded, encode_request, stop_streaming, start_realtime, start_buffered, reset_condition_latch,
  set_software_bias,
}

-- Four bytes, the most significant first.
abbrev pub u32_bytes : ℕ → List ℕ
u32_bytes n = (n / 2 ^ 24 % 256) ∷ (n / 2 ^ 16 % 256) ∷ (n / 2 ^ 8 % 256) ∷ (n % 256) ∷ []

-- The two's complement pattern of a 32-bit integer.
abbrev pub pattern_of : ℤ → ℕ
pattern_of (pos n) = n
pattern_of (negsuc n) = 2 ^ 32 - 1 - n

abbrev pub i32_bytes : ℤ → List ℕ
i32_bytes z = u32_bytes (pattern_of z)

abbrev pub IsInt32 : ℤ → Type 0
IsInt32 (pos n) = n < 2 ^ 31
IsInt32 (negsuc n) = n < 2 ^ 31

-- The nine fields of a record in the order of the wire.
abbrev pub record_bytes : RawRecord → List ℕ
record_bytes r =
    u32_bytes r.rdt_sequence
    ++ (u32_bytes r.ft_sequence
        ++ (u32_bytes r.status
            ++ (i32_bytes r.fx
                ++ (i32_bytes r.fy
                    ++ (i32_bytes r.fz
                        ++ (i32_bytes r.tx ++ (i32_bytes r.ty ++ i32_bytes r.tz)))))))

pub record IsInRange (r : RawRecord) : Type 0 where
  pub rdt_sequence_lt : r.rdt_sequence < 2 ^ 32
  pub ft_sequence_lt : r.ft_sequence < 2 ^ 32
  pub status_lt : r.status < 2 ^ 32
  pub fx_fits : IsInt32 r.fx
  pub fy_fits : IsInt32 r.fy
  pub fz_fits : IsInt32 r.fz
  pub tx_fits : IsInt32 r.tx
  pub ty_fits : IsInt32 r.ty
  pub tz_fits : IsInt32 r.tz

abbrev pub IsByte : ℕ → Type 0
IsByte b = b < 256

signed_of-pattern_of : (z : ℤ) → IsInt32 z → signed_of (pattern_of z) ≡ z
unfolding signed_of
signed_of-pattern_of (pos n) h = ground arith
signed_of-pattern_of (negsuc n) h = ground arith

pattern_of-signed_of : (w : ℕ) → w < 2 ^ 32 → pattern_of (signed_of w) ≡ w
unfolding signed_of
pattern_of-signed_of w h = ground arith

signed_of-IsInt32 : (w : ℕ) → w < 2 ^ 32 → IsInt32 (signed_of w)
unfolding signed_of
signed_of-IsInt32 w h = ground arith

read_u32-u32_bytes : (n : ℕ) (rest : List ℕ) → n < 2 ^ 32 → read_u32 (u32_bytes n ++ rest) ≡ n
unfolding read_u32
read_u32-u32_bytes n rest h = omega arith

read_i32-i32_bytes : (z : ℤ) (rest : List ℕ) → IsInt32 z → read_i32 (i32_bytes z ++ rest) ≡ z
unfolding read_i32
read_i32-i32_bytes z rest h =
    rw (read_u32-u32_bytes (pattern_of z) rest (pattern_lt z h)) (signed_of-pattern_of z h)
  where
    pattern_lt : (x : ℤ) → IsInt32 x → pattern_of x < 2 ^ 32
    pattern_lt (pos n) k = omega arith
    pattern_lt (negsuc n) k = omega arith

-- A record whose fields are in range is read back from its 36 bytes.
pub decode_record-record_bytes :
    (r : RawRecord)
    → IsInRange r
    → decode_record (some (record_bytes r)) (length (record_bytes r)) ≡ decoded r
unfolding decode_record record_at
decode_record-record_bytes r h = rw (
  read_u32-u32_bytes r.rdt_sequence _ h.rdt_sequence_lt,
  read_u32-u32_bytes r.ft_sequence _ h.ft_sequence_lt,
  read_u32-u32_bytes r.status _ h.status_lt,
  read_i32-i32_bytes r.fx _ h.fx_fits,
  read_i32-i32_bytes r.fy _ h.fy_fits,
  read_i32-i32_bytes r.fz _ h.fz_fits,
  read_i32-i32_bytes r.tx _ h.tx_fits,
  read_i32-i32_bytes r.ty _ h.ty_fits,
  read_i32-i32_bytes r.tz [] h.tz_fits,
)

-- Four bytes of a buffer that is long enough are those of the word that is read there.
u32_bytes-read_u32 :
    (bytes : List ℕ)
    → All IsByte bytes
    → 4 ≤ length bytes
    → (read_u32 bytes < 2 ^ 32) × (u32_bytes (read_u32 bytes) ++ drop 4 bytes ≡ bytes)
unfolding read_u32
u32_bytes-read_u32 [] b h = absurd (omega arith)
u32_bytes-read_u32 (_ ∷ []) b h = absurd (omega arith)
u32_bytes-read_u32 (_ ∷ _ ∷ []) b h = absurd (omega arith)
u32_bytes-read_u32 (_ ∷ _ ∷ _ ∷ []) b h = absurd (omega arith)
u32_bytes-read_u32 (x ∷ y ∷ z ∷ w ∷ bytes) (bx, (by, (bz, (bw, bs)))) h =
    (omega arith, ground arith)

i32_bytes-read_i32 :
    (bytes : List ℕ)
    → All IsByte bytes
    → 4 ≤ length bytes
    → IsInt32 (read_i32 bytes) × (i32_bytes (read_i32 bytes) ++ drop 4 bytes ≡ bytes)
unfolding read_i32
i32_bytes-read_i32 bytes b h =
    let (small, same) = u32_bytes-read_u32 bytes b h in
    (signed_of-IsInt32 _ small, rw (pattern_of-signed_of _ small) same)

-- The bytes of a word and of the words behind it, at an offset.
u32_at :
    (n : ℕ) (bytes : List ℕ)
    → All IsByte bytes
    → n + 4 ≤ length bytes
    → (read_u32 (drop n bytes) < 2 ^ 32)
      × (u32_bytes (read_u32 (drop n bytes)) ++ drop (n + 4) bytes ≡ drop n bytes)
u32_at n bytes b h =
    let (small, same) =
      u32_bytes-read_u32 (drop n bytes) (All-drop IsByte n bytes b)
        (omega (arith, length-drop n bytes)) in
    (small, rw (← drop-drop 4 n bytes) same)

i32_at :
    (n : ℕ) (bytes : List ℕ)
    → All IsByte bytes
    → n + 4 ≤ length bytes
    → IsInt32 (read_i32 (drop n bytes))
      × (i32_bytes (read_i32 (drop n bytes)) ++ drop (n + 4) bytes ≡ drop n bytes)
i32_at n bytes b h =
    let (small, same) =
      i32_bytes-read_i32 (drop n bytes) (All-drop IsByte n bytes b)
        (omega (arith, length-drop n bytes)) in
    (small, rw (← drop-drop 4 n bytes) same)

drop_all : (n : ℕ) (bytes : List ℕ) → length bytes ≤ n → drop n bytes ≡ []
drop_all zero [] h = refl
drop_all zero (x ∷ bytes) h = elim h [ ]
drop_all (suc n) [] h = refl
drop_all (suc n) (x ∷ bytes) h = drop_all n bytes (omega arith)

-- A buffer of 36 bytes is accepted; the record read from it has every field in range, and its bytes on
-- the wire are the buffer again.
pub record_bytes-record_at :
    (bytes : List ℕ)
    → All IsByte bytes
    → length bytes ≡ 36
    → (decode_record (some bytes) (length bytes) ≡ decoded (record_at bytes))
      × IsInRange (record_at bytes)
      × (record_bytes (record_at bytes) ≡ bytes)
unfolding decode_record record_at
record_bytes-record_at bytes b h =
    let a = u32_at 0 bytes b (omega arith) in
    let c = u32_at 4 bytes b (omega arith) in
    let d = u32_at 8 bytes b (omega arith) in
    let e = i32_at 12 bytes b (omega arith) in
    let f = i32_at 16 bytes b (omega arith) in
    let g = i32_at 20 bytes b (omega arith) in
    let p = i32_at 24 bytes b (omega arith) in
    let q = i32_at 28 bytes b (omega arith) in
    let r = i32_at 32 bytes b (omega arith) in
    let last : drop 36 bytes ≡ [] = drop_all 36 bytes (omega arith) in
    (
      rw h,
      record {
        rdt_sequence_lt = a.0;
        ft_sequence_lt = c.0;
        status_lt = d.0;
        fx_fits = e.0;
        fy_fits = f.0;
        fz_fits = g.0;
        tx_fits = p.0;
        ty_fits = q.0;
        tz_fits = r.0;
      },
      cc (a.1, c.1, d.1, e.1, f.1, g.1, p.1, q.1, r.1, last),
    )

-- What a request says: its header and command in one word, the count in the other.
pub encode_request_words :
    (c : Command) (count : ℕ)
    → count < 2 ^ 32
    → (encode_request c count ≡ u32_bytes (0x1234 * 2 ^ 16 + command_value c) ++ u32_bytes count)
      × (read_u32 (encode_request c count) ≡ 0x1234 * 2 ^ 16 + command_value c)
      × (read_u32 (drop 4 (encode_request c count)) ≡ count)
unfolding encode_request read_u32
encode_request_words stop_streaming n h = (ground arith, refl, omega arith)
encode_request_words start_realtime n h = (ground arith, refl, omega arith)
encode_request_words start_buffered n h = (ground arith, refl, omega arith)
encode_request_words reset_condition_latch n h = (ground arith, refl, omega arith)
encode_request_words set_software_bias n h = (ground arith, refl, omega arith)

command_value-injective : (c d : Command) → command_value c ≡ command_value d → c ≡ d
unfolding command_value
command_value-injective c d e = ground arith

-- Requests with the same bytes are the same request.
pub encode_request-injective :
    (c d : Command) (m n : ℕ)
    → m < 2 ^ 32
    → n < 2 ^ 32
    → encode_request c m ≡ encode_request d n
    → (c ≡ d) × (m ≡ n)
encode_request-injective c d m n hm hn e =
    let x = encode_request_words c m hm in
    let y = encode_request_words d n hn in
    let word = ap read_u32 e in
    let count = ap (λ bytes. read_u32 (drop 4 bytes)) e in
    (command_value-injective c d (omega (arith, x.1, y.1, word)), omega (arith, x.2, y.2, count))
