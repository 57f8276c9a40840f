-- ===== src/Nntp/Yenc.antt =====
-- backend/lorex/nntp/yenc.py: the streaming decoder. Bytes are numbers below 256.
pub mod Encoding
pub mod Chunks
pub mod Article
pub mod Whole
pub mod Trailing
mod Tests
use lore_x.Prelude.{
  ℕ, zero, suc, ◌+◌, ◌-◌, ◌%◌, ◌^◌, ◌≡◌, refl, Bool, true, false, not, ◌&&◌, ◌||◌, Option, none,
  some, List, [], ◌∷◌, ◌++◌, ltb, leb, ◌==◌, if◌then◌else◌, length, take, drop, any, ◌=?◌, nat_eq,
  list_eq,
}
use lore_x.Prelude.Int.{ℤ, pos, pos_part, ltb_ℤ, leb_ℤ}
use lore_x.Result.{Result, ok, err, Error, value_error, protocol_error}
use lore_x.Text.{Text, codes, starts_with, ends_with, partition, is_empty}
use lore_x.Text.Number.{int_of, words, is_ascii_space}
use lore_x.Dict.{Dict, get, put}
use lore_x.Nntp.Stream.{Bytes, Gen, pure, raise, lift, ◌>>=◌, ◌>>◌, raise_if}
use lore_x.Nntp.Crc.{crc32}

-- `_parse_control`, on the tokens behind the keyword.
unfoldable pub control_fields : List Bytes → Dict Bytes Bytes → Dict Bytes Bytes
control_fields [] fields = fields
control_fields (token ∷ tokens) fields =
    control_fields tokens
      (elim (partition b'=' token) [ none ↦ fields | some (key, value) ↦ put key value fields ])

abbrev tail : List Bytes → List Bytes
tail [] = []
tail (t ∷ ts) = ts

unfoldable pub parse_control : Bytes → Dict Bytes Bytes
unfolding control_fields
parse_control line = control_fields (tail (words is_ascii_space line)) []

pub data Mode : Type 0 where
  undecided yenc plain : Mode

pub record Decoder : Type 0 where
  pub output_chunk_size : ℕ
  pub max_line_length : ℕ
  pub buffer : Bytes
  pub output : Bytes
  pub mode : Mode
  pub finished : Bool
  pub expected_size : Option ℤ
  pub decoded_size : ℕ
  pub crc : ℕ

unfoldable pub new_decoder : ℕ → ℕ → Result Decoder
new_decoder chunk_size line_length =
    if chunk_size == 0
    then err (value_error "output_chunk_size must be positive")
    else if ltb line_length 1024
    then err (value_error "max_line_length is too small")
    else ok (record {
      output_chunk_size = chunk_size;
      max_line_length = line_length;
      buffer = [];
      output = [];
      mode = undecided;
      finished = false;
      expected_size = none;
      decoded_size = 0;
      crc = 0;
    })

-- The `while` of `_flush_output`, on fuel: the full chunks, and what is left.
unfoldable pub full_chunks : ℕ → ℕ → Bytes → List Bytes × Bytes
full_chunks zero n output = ([], output)
full_chunks (suc fuel) n output =
    let rest = full_chunks fuel n (drop n output) in
    if leb n (length output) then (take n output ∷ rest.0, rest.1) else ([], output)

-- `_flush_output`; a chunk is not empty, so the output is fuel enough.
unfoldable pub flush_output : Bool → Decoder → Gen Decoder
unfolding full_chunks
flush_output force d =
    let (chunks, left) = full_chunks (length d.output) d.output_chunk_size d.output in
    if force && not (is_empty left)
    then (chunks ++ left ∷ [], ok (record d { output = [] }))
    else (chunks, ok (record d { output = left }))

-- The loop over the bytes of a data line; `none` is a line that ends in an escape.
unfoldable pub decode_bytes : Bool → Bytes → Option Bytes
decode_bytes true [] = none
decode_bytes false [] = some []
decode_bytes true (v ∷ bs) = elim (decode_bytes false bs) [
  | none ↦ none
  | some out ↦ some (((v + 256 - 64) % 256 + 256 - 42) % 256 ∷ out)
]
decode_bytes false (v ∷ bs) =
    let escape = decode_bytes true bs in
    let plain_byte = decode_bytes false bs in
    if v == 61
    then escape
    else (elim plain_byte [ none ↦ none | some out ↦ some ((v + 256 - 42) % 256 ∷ out) ])

-- `raw` without its line end.
unfoldable pub logical_line : Bytes → Bytes
logical_line raw =
    if ends_with (13 ∷ 10 ∷ []) raw
    then take (length raw - 2) raw
    else if ends_with (10 ∷ []) raw
    then take (length raw - 1) raw
    else raw

-- `int(fields[b"size"])`
unfoldable pub size_field : Dict Bytes Bytes → Option ℤ
size_field fields = elim (get (codes "size") fields) [ none ↦ none | some value ↦ int_of 10 value ]

-- `fields.get(b"pcrc32") or fields.get(b"crc32")`: an empty value falls through.
unfoldable pub checksum_field : Dict Bytes Bytes → Option Bytes
checksum_field fields = elim (get (codes "pcrc32") fields) [
  | none ↦ get (codes "crc32") fields
  | some value ↦ if is_empty value then get (codes "crc32") fields else some value
]

-- The test of the checksum of a trailer.
unfoldable pub check_crc : Option Bytes → ℕ → Result (Unit {0})
check_crc none crc = ok tt
check_crc (some checksum) crc = elim (int_of 16 checksum) [
  | none ↦ err (protocol_error "Malformed yEnc checksum")
  | some expected ↦
      if leb_ℤ expected (pos (crc % 2 ^ 32)) && leb_ℤ (pos (crc % 2 ^ 32)) expected
      then ok tt
      else err (protocol_error "yEnc checksum mismatch")
]

-- `self._expected_size is not None and trailer_size > self._expected_size`
abbrev exceeds : Option ℤ → ℤ → Bool
exceeds none size = false
exceeds (some expected) size = ltb_ℤ expected size

unfoldable pub trailer : Bytes → Decoder → Gen Decoder
unfolding flush_output size_field checksum_field check_crc
trailer logical d =
    let fields = parse_control logical in
    elim (size_field fields) [
      | none ↦ raise (protocol_error "Malformed yEnc trailer")
      | some size ↦ (do
        raise_if (not (leb_ℤ size (pos d.decoded_size) && leb_ℤ (pos d.decoded_size) size))
            (protocol_error "yEnc decoded size mismatch")
        raise_if (exceeds d.expected_size size)
            (protocol_error "yEnc decoded size exceeds declared size")
        lift (check_crc (checksum_field fields) d.crc)
        flush_output true (record d { finished = true }))
    ]

unfoldable pub data_line : Bytes → Decoder → Gen Decoder
unfolding flush_output decode_bytes
data_line logical d = elim (decode_bytes false logical) [
  | none ↦ raise (protocol_error "Incomplete yEnc escape sequence")
  | some decoded ↦ flush_output false (record d {
    decoded_size = d.decoded_size + length decoded;
    crc = crc32 decoded d.crc;
    output = d.output ++ decoded;
  })
]

unfoldable pub plain_line : Bytes → Decoder → Gen Decoder
unfolding flush_output
plain_line raw d = flush_output false (record d { mode = plain; output = d.output ++ raw })

-- The first line decides the mode.
unfoldable pub first_line : Bytes → Bytes → Decoder → Gen Decoder
unfolding plain_line size_field
first_line raw logical d =
    if starts_with (codes "=ybegin ") logical
    then (elim (size_field (parse_control logical)) [
      | none ↦ raise (protocol_error "Malformed yEnc header")
      | some size ↦ pure (record d { mode = yenc; expected_size = some size })
    ])
    else plain_line raw d

unfoldable pub yenc_line : Bytes → Decoder → Gen Decoder
unfolding trailer data_line
yenc_line logical d =
    if starts_with (codes "=ypart ") logical
    then pure d
    else if starts_with (codes "=yend ") logical
    then trailer logical d
    else data_line logical d

-- `_process_line`
unfoldable pub process_line : Bytes → Decoder → Gen Decoder
unfolding first_line plain_line yenc_line logical_line
process_line raw d =
    if ltb (d.max_line_length + 2) (length raw)
    then raise (protocol_error "yEnc line exceeds configured limit")
    else (elim d.mode [
      | undecided ↦ first_line raw (logical_line raw) d
      | plain ↦ plain_line raw d
      | yenc ↦ yenc_line (logical_line raw) d
    ])

-- The complete lines of the buffer, each with its newline, and what follows the last of them.
unfoldable pub split_lines : Bytes → List Bytes × Bytes
split_lines [] = ([], [])
split_lines (c ∷ s) =
    let (ls, rest) = split_lines s in
    if c == 10
    then ((c ∷ []) ∷ ls, rest)
    else (elim ls [ [] ↦ ([], c ∷ rest) | l ∷ more ↦ ((c ∷ l) ∷ more, rest) ])

unfoldable pub process_lines : List Bytes → Decoder → Gen Decoder
process_lines [] d = pure d
process_lines (raw ∷ ls) d = do d' ← process_line raw d; process_lines ls d'

-- `feed`. While a line is processed the buffer still holds the later ones; no line looks at it.
unfoldable pub feed : Bytes → Decoder → Gen Decoder
unfolding split_lines process_lines
feed chunk d =
    if d.finished
    then (if is_empty chunk
        then pure d
        else raise (protocol_error "Unexpected data after yEnc trailer"))
    else let buffer = d.buffer ++ chunk in
      if ltb d.max_line_length (length buffer) && not (any (λ c. c == 10) buffer)
      then raise (protocol_error "yEnc line exceeds configured limit")
      else let (ls, rest) = split_lines buffer in process_lines ls (record d { buffer = rest })

-- The last, unterminated line.
unfoldable pub last_line : Decoder → Gen Decoder
unfolding process_line
last_line d =
    if is_empty d.buffer
    then pure d
    else (do d' ← process_line d.buffer d; pure (record d' { buffer = [] }))

abbrev is_yenc : Mode → Bool
is_yenc yenc = true
is_yenc undecided = false
is_yenc plain = false

unfoldable pub finish : Decoder → Gen Decoder
unfolding last_line flush_output
finish d = do
  d' ← last_line d
  raise_if (is_yenc d'.mode && not d'.finished) (protocol_error "Incomplete yEnc article")
  flush_output true d'

unfoldable pub feed_chunks : List Bytes → Decoder → Gen Decoder
feed_chunks [] d = pure d
feed_chunks (c ∷ cs) d = do d' ← feed c d; feed_chunks cs d'

-- `decode_yenc_stream`
unfoldable pub decode_yenc_stream : ℕ → ℕ → List Bytes → Gen Decoder
unfolding new_decoder feed_chunks finish
decode_yenc_stream chunk_size line_length chunks = do
  d ← lift (new_decoder chunk_size line_length)
  d' ← feed_chunks chunks d
  finish d'
