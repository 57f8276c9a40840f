-- ===== src/Nntp/Yenc/Tests.antt =====
-- The decoder at a concrete article.
use lore_x.Prelude.{ℕ, ◌≡◌, refl, ◌++◌, arith, List, [], ◌∷◌, true}
use lore_x.Prelude.Int.{pos}
use lore_x.Result.{ok, protocol_error}
use lore_x.Text.{codes, text_functions}
use lore_x.Text.Number.{words, int_of, is_ascii_space}
use lore_x.Dict.{get, put}
use lore_x.Nntp.Stream.{Bytes, joined, raise}
use lore_x.Nntp.Crc.{crc32}
use lore_x.Nntp.Yenc.{
  Decoder, decode_yenc_stream, feed, parse_control, control_fields, size_field, checksum_field,
  check_crc,
}
use lore_x.Nntp.Yenc.Encoding.{encode}
use lore_x.Nntp.Yenc.Article.{crlf, within}
use lore_x.Nntp.Yenc.Whole.{
  IsHeader, IsTrailer, data_lines, payload_crc, decode_yenc_stream-article,
}
use lore_x.Nntp.Yenc.Trailing.{feed-after_trailer}

-- The bytes of `hi`, and two that are encoded with an escape.
abbrev payload : List Bytes
payload = (104 ∷ 105 ∷ []) ∷ (214 ∷ 19 ∷ []) ∷ []

abbrev header : Bytes
header = codes "=ybegin line=128 size=4 name=a.m4b"

abbrev last : Bytes
last = codes "=yend size=4"

header-IsHeader : IsHeader 1024 (pos 4) header
unfolding size_field parse_control control_fields words int_of get put text_functions is_ascii_space
header-IsHeader = record {
  keyword = refl;
  size_read = refl;
  fits = omega arith;
  one_line = omega arith;
}

last-IsTrailer : IsTrailer 1024 4 (payload_crc payload 0) last
unfolding size_field parse_control checksum_field check_crc control_fields words int_of get put
    text_functions is_ascii_space
last-IsTrailer = record {
  keyword = refl;
  no_part = refl;
  size_read = refl;
  checked = tt;
  fits = omega arith;
  one_line = omega arith;
}

decode_yenc_stream-article_example :
    let r = decode_yenc_stream 3 1024 (crlf header ∷ (data_lines payload ++ crlf last ∷ [])) in
    (joined r.0 ≡ joined payload) × ((d : Decoder) × (r.1 ≡ ok d))
unfolding encode
decode_yenc_stream-article_example =
    decode_yenc_stream-article 3 1024 (omega arith) (pos 4) header last payload (omega arith)
      header-IsHeader (omega arith) last-IsTrailer (omega arith)

abbrev checksum : ℕ
checksum = payload_crc payload 0

abbrev before : Decoder
before = within 3 1024 [] (pos 4) 4 checksum

feed-after_trailer_example :
    ((left : Bytes) × ((feed (crlf last ++ crlf (encode (7 ∷ []))) before).1
        ≡ ok (record before {
          output = left;
          decoded_size = 5;
          crc = crc32 (7 ∷ []) checksum;
          finished = true;
        }))
      × (joined (feed (crlf last ++ crlf (encode (7 ∷ []))) before).0 ++ left ≡ [] ++ 7 ∷ []))
    × (feed (crlf (encode (7 ∷ []))) (record before { finished = true })
        ≡ raise (protocol_error "Unexpected data after yEnc trailer"))
unfolding encode
feed-after_trailer_example =
    feed-after_trailer 3 1024 (omega arith) (pos 4) last (7 ∷ []) [] 4 checksum last-IsTrailer
      (omega arith) (omega arith) (omega arith)
