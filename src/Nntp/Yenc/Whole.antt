-- ===== src/Nntp/Yenc/Whole.antt =====
-- The whole run of `decode_yenc_stream` over a well-formed article.
use lore_x.Text.Number.{int_of}
use lore_x.Prelude.{
  ℕ, ◌+◌, ◌<◌, ◌≤◌, ◌≡◌, refl, ap, ◌∙◌, sym, true, false, Option, none, some, ◌%◌, ◌^◌, List, [],
  ◌∷◌, ◌++◌, arith, All, length, append_assoc, append-nil, length-append,
}
use native.Mathlib.Nat.{zero-add, add-zero, add_assoc}
use lore_x.Prelude.Int.{ℤ, pos, ◌≤ℤ◌, leb_ℤ}
use lore_x.Result.{ok, err}
use lore_x.Text.{codes, starts_with}
use lore_x.Nntp.Stream.{Bytes, Gen, joined, ◌>>=◌, pure}
use lore_x.Nntp.Crc.{crc32}
use lore_x.Nntp.Yenc.{
  Decoder, undecided, new_decoder, feed, process_line, process_lines, first_line, yenc_line,
  trailer, flush_output, feed_chunks, finish, decode_yenc_stream, size_field, checksum_field,
  check_crc, parse_control,
}
use lore_x.Nntp.Yenc.Encoding.{encode}
use lore_x.Nntp.Yenc.Chunks.{flush_output_lem, forced-empty, joined-append}
use lore_x.Nntp.Yenc.Article.{
  crlf, NoNewline, logical_line-crlf, feed-crlf, joined-pure, within, data_feed,
}

-- The checksum of the lines' payloads, as the decoder carries it along.
abbrev pub payload_crc : List Bytes → ℕ → ℕ
payload_crc [] crc = crc
payload_crc (bs ∷ bss) crc = payload_crc bss (crc32 bs crc)

abbrev pub total : List Bytes → ℕ
total [] = 0
total (bs ∷ bss) = length bs + total bss

abbrev pub data_lines : List Bytes → List Bytes
data_lines [] = []
data_lines (bs ∷ bss) = crlf (encode bs) ∷ data_lines bss

pub bind-ok :
    {A B : Type 0} (g : Gen A) (f : A → Gen B) (a : A)
    → g.1 ≡ ok a
    → (g >>= f) ≡ (g.0 ++ (f a).0, (f a).1)
bind-ok (cs, ok b) f a e = ground (arith, e)
bind-ok (cs, err x) f a e = cc

abbrev pub IsPayload : ℕ → List Bytes → Type 0
IsPayload m bss = All (λ bs. All (λ b. b < 256) bs × (length (encode bs) ≤ m)) bss

module _ (n m : ℕ) (positive : 0 < n) (size : ℤ) where
  -- What a run that begins with some data lines amounts to.
  lines_feed :
      (bss rest : List Bytes) (out : Bytes) (dec crc : ℕ)
      → IsPayload m bss
      → (cs : List Bytes) × (left : Bytes) × (feed_chunks
            (data_lines bss ++ rest)
            (within n m out size dec crc)
          ≡ (
            cs
                ++ (feed_chunks rest
                    (within n m left size (dec + total bss) (payload_crc bss crc))).0,
            (feed_chunks rest (within n m left size (dec + total bss) (payload_crc bss crc))).1,
          ))
        × (joined cs ++ left ≡ out ++ joined bss)
  unfolding feed_chunks
  lines_feed [] rest out dec crc h = ([], out, rw (add-zero dec), sym (append-nil out))
  lines_feed (bs ∷ bss) rest out dec crc h =
      let (left, res, kept) = data_feed n m positive size bs out dec crc h.0.0 h.0.1 in
      let (cs, last, run, conserved) =
        lines_feed bss rest left (dec + length bs) (crc32 bs crc) h.1 in
      let g = feed (crlf (encode bs)) (within n m out size dec crc) in
      (
        g.0 ++ cs,
        last,
        rw (
          bind-ok g (λ d. feed_chunks (data_lines bss ++ rest) d)
              (within n m left size (dec + length bs) (crc32 bs crc)) res,
          run,
          append_assoc,
          add_assoc,
        ),
        rw (
          joined-append g.0 cs,
          append_assoc (joined g.0) (joined cs) last,
          conserved,
          ← append_assoc (joined g.0) left (joined bss),
          kept,
          append_assoc out bs (joined bss),
        ),
      )

-- A header line, a trailer line: control lines that fit the limit and hold no newline.
pub record IsHeader (m : ℕ) (size : ℤ) (l : Bytes) : Type 0 where
  pub keyword : starts_with (codes "=ybegin ") l ≡ true
  pub size_read : size_field (parse_control l) ≡ some size
  pub fits : length l ≤ m
  pub one_line : NoNewline l

-- A checksum, where there is one, is the given one in hexadecimal.
abbrev pub NamesCrc : Option Bytes → ℕ → Type 0
NamesCrc none crc = Unit
NamesCrc (some checksum) crc = int_of 16 checksum ≡ some (pos (crc % 2 ^ 32))

leb_ℤ-refl : (n : ℕ) → leb_ℤ (pos n) (pos n) ≡ true
leb_ℤ-refl n = ground arith

check_crc-NamesCrc : (o : Option Bytes) (crc : ℕ) → NamesCrc o crc → check_crc o crc ≡ ok tt
unfolding check_crc
check_crc-NamesCrc none crc h = refl
check_crc-NamesCrc (some checksum) crc h = rw (h, leb_ℤ-refl (crc % 2 ^ 32), check_crc) refl

-- The trailer names the number of decoded bytes and, if it has a checksum, theirs.
pub record IsTrailer (m n crc : ℕ) (l : Bytes) : Type 0 where
  pub keyword : starts_with (codes "=yend ") l ≡ true
  pub no_part : starts_with (codes "=ypart ") l ≡ false
  pub size_read : size_field (parse_control l) ≡ some (pos n)
  pub checked : NamesCrc (checksum_field (parse_control l)) crc
  pub fits : length l ≤ m
  pub one_line : NoNewline l

abbrev start : ℕ → ℕ → Decoder
start n m = record {
  output_chunk_size = n;
  max_line_length = m;
  buffer = [];
  output = [];
  mode = undecided;
  finished = false;
  expected_size = none;
  decoded_size = 0;
  crc = 0;
}

module _ (n m : ℕ) (positive : 0 < n) (size : ℤ) where
  header_process :
      (l : Bytes)
      → IsHeader m size l
      → process_line (crlf l) (start n m) ≡ pure (within n m [] size 0 0)
  unfolding process_line first_line
  header_process l h =
      ground
        (arith, h.keyword, h.size_read, h.fits, logical_line-crlf l, length-append l (13 ∷ 10 ∷ []))

  header_feed :
      (l : Bytes) → IsHeader m size l → feed (crlf l) (start n m) ≡ pure (within n m [] size 0 0)
  unfolding process_lines
  header_feed l h = rw (feed-crlf l (start n m) h.one_line refl refl, header_process l h)

  pub trailer_process :
      (l out : Bytes) (dec crc : ℕ)
      → IsTrailer m dec crc l
      → pos dec ≤ℤ size
      → process_line (crlf l) (within n m out size dec crc)
        ≡ flush_output true (record (within n m out size dec crc) { finished = true })
  unfolding process_line yenc_line trailer
  trailer_process l out dec crc h s = ground (
    arith,
    h.keyword,
    h.no_part,
    h.size_read,
    check_crc-NamesCrc (checksum_field (parse_control l)) crc h.checked,
    h.fits,
    logical_line-crlf l,
    length-append l (13 ∷ 10 ∷ []),
  )

  -- After the trailer nothing is kept back, so `finish` has nothing to add.
  finish_done :
      (dec crc : ℕ)
      → finish (record (within n m [] size dec crc) { finished = true })
        ≡ pure (record (within n m [] size dec crc) { finished = true })
  unfolding finish
  finish_done dec crc = refl

  trailer_feed :
      (l out : Bytes) (dec crc : ℕ)
      → IsTrailer m dec crc l
      → pos dec ≤ℤ size
      → ((feed (crlf l) (within n m out size dec crc)).1
          ≡ ok (record (within n m [] size dec crc) { finished = true }))
        × (joined (feed (crlf l) (within n m out size dec crc)).0 ≡ out)
  unfolding process_lines
  trailer_feed l out dec crc h s =
      let d : Decoder = record (within n m out size dec crc) { finished = true } in
      let (left, f) = flush_output_lem true d positive in
      let empty = forced-empty left f in
      let (res, same) = joined-pure (flush_output true d) f.result in
      rw
        (
          feed-crlf l (within n m out size dec crc) h.one_line refl refl,
          trailer_process l out dec crc h s,
        )
        (ground (arith, res, empty), same ∙ (sym (append-nil _) ∙ (rw empty at f.conserved)))

  last_chunk :
      (l out : Bytes) (dec crc : ℕ)
      → IsTrailer m dec crc l
      → pos dec ≤ℤ size
      → ((feed_chunks (crlf l ∷ []) (within n m out size dec crc)).1
          ≡ ok (record (within n m [] size dec crc) { finished = true }))
        × (joined (feed_chunks (crlf l ∷ []) (within n m out size dec crc)).0 ≡ out)
  unfolding feed_chunks
  last_chunk l out dec crc h s =
      let (res, all_out) = trailer_feed l out dec crc h s in
      let (res', same) = joined-pure (feed (crlf l) (within n m out size dec crc)) res in
      (res', same ∙ all_out)

  article_chunks : Bytes → Bytes → List Bytes → List Bytes
  article_chunks header last bss = crlf header ∷ (data_lines bss ++ crlf last ∷ [])

  chunks_run :
      (header last : Bytes) (bss : List Bytes)
      → IsHeader m size header
      → IsPayload m bss
      → IsTrailer m (total bss) (payload_crc bss 0) last
      → pos (total bss) ≤ℤ size
      → ((feed_chunks (article_chunks header last bss) (start n m)).1
          ≡ ok (record (within n m [] size (total bss) (payload_crc bss 0)) { finished = true }))
        × (joined (feed_chunks (article_chunks header last bss) (start n m)).0 ≡ joined bss)
  unfolding feed_chunks article_chunks
  chunks_run header last bss h p t s =
      let (cs, left, run, kept) = lines_feed n m positive size bss (crlf last ∷ []) [] 0 0 p in
      let (res, out) = last_chunk last left (total bss) (payload_crc bss 0) t s in
      rw (header_feed header h, run, zero-add (total bss))
        (res, joined-append cs _ ∙ (ap (λ x. joined cs ++ x) out ∙ kept))

  decode_start :
      (chunks : List Bytes)
      → 1024 ≤ m
      → decode_yenc_stream n m chunks ≡ (feed_chunks chunks (start n m) >>= finish)
  unfolding decode_yenc_stream new_decoder
  decode_start chunks limit = ground arith

  -- A header that declares at least the payload's size, data lines that encode the payload and fit
  -- the line limit, and a trailer with the payload's size and, if any, its checksum: when these
  -- lines arrive one by one, the decoder accepts them and hands on exactly the payload.
  pub decode_yenc_stream-article :
      (header last : Bytes) (bss : List Bytes)
      → 1024 ≤ m
      → IsHeader m size header
      → IsPayload m bss
      → IsTrailer m (total bss) (payload_crc bss 0) last
      → pos (total bss) ≤ℤ size
      → let r = decode_yenc_stream n m (crlf header ∷ (data_lines bss ++ crlf last ∷ [])) in
        (joined r.0 ≡ joined bss) × ((d : Decoder) × (r.1 ≡ ok d))
  unfolding article_chunks
  decode_yenc_stream-article header last bss limit h p t s =
      let (res, out) = chunks_run header last bss h p t s in
      rw
        (
          decode_start (article_chunks header last bss) limit,
          bind-ok (feed_chunks (article_chunks header last bss) (start n m)) finish _ res,
          finish_done (total bss) (payload_crc bss 0),
        )
        (
          ap joined (append-nil (feed_chunks (article_chunks header last bss) (start n m)).0) ∙ out,
          (_, refl),
        )
