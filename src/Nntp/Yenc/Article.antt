-- ===== src/Nntp/Yenc/Article.antt =====
-- A well-formed yEnc article that arrives line by line, as `NntpClient.body` yields it.
use lore_x.Prelude.{
  ℕ, ◌+◌, ◌-◌, ◌<◌, ◌≤◌, ◌≡◌, ◌≢◌, refl, ap, ◌∙◌, true, false, some, [], ◌∷◌, ◌++◌, ◌==◌, arith,
  All, length, take, any, append-nil, length-append, =?-refl, nat_eq, list_eq,
}
use lore_x.Prelude.Int.{ℤ}
use lore_x.Result.{ok, err}
use lore_x.Text.{codes, is_empty, ends_with}
use lore_x.Nntp.Stream.{Bytes, Gen, joined, ◌>>=◌, pure}
use lore_x.Nntp.Crc.{crc32}
use lore_x.Nntp.Yenc.{
  Decoder, yenc, feed, process_line, process_lines, split_lines, logical_line, yenc_line, data_line,
  flush_output,
}
use lore_x.Nntp.Yenc.Encoding.{
  encode, decode-encode, encode-clean, encode-not_control, starts_longer,
}
use lore_x.Nntp.Yenc.Chunks.{flush_output_lem}

-- A line as it comes from the wire.
abbrev pub crlf : Bytes → Bytes
crlf l = l ++ 13 ∷ 10 ∷ []

abbrev pub NoNewline : Bytes → Type 0
NoNewline l = All (λ c. c ≢ 10) l

ends_with_self : (l s : Bytes) → is_empty s ≡ false → ends_with s (l ++ s) ≡ true
unfolding ends_with
ends_with_self [] [] h = cc
ends_with_self [] (c ∷ s) h = ground (arith, =?-refl (c ∷ s))
ends_with_self (d ∷ l) s h = ground (arith, ends_with_self l s h)

take-append : (l s : Bytes) → take (length l) (l ++ s) ≡ l
take-append [] s = refl
take-append (c ∷ l) s = ap (λ r. c ∷ r) (take-append l s)

pub logical_line-crlf : (l : Bytes) → logical_line (crlf l) ≡ l
unfolding logical_line
logical_line-crlf l =
    let two : length (crlf l) - 2 ≡ length l = omega (arith, length-append l (13 ∷ 10 ∷ [])) in
    rw (ends_with_self l (13 ∷ 10 ∷ []) refl) (rw two (take-append l (13 ∷ 10 ∷ [])))

pub split_lines-crlf : (l : Bytes) → NoNewline l → split_lines (crlf l) ≡ (crlf l ∷ [], [])
unfolding split_lines
split_lines-crlf [] h = refl
split_lines-crlf (c ∷ l) h = ground (arith, split_lines-crlf l h.1)

pub any-crlf : (l : Bytes) → any (λ c. c == 10) (crlf l) ≡ true
any-crlf [] = refl
any-crlf (c ∷ l) = ground (arith, any-crlf l)

pub feed-crlf :
    (l : Bytes) (d : Decoder)
    → NoNewline l
    → d.finished ≡ false
    → d.buffer ≡ []
    → feed (crlf l) d ≡ process_lines (crlf l ∷ []) (record d { buffer = [] })
unfolding feed
feed-crlf l d h f b = ground (arith, f, b, any-crlf l, split_lines-crlf l h)

-- A decoder within a yEnc article.
abbrev pub within : ℕ → ℕ → Bytes → ℤ → ℕ → ℕ → Decoder
within n m out size dec crc = record {
  output_chunk_size = n;
  max_line_length = m;
  buffer = [];
  output = out;
  mode = yenc;
  finished = false;
  expected_size = some size;
  decoded_size = dec;
  crc = crc;
}

pub no_newline : (l : Bytes) → All (λ c. (c ≢ 10) × (c ≢ 13)) l → NoNewline l
no_newline [] h = tt
no_newline (c ∷ l) h = (h.0.0, no_newline l h.1)

pub joined-pure :
    {d : Decoder} (g : Gen Decoder)
    → g.1 ≡ ok d
    → ((g >>= pure).1 ≡ ok d) × (joined (g >>= pure).0 ≡ joined g.0)
joined-pure (cs, ok d) e = (e, ap joined (append-nil cs))
joined-pure (cs, err x) e = cc

module _ (n m : ℕ) (positive : 0 < n) (size : ℤ) where
  data_process :
      (bs out : Bytes) (dec crc : ℕ)
      → All (λ b. b < 256) bs
      → length (encode bs) ≤ m
      → process_line (crlf (encode bs)) (within n m out size dec crc)
        ≡ flush_output false (within n m (out ++ bs) size (dec + length bs) (crc32 bs crc))
  unfolding process_line yenc_line data_line
  data_process bs out dec crc b h = ground (
    arith,
    length-append (encode bs) (13 ∷ 10 ∷ []),
    logical_line-crlf (encode bs),
    starts_longer (encode bs) (codes "part ") (encode-not_control bs),
    starts_longer (encode bs) (codes "end ") (encode-not_control bs),
    decode-encode bs b,
  )

  pub data_feed :
      (bs out : Bytes) (dec crc : ℕ)
      → All (λ b. b < 256) bs
      → length (encode bs) ≤ m
      → (left : Bytes) × ((feed (crlf (encode bs)) (within n m out size dec crc)).1
          ≡ ok (within n m left size (dec + length bs) (crc32 bs crc)))
        × (joined (feed (crlf (encode bs)) (within n m out size dec crc)).0 ++ left ≡ out ++ bs)
  unfolding process_lines
  data_feed bs out dec crc b h =
      let d = within n m (out ++ bs) size (dec + length bs) (crc32 bs crc) in
      let (left, f) = flush_output_lem false d positive in
      let (res, same) = joined-pure (flush_output false d) f.result in
      rw
        (
          feed-crlf (encode bs) (within n m out size dec crc)
              (no_newline (encode bs) (encode-clean bs)) refl refl,
          data_process bs out dec crc b h,
        )
        (left, res, ap (λ x. x ++ left) same ∙ f.conserved)
