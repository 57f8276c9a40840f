-- ===== src/Nntp/Yenc/Trailing.antt =====
-- `feed` of `StreamingYencDecoder` on data behind the trailer.
use lore_x.Prelude.{
  ℕ, ◌+◌, ◌<◌, ◌≤◌, ◌≡◌, refl, ap, ◌∙◌, sym, true, false, List, [], ◌∷◌, ◌++◌, ◌==◌, arith, All,
  length, any, append_assoc, append-nil, length-append,
}
use lore_x.Prelude.Int.{ℤ, pos, ◌≤ℤ◌}
use lore_x.Result.{ok, protocol_error}
use lore_x.Text.{codes}
use lore_x.Nntp.Stream.{Bytes, joined, raise}
use lore_x.Nntp.Crc.{crc32}
use lore_x.Nntp.Yenc.{
  Decoder, feed, process_line, process_lines, split_lines, yenc_line, data_line, flush_output,
}
use lore_x.Nntp.Yenc.Encoding.{
  encode, decode-encode, encode-clean, encode-not_control, starts_longer,
}
use lore_x.Nntp.Yenc.Chunks.{flush_output_lem, forced-empty, joined-append}
use lore_x.Nntp.Yenc.Article.{
  crlf, NoNewline, no_newline, any-crlf, split_lines-crlf, logical_line-crlf, joined-pure, within,
}
use lore_x.Nntp.Yenc.Whole.{IsTrailer, trailer_process, bind-ok}

split_lines-append :
    (l s : Bytes)
    → NoNewline l
    → split_lines (crlf l ++ s) ≡ (crlf l ∷ (split_lines s).0, (split_lines s).1)
unfolding split_lines
split_lines-append [] s h = ground arith
split_lines-append (c ∷ l) s h = ground (arith, split_lines-append l s h.1)

split_lines-two :
    (l k : Bytes)
    → NoNewline l
    → NoNewline k
    → split_lines (crlf l ++ crlf k) ≡ (crlf l ∷ crlf k ∷ [], [])
split_lines-two l k h g = rw (split_lines-append l (crlf k) h, split_lines-crlf k g)

any-append : (l s : Bytes) → any (λ c. c == 10) l ≡ true → any (λ c. c == 10) (l ++ s) ≡ true
any-append [] s h = cc
any-append (c ∷ l) s h = ground (arith, any-append l s)

module _ (n m : ℕ) (positive : 0 < n) (size : ℤ) where
  abbrev done : Bytes → ℕ → ℕ → Decoder
  done out dec crc = record (within n m out size dec crc) { finished = true }

  late_line :
      (bs : Bytes) (dec crc : ℕ)
      → All (λ b. b < 256) bs
      → length (encode bs) ≤ m
      → process_line (crlf (encode bs)) (done [] dec crc)
        ≡ flush_output false (done bs (dec + length bs) (crc32 bs crc))
  unfolding process_line yenc_line data_line
  late_line bs dec crc b h = ground (
    arith,
    length-append (encode bs) (13 ∷ 10 ∷ []),
    logical_line-crlf (encode bs),
    starts_longer (encode bs) (codes "part ") (encode-not_control bs),
    starts_longer (encode bs) (codes "end ") (encode-not_control bs),
    decode-encode bs b,
  )

  feed-two :
      (l k out : Bytes) (dec crc : ℕ)
      → NoNewline l
      → NoNewline k
      → feed (crlf l ++ crlf k) (within n m out size dec crc)
        ≡ process_lines (crlf l ∷ crlf k ∷ []) (within n m out size dec crc)
  unfolding feed
  feed-two l k out dec crc h g =
      ground (arith, split_lines-two l k h g, any-append (crlf l) (crlf k) (any-crlf l))

  late_run :
      (bs : Bytes) (dec crc : ℕ)
      → All (λ b. b < 256) bs
      → length (encode bs) ≤ m
      → (left : Bytes) × ((process_lines (crlf (encode bs) ∷ []) (done [] dec crc)).1
          ≡ ok (done left (dec + length bs) (crc32 bs crc)))
        × (joined (process_lines (crlf (encode bs) ∷ []) (done [] dec crc)).0 ++ left ≡ bs)
  unfolding process_lines
  late_run bs dec crc b h =
      let d : Decoder = done bs (dec + length bs) (crc32 bs crc) in
      let (left, f) = flush_output_lem false d positive in
      let (res, same) = joined-pure (flush_output false d) f.result in
      rw (late_line bs dec crc b h) (left, res, ap (λ x. x ++ left) same ∙ f.conserved)

  two_lines :
      (l k out : Bytes) (dec crc : ℕ)
      → IsTrailer m dec crc l
      → pos dec ≤ℤ size
      → (cs : List Bytes) × (joined cs ≡ out)
        × (process_lines (crlf l ∷ k ∷ []) (within n m out size dec crc) ≡ (
          cs ++ (process_lines (k ∷ []) (done [] dec crc)).0,
          (process_lines (k ∷ []) (done [] dec crc)).1,
        ))
  unfolding process_lines
  two_lines l k out dec crc t s =
      let d : Decoder = done out dec crc in
      let (left, f) = flush_output_lem true d positive in
      let empty = forced-empty left f in
      let res : (flush_output true d).1 ≡ ok (done [] dec crc) = ground (arith, f.result, empty) in
      (
        (flush_output true d).0,
        sym (append-nil _) ∙ (rw empty at f.conserved),
        rw (
          trailer_process n m positive size l out dec crc t s,
          bind-ok (flush_output true d) (λ d. process_lines (k ∷ []) d) (done [] dec crc) res,
        ),
      )

  refused :
      (l : Bytes) (dec crc : ℕ)
      → feed (crlf l) (done [] dec crc)
        ≡ raise (protocol_error "Unexpected data after yEnc trailer")
  unfolding feed
  refused [] dec crc = refl
  refused (c ∷ l) dec crc = refl

  -- Within an article whose trailer is in order, an encoded line that follows the trailer in the
  -- same chunk is accepted and its bytes join the output; the same line in a chunk of its own,
  -- after the trailer, is refused.
  pub feed-after_trailer :
      (l bs out : Bytes) (dec crc : ℕ)
      → IsTrailer m dec crc l
      → pos dec ≤ℤ size
      → All (λ b. b < 256) bs
      → length (encode bs) ≤ m
      → ((left : Bytes) × ((feed (crlf l ++ crlf (encode bs)) (within n m out size dec crc)).1
            ≡ ok (done left (dec + length bs) (crc32 bs crc)))
          × (joined (feed (crlf l ++ crlf (encode bs)) (within n m out size dec crc)).0 ++ left
              ≡ out ++ bs))
        × (feed (crlf (encode bs)) (done [] dec crc)
            ≡ raise (protocol_error "Unexpected data after yEnc trailer"))
  feed-after_trailer l bs out dec crc t s b h =
      let k = crlf (encode bs) in
      let (cs, all_out, run) = two_lines l k out dec crc t s in
      let (left, res, kept) = late_run bs dec crc b h in
      let both =
        feed-two l (encode bs) out dec crc t.one_line (no_newline (encode bs) (encode-clean bs)) in
      (
        (
          left,
          ground (arith, both, run, res),
          rw (both, run, joined-append, append_assoc, kept, all_out),
        ),
        refused (encode bs) dec crc,
      )
