-- ===== src/Nntp/Yenc/Encoding.antt =====
-- The decoding of a data line against the encoding that the yEnc format prescribes.
use lore_x.Prelude.{
  ℕ, ◌+◌, ◌%◌, ◌<◌, ◌≡◌, ◌≢◌, refl, Bool, false, ◌||◌, some, [], ◌∷◌, ◌++◌, ◌==◌, if◌then◌else◌,
  arith, All, Bool-cases, inl, inr,
}
use lore_x.Text.{codes, starts_with}
use lore_x.Nntp.Stream.{Bytes}
use lore_x.Nntp.Yenc.{decode_bytes}

-- NUL, LF, CR and `=` have to be escaped.
abbrev pub critical : ℕ → Bool
critical c = (c == 0) || (c == 10) || (c == 13) || (c == 61)

-- One byte of the payload on a data line.
abbrev pub encode_byte : ℕ → Bytes
encode_byte b = let c = (b + 42) % 256 in if critical c then 61 ∷ ((c + 64) % 256) ∷ [] else c ∷ []

unfoldable pub encode : Bytes → Bytes
encode [] = []
encode (b ∷ bs) = encode_byte b ++ encode bs

decode-encode_byte :
    (b : ℕ) (rest out : Bytes)
    → b < 256
    → decode_bytes false rest ≡ some out
    → decode_bytes false (encode_byte b ++ rest) ≡ some (b ∷ out)
unfolding decode_bytes
decode-encode_byte b rest out h e = ground arith

-- Whatever the payload, its encoding is decoded to it.
pub decode-encode : (bs : Bytes) → All (λ b. b < 256) bs → decode_bytes false (encode bs) ≡ some bs
unfolding encode
decode-encode [] h = unfold decode_bytes in refl
decode-encode (b ∷ bs) h = decode-encode_byte b (encode bs) bs h.0 (decode-encode bs h.1)

abbrev IsPrintable : ℕ → Type 0
IsPrintable c = (c ≢ 10) × (c ≢ 13)

encode_byte-clean :
    (b : ℕ) (rest : Bytes) → All IsPrintable rest → All IsPrintable (encode_byte b ++ rest)
encode_byte-clean b rest h = elim (Bool-cases (critical ((b + 42) % 256))) [
  | inl escaped ↦ rw escaped (omega arith, (ground arith, h))
  | inr literal ↦ rw literal (ground arith, h)
]

-- An encoded payload holds no line end, so that it stays one line.
pub encode-clean : (bs : Bytes) → All IsPrintable (encode bs)
unfolding encode
encode-clean [] = tt
encode-clean (b ∷ bs) = encode_byte-clean b (encode bs) (encode-clean bs)

-- No encoded payload reads as a control line.
pub encode-not_control : (bs : Bytes) → starts_with (codes "=y") (encode bs) ≡ false
unfolding encode starts_with
encode-not_control [] = refl
encode-not_control (b ∷ bs) = ground arith

pub starts_longer :
    (s : Bytes) (p : Bytes)
    → starts_with (codes "=y") s ≡ false
    → starts_with (codes "=y" ++ p) s ≡ false
unfolding starts_with
starts_longer [] p h = refl
starts_longer (a ∷ []) p h = ground arith
starts_longer (a ∷ b ∷ s) p h = ground arith
