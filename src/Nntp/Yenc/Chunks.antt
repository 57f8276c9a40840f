-- ===== src/Nntp/Yenc/Chunks.antt =====
-- `_flush_output` of `StreamingYencDecoder`.
use lore_x.Prelude.{
  ℕ, zero, suc, ◌<◌, ◌≤◌, ◌≡◌, refl, ◌∙◌, sym, Bool, true, false, not, ◌&&◌, ◌||◌, List, [], ◌∷◌,
  ◌++◌, if◌then◌else◌, arith, All, length, drop, leb, Bool-cases, inl, inr, append_assoc,
  append-nil, take-append-drop, length-take, length-drop,
}
use lore_x.Result.{ok}
use lore_x.Text.{is_empty}
use lore_x.Nntp.Stream.{Bytes, Gen, joined}
use lore_x.Nntp.Yenc.{Decoder, full_chunks, flush_output}

-- With fuel for every byte: the chunks and the rest are the output, each chunk is full, and what is
-- left does not fill one.
full_chunks_lem :
    (fuel n : ℕ) (output : Bytes)
    → 0 < n
    → length output ≤ fuel
    → (joined (full_chunks fuel n output).0 ++ (full_chunks fuel n output).1 ≡ output)
      × All (λ c. length c ≡ n) (full_chunks fuel n output).0
      × (length (full_chunks fuel n output).1 < n)
unfolding full_chunks
full_chunks_lem zero n [] h f = (refl, tt, h)
full_chunks_lem zero n (b ∷ bs) h f = absurd (omega arith)
full_chunks_lem (suc fuel) n output h f = elim (Bool-cases (leb n (length output))) [
  | inl full ↦
      let (kept, size, short) =
        full_chunks_lem fuel n (drop n output) h (omega (arith, length-drop n output)) in
      rw full (
        rw append_assoc (rw kept (take-append-drop n output)),
        (ground (arith, length-take n output), size),
        short,
      )
  | inr part ↦ rw part (refl, tt, ground arith)
]

pub joined-append : (cs ds : List Bytes) → joined (cs ++ ds) ≡ joined cs ++ joined ds
joined-append [] ds = refl
joined-append (c ∷ cs) ds = rw (joined-append cs ds) (sym (append_assoc c (joined cs) (joined ds)))

abbrev Sized : ℕ → List Bytes → Type 0
Sized n cs = All (λ c. (0 < length c) × (length c ≤ n)) cs

Sized-full : (n : ℕ) (cs : List Bytes) → 0 < n → All (λ c. length c ≡ n) cs → Sized n cs
Sized-full n [] h s = tt
Sized-full n (c ∷ cs) h s = ((omega (arith, s.0), omega (arith, s.0)), Sized-full n cs h s.1)

Sized-last :
    (n : ℕ) (cs : List Bytes) (c : Bytes)
    → Sized n cs
    → 0 < length c
    → length c ≤ n
    → Sized n (cs ++ c ∷ [])
Sized-last n [] c s p q = ((p, q), tt)
Sized-last n (b ∷ cs) c s p q = (s.0, Sized-last n cs c s.1 p q)

joined-last : (cs : List Bytes) (c : Bytes) → joined (cs ++ c ∷ []) ≡ joined cs ++ c
joined-last cs c = rw (joined-append cs (c ∷ [])) (rw append-nil)

-- What a flush hands on, and what it keeps.
pub record Flushed (force : Bool) (d : Decoder) (r : Gen Decoder) (left : Bytes) : Type 0 where
  pub result : r.1 ≡ ok (record d { output = left })
  pub conserved : joined r.0 ++ left ≡ d.output
  pub sized : All (λ c. (0 < length c) × (length c ≤ d.output_chunk_size)) r.0
  pub short : length left < d.output_chunk_size
  pub emptied : (not force || is_empty left) ≡ true

Flushed-parts :
    (force : Bool) (d : Decoder) (cs : List Bytes) (left : Bytes)
    → 0 < d.output_chunk_size
    → joined cs ++ left ≡ d.output
    → All (λ c. length c ≡ d.output_chunk_size) cs
    → length left < d.output_chunk_size
    → (kept : Bytes) × Flushed force d
        (if force && not (is_empty left)
          then (cs ++ left ∷ [], ok (record d { output = [] }))
          else (cs, ok (record d { output = left })))
        kept
Flushed-parts false d cs left h j s l = (
  left,
  record { result = refl; conserved = j; sized = Sized-full _ cs h s; short = l; emptied = refl },
)
Flushed-parts true d cs [] h j s l = (
  [],
  record { result = refl; conserved = j; sized = Sized-full _ cs h s; short = l; emptied = refl },
)
Flushed-parts true d cs (b ∷ bs) h j s l = (
  [],
  record {
    result = refl;
    conserved = rw append-nil (joined-last cs (b ∷ bs) ∙ j);
    sized = Sized-last _ cs (b ∷ bs) (Sized-full _ cs h s) (omega arith) (omega arith);
    short = h;
    emptied = refl;
  },
)

pub forced-empty :
    {d : Decoder} {r : Gen Decoder} (left : Bytes) → Flushed true d r left → left ≡ []
forced-empty [] f = refl
forced-empty (b ∷ left) f = absurd (ground (arith, f.emptied))

-- A flush of a decoder with a positive chunk size hands on every byte of the output in order,
-- divided into chunks of at most that size, none empty; an unforced flush keeps less than one chunk
-- back, and a forced one keeps nothing. It changes nothing of the decoder but the output.
pub flush_output_lem :
    (force : Bool) (d : Decoder)
    → 0 < d.output_chunk_size
    → (left : Bytes) × Flushed force d (flush_output force d) left
unfolding flush_output
flush_output_lem force d h =
    let (kept, size, short) =
      full_chunks_lem (length d.output) d.output_chunk_size d.output h (omega arith) in
    let r = full_chunks (length d.output) d.output_chunk_size d.output in
    Flushed-parts force d r.0 r.1 h kept size short
