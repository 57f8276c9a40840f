-- ===== src/Indexer/Subject.antt =====
-- The subject parser of backend/lorex/indexer/grouping.py, its two patterns included.
pub mod Bounds
pub mod Roundtrip
mod Tests
use lore_x.Prelude.{
  ℕ, suc, ◌+◌, ◌-◌, ◌≡◌, refl, Bool, true, false, not, ◌&&◌, ◌||◌, Option, none, some, List, [],
  ◌∷◌, ◌++◌, ltb, ◌==◌, if◌then◌else◌, length, all, take, ◌=?◌, nat_eq, list_eq,
}
use lore_x.Result.{Result, ok, err, value_error}
use lore_x.Text.{
  Text, codes, is_space, is_decimal, is_digit, is_empty, strip, rstrip, lower, ends_with, partition,
  rpartition, drop_last, int_of_digits, span, has_part,
}

-- A piece of a pattern: what is left of the text after a match of the piece.
infixl 5 ◌>>=◌
abbrev ◌>>=◌ : {A B : Type 0} → Option A → (A → Option B) → Option B
none >>= f = none
some a >>= f = f a

-- A literal of a pattern, in any case.
unfoldable pub lit : Text → Text → Option Text
lit [] s = some s
lit (p ∷ ps) [] = none
lit (p ∷ ps) (c ∷ s) = let rest = lit ps s in if lower c == p then rest else none

-- `\d+`, with the digits.
unfoldable pub digits1 : Text → Option (Text × Text)
digits1 s = let r = span is_decimal s in if is_empty r.0 then none else some r

-- `\s+`
unfoldable pub spaces1 : Text → Option Text
spaces1 s = let r = span is_space s in if is_empty r.0 then none else some r.1

abbrev is_end : Option Text → Bool
is_end (some []) = true
is_end _ = false

-- `\.r\d{2,3}` and `\.7z\.\d{3}` end in a run of so many digits.
abbrev digit_run : ℕ → ℕ → Option Text → Bool
digit_run lo hi none = false
digit_run lo hi (some s) = all is_decimal s && not (ltb (length s) lo) && not (ltb hi (length s))

-- `_ARCHIVE_SUFFIX_RE`, matched from here to the end of the text.
unfoldable pub is_archive_suffix : Text → Bool
unfolding lit digits1
is_archive_suffix s =
    is_end (do
      v ← lit (codes ".vol") s
      d ← digits1 v
      p ← lit (codes "+") d.1
      e ← digits1 p
      lit (codes ".par2") e.1)
    || is_end (lit (codes ".par2") s)
    || is_end (do v ← lit (codes ".part") s; d ← digits1 v; lit (codes ".rar") d.1)
    || digit_run 2 3 (lit (codes ".r") s)
    || is_end (lit (codes ".rar") s)
    || digit_run 3 3 (lit (codes ".7z.") s)
    || is_end (lit (codes ".7z") s)
    || is_end (lit (codes ".zip") s)

-- `match.start()` of the leftmost match.
unfoldable pub suffix_start : Text → Option ℕ
unfolding is_archive_suffix
suffix_start [] = none
suffix_start (c ∷ s) =
    let rest = suffix_start s in
    if is_archive_suffix (c ∷ s)
    then some 0
    else (elim rest [ none ↦ none | some n ↦ some (suc n) ])

unfoldable pub archive_release_stem : Text → Option Text
unfolding suffix_start
archive_release_stem filename = elim (suffix_start (strip filename)) [
  | none ↦ none
  | some n ↦
      let root = strip (take n filename) in
      if is_empty root then none else some (root ++ codes ".archive")
]

-- `\s+\((\d+)\s*/\s*(\d+)\)`
unfoldable pub counter : Text → Option (Text × Text × Text)
unfolding lit digits1 spaces1
counter s = do
  a ← spaces1 s
  b ← lit (codes "(") a
  p ← digits1 b
  c ← lit (codes "/") (span is_space p.1).1
  t ← digits1 (span is_space c).1
  e ← lit (codes ")") t.1
  some (p.0, t.0, e)

-- What follows the closing quote: `\s+yenc(counter)?\s*$`, with the counter's two groups.
unfoldable pub yenc_tail : Text → Option (Option (Text × Text))
unfolding counter
yenc_tail s = do
  a ← spaces1 s
  r ← lit (codes "yenc") a
  let plain = if all is_space r then some none else none in
      elim (counter r) [
        | none ↦ plain
        | some (p, t, e) ↦ if all is_space e then some (some (p, t)) else plain
      ]

-- `_YENC_QUOTED_RE` at a place that holds a quote: the file name and the counter.
unfoldable pub yenc_quoted : Text → Option (Text × Option (Text × Text))
unfolding yenc_tail
yenc_quoted s =
    let (name, rest) = span (λ c. not (c == b'"')) s in
    if is_empty name then none else (do t ← lit (codes "\"") rest; m ← yenc_tail t; some (name, m))

-- `_YENC_QUOTED_RE.search`: the leftmost match.
unfoldable pub yenc_search : Text → Option (Text × Option (Text × Text))
unfolding yenc_quoted
yenc_search [] = none
yenc_search (c ∷ s) =
    let rest = yenc_search s in
    if c == b'"' then (elim (yenc_quoted s) [ none ↦ rest | some m ↦ some m ]) else rest

pub record Split : Type 0 where
  pub stem : Text
  pub part_number : Option ℕ
  pub total_parts : Option ℕ

abbrev pub unnumbered : Text → Split
unnumbered stem = record { stem = stem; part_number = none; total_parts = none }

abbrev pub numbered : Text → ℕ → ℕ → Split
numbered stem p t = record { stem = stem; part_number = some p; total_parts = some t }

-- `int(...)`, which raises.
unfoldable pub to_int : Text → Result ℕ
to_int s = elim (int_of_digits s) [
  | none ↦ err (value_error "invalid literal for int()")
  | some n ↦ ok n
]

-- The two conversions and the test of the range that both forms of a counter share.
unfoldable pub checked_parts : Text → Text → Text → Result Split
unfolding to_int
checked_parts stem left right = elim (to_int left) [
  | err e ↦ err e
  | ok p ↦ elim (to_int right) [
    | err e ↦ err e
    | ok t ↦ ok (if ltb p 1 || ltb t 1 || ltb t p then unnumbered stem else numbered stem p t)
  ]
]

-- The branch of a quoted yEnc name.
unfoldable pub split_yenc : Text → Option (Text × Text) → Result Split
unfolding checked_parts archive_release_stem
split_yenc filename counted = elim (archive_release_stem filename) [
  | some stem ↦ ok (unnumbered stem)
  | none ↦ elim counted [
    | none ↦ ok (unnumbered filename)
    | some (p, t) ↦ checked_parts filename p t
  ]
]

-- The branch of a `[part/total]` suffix; `stripped` is the subject without trailing space.
unfoldable pub split_bracket : Text → Text → Result Split
unfolding checked_parts
split_bracket subject stripped = elim (rpartition b'[' stripped) [
  | none ↦ ok (unnumbered (strip subject))
  | some (before, after) ↦ elim (partition b'/' (drop_last after)) [
    | none ↦ ok (unnumbered (strip subject))
    | some (left, right) ↦
        if has_part (codes "/") right || not (is_digit (strip left)) || not (is_digit (strip right))
        then ok (unnumbered (strip subject))
        else checked_parts (rstrip before) (strip left) (strip right)
  ]
]

unfoldable pub split_part_suffix : Text → Result Split
unfolding yenc_search split_yenc split_bracket
split_part_suffix subject =
    let stripped = rstrip subject in
    elim (yenc_search stripped) [
      | some (name, counted) ↦ split_yenc (strip name) counted
      | none ↦
          if ends_with (codes "]") stripped
          then split_bracket subject stripped
          else ok (unnumbered (strip subject))
    ]

unfoldable pub normalize_subject : Text → Result Text
unfolding split_part_suffix
normalize_subject subject = elim (split_part_suffix subject) [ err e ↦ err e | ok s ↦ ok s.stem ]
