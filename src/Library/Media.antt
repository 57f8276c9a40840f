-- ===== src/Library/Media.antt =====
-- backend/lorex/library/media.py, and the names of library/importer.py.
use lore_x.Prelude.{
  ℕ, Bool, false, not, ◌&&◌, List, [], ◌∷◌, any, if◌then◌else◌, ◌==◌, ◌=?◌, nat_eq, list_eq,
}
use lore_x.Text.{Text, codes, is_empty, strip, casefold}

pub data MediaAction : Type 0 where
  preserve remux transcode : MediaAction

-- The duration is read by nothing.
pub record MediaProbe : Type 0 where
  pub container : Text
  pub audio_codec : Text
  pub valid : Bool

-- `value.split(",")`
unfoldable pub split_commas : Text → Text × List Text
split_commas [] = ([], [])
split_commas (c ∷ s) =
    let (first, rest) = split_commas s in if c == 44 then ([], first ∷ rest) else (c ∷ first, rest)

abbrev pub names_one : List Text → Text → Bool
names_one names part = any (λ n. n =? casefold (strip part)) names

unfoldable pub choose_media_action : MediaProbe → MediaAction
unfolding split_commas
choose_media_action probe =
    let (first, rest) = split_commas probe.container in
    let is_aac = any (λ c. c =? casefold probe.audio_codec) (codes "aac" ∷ codes "alac" ∷ []) in
    let is_mp4 = any (names_one (codes "mov" ∷ codes "mp4" ∷ codes "m4a" ∷ [])) (first ∷ rest) in
    if not probe.valid
    then transcode
    else if is_mp4 && is_aac
    then preserve
    else if is_aac
    then remux
    else transcode

-- `[\\/:*?"<>|]`
abbrev pub is_unsafe : ℕ → Bool
is_unsafe c = any (λ d. d == c) (codes "\\/:*?\"<>|")

-- `_UNSAFE.sub("-", value)`; the flag tells whether an unsafe run is going on.
unfoldable pub replace_unsafe : Bool → Text → Text
replace_unsafe within [] = []
replace_unsafe within (c ∷ s) =
    let later = replace_unsafe (is_unsafe c) s in
    if is_unsafe c then (if within then later else 45 ∷ later) else c ∷ later

unfoldable pub lstrip_dots : Text → Text
lstrip_dots [] = []
lstrip_dots (c ∷ s) = if c == 46 then lstrip_dots s else c ∷ s

unfoldable pub rstrip_dots : Text → Text
rstrip_dots [] = []
rstrip_dots (c ∷ s) =
    let rest = rstrip_dots s in if is_empty rest && (c == 46) then [] else c ∷ rest

-- `.strip(".")`
unfoldable pub strip_dots : Text → Text
unfolding lstrip_dots rstrip_dots
strip_dots s = lstrip_dots (rstrip_dots s)

unfoldable pub sanitize_component : Text → Text
unfolding replace_unsafe strip_dots
sanitize_component value =
    let cleaned = strip_dots (strip (replace_unsafe false value)) in
    if is_empty cleaned then codes "Unknown" else cleaned
