-- ===== src/Services/Search/Score.antt =====
-- The scores of on-demand search (services/on_demand_search.py). A similarity is the fraction that the
-- code computes as a float; `difflib.SequenceMatcher.ratio` is a parameter.
use lore_x.Prelude.{
  ℕ, suc, ◌*◌, ◌/◌, ◌%◌, min, max, Bool, true, false, not, ◌||◌, ◌&&◌, Option, none, some, List, [],
  ◌∷◌, ◌++◌, any, drop, length, ltb, leb, ◌==◌, if◌then◌else◌, ◌=?◌, nat_eq, list_eq,
}
use lore_x.Prelude.Int.{ℤ, pos, ◌+ℤ◌, ◌-ℤ◌, min_ℤ, max_ℤ, leb_ℤ}
use lore_x.Text.{Text, codes, is_empty, casefold, has_part, starts_with, rpartition}
use lore_x.Domain.{join}
use lore_x.Services.Search.{BookSearchRequest, SearchCandidate, or_empty, is_token_char, clean}

-- num / den, of a positive den.
pub record Ratio : Type 0 where
  pub num : ℕ
  pub den : ℕ

-- `a >= percent / 100`
abbrev pub at_least : ℕ → Ratio → Bool
at_least percent a = leb (percent * a.den) (100 * a.num)

unfoldable pub max_ratio : Ratio → Ratio → Ratio
max_ratio a b = if ltb (a.num * b.den) (b.num * a.den) then b else a

unfoldable pub max_ratios : Ratio → List Ratio → Ratio
unfolding max_ratio
max_ratios a [] = a
max_ratios a (b ∷ bs) = max_ratios (max_ratio a b) bs

abbrev pub nothing : Ratio
nothing = record { num = 0; den = 1 }

abbrev pub all_of_it : Ratio
all_of_it = record { num = 1; den = 1 }

-- `round(a * weight)`: half goes to the even number.
unfoldable pub round_weighted : ℕ → Ratio → ℕ
round_weighted weight a =
    let q = (a.num * weight) / a.den in
    let r = (a.num * weight) % a.den in
    if ltb (2 * r) a.den
    then q
    else if ltb a.den (2 * r)
    then suc q
    else if q % 2 == 0
    then q
    else suc q

abbrev pub audio_extensions : List Text
audio_extensions =
    codes "m4b"
    ∷ codes "m4a"
    ∷ codes "mp3"
    ∷ codes "flac"
    ∷ codes "aac"
    ∷ codes "ogg"
    ∷ codes "opus"
    ∷ []

abbrev pub negative_video_tokens : List Text
negative_video_tokens =
    codes "2160p"
    ∷ codes "1080p"
    ∷ codes "720p"
    ∷ codes "bluray"
    ∷ codes "blu-ray"
    ∷ codes "web-dl"
    ∷ codes "webrip"
    ∷ codes "hdtv"
    ∷ codes "x264"
    ∷ codes "x265"
    ∷ codes "hevc"
    ∷ codes "mkv"
    ∷ codes "avi"
    ∷ codes "mp4"
    ∷ []

-- `filename.rsplit(".", 1)[-1].casefold() if "." in filename else ""`
unfoldable pub file_suffix : Text → Text
file_suffix filename = elim (rpartition b'.' filename) [
  | none ↦ []
  | some (stem, suffix) ↦ casefold suffix
]

-- No token character stands next.
abbrev pub at_boundary : Text → Bool
at_boundary [] = true
at_boundary (c ∷ s) = not (is_token_char c)

-- `re.search` of the word between two boundaries; the flag tells whether one is here.
unfoldable pub has_word : Text → Bool → Text → Bool
unfolding is_token_char
has_word word here [] = false
has_word word here (c ∷ s) =
    (here && starts_with word (c ∷ s) && at_boundary (drop (length word) (c ∷ s)))
    || has_word word (not (is_token_char c)) s

unfoldable pub audio_evidence : SearchCandidate → Bool
unfolding file_suffix has_word
audio_evidence c =
    any (λ e. e =? casefold c.format) audio_extensions
    || any (λ f. any (λ e. e =? file_suffix f) audio_extensions) c.files
    || any (λ e. has_word e true (casefold c.source_subject)) audio_extensions

unfoldable pub negative_video_evidence : SearchCandidate → Bool
negative_video_evidence c =
    any (λ t. has_part t (casefold (join (codes " ") (c.title ∷ c.source_subject ∷ c.files))))
      negative_video_tokens

pub data Bucket : Type 0 where
  likely possible hidden : Bucket

pub record ScoredCandidate : Type 0 where
  pub candidate : SearchCandidate
  pub score : ℤ
  pub bucket : Bucket
  pub reasons : List Text

-- What one test adds to the score and to the reasons.
abbrev pub Evidence : Type 0
Evidence = ℤ × List Text

abbrev pub no_evidence : Evidence
no_evidence = (pos 0, [])

unfoldable pub bucket_of : ℤ → Bucket
bucket_of score =
    if leb_ℤ (pos 80) score then likely else if leb_ℤ (pos 60) score then possible else hidden

-- The audio formats, the completion and the signs of a video.
unfoldable pub audio_points : SearchCandidate → Evidence
unfolding audio_evidence
audio_points c = if audio_evidence c then (pos 15, codes "audio" ∷ []) else (pos 0 -ℤ pos 25, [])

unfoldable pub completion_points : SearchCandidate → Evidence
completion_points c =
    if leb 980 c.completion
    then (pos 5, codes "complete" ∷ [])
    else if ltb c.completion 750
    then (pos 0 -ℤ pos 12, [])
    else no_evidence

unfoldable pub video_points : SearchCandidate → Evidence
unfolding negative_video_evidence
video_points c =
    if negative_video_evidence c
    then (pos 0 -ℤ pos 60, codes "video-negative" ∷ [])
    else no_evidence

module _ (ratio : Text → Text → Ratio) where
  -- `_similarity` of two texts that have been cleaned
  unfoldable pub clean_similarity : Text → Text → Ratio
  unfolding max_ratio
  clean_similarity a b =
      if is_empty a || is_empty b
      then nothing
      else if a =? b
      then all_of_it
      else if has_part a b || has_part b a
      then max_ratio (record { num = 86; den = 100 })
          (record { num = min (length a) (length b); den = max (length a) (length b) })
      else ratio a b

  unfoldable pub similarity : Text → Option Text → Ratio
  unfolding clean_similarity
  similarity left right = clean_similarity (clean (some left)) (clean right)

  unfoldable pub similarities : Text → List Text → List Ratio
  unfolding similarity
  similarities left [] = []
  similarities left (f ∷ fs) = similarity left (some f) ∷ similarities left fs

  unfoldable pub title_similarity : BookSearchRequest → SearchCandidate → Ratio
  unfolding similarities max_ratios
  title_similarity r c =
      max_ratios (similarity r.title (some c.title))
        (similarity r.title (some c.source_subject) ∷ similarities r.title c.files)

  unfoldable pub author_points : BookSearchRequest → SearchCandidate → Evidence
  unfolding similarity max_ratios
  author_points r c =
      if is_empty (or_empty r.author)
      then no_evidence
      else let author = or_empty r.author in
        let best =
          max_ratios (similarity author c.author)
            (similarity author (some c.title) ∷ similarity author (some c.source_subject) ∷ []) in
        if at_least 72 best
        then (pos 25, codes "author" ∷ [])
        else if at_least 50 best
        then (pos 10, [])
        else no_evidence

  unfoldable pub narrator_points : BookSearchRequest → SearchCandidate → Evidence
  unfolding similarity max_ratios
  narrator_points r c =
      if is_empty (or_empty r.narrator)
      then no_evidence
      else let narrator = or_empty r.narrator in
        let best =
          max_ratios (similarity narrator c.narrator) (
            similarity narrator (some c.title)
            ∷ similarity narrator (some c.source_subject)
            ∷ []) in
        if at_least 72 best then (pos 10, codes "narrator" ∷ []) else no_evidence

  unfoldable pub series_points : BookSearchRequest → SearchCandidate → Evidence
  unfolding similarity max_ratios
  series_points r c =
      if is_empty (or_empty r.series)
      then no_evidence
      else let series = or_empty r.series in
        let best =
          max_ratios (similarity series (some c.title))
            (similarity series (some c.source_subject) ∷ []) in
        if at_least 72 best then (pos 8, codes "series" ∷ []) else no_evidence

  unfoldable pub title_points : BookSearchRequest → SearchCandidate → Evidence
  unfolding title_similarity round_weighted
  title_points r c =
      let best = title_similarity r c in
      (pos (round_weighted 55 best), if at_least 68 best then codes "title" ∷ [] else [])

  unfoldable pub raw_score : BookSearchRequest → SearchCandidate → ℤ
  unfolding title_points author_points narrator_points series_points audio_points completion_points
      video_points
  raw_score r c =
      (title_points r c).0
      +ℤ (author_points r c).0
      +ℤ (narrator_points r c).0
      +ℤ (series_points r c).0
      +ℤ (audio_points c).0
      +ℤ (completion_points c).0
      +ℤ (video_points c).0

  unfoldable pub score_candidate : BookSearchRequest → SearchCandidate → ScoredCandidate
  unfolding raw_score bucket_of
  score_candidate r c =
      let score = max_ℤ (pos 0) (min_ℤ (pos 100) (raw_score r c)) in
      record {
        candidate = c;
        score = score;
        bucket = bucket_of score;
        reasons =
            (title_points r c).1
            ++ ((author_points r c).1
                ++ ((narrator_points r c).1
                    ++ ((series_points r c).1
                        ++ ((audio_points c).1
                            ++ ((completion_points c).1 ++ (video_points c).1)))));
      }
