-- ===== src/Services/Search/Bounds.antt =====
-- The scores of an on-demand search (services/on_demand_search.py) and the buckets they fall into.
use lore_x.Prelude.{
  ℕ, ◌*◌, ◌≤◌, ◌<◌, min, max, ◌≡◌, ◌≢◌, true, false, ◌||◌, List, [], ◌∷◌, All, length, arith, ltb,
  ◌=?◌, Bool-cases, inl, inr, some, list_eq, nat_eq,
}
use lore_x.Prelude.Int.{ℤ, pos, negsuc, ◌-ℤ◌, ◌≤ℤ◌, min_ℤ, max_ℤ, int_laws}
use lore_x.Prelude.Division.{div_bound, mod_bound, mul_mono}
use lore_x.Text.{Text, is_empty, has_part}
use lore_x.Services.Search.{BookSearchRequest, SearchCandidate, clean}
use lore_x.Services.Search.Score.{
  Ratio, likely, hidden, max_ratio, max_ratios, round_weighted, audio_evidence,
  negative_video_evidence, bucket_of, audio_points, completion_points, video_points,
  clean_similarity, similarity, similarities, title_similarity, author_points, narrator_points,
  series_points, title_points, raw_score, score_candidate,
}

-- A fraction from 0 to 1.
abbrev pub IsShare : Ratio → Type 0
IsShare a = (a.num ≤ a.den) × (0 < a.den)

round_weighted_bound : (w : ℕ) (a : Ratio) → IsShare a → round_weighted w a ≤ w
unfolding round_weighted
round_weighted_bound w a h =
    let most : a.num * w ≤ w * a.den = omega (arith, mul_mono a.num a.den w h.0) in
    ground (arith, div_bound w (a.num * w) a.den h.1 most, mod_bound w (a.num * w) a.den h.1 most)

max_ratio-IsShare : (a b : Ratio) → IsShare a → IsShare b → IsShare (max_ratio a b)
unfolding max_ratio
max_ratio-IsShare a b h k = elim (Bool-cases (ltb (a.num * b.den) (b.num * a.den))) [
  | inl more ↦ rw more k
  | inr less ↦ rw less h
]

max_ratios-IsShare :
    (a : Ratio) (bs : List Ratio) → IsShare a → All IsShare bs → IsShare (max_ratios a bs)
unfolding max_ratios
max_ratios-IsShare a [] h hs = h
max_ratios-IsShare a (b ∷ bs) h hs =
    max_ratios-IsShare (max_ratio a b) bs (max_ratio-IsShare a b h hs.0) hs.1

lengths-IsShare :
    (a b : Text)
    → is_empty a || is_empty b ≡ false
    → IsShare (record { num = min (length a) (length b); den = max (length a) (length b) })
lengths-IsShare [] b h = cc
lengths-IsShare (c ∷ a) b h = omega arith

module _ (ratio : Text → Text → Ratio) (shares : (a b : Text) → IsShare (ratio a b)) where
  clean_similarity-IsShare : (a b : Text) → IsShare (clean_similarity ratio a b)
  unfolding clean_similarity
  clean_similarity-IsShare a b = elim (Bool-cases (is_empty a || is_empty b)) [
    | inl none_there ↦ rw none_there (omega arith, omega arith)
    | inr there ↦ rw there (elim (Bool-cases (a =? b)) [
      | inl same ↦ rw same (omega arith, omega arith)
      | inr other ↦ rw other (elim (Bool-cases (has_part a b || has_part b a)) [
        | inl inside ↦
            rw inside (max_ratio-IsShare _ _ (omega arith, omega arith) (lengths-IsShare a b there))
        | inr apart ↦ rw apart (shares a b)
      ])
    ])
  ]

  similarities-IsShare : (left : Text) (fs : List Text) → All IsShare (similarities ratio left fs)
  unfolding similarities similarity
  similarities-IsShare left [] = tt
  similarities-IsShare left (f ∷ fs) =
      (clean_similarity-IsShare (clean (some left)) (clean (some f)), similarities-IsShare left fs)

  title_points_bound :
      (r : BookSearchRequest) (c : SearchCandidate) → (title_points ratio r c).0 ≤ℤ pos 55
  unfolding title_points title_similarity similarity
  title_points_bound r c =
      let title : Text = clean (some r.title) in
      let share : IsShare (title_similarity ratio r c) =
        max_ratios-IsShare (similarity ratio r.title (some c.title))
          (similarity ratio r.title (some c.source_subject) ∷ similarities ratio r.title c.files)
          (clean_similarity-IsShare title (clean (some c.title)))
          (
            clean_similarity-IsShare title (clean (some c.source_subject)),
            similarities-IsShare r.title c.files,
          ) in
      omega (arith, round_weighted_bound 55 (title_similarity ratio r c) share)

author_points_bound :
    (ratio : Text → Text → Ratio) (r : BookSearchRequest) (c : SearchCandidate)
    → (author_points ratio r c).0 ≤ℤ pos 25
unfolding author_points
author_points_bound ratio r c = ground arith

narrator_points_bound :
    (ratio : Text → Text → Ratio) (r : BookSearchRequest) (c : SearchCandidate)
    → (narrator_points ratio r c).0 ≤ℤ pos 10
unfolding narrator_points
narrator_points_bound ratio r c = ground arith

series_points_bound :
    (ratio : Text → Text → Ratio) (r : BookSearchRequest) (c : SearchCandidate)
    → (series_points ratio r c).0 ≤ℤ pos 8
unfolding series_points
series_points_bound ratio r c = ground arith

audio_points_bound : (c : SearchCandidate) → (audio_points c).0 ≤ℤ pos 15
unfolding audio_points ◌-ℤ◌
audio_points_bound c = ground arith

audio_points_none :
    (c : SearchCandidate) → audio_evidence c ≡ false → (audio_points c).0 ≤ℤ negsuc 24
unfolding audio_points ◌-ℤ◌
audio_points_none c h = rw h (omega arith)

completion_points_bound : (c : SearchCandidate) → (completion_points c).0 ≤ℤ pos 5
unfolding completion_points ◌-ℤ◌
completion_points_bound c = ground arith

video_points_bound : (c : SearchCandidate) → (video_points c).0 ≤ℤ pos 0
unfolding video_points ◌-ℤ◌
video_points_bound c = ground arith

video_points_found :
    (c : SearchCandidate) → negative_video_evidence c ≡ true → (video_points c).0 ≤ℤ negsuc 59
unfolding video_points ◌-ℤ◌
video_points_found c h = rw h (omega arith)

bucket_of_hidden : (s : ℤ) → s ≤ℤ pos 59 → bucket_of (max_ℤ (pos 0) (min_ℤ (pos 100) s)) ≡ hidden
unfolding bucket_of max_ℤ min_ℤ
bucket_of_hidden s h = ground arith

bucket_of_not_likely :
    (s : ℤ) → s ≤ℤ pos 79 → bucket_of (max_ℤ (pos 0) (min_ℤ (pos 100) s)) ≢ likely
unfolding bucket_of max_ℤ min_ℤ
bucket_of_not_likely s h = ground arith

pub score_bounds :
    (s : ℤ)
    → (pos 0 ≤ℤ max_ℤ (pos 0) (min_ℤ (pos 100) s)) × (max_ℤ (pos 0) (min_ℤ (pos 100) s) ≤ℤ pos 100)
unfolding max_ℤ min_ℤ
score_bounds s = ground arith

module _ (ratio : Text → Text → Ratio) (shares : (a b : Text) → IsShare (ratio a b)) where
  -- Where similarities are fractions from 0 to 1, a candidate that shows signs of a video is hidden,
  -- however well the rest of it matches.
  pub score_candidate-video :
      (r : BookSearchRequest) (c : SearchCandidate)
      → negative_video_evidence c ≡ true
      → (score_candidate ratio r c).bucket ≡ hidden
  unfolding score_candidate raw_score
  score_candidate-video r c video = bucket_of_hidden (raw_score ratio r c) (
      omega (
        int_laws,
        title_points_bound ratio shares r c,
        author_points_bound ratio r c,
        narrator_points_bound ratio r c,
        series_points_bound ratio r c,
        audio_points_bound c,
        completion_points_bound c,
        video_points_found c video,
      ))

  -- Where similarities are fractions from 0 to 1, a candidate without any sign of audio is never
  -- called likely.
  pub score_candidate-no_audio :
      (r : BookSearchRequest) (c : SearchCandidate)
      → audio_evidence c ≡ false
      → (score_candidate ratio r c).bucket ≢ likely
  unfolding score_candidate raw_score
  score_candidate-no_audio r c silent = bucket_of_not_likely (raw_score ratio r c) (
      omega (
        int_laws,
        title_points_bound ratio shares r c,
        author_points_bound ratio r c,
        narrator_points_bound ratio r c,
        series_points_bound ratio r c,
        audio_points_none c silent,
        completion_points_bound c,
        video_points_bound c,
      ))
