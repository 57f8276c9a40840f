-- ===== src/Downloader/Engine/Turns.antt =====
-- The turns of `while active` (downloader/engine.py) are enough.
use lore_x.Prelude.{
  ℕ, zero, suc, ◌+◌, ◌≤◌, ◌≡◌, refl, sym, ap, ◌∙◌, Bool, true, false, List, [], ◌∷◌, ◌++◌, length,
  arith, nat_eq, list_eq, Bool-cases, inl, inr, length-append,
}
use lore_x.Result.{ok, err}
use lore_x.Process.{Work}
use lore_x.Text.{Text}
use lore_x.Dict.{put}
use lore_x.Domain.{ArticleHeader, DownloadJob}
use lore_x.Downloader.Article.{Download, cancel_requested}
use lore_x.Downloader.Engine.{
  Pool, Engine, complete_path, submit_next, fill, fill_after, fetch, collected, submitted,
  run_active, take_at, filled,
}

-- The articles of a pool that are still to come.
abbrev left : Pool → ℕ
left p = length p.active + length p.pending

submit_next-left : (p : Pool) → left (submit_next p).0 ≡ left p
unfolding submit_next
submit_next-left p = elim (Bool-cases (cancel_requested p.download).0) [
  | inl asked ↦ rw asked refl
  | inr goes ↦ rw goes (by_pending p.pending refl)
]
  where
    by_pending :
        (l : List ArticleHeader)
        → l ≡ p.pending
        → left
            (elim l as (λ x. Work Pool Bool) [
              | [] ↦ (record p { download = (cancel_requested p.download).1 }, ok false)
              | a ∷ rest ↦ (
                record p {
                  download = (cancel_requested p.download).1;
                  pending = rest;
                  active = p.active ++ a ∷ [];
                },
                ok true,
              )
            ]).0
          ≡ left p
    by_pending [] q = refl
    by_pending (a ∷ rest) q = omega (arith, length-append p.active (a ∷ []), ap length q)

fill-left : (n : ℕ) (p : Pool) → left (fill n p).0 ≡ left p
unfolding fill
fill-left zero p = refl
fill-left (suc n) p = by_next (submit_next p) (submit_next-left p) (fill-left n)
  where
    by_next :
        (w : Work Pool Bool)
        → left w.0 ≡ left p
        → ((q : Pool) → left (fill n q).0 ≡ left q)
        → left (fill_after (fill n) w).0 ≡ left p
    by_next (q, err e) h later = h
    by_next (q, ok false) h later = h
    by_next (q, ok true) h later = later q ∙ h

take_at-left :
    (n : ℕ) (a : ArticleHeader) (rest : List ArticleHeader)
    → length (take_at n a rest).1 ≡ length rest
unfolding take_at
take_at-left n a [] = refl
take_at-left zero a (b ∷ rest) = refl
take_at-left (suc n) a (b ∷ rest) = ap suc (take_at-left n b rest)

-- If it returns, nothing is active.
abbrev IsDone : Work Pool (Unit {0}) → Type 0
IsDone (p, err e) = Unit
IsDone (p, ok done) = p.active ≡ []

module _ (engine : Engine) (job : DownloadJob) where
  run_active-IsDone : (n : ℕ) (p : Pool) → left p ≤ n → IsDone (run_active engine job n p)
  unfolding run_active
  run_active-IsDone zero p h = none_left p.active (omega (arith, h))
    where
      none_left : (l : List ArticleHeader) → length l ≤ 0 → l ≡ []
      none_left [] few = refl
      none_left (a ∷ l) few = absurd (omega (arith, few))
  run_active-IsDone (suc n) p h = by_active p.active refl (run_active-IsDone n)
    where
      after_next :
          (w : Work Pool Bool)
          → left w.0 ≤ n
          → ((q : Pool) → left q ≤ n → IsDone (run_active engine job n q))
          → IsDone (submitted engine job (run_active engine job n) w)
      after_next (q, err e) few later = tt
      after_next (q, ok more) few later = later q few

      by_fetch :
          (a : ArticleHeader) (p1 : Pool) (w : Work Download (ℕ × Text))
          → left p1 ≤ n
          → ((q : Pool) → left q ≤ n → IsDone (run_active engine job n q))
          → IsDone (
              collected engine job a p1
                (λ p2. submitted engine job (run_active engine job n) (submit_next p2))
                w)
      by_fetch a p1 (d, err e) few later = tt
      by_fetch a p1 (d, ok done) few later =
          let p2 : Pool = record p1 {
            download = d;
            output_paths = put a.message_id (complete_path engine job a.message_id) p1.output_paths;
          } in
          after_next (submit_next p2) (omega (arith, submit_next-left p2, few)) later

      by_active :
          (l : List ArticleHeader)
          → l ≡ p.active
          → ((q : Pool) → left q ≤ n → IsDone (run_active engine job n q))
          → IsDone (elim l as (λ x. Work Pool (Unit {0})) [
            | [] ↦ (p, ok tt)
            | first ∷ rest ↦
                collected engine job
                  (take_at (engine.order n) first rest).0
                  (record p { active = (take_at (engine.order n) first rest).1 })
                  (λ p1. submitted engine job (run_active engine job n) (submit_next p1))
                  (fetch engine job (take_at (engine.order n) first rest).0 p.download)
          ])
      by_active [] q later = sym q
      by_active (first ∷ rest) q later =
          by_fetch (take_at (engine.order n) first rest).0
            (record p { active = (take_at (engine.order n) first rest).1 })
            (fetch engine job (take_at (engine.order n) first rest).0 p.download)
            (omega (arith, take_at-left (engine.order n) first rest, ap length q, h)) later

  -- With nothing active at first, as many turns as articles are pending leave none active.
  filled-IsDone :
      (n : ℕ) (p : Pool) → p.active ≡ [] → IsDone (filled engine job (length p.pending) (fill n p))
  filled-IsDone n p idle = by_fill (fill n p) (omega (arith, fill-left n p, ap length idle))
    where
      by_fill :
          (w : Work Pool (Unit {0}))
          → left w.0 ≤ length p.pending
          → IsDone (filled engine job (length p.pending) w)
      by_fill (q, err e) few = tt
      by_fill (q, ok done) few = run_active-IsDone (length p.pending) q few
