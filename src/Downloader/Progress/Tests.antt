-- ===== src/Downloader/Progress/Tests.antt =====
-- Two chunks, the second past the threshold.
use lore_x.Prelude.{◌≡◌, refl, List, [], ◌∷◌, arith}
use lore_x.Prelude.Int.{ℤ, pos, sum_ℤ}
use lore_x.Result.{ok}
use lore_x.Downloader.Progress.{ProgressCoalescer, new_coalescer, record_all, flush}
use lore_x.Downloader.Progress.Conserved.{IsBelow, chunk_bytes, record_all-conserved}

abbrev fresh : ProgressCoalescer
fresh = record {
  byte_threshold = pos 10;
  time_threshold = pos 5;
  pending_bytes = pos 0;
  last_flush = pos 0;
}

abbrev chunks : List (ℤ × ℤ)
chunks = (pos 1, pos 7) ∷ (pos 2, pos 6) ∷ (pos 3, pos 4) ∷ []

made : new_coalescer (pos 10) (pos 5) (pos 0) ≡ ok fresh
unfolding new_coalescer
made = refl

record_all-conserved_example :
    (s : ProgressCoalescer × List ℤ) × (record_all chunks (fresh, []) ≡ ok s)
    × IsBelow (pos 10) s
    × (sum_ℤ (flush (pos 9) s).1 ≡ sum_ℤ (chunk_bytes chunks))
record_all-conserved_example =
    record_all-conserved (pos 10) (pos 5) (pos 0) (pos 9) chunks fresh made (omega arith)
