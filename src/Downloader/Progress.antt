-- ===== src/Downloader/Progress.antt =====
-- backend/lorex/downloader/progress.py. Times are numbers of a unit fine enough for the clock; the
-- sink is the list of the amounts that it was given.
pub mod Conserved
mod Tests
use lore_x.Prelude.{
  ℕ, ◌+◌, ◌≡◌, Bool, true, false, not, ◌||◌, List, [], ◌∷◌, ◌++◌, ltb, leb, ◌==◌, if◌then◌else◌,
}
use lore_x.Prelude.Int.{ℤ, pos, ◌+ℤ◌, ◌-ℤ◌, leb_ℤ, ltb_ℤ}
use lore_x.Result.{Result, ok, err, value_error}

pub record ProgressCoalescer : Type 0 where
  pub byte_threshold : ℤ
  pub time_threshold : ℤ
  pub pending_bytes : ℤ
  pub last_flush : ℤ

-- `ProgressCoalescer(byte_threshold, time_threshold_seconds)`, at the time `now`.
unfoldable pub new_coalescer : ℤ → ℤ → ℤ → Result ProgressCoalescer
new_coalescer byte_threshold time_threshold now =
    if leb_ℤ byte_threshold (pos 0)
    then err (value_error "byte_threshold must be positive")
    else if leb_ℤ time_threshold (pos 0)
    then err (value_error "time_threshold_seconds must be positive")
    else ok (record {
      byte_threshold = byte_threshold;
      time_threshold = time_threshold;
      pending_bytes = pos 0;
      last_flush = now;
    })

-- `record`, a reserved word here.
unfoldable pub record_bytes : ℤ → ProgressCoalescer → Result ProgressCoalescer
record_bytes byte_count c =
    if ltb_ℤ byte_count (pos 0)
    then err (value_error "byte_count cannot be negative")
    else ok (record c { pending_bytes = c.pending_bytes +ℤ byte_count })

unfoldable pub should_flush : ℤ → ProgressCoalescer → Bool
should_flush now c =
    if leb_ℤ c.pending_bytes (pos 0)
    then false
    else leb_ℤ c.byte_threshold c.pending_bytes || leb_ℤ c.time_threshold (now -ℤ c.last_flush)

-- `flush`, with the sink.
unfoldable pub flush : ℤ → ProgressCoalescer × List ℤ → ProgressCoalescer × List ℤ
flush now (c, sink) =
    if leb_ℤ c.pending_bytes (pos 0)
    then (c, sink)
    else (record c { pending_bytes = pos 0; last_flush = now }, sink ++ c.pending_bytes ∷ [])

unfoldable pub flush_if_needed : ℤ → ProgressCoalescer × List ℤ → ProgressCoalescer × List ℤ
unfolding should_flush flush
flush_if_needed now (c, sink) = if should_flush now c then flush now (c, sink) else (c, sink)

-- `record_progress` of downloader/engine.py, at the time `now`.
unfoldable pub record_progress :
    ℤ → ℤ → ProgressCoalescer × List ℤ → Result (ProgressCoalescer × List ℤ)
unfolding record_bytes flush_if_needed
record_progress now byte_count (c, sink) = elim (record_bytes byte_count c) [
  | err e ↦ err e
  | ok c' ↦ ok (flush_if_needed now (c', sink))
]

-- The chunks of a download, each with the time of its arrival.
unfoldable pub record_all :
    List (ℤ × ℤ) → ProgressCoalescer × List ℤ → Result (ProgressCoalescer × List ℤ)
unfolding record_progress
record_all [] s = ok s
record_all ((now, bytes) ∷ chunks) s = elim (record_progress now bytes s) [
  | err e ↦ err e
  | ok s' ↦ record_all chunks s'
]
