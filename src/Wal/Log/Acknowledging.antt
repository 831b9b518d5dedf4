-- ===== src/Wal/Log/Acknowledging.antt =====
-- Where the counts of `commit` start, and which bytes it finds in the files.
use trapd_sensor.Prelude.{
  suc, ◌≤◌, ◌<◌, ◌≡◌, refl, sym, ap, ◌∙◌, some, List, [], ◌∷◌, ◌++◌, append-nil, Bytes, All, length,
  arith, false, ==_refl, Option-cases, prefix_of, inl, inr, ◌==◌, if◌then◌else◌,
}
use trapd_sensor.Wal.Record.{Checksum}
use trapd_sensor.Wal.Segment.{encoded}
use trapd_sensor.Wal.Segment.Recovery.{encoded-append, encoded-nil}
use trapd_sensor.Wal.Log.{SegmentedLog, LogPosition, segment_file}
use trapd_sensor.Wal.Log.Invariant.{buffered, Stored}
use trapd_sensor.Wal.Log.Shape.{Seg, records, Chain, Chain-weaken}
use trapd_sensor.Wal.Log.Consumption.{Whole, StartsAt}

module _ ⦃c : Checksum⦄ where
  untouched_starts :
      (from : LogPosition) (segs : List Seg)
      → Chain (suc from.segment) segs
      → All (λ s. s.read ≡ []) segs
      → All (StartsAt from) segs
  untouched_starts from [] ch h = tt
  untouched_starts from (s ∷ segs) ch (h, hs) = (
    (let later : (s.id == from.segment) ≡ false = ground arith in
        rw later (sym (ap (λ (rs : List Bytes). length (encoded rs)) h ∙ ap length encoded-nil))),
    untouched_starts from segs
        (Chain-weaken {m = suc from.segment} {n = suc s.id} segs (omega arith) ch.1) hs,
  )

  -- Every count in the pending segments starts where their unread records do.
  pub starts :
      (cur : Seg) (rest : List Seg)
      → Chain (suc cur.id) rest
      → All (λ s. s.read ≡ []) rest
      → All
          (StartsAt (record { segment = cur.id; offset = length (encoded cur.read) }))
          (cur ∷ rest)
  starts cur rest ch un = (
    rw (==_refl cur.id) refl,
    untouched_starts (record { segment = cur.id; offset = length (encoded cur.read) }) rest ch un,
  )

  closed_at : (log : SegmentedLog) (s : Seg) → s.id < log.active_id → Stored log s → Whole log s
  closed_at log s below h = elim (Option-cases (segment_file log s.id)) [
    | inl missing ↦ absurd (ground arith)
    | inr (file, found) ↦ ground (arith, append-nil file)
  ]

  -- Closed segments stand in their files as a whole.
  pub closed-Whole :
      (log : SegmentedLog) (segs : List Seg)
      → All (λ s. s.id < log.active_id) segs
      → All (Stored log) segs
      → All (Whole log) segs
  closed-Whole log [] below h = tt
  closed-Whole log (s ∷ segs) below h =
      (closed_at log s below.0 h.0, closed-Whole log segs below.1 h.1)

-- The bytes up to the position have left the writer's buffer.
pub record Synced (log : SegmentedLog) (pos : LogPosition) : Type 0 where
  pub file : Bytes
  pub found : segment_file log pos.segment ≡ some file
  pub reaches : pos.offset ≤ length file

module _ ⦃c : Checksum⦄ where
  -- Then the file begins with the records up to the position.
  pub Synced-prefix :
      (log : SegmentedLog) (s : Seg) (taken left : List Bytes)
      → Stored log s
      → records s ≡ taken ++ left
      → (y : Synced log (record { segment = s.id; offset = length (encoded taken) }))
      → (tail : Bytes) × (segment_file log s.id ≡ some (encoded taken ++ tail))
  Synced-prefix log s taken left st e y =
      let held = if s.id == log.active_id then log.writer else [] in
      let whole : y.file ++ held ≡ encoded taken ++ encoded left =
        cc (sym (ap (buffered held) y.found) ∙ st) ∙ ap encoded e ∙ encoded-append taken left in
      let (tail, q) = prefix_of (encoded taken) (encoded left) y.file held whole y.reaches in
      (tail, y.found ∙ ap some q)
