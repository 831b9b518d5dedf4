-- ===== src/Wal/Log/Reading.antt =====
-- `SegmentedLog::read_batch`: the loop over the segments and the loop over one file's records.
use trapd_sensor.Prelude.{
  ℕ, zero, suc, ◌+◌, ◌-◌, none, some, List, [], ◌∷◌, ◌++◌, ◌||◌, Bool, true, false, Bytes, drop,
  length, ltb, ◌==◌, if◌then◌else◌,
}
use trapd_sensor.Wal.Record.{Checksum, read_record}
use trapd_sensor.Wal.Directory.{next_from}
use trapd_sensor.Wal.Log.{LogPosition, LogRecord, SegmentedLog, segment_file, flush}

-- Where the loop over one file stops, and whether it stopped at the segment's end.
pub record Progress : Type 0 where
  pub pos : LogPosition
  pub out : List LogRecord
  pub reached_segment_end : Bool

abbrev pub start_of : ℕ → LogPosition
start_of id = record { segment = id; offset = 0 }

-- What the outer loop does next: it goes on from a position with the records read so far.
abbrev pub Continue : Type 0
Continue = LogPosition → List LogRecord → List LogRecord

module _ ⦃c : Checksum⦄ where
  -- `while out.len() < max { match read_record(&mut file)? { … } }`; `room` is `max - out.len()`.
  unfoldable pub read_file : ℕ → Bytes → LogPosition → List LogRecord → Progress
  read_file zero file pos out = record { pos = pos; out = out; reached_segment_end = false }
  read_file (suc room) file pos out = elim (read_record file) [
    | none ↦ record { pos = pos; out = out; reached_segment_end = true }
    | some r ↦
        let pos' = record pos { offset = pos.offset + r.consumed } in
        read_file room r.rest pos' (out ++ (record { payload = r.payload; next = pos' } ∷ []))
  ]

  -- `match self.segments.range(segment + 1..).next()`: go on there, or stop with what there is.
  unfoldable pub next_after : Continue → SegmentedLog → ℕ → List LogRecord → List LogRecord
  next_after continue log segment out = elim (next_from (segment + 1) log.segments) [
    | none ↦ out
    | some next ↦ continue (start_of next) out
  ]

  unfoldable pub after_file : Continue → SegmentedLog → ℕ → Progress → List LogRecord
  after_file continue log segment p = elim p.reached_segment_end [
    | true ↦ next_after continue log segment p.out
    | false ↦ continue p.pos p.out
  ]

  unfoldable pub read_segment :
      Continue → SegmentedLog → ℕ → LogPosition → ℕ → List LogRecord → List LogRecord
  read_segment continue log room pos segment out =
      let pos' = if segment == pos.segment then pos else start_of segment in
      elim (segment_file log segment) [
        | none ↦ next_after continue log segment out
        | some file ↦
            after_file continue log segment (read_file room (drop pos'.offset file) pos' out)
      ]

  -- One round of the outer loop, which goes on by `continue`.
  unfoldable pub read_round :
      Continue → SegmentedLog → ℕ → LogPosition → List LogRecord → List LogRecord
  read_round continue log room pos out = elim (next_from pos.segment log.segments) [
    | none ↦ out
    | some segment ↦ read_segment continue log room pos segment out
  ]

  -- The outer loop. Each round either fills the batch or goes on to a later segment, so one round
  -- more than there are segments is enough.
  unfoldable pub read_segments :
      ℕ → SegmentedLog → ℕ → LogPosition → List LogRecord → List LogRecord
  read_segments zero log max pos out = out
  read_segments (suc fuel) log max pos out =
      let round = read_round (read_segments fuel log max) log (max - length out) pos out in
      if ltb (length out) max then round else out

  -- The records, and the log after the flush.
  unfoldable pub read_batch : SegmentedLog → ℕ → List LogRecord × SegmentedLog
  read_batch log max =
      let flushed = flush log in
      let records = read_segments (suc (length log.segments)) flushed max log.cursor [] in
      if max == 0 || log.pending == 0 then ([], log) else (records, flushed)
