-- ===== src/Wal/Log/Consuming.antt =====
-- `commit`, `drop_oldest_segment` and `open` of `SegmentedLog`.
use trapd_sensor.Prelude.{
  ℕ, ◌+◌, ◌-◌, Option, none, some, List, [], ◌∷◌, Bytes, length, ltb, ◌==◌, if◌then◌else◌, max,
}
use trapd_sensor.Wal.Record.{Checksum}
use trapd_sensor.Wal.Segment.{
  truncate_to_last_valid_record, scan_segment, count_records_in_range, count_records_from,
}
use trapd_sensor.Wal.Directory.{
  Directory, lookup, write, remove_segment, remove, range_from, range_below, range_upto,
  next_back_or, discover_segments,
}
use trapd_sensor.Wal.Log.{
  LogPosition, SegmentedLog, position_le, segment_file, or_empty, create_file, clamp_cursor,
  write_cursor, read_cursor, min_segment_bytes,
}

-- `remove_segment(&path)?; self.segments.remove(&id); self.disk_bytes = …`
unfoldable pub unlink : SegmentedLog → ℕ → ℕ → SegmentedLog
unlink log id bytes = record log {
  dir = record log.dir { files = remove_segment id log.dir.files };
  segments = remove id log.segments;
  disk_bytes = log.disk_bytes - bytes;
}

unfoldable pub collect_loop : List ℕ → SegmentedLog → SegmentedLog
unfolding unlink
collect_loop [] log = log
collect_loop (id ∷ obsolete) log =
    collect_loop obsolete
      (if id == log.active_id then log else unlink log id (length (or_empty (segment_file log id))))

unfoldable pub collect_consumed_segments : SegmentedLog → SegmentedLog
collect_consumed_segments log = collect_loop (range_below log.cursor.segment log.segments) log

unfoldable pub nonempty_or_first : List ℕ → List ℕ
nonempty_or_first [] = 1 ∷ []
nonempty_or_first (id ∷ ids) = id ∷ ids

module _ ⦃c : Checksum⦄ where
  -- `for &id in self.segments.range(from.segment..=to.segment)`
  unfoldable pub between_loop : SegmentedLog → LogPosition → LogPosition → List ℕ → ℕ → ℕ
  between_loop log from to [] total = total
  between_loop log from to (id ∷ ids) total = between_loop log from to ids (
      total
      + count_records_in_range (segment_file log id) (if id == from.segment then from.offset else 0)
          (if id == to.segment then some to.offset else none))

  unfoldable pub count_records_between : SegmentedLog → LogPosition → LogPosition → ℕ
  count_records_between log from to =
      between_loop log from to (range_upto to.segment (range_from from.segment log.segments)) 0

  unfoldable pub commit : SegmentedLog → LogPosition → SegmentedLog
  commit log pos =
      let consumed = count_records_between log log.cursor pos in
      let moved = record log { cursor = pos; pending = log.pending - consumed } in
      if position_le pos log.cursor then log else collect_consumed_segments (write_cursor moved)

  -- What the oldest segment holds that was not confirmed.
  unfoldable pub unread_in : SegmentedLog → ℕ → ℕ
  unread_in log oldest =
      if ltb oldest log.cursor.segment
      then 0
      else count_records_from (segment_file log oldest)
          (if log.cursor.segment == oldest then log.cursor.offset else 0)

  -- `scan_segment(&path).unwrap_or((0, 0))`
  unfoldable pub scan_or_zero : Option Bytes → ℕ × ℕ
  scan_or_zero none = (0, 0)
  scan_or_zero (some file) = scan_segment file

  unfoldable pub drop_segment : SegmentedLog → ℕ → Option ℕ × SegmentedLog
  drop_segment log oldest =
      let (records, bytes) = scan_or_zero (segment_file log oldest) in
      let unread = unread_in log oldest in
      let unlinked = unlink log oldest bytes in
      let counted = record unlinked {
        pending = log.pending - unread;
        dropped = log.dropped + unread;
      } in
      if oldest == log.active_id
      then (none, log)
      else (some unread, write_cursor (clamp_cursor counted))

  unfoldable pub drop_oldest : List ℕ → SegmentedLog → Option ℕ × SegmentedLog
  drop_oldest [] log = (none, log)
  drop_oldest (oldest ∷ _) log = drop_segment log oldest

  unfoldable pub drop_oldest_segment : SegmentedLog → Option ℕ × SegmentedLog
  drop_oldest_segment log = drop_oldest log.segments log

  -- The recovery loop of `open`: the bytes kept, and the truncated files.
  unfoldable pub recover_loop : List ℕ → List (ℕ × Bytes) → ℕ → ℕ × List (ℕ × Bytes)
  recover_loop [] files disk_bytes = (disk_bytes, files)
  recover_loop (id ∷ ids) files disk_bytes = elim (lookup id files) [
    | none ↦ recover_loop ids files disk_bytes
    | some file ↦
        let (valid_end, kept) = truncate_to_last_valid_record file in
        recover_loop ids (write id kept files) (disk_bytes + valid_end)
  ]

  unfoldable pub pending_loop : SegmentedLog → List ℕ → ℕ → ℕ
  pending_loop log [] total = total
  pending_loop log (id ∷ ids) total = pending_loop log ids (
      total
      + count_records_from (segment_file log id)
          (if id == log.cursor.segment then log.cursor.offset else 0))

  unfoldable pub count_pending : SegmentedLog → ℕ
  count_pending log = pending_loop log (range_from log.cursor.segment log.segments) 0

  -- The log that `open` makes of the segments and of what recovery found, before the count.
  unfoldable pub recovered_log : Directory → ℕ → List ℕ → ℕ → List (ℕ × Bytes) → SegmentedLog
  recovered_log dir segment_bytes segments disk_bytes recovered =
      let active_id = next_back_or 1 segments in
      let files = create_file active_id recovered in
      let log : SegmentedLog = record {
        dir = record { files = files; cursor_file = dir.cursor_file };
        segment_bytes = max segment_bytes min_segment_bytes;
        segments = segments;
        active_id = active_id;
        writer = [];
        active_bytes = length (or_empty (lookup active_id files));
        cursor = read_cursor dir.cursor_file;
        pending = 0;
        disk_bytes = disk_bytes;
        dropped = 0;
      } in
      clamp_cursor log

  unfoldable pub open_log : Directory → ℕ → SegmentedLog
  open_log dir segment_bytes =
      let segments = nonempty_or_first (discover_segments dir.files) in
      let (disk_bytes, recovered) = recover_loop segments dir.files 0 in
      let log = recovered_log dir segment_bytes segments disk_bytes recovered in
      record log { pending = count_pending log }
