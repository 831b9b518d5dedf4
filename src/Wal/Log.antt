-- ===== src/Wal/Log.antt =====
-- `SegmentedLog` of log.rs. The state is the record's fields with the directory they are kept in.
-- The file system always succeeds here; a missing file is modelled where the code allows for it.
pub mod Reading
pub mod Consuming
pub mod Shape
pub mod Invariant
pub mod Writing
pub mod Pushing
pub mod Appending
pub mod Rolling
pub mod Batches
pub mod BatchLoop
pub mod Delivery
pub mod Locating
pub mod Consumption
pub mod Acknowledging
pub mod Commits
pub mod Dropping
pub mod Reopening
use trapd_sensor.Prelude.{
  ℕ, zero, suc, ◌+◌, ◌-◌, ◌*◌, ◌^◌, Option, none, some, List, [], ◌∷◌, ◌++◌, ◌&&◌, ◌||◌, Bool, true,
  false, Bytes, from_le, to_le, take, drop, length, ltb, leb, ◌==◌, if◌then◌else◌, max,
}
use trapd_sensor.Wal.Record.{
  Checksum, ReadResult, header_len, max_record_bytes, record_bytes, read_record,
}
use trapd_sensor.Wal.Segment.{
  truncate_to_last_valid_record, scan_segment, count_records_in_range, count_records_from,
}
use trapd_sensor.Wal.Directory.{
  Directory, lookup, write, remove_segment, insert, remove, range_from, range_below, range_upto,
  next_from, next_back_or, discover_segments,
}

abbrev pub min_segment_bytes : ℕ
min_segment_bytes = 4 * 1024

pub record LogPosition : Type 0 where
  pub segment : ℕ
  pub offset : ℕ

pub record LogRecord : Type 0 where
  pub payload : Bytes
  pub next : LogPosition

pub record SegmentedLog : Type 0 where
  pub dir : Directory
  pub segment_bytes : ℕ
  pub segments : List ℕ
  pub active_id : ℕ
  -- What the `BufWriter` holds back from the active file.
  pub writer : Bytes
  pub active_bytes : ℕ
  pub cursor : LogPosition
  pub pending : ℕ
  pub disk_bytes : ℕ
  pub dropped : ℕ

pub data BufferError : Type 0 where
  record_too_large : ℕ → BufferError

pub data Result {ℓ} (A : Type ℓ) : Type ℓ where
  ok : A → Result A
  err : BufferError → Result A

-- `#[derive(PartialOrd)]`: by segment, then by offset.
abbrev pub position_le : LogPosition → LogPosition → Bool
position_le a b = ltb a.segment b.segment || (a.segment == b.segment && leb a.offset b.offset)

abbrev pub segment_file : SegmentedLog → ℕ → Option Bytes
segment_file log id = lookup id log.dir.files

abbrev pub or_empty : Option Bytes → Bytes
or_empty none = []
or_empty (some file) = file

-- The active file is open for append.
pub file_append : SegmentedLog → Bytes → SegmentedLog
file_append log bytes = record log {
  dir = record log.dir {
    files = write log.active_id (or_empty (segment_file log log.active_id) ++ bytes) log.dir.files;
  };
}

-- `BufWriter` of the standard library, with its default capacity.
abbrev buffer_capacity : ℕ
buffer_capacity = 8 * 1024

flush_buf : SegmentedLog → SegmentedLog
unfolding file_append
flush_buf log = record (file_append log log.writer) { writer = [] }

write_all_cold : SegmentedLog → Bytes → SegmentedLog
unfolding file_append
write_all_cold log bytes =
    if leb buffer_capacity (length bytes)
    then file_append log bytes
    else record log { writer = log.writer ++ bytes }

pub write_all : SegmentedLog → Bytes → SegmentedLog
unfolding flush_buf write_all_cold
write_all log bytes =
    let spare = buffer_capacity - length log.writer in
    if ltb (length bytes) spare
    then record log { writer = log.writer ++ bytes }
    else write_all_cold (if ltb spare (length bytes) then flush_buf log else log) bytes

-- `flush`: the buffer goes to the file; `sync_all` makes it durable.
unfoldable pub flush : SegmentedLog → SegmentedLog
unfolding flush_buf
flush log = flush_buf log

-- `OpenOptions::new().create(true).append(true)`: a file that is there keeps its bytes.
unfoldable pub create_file : ℕ → List (ℕ × Bytes) → List (ℕ × Bytes)
create_file id files = write id (or_empty (lookup id files)) files

pub roll_segment : SegmentedLog → SegmentedLog
unfolding flush create_file
roll_segment log =
    let flushed = flush log in
    let next_id = log.active_id + 1 in
    record flushed {
      dir = record flushed.dir { files = create_file next_id flushed.dir.files };
      segments = insert next_id flushed.segments;
      active_id = next_id;
      writer = [];
      active_bytes = 0;
    }

-- `clamp_cursor`
unfoldable pub clamp_to : List ℕ → LogPosition → LogPosition
clamp_to [] cursor = cursor
clamp_to (oldest ∷ _) cursor =
    if ltb cursor.segment oldest then record { segment = oldest; offset = 0 } else cursor

unfoldable pub clamp_cursor : SegmentedLog → SegmentedLog
unfolding clamp_to
clamp_cursor log = record log { cursor = clamp_to log.segments log.cursor }

-- `write_cursor` and `read_cursor`: sixteen bytes, little endian.
unfoldable pub write_cursor : SegmentedLog → SegmentedLog
write_cursor log = record log {
  dir = record log.dir {
    cursor_file = some (to_le 8 log.cursor.segment ++ to_le 8 log.cursor.offset);
  };
}

abbrev origin : LogPosition
origin = record { segment = 0; offset = 0 }

unfoldable pub read_cursor : Option Bytes → LogPosition
read_cursor none = origin
read_cursor (some bytes) =
    if length bytes == 16
    then record { segment = from_le (take 8 bytes); offset = from_le (drop 8 bytes) }
    else origin

module _ ⦃c : Checksum⦄ where
  -- `self.writer.write_all(&header).and_then(|()| self.writer.write_all(payload))`
  pub write_record : SegmentedLog → Bytes → SegmentedLog
  unfolding write_all
  write_record log payload =
      let header = to_le 4 (length payload) ++ to_le 4 (c.hash payload) in
      write_all (write_all log header) payload

  -- The number of bytes written, and the log.
  unfoldable pub append : SegmentedLog → Bytes → Result (ℕ × SegmentedLog)
  append log payload =
      let rolled = if leb log.segment_bytes log.active_bytes then roll_segment log else log in
      let stored = write_record rolled payload in
      let written = header_len + length payload in
      if leb (2 ^ 32) (length payload) || ltb max_record_bytes (length payload)
      then err (record_too_large (length payload))
      else ok (
        written,
        record stored {
          active_bytes = stored.active_bytes + written;
          disk_bytes = stored.disk_bytes + written;
          pending = stored.pending + 1;
        },
      )
