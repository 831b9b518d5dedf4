-- ===== src/Wal/Tests.antt =====
-- The log's theorems at concrete inputs, with a checksum that adds up the bytes.
use trapd_sensor.Prelude.{
  ℕ, zero, suc, ◌+◌, ◌^◌, ◌%◌, ◌≡◌, refl, ap, none, some, List, [], ◌∷◌, ◌++◌, Bytes, arith, length,
  take, get_elem?,
}
use trapd_sensor.Prelude.{to_le, ◌⊎◌}
use trapd_sensor.Wal.Record.{read_exact}
use trapd_sensor.Wal.Directory.{Directory, discover_segments, insert}
use trapd_sensor.Wal.Log.Consuming.{open_log, drop_oldest_segment}
use trapd_sensor.Wal.Log.Dropping.Retention.{Drops, drop_oldest_segment-Represents}
use trapd_sensor.Wal.Log.Reopening.Recovered.{open-Represents}
use trapd_sensor.Wal.Log.Reopening.Crash.{Crashed, confirmed, read_cursor-to_le}
use trapd_sensor.Wal.Record.{Checksum, read_record, record_bytes}
use trapd_sensor.Wal.Record.RoundTrip.{IsRecordable, read_record-record_bytes, read_record_torn}
use trapd_sensor.Wal.Segment.{
  encoded, truncate_to_last_valid_record, scan_segment, count_records_in_range,
}
use trapd_sensor.Wal.Segment.Recovery.{truncate_torn}
use trapd_sensor.Wal.Segment.Counting.{scan_segment-encoded, count_range-encoded}
use trapd_sensor.Wal.Directory.{lookup}
use trapd_sensor.Wal.Log.{read_cursor, SegmentedLog, LogRecord, ok, err, record_too_large, append}
use trapd_sensor.Wal.Log.Reading.{read_batch}
use trapd_sensor.Wal.Log.Consuming.{commit}
use trapd_sensor.Wal.Log.Invariant.{Inv, Represents}
use trapd_sensor.Wal.Log.Shape.{Seg}
use trapd_sensor.Wal.Log.Batches.{payloads}
use trapd_sensor.Wal.Log.Delivery.{
  taking, append-Represents, append_too_large, read_batch-Inv, read_batch-Represents,
}
use trapd_sensor.Wal.Log.Commits.Left.{commit-read_batch}

abbrev sum_of : Bytes → ℕ
sum_of [] = 0
sum_of (b ∷ bs) = b + sum_of bs

instance abbrev pub sum_checksum : Checksum
sum_checksum = record { hash = λ p. sum_of p % 256 ^ 4; hash-lt = λ p. omega arith }

abbrev pub alarm : Bytes
alarm = 8 ∷ 9 ∷ 3 ∷ []

abbrev pub beat : Bytes
beat = 5 ∷ []

pub alarm-IsRecordable : IsRecordable alarm
alarm-IsRecordable = record { nonempty = omega arith; fits = omega arith }

pub beat-IsRecordable : IsRecordable beat
beat-IsRecordable = record { nonempty = omega arith; fits = omega arith }

read_record_example :
    read_record (record_bytes alarm ++ (1 ∷ []))
    ≡ some (record { payload = alarm; consumed = 11; rest = 1 ∷ [] })
read_record_example = read_record-record_bytes alarm (1 ∷ []) alarm-IsRecordable

torn_example : read_record (take 9 (record_bytes alarm)) ≡ none
torn_example = read_record_torn alarm 9 alarm-IsRecordable (omega arith)

-- A segment with one record on the disk, nothing of it read.
abbrev held : Seg
held = record { id = 1; read = []; unread = alarm ∷ [] }

abbrev pub held_log : SegmentedLog
held_log = record {
  dir = record { files = (1, encoded (alarm ∷ [])) ∷ []; cursor_file = none };
  segment_bytes = 4096;
  segments = 1 ∷ [];
  active_id = 1;
  writer = [];
  active_bytes = 11;
  cursor = record { segment = 1; offset = 0 };
  pending = 1;
  disk_bytes = 11;
  dropped = 0;
}

held-Inv : Inv held_log [] held []
unfolding encoded record_bytes lookup
held-Inv = record {
  segments_eq = refl;
  chain = (omega arith, tt);
  active_eq = refl;
  stored = (refl, tt);
  recordable = ((alarm-IsRecordable, tt), tt);
  fresh = λ id h. ground arith;
  finished = tt;
  untouched = tt;
  cursor_eq = refl;
  pending_eq = refl;
  disk_eq = refl;
  active_size = refl;
}

pub held-Represents : Represents held_log (alarm ∷ [])
held-Represents = record { done = []; cur = held; rest = []; inv = held-Inv; view_eq = refl }

append_example :
    (log' : SegmentedLog) × (append held_log beat ≡ ok (9, log'))
    × (Represents log' (alarm ∷ beat ∷ [])
        × ((log'.disk_bytes ≡ held_log.disk_bytes + 9) × (log'.active_id ≡ taking held_log)))
append_example = append-Represents held_log (alarm ∷ []) beat held-Represents beat-IsRecordable

read_batch_example :
    (payloads (read_batch held_log 3).0 ≡ alarm ∷ [])
    × Represents (read_batch held_log 3).1 (alarm ∷ [])
read_batch_example = read_batch-Represents held_log (alarm ∷ []) 3 held-Represents

first_record :
    get_elem? (read_batch held_log 3).0 0
    ≡ some (record { payload = alarm; next = record { segment = 1; offset = 11 } })
unfolding encoded
first_record =
    ap (λ (b : List LogRecord). get_elem? b 0) (read_batch-Inv held_log 3 [] held [] held-Inv).0

commit_example :
    Represents (commit (read_batch held_log 3).1 (record { segment = 1; offset = 11 })) []
commit_example =
    commit-read_batch held_log (alarm ∷ []) 3 0
      (record { payload = alarm; next = record { segment = 1; offset = 11 } }) held-Represents
      first_record

recovery_example :
    truncate_to_last_valid_record (encoded (alarm ∷ []) ++ take 5 (record_bytes beat))
    ≡ (length (encoded (alarm ∷ [])), encoded (alarm ∷ []))
recovery_example =
    truncate_torn (alarm ∷ []) beat 5 (alarm-IsRecordable, tt) beat-IsRecordable (omega arith)

scan_example :
    scan_segment (encoded (alarm ∷ beat ∷ [])) ≡ (2, length (encoded (alarm ∷ beat ∷ [])))
scan_example =
    scan_segment-encoded (alarm ∷ beat ∷ []) (alarm-IsRecordable, (beat-IsRecordable, tt))

count_example :
    (count_records_in_range
        (some (encoded (alarm ∷ beat ∷ []) ++ (1 ∷ [])))
        (length (encoded (alarm ∷ [])))
        (some (length (encoded (alarm ∷ beat ∷ []))))
      ≡ 1)
    × (count_records_in_range
          (some (encoded (alarm ∷ beat ∷ []) ++ (1 ∷ [])))
          (length (encoded (alarm ∷ [])))
          (some (length (encoded (alarm ∷ []))))
        ≡ 1)
count_example = count_range-encoded (alarm ∷ []) [] (1 ∷ []) beat (beat-IsRecordable, tt)

zeros : ℕ → Bytes
zeros zero = []
zeros (suc n) = 0 ∷ zeros n

length-zeros : (n : ℕ) → length (zeros n) ≡ n
unfolding zeros
length-zeros zero = refl
length-zeros (suc n) = ap suc (length-zeros n)

too_large_example :
    append held_log (zeros 1048577) ≡ err (record_too_large (length (zeros 1048577)))
too_large_example = append_too_large held_log (zeros 1048577) (omega (arith, length-zeros 1048577))

-- Two segments, the first confirmed up to its last record, the second with a torn rest.
abbrev crashed_dir : Directory
crashed_dir = record {
  files =
      (1, encoded (alarm ∷ beat ∷ []))
      ∷ (2, encoded (beat ∷ []) ++ take 5 (record_bytes alarm))
      ∷ [];
  cursor_file = some (to_le 8 1 ++ to_le 8 11);
}

abbrev first_seg : Seg
first_seg = record { id = 1; read = alarm ∷ []; unread = beat ∷ [] }

abbrev second_seg : Seg
second_seg = record { id = 2; read = []; unread = beat ∷ [] }

crashed : Crashed crashed_dir [] first_seg (second_seg ∷ [])
unfolding encoded record_bytes lookup discover_segments insert
crashed = record {
  there = refl;
  chain = (omega arith, (omega arith, tt));
  files = (
    record { tail = []; found = refl; torn = unfold read_record read_exact in refl },
    (
      record {
        tail = take 5 (record_bytes alarm);
        found = refl;
        torn = read_record_torn alarm 5 alarm-IsRecordable (omega arith);
      },
      tt,
    ),
  );
  beyond = λ id h. ground arith;
  recordable = ((alarm-IsRecordable, (beat-IsRecordable, tt)), ((beat-IsRecordable, tt), tt));
  finished = tt;
  untouched = (refl, tt);
  cursor_file = confirmed refl (omega arith) (omega arith);
}

open_example : Represents (open_log crashed_dir 4096) (beat ∷ beat ∷ [])
open_example = open-Represents crashed_dir 4096 [] first_seg (second_seg ∷ []) crashed

drop_example :
    ((drop_oldest_segment (open_log crashed_dir 4096) ≡ (none, open_log crashed_dir 4096))
      × ((open_log crashed_dir 4096).segments ≡ (open_log crashed_dir 4096).active_id ∷ []))
    ⊎ ((n : ℕ) × (log' : SegmentedLog) × Drops
          (open_log crashed_dir 4096)
          (beat ∷ beat ∷ [])
          n
          log')
drop_example =
    drop_oldest_segment-Represents (open_log crashed_dir 4096) (beat ∷ beat ∷ [])
      (open-Represents crashed_dir 4096 [] first_seg (second_seg ∷ []) crashed)

cursor_example :
    read_cursor (some (to_le 8 3 ++ to_le 8 700)) ≡ record { segment = 3; offset = 700 }
cursor_example = read_cursor-to_le 3 700 (omega arith) (omega arith)
