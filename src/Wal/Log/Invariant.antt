-- ===== src/Wal/Log/Invariant.antt =====
-- The invariant that ties a `SegmentedLog` to the abstract log.
use trapd_sensor.Prelude.{
  ℕ, ◌<◌, ◌≡◌, Option, none, some, List, [], ◌∷◌, ◌++◌, Bytes, All, length, ◌==◌, if◌then◌else◌,
}
use trapd_sensor.Wal.Record.{Checksum}
use trapd_sensor.Wal.Record.RoundTrip.{IsRecordable}
use trapd_sensor.Wal.Segment.{encoded}
use trapd_sensor.Wal.Log.{SegmentedLog, segment_file}
use trapd_sensor.Wal.Log.Shape.{Seg, records, ids, Chain, unread_of, last_of, size_of, total_size}

-- A file with what the writer still holds back from it.
abbrev pub buffered : Bytes → Option Bytes → Option Bytes
buffered tail none = none
buffered tail (some file) = some (file ++ tail)

abbrev pub content : SegmentedLog → ℕ → Option Bytes
content log id = buffered (if id == log.active_id then log.writer else []) (segment_file log id)

module _ ⦃c : Checksum⦄ where
  abbrev pub Stored : SegmentedLog → Seg → Type 0
  Stored log s = content log s.id ≡ some (encoded (records s))

  -- `done` lies before the cursor's segment `cur`, and `rest` behind it.
  pub record Inv (log : SegmentedLog) (done : List Seg) (cur : Seg) (rest : List Seg) : Type 0 where
    pub segments_eq : log.segments ≡ ids (done ++ (cur ∷ rest))
    pub chain : Chain 0 (done ++ (cur ∷ rest))
    pub active_eq : log.active_id ≡ (last_of cur rest).id
    pub stored : All (Stored log) (done ++ (cur ∷ rest))
    pub recordable : All (λ s. All IsRecordable (records s)) (done ++ (cur ∷ rest))
    pub fresh : (id : ℕ) → log.active_id < id → segment_file log id ≡ none
    pub finished : All (λ s. s.unread ≡ []) done
    pub untouched : All (λ s. s.read ≡ []) rest
    pub cursor_eq : log.cursor ≡ record { segment = cur.id; offset = length (encoded cur.read) }
    pub pending_eq : log.pending ≡ length (unread_of (cur ∷ rest))
    pub disk_eq : log.disk_bytes ≡ total_size (done ++ (cur ∷ rest))
    pub active_size : log.active_bytes ≡ size_of (last_of cur rest)

  -- The records that the log owes its reader, whatever its segments are.
  pub record Represents (log : SegmentedLog) (view : List Bytes) : Type 0 where
    pub done : List Seg
    pub cur : Seg
    pub rest : List Seg
    pub inv : Inv log done cur rest
    pub view_eq : view ≡ unread_of (cur ∷ rest)
