-- ===== src/Wal/Log/Batches.antt =====
-- `read_batch` returns the oldest pending records, in order, each with the position behind it.
use trapd_sensor.Prelude.{
  ℕ, zero, suc, ◌+◌, ◌≤◌, ◌<◌, ◌≡◌, refl, sym, ap, ◌∙◌, some, List, [], ◌∷◌, ◌++◌, append_assoc,
  append-nil, Bytes, All, length, arith, true, false, take, le→ltb,
}
use trapd_sensor.Wal.Record.{Checksum, header_len, read_record, read_exact}
use trapd_sensor.Wal.Record.RoundTrip.{IsRecordable, read_record-record_bytes}
use trapd_sensor.Wal.Segment.{encoded}
use trapd_sensor.Wal.Log.{SegmentedLog, LogRecord, LogPosition}
use trapd_sensor.Wal.Log.Reading.{read_file, read_segments}
use trapd_sensor.Wal.Log.Shape.{Seg, unread_of}

-- Records that stand one behind the other from an offset on.
abbrev pub positions : ℕ → ℕ → List Bytes → List LogRecord
positions id offset [] = []
positions id offset (r ∷ rs) =
    let behind = offset + (header_len + length r) in
    record { payload = r; next = record { segment = id; offset = behind } } ∷ positions id behind rs

pub length-positions :
    (id offset : ℕ) (rs : List Bytes) → length (positions id offset rs) ≡ length rs
length-positions id offset [] = refl
length-positions id offset (r ∷ rs) =
    ap suc (length-positions id (offset + (header_len + length r)) rs)

abbrev pub payloads : List LogRecord → List Bytes
payloads [] = []
payloads (r ∷ rs) = r.payload ∷ payloads rs

pub payloads-positions : (id offset : ℕ) (rs : List Bytes) → payloads (positions id offset rs) ≡ rs
payloads-positions id offset [] = refl
payloads-positions id offset (r ∷ rs) =
    ap (◌∷◌ r) (payloads-positions id (offset + (header_len + length r)) rs)

payloads-append : (xs ys : List LogRecord) → payloads (xs ++ ys) ≡ payloads xs ++ payloads ys
payloads-append [] ys = refl
payloads-append (x ∷ xs) ys = ap (◌∷◌ x.payload) (payloads-append xs ys)

pub nil_of_payloads : (xs : List LogRecord) → payloads xs ≡ [] → xs ≡ []
nil_of_payloads [] e = refl
nil_of_payloads (x ∷ xs) e = cc

pub payloads-take : (n : ℕ) (xs : List LogRecord) → payloads (take n xs) ≡ take n (payloads xs)
payloads-take zero xs = refl
payloads-take (suc n) [] = refl
payloads-take (suc n) (x ∷ xs) = ap (◌∷◌ x.payload) (payloads-take n xs)

pub length-payloads : (xs : List LogRecord) → length (payloads xs) ≡ length xs
length-payloads [] = refl
length-payloads (x ∷ xs) = ap suc (length-payloads xs)

module _ ⦃c : Checksum⦄ where
  -- Every pending record of the abstract log with its position.
  abbrev pub log_records : List Seg → List LogRecord
  log_records [] = []
  log_records (s ∷ segs) = positions s.id (length (encoded s.read)) s.unread ++ log_records segs

  read_record_next :
      (r : Bytes) (rs : List Bytes)
      → IsRecordable r
      → read_record (encoded (r ∷ rs))
        ≡ some (record { payload = r; consumed = header_len + length r; rest = encoded rs })
  unfolding encoded
  read_record_next r rs h = read_record-record_bytes r (encoded rs) h

  pub read_file-All :
      (room : ℕ) (rs : List Bytes) (pos : LogPosition) (out : List LogRecord)
      → All IsRecordable rs
      → length rs < room
      → ((read_file room (encoded rs) pos out).out ≡ out ++ positions pos.segment pos.offset rs)
        × ((read_file room (encoded rs) pos out).reached_segment_end ≡ true)
  unfolding read_file
  read_file-All zero rs pos out good h = absurd (omega arith)
  read_file-All (suc room) [] pos out good h =
      unfold encoded read_record read_exact in (sym (append-nil out), refl)
  read_file-All (suc room) (r ∷ rs) pos out good h =
      let pos' = record pos { offset = pos.offset + (header_len + length r) } in
      let (a, b) =
        read_file-All room rs pos' (out ++ (record { payload = r; next = pos' } ∷ [])) good.1
          (omega arith) in
      rw (read_record_next r rs good.0, read_file)
        (a ∙ append_assoc out (record { payload = r; next = pos' } ∷ []) _, b)

  pub read_file_part :
      (room : ℕ) (rs : List Bytes) (pos : LogPosition) (out : List LogRecord)
      → All IsRecordable rs
      → room ≤ length rs
      → ((read_file room (encoded rs) pos out).out
          ≡ out ++ take room (positions pos.segment pos.offset rs))
        × ((read_file room (encoded rs) pos out).reached_segment_end ≡ false)
  unfolding read_file
  read_file_part zero rs pos out good h = (sym (append-nil out), refl)
  read_file_part (suc room) [] pos out good h = absurd (omega arith)
  read_file_part (suc room) (r ∷ rs) pos out good h =
      let pos' = record pos { offset = pos.offset + (header_len + length r) } in
      let (a, b) =
        read_file_part room rs pos' (out ++ (record { payload = r; next = pos' } ∷ [])) good.1
          (omega arith) in
      rw (read_record_next r rs good.0, read_file)
        (a ∙ append_assoc out (record { payload = r; next = pos' } ∷ []) _, b)

  -- A full batch ends the loop.
  pub read_segments_full :
      (fuel : ℕ) (log : SegmentedLog) (max : ℕ) (pos : LogPosition) (out : List LogRecord)
      → max ≤ length out
      → read_segments fuel log max pos out ≡ out
  unfolding read_segments
  read_segments_full zero log max pos out h = refl
  read_segments_full (suc fuel) log max pos out h = rw (le→ltb (length out) max h, read_segments)

  pub payloads-log_records : (segs : List Seg) → payloads (log_records segs) ≡ unread_of segs
  payloads-log_records [] = refl
  payloads-log_records (s ∷ segs) =
      payloads-append (positions s.id (length (encoded s.read)) s.unread) (log_records segs)
      ∙ ap (λ (rs : List Bytes). rs ++ payloads (log_records segs))
          (payloads-positions s.id (length (encoded s.read)) s.unread)
      ∙ ap (◌++◌ s.unread) (payloads-log_records segs)
