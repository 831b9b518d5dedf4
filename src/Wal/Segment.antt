-- ===== src/Wal/Segment.antt =====
-- The file level of log.rs: the loops that read a segment file record by record. A segment file
-- is its bytes; each loop's fuel is the file's length, since a record takes nine bytes at least.
pub mod Recovery
pub mod Counting
use trapd_sensor.Prelude.{
  Bool, false, ℕ, zero, suc, ◌+◌, Option, none, some, List, [], ◌∷◌, ◌++◌, Bytes, take, drop,
  length, ltb, leb, if◌then◌else◌,
}
use trapd_sensor.Wal.Record.{Checksum, ReadResult, record_bytes, read_record}

-- `if let Some(limit) = to { if offset >= limit { break; } }`
abbrev pub reached : Option ℕ → ℕ → Bool
reached none offset = false
reached (some limit) offset = leb limit offset

module _ ⦃c : Checksum⦄ where
  -- The file that appending these payloads gives.
  unfoldable pub encoded : List Bytes → Bytes
  encoded [] = []
  encoded (payload ∷ rest) = record_bytes payload ++ encoded rest

  -- `while let Some((_, consumed)) = read_record(&mut file)? { valid_end += consumed; }`
  pub valid_loop : ℕ → Bytes → ℕ → ℕ
  valid_loop zero file valid_end = valid_end
  valid_loop (suc fuel) file valid_end = elim (read_record file) [
    | none ↦ valid_end
    | some r ↦ valid_loop fuel r.rest (valid_end + r.consumed)
  ]

  -- The end of the last valid record, and the file after `set_len`.
  unfoldable pub truncate_to_last_valid_record : Bytes → ℕ × Bytes
  truncate_to_last_valid_record file =
      let valid_end = valid_loop (length file) file 0 in
      if ltb valid_end (length file) then (valid_end, take valid_end file) else (valid_end, file)

  pub scan_loop : ℕ → Bytes → ℕ → ℕ → ℕ × ℕ
  scan_loop zero file count bytes = (count, bytes)
  scan_loop (suc fuel) file count bytes = elim (read_record file) [
    | none ↦ (count, bytes)
    | some r ↦ scan_loop fuel r.rest (count + 1) (bytes + r.consumed)
  ]

  -- (records, bytes) of a segment.
  unfoldable pub scan_segment : Bytes → ℕ × ℕ
  scan_segment file = scan_loop (length file) file 0 0

  pub count_loop : ℕ → Bytes → ℕ → Option ℕ → ℕ → ℕ
  count_loop zero file offset to count = count
  count_loop (suc fuel) file offset to count = elim (read_record file) [
    | none ↦ count
    | some r ↦
        let offset' = offset + r.consumed in
        let rest = count_loop fuel r.rest offset' to (count + 1) in
        if reached to offset' then count + 1 else rest
  ]

  -- A file that is not there counts no record.
  unfoldable pub count_records_in_range : Option Bytes → ℕ → Option ℕ → ℕ
  count_records_in_range none from to = 0
  count_records_in_range (some file) from to = count_loop (length file) (drop from file) from to 0

  abbrev pub count_records_from : Option Bytes → ℕ → ℕ
  count_records_from file from = count_records_in_range file from none
