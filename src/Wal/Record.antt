-- ===== src/Wal/Record.antt =====
-- The record format of log.rs: `len: u32 le`, `crc32: u32 le`, payload; `read_record` at a file
-- position, which is the list of the bytes that the file still holds.
pub mod RoundTrip
use trapd_sensor.Prelude.{
  ℕ, zero, suc, ◌+◌, ◌*◌, ◌^◌, ◌<◌, ◌≡◌, Option, none, some, List, [], ◌∷◌, ◌++◌, ◌||◌, Bytes,
  from_le, to_le, take, drop, length, ltb, ◌==◌, if◌then◌else◌,
}

-- `crc32fast::hash`, a crate that the log only calls: any function into the 32-bit words.
pub record Checksum : Type 0 where
  pub hash : Bytes → ℕ
  pub hash-lt : (payload : Bytes) → hash payload < 256 ^ 4

abbrev pub header_len : ℕ
header_len = 8

abbrev pub max_record_bytes : ℕ
max_record_bytes = 1024 * 1024

-- `Read::read_exact`: the bytes read and the rest of the file; `none` is an unexpected end.
unfoldable pub read_exact : ℕ → Bytes → Option (Bytes × Bytes)
read_exact zero file = some ([], file)
read_exact (suc n) [] = none
read_exact (suc n) (b ∷ file) = elim (read_exact n file) [
  | none ↦ none
  | some (chunk, rest) ↦ some (b ∷ chunk, rest)
]

-- What `read_record` returns, with the file position behind the record as the bytes left.
pub record ReadResult : Type 0 where
  pub payload : Bytes
  pub consumed : ℕ
  pub rest : Bytes

module _ ⦃c : Checksum⦄ where
  -- The two writes of `append`: the header, then the payload.
  unfoldable pub record_bytes : Bytes → Bytes
  record_bytes payload = to_le 4 (length payload) ++ (to_le 4 (c.hash payload) ++ payload)

  check_crc : ℕ → ℕ → Bytes × Bytes → Option ReadResult
  check_crc len crc (payload, rest) =
      if c.hash payload == crc
      then some (record { payload = payload; consumed = header_len + len; rest = rest })
      else none

  read_payload : Bytes × Bytes → Option ReadResult
  unfolding check_crc
  read_payload (header, file) =
      let len = from_le (take 4 header) in
      let crc = from_le (drop 4 header) in
      if len == 0 || ltb max_record_bytes len
      then none
      else elim (read_exact len file) [ none ↦ none | some read ↦ check_crc len crc read ]

  unfoldable pub read_record : Bytes → Option ReadResult
  unfolding read_payload
  read_record file = elim (read_exact header_len file) [
    | none ↦ none
    | some read ↦ read_payload read
  ]
