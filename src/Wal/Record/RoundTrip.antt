-- ===== src/Wal/Record/RoundTrip.antt =====
-- What `append` writes, `read_record` reads back; what a torn write leaves, it refuses.
use trapd_sensor.Prelude.{
  ℕ, zero, suc, ◌+◌, ◌≤◌, ◌<◌, ◌≡◌, refl, none, some, [], ◌∷◌, ◌++◌, Bytes, to_le, length-to_le,
  from_le-to_le, take, length, length-append, length-take, arith,
}
use trapd_sensor.Wal.Record.{
  Checksum, header_len, max_record_bytes, read_exact, record_bytes, read_payload, read_record,
}

pub read_exact-append :
    (chunk rest : Bytes) → read_exact (length chunk) (chunk ++ rest) ≡ some (chunk, rest)
unfolding read_exact
read_exact-append [] rest = refl
read_exact-append (b ∷ chunk) rest = ground (arith, read_exact-append chunk rest)

pub read_exact_short : (n : ℕ) (file : Bytes) → length file < n → read_exact n file ≡ none
unfolding read_exact
read_exact_short zero file h = absurd (omega arith)
read_exact_short (suc n) [] h = refl
read_exact_short (suc n) (b ∷ file) h = ground (arith, read_exact_short n file (omega arith))

-- The payload sizes that the reader takes.
pub record IsRecordable (payload : Bytes) : Type 0 where
  pub nonempty : 0 < length payload
  pub fits : length payload ≤ max_record_bytes

module _ ⦃c : Checksum⦄ where
  pub length-record_bytes :
      (payload : Bytes) → length (record_bytes payload) ≡ header_len + length payload
  unfolding record_bytes
  length-record_bytes payload = omega (
    arith,
    length-append (to_le 4 (length payload)) (to_le 4 (c.hash payload) ++ payload),
    length-append (to_le 4 (c.hash payload)) payload,
    length-to_le 4 (length payload),
    length-to_le 4 (c.hash payload),
  )

  header : Bytes → Bytes
  header payload = to_le 4 (length payload) ++ to_le 4 (c.hash payload)

  read_payload-header :
      (payload file : Bytes)
      → IsRecordable payload
      → read_payload (header payload, payload ++ file)
        ≡ some (record { payload = payload; consumed = header_len + length payload; rest = file })
  unfolding read_payload header
  read_payload-header payload file h = ground (
    arith,
    from_le-to_le 4 (length payload),
    from_le-to_le 4 (c.hash payload),
    c.hash-lt payload,
    read_exact-append payload file,
  )

  -- What `append` writes for a payload of an accepted size is read back: the payload, its size with
  -- the header, and the rest of the file.
  pub read_record-record_bytes :
      (payload file : Bytes)
      → IsRecordable payload
      → read_record (record_bytes payload ++ file)
        ≡ some (record { payload = payload; consumed = header_len + length payload; rest = file })
  unfolding read_record record_bytes header
  read_record-record_bytes payload file h =
      unfold read_exact in (read_payload-header payload file h)

  read_payload_short :
      (payload file : Bytes)
      → IsRecordable payload
      → length file < length payload
      → read_payload (header payload, file) ≡ none
  unfolding read_payload header
  read_payload_short payload file h short =
      ground (arith, from_le-to_le 4 (length payload), read_exact_short (length payload) file)

  -- A write of an accepted payload that stopped before its last byte leaves nothing that reads as
  -- a record.
  pub read_record_torn :
      (payload : Bytes) (n : ℕ)
      → IsRecordable payload
      → n < header_len + length payload
      → read_record (take n (record_bytes payload)) ≡ none
  unfolding read_record record_bytes header read_exact
  read_record_torn payload (suc (suc (suc (suc (suc (suc (suc (suc m)))))))) h short =
      read_payload_short payload (take m payload) h (omega (arith, length-take m payload))
  read_record_torn payload n h short = refl
