-- ===== src/Wal/Segment/Recovery.antt =====
-- Crash recovery of one segment file: what `truncate_to_last_valid_record` keeps.
use trapd_sensor.Prelude.{
  ℕ, zero, suc, ◌+◌, ◌≤◌, ◌<◌, ◌≡◌, refl, sym, ap, ◌∙◌, none, some, List, [], ◌∷◌, ◌++◌,
  append_assoc, Bytes, All, take, length, length-append, take-append_length, take_all, arith,
}
use trapd_sensor.Wal.Record.{Checksum, header_len, record_bytes, read_record}
use trapd_sensor.Wal.Record.RoundTrip.{
  IsRecordable, length-record_bytes, read_record-record_bytes, read_record_torn,
}
use trapd_sensor.Wal.Segment.{encoded, valid_loop, truncate_to_last_valid_record}

module _ ⦃c : Checksum⦄ where
  -- A record takes nine bytes at least, so the file's length is enough fuel.
  pub length-le-encoded : (rs : List Bytes) → length rs ≤ length (encoded rs)
  unfolding encoded
  length-le-encoded [] = omega arith
  length-le-encoded (r ∷ rs) = omega (
    arith,
    length-append (record_bytes r) (encoded rs),
    length-record_bytes r,
    length-le-encoded rs,
  )

  pub encoded-nil : encoded [] ≡ []
  unfolding encoded
  encoded-nil = refl

  pub encoded-append : (rs ss : List Bytes) → encoded (rs ++ ss) ≡ encoded rs ++ encoded ss
  unfolding encoded
  encoded-append [] ss = refl
  encoded-append (r ∷ rs) ss =
      ap (◌++◌ (record_bytes r)) (encoded-append rs ss)
      ∙ sym (append_assoc (record_bytes r) (encoded rs) (encoded ss))

  pub read_record-encoded :
      (r : Bytes) (rs : List Bytes) (tail : Bytes)
      → IsRecordable r
      → read_record (encoded (r ∷ rs) ++ tail)
        ≡ some (record { payload = r; consumed = header_len + length r; rest = encoded rs ++ tail })
  unfolding encoded
  read_record-encoded r rs tail h =
      rw append_assoc (read_record-record_bytes r (encoded rs ++ tail) h)

  pub length-encoded-cons :
      (r : Bytes) (rs : List Bytes)
      → length (encoded (r ∷ rs)) ≡ header_len + length r + length (encoded rs)
  unfolding encoded
  length-encoded-cons r rs =
      omega (arith, length-append (record_bytes r) (encoded rs), length-record_bytes r)

  valid_loop-encoded :
      (rs : List Bytes) (fuel : ℕ) (tail : Bytes) (v : ℕ)
      → All IsRecordable rs
      → read_record tail ≡ none
      → length rs ≤ fuel
      → valid_loop fuel (encoded rs ++ tail) v ≡ v + length (encoded rs)
  unfolding valid_loop
  valid_loop-encoded [] zero tail v good end enough = unfold encoded in omega arith
  valid_loop-encoded [] (suc fuel) tail v good end enough =
      unfold encoded in rw (end, valid_loop) (omega arith)
  valid_loop-encoded (r ∷ rs) zero tail v good end enough = absurd (omega arith)
  valid_loop-encoded (r ∷ rs) (suc fuel) tail v good end enough =
      rw (read_record-encoded r rs tail good.0, valid_loop)
        (omega (
          arith,
          valid_loop-encoded rs fuel tail (v + (header_len + length r)) good.1 end (omega arith),
          length-encoded-cons r rs,
        ))

  -- Whatever unreadable bytes follow the valid records, recovery cuts the file behind them.
  pub truncate-encoded :
      (rs : List Bytes) (tail : Bytes)
      → All IsRecordable rs
      → read_record tail ≡ none
      → truncate_to_last_valid_record (encoded rs ++ tail) ≡ (length (encoded rs), encoded rs)
  unfolding truncate_to_last_valid_record
  truncate-encoded rs tail good end = ground (
    arith,
    valid_loop-encoded rs (length (encoded rs ++ tail)) tail 0 good end,
    length-le-encoded rs,
    length-append (encoded rs) tail,
    take-append_length (encoded rs) tail,
    take_all (length (encoded rs)) (encoded rs ++ tail),
  )

  -- Recovery of a segment of accepted payloads that ends in the torn write of an accepted
  -- payload keeps exactly the records before it.
  pub truncate_torn :
      (rs : List Bytes) (payload : Bytes) (n : ℕ)
      → All IsRecordable rs
      → IsRecordable payload
      → n < header_len + length payload
      → truncate_to_last_valid_record (encoded rs ++ take n (record_bytes payload))
        ≡ (length (encoded rs), encoded rs)
  truncate_torn rs payload n good h short =
      truncate-encoded rs (take n (record_bytes payload)) good (read_record_torn payload n h short)
