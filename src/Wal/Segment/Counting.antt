-- ===== src/Wal/Segment/Counting.antt =====
-- What the counting loops of log.rs answer on a file of records: the records between two record
-- boundaries, and all of them with their bytes.
use trapd_sensor.Prelude.{
  ℕ, zero, suc, ◌+◌, ◌<◌, ◌≤◌, ◌≡◌, refl, ap, ◌∙◌, none, some, List, [], ◌∷◌, ◌++◌, append_assoc,
  append-nil, Bytes, All, drop, length, length-append, drop-append_length, arith,
}
use trapd_sensor.Wal.Record.{read_exact, Checksum, header_len, read_record}
use trapd_sensor.Wal.Record.RoundTrip.{IsRecordable}
use trapd_sensor.Wal.Segment.{
  encoded, scan_loop, scan_segment, count_loop, count_records_in_range, count_records_from,
}
use trapd_sensor.Wal.Segment.Recovery.{
  read_record-encoded, length-encoded-cons, length-le-encoded, encoded-append, encoded-nil,
}

positive-suc : (n : ℕ) → 0 < n → (m : ℕ) × (n ≡ suc m)
positive-suc zero h = absurd (omega arith)
positive-suc (suc m) h = (m, refl)

module _ ⦃c : Checksum⦄ where
  scan_loop-encoded :
      (rs : List Bytes) (fuel : ℕ) (tail : Bytes) (n b : ℕ)
      → All IsRecordable rs
      → read_record tail ≡ none
      → length rs ≤ fuel
      → scan_loop fuel (encoded rs ++ tail) n b ≡ (n + length rs, b + length (encoded rs))
  unfolding scan_loop
  scan_loop-encoded [] zero tail n b good end enough = unfold encoded in ground arith
  scan_loop-encoded [] (suc fuel) tail n b good end enough = unfold encoded in ground arith
  scan_loop-encoded (r ∷ rs) zero tail n b good end enough = absurd (omega arith)
  scan_loop-encoded (r ∷ rs) (suc fuel) tail n b good end enough = ground (
    arith,
    read_record-encoded r rs tail good.0,
    scan_loop-encoded rs fuel tail (n + 1) (b + (header_len + length r)) good.1 end,
    length-encoded-cons r rs,
  )

  -- A scan of a segment of accepted payloads returns how many they are and how many bytes they take.
  pub scan_segment-encoded :
      (rs : List Bytes)
      → All IsRecordable rs
      → scan_segment (encoded rs) ≡ (length rs, length (encoded rs))
  unfolding scan_segment
  scan_segment-encoded rs good = ground (
    arith,
    append-nil (encoded rs),
    length-le-encoded rs,
    scan_loop-encoded rs (length (encoded rs)) [] 0 0 good (unfold read_record read_exact in refl),
  )

  -- A count with no limit counts every record up to the unreadable end.
  count_loop-encoded :
      (rs : List Bytes) (fuel : ℕ) (tail : Bytes) (offset n : ℕ)
      → All IsRecordable rs
      → read_record tail ≡ none
      → length rs ≤ fuel
      → count_loop fuel (encoded rs ++ tail) offset none n ≡ n + length rs
  unfolding count_loop
  count_loop-encoded [] zero tail o n good end enough = unfold encoded in ground arith
  count_loop-encoded [] (suc fuel) tail o n good end enough = unfold encoded in ground arith
  count_loop-encoded (r ∷ rs) zero tail o n good end enough = absurd (omega arith)
  count_loop-encoded (r ∷ rs) (suc fuel) tail o n good end enough = ground (
    arith,
    read_record-encoded r rs tail good.0,
    count_loop-encoded rs fuel tail (o + (header_len + length r)) (n + 1) good.1 end,
  )

  -- With a limit at a later record boundary it counts the records up to it.
  count_loop-limit :
      (r : Bytes) (rs : List Bytes) (fuel : ℕ) (tail : Bytes) (offset limit n : ℕ)
      → All IsRecordable (r ∷ rs)
      → suc (length rs) ≤ fuel
      → limit ≡ offset + length (encoded (r ∷ rs))
      → count_loop fuel (encoded (r ∷ rs) ++ tail) offset (some limit) n ≡ n + suc (length rs)
  unfolding count_loop
  count_loop-limit r rs zero tail o limit n good enough e = absurd (omega arith)
  count_loop-limit r [] (suc fuel) tail o limit n good enough e =
      ground
        (arith, read_record-encoded r [] tail good.0, length-encoded-cons r [], encoded-nil ⦃c = c⦄)
  count_loop-limit r (s ∷ rs) (suc fuel) tail o limit n good enough e = ground (
    arith,
    read_record-encoded r (s ∷ rs) tail good.0,
    length-encoded-cons r (s ∷ rs),
    length-encoded-cons s rs,
    count_loop-limit s rs fuel tail (o + (header_len + length r)) limit (n + 1) good.1,
  )

  -- Reading from behind the first records: the later records and the rest of the file.
  pub drop-encoded :
      (pre rs : List Bytes) (tail : Bytes)
      → drop (length (encoded pre)) (encoded (pre ++ rs) ++ tail) ≡ encoded rs ++ tail
  drop-encoded pre rs tail =
      rw (encoded-append pre rs, append_assoc)
        (drop-append_length (encoded pre) (encoded rs ++ tail))

  fuel-enough :
      (pre rs : List Bytes) (tail : Bytes) → length rs ≤ length (encoded (pre ++ rs) ++ tail)
  fuel-enough pre rs tail = omega (
    arith,
    length-append (encoded (pre ++ rs)) tail,
    ap length (encoded-append pre rs),
    length-append (encoded pre) (encoded rs),
    length-le-encoded rs,
  )

  -- From a record boundary on, `count_records_from` counts the records behind it.
  pub count_from-encoded :
      (pre rs : List Bytes) (tail : Bytes)
      → All IsRecordable rs
      → read_record tail ≡ none
      → count_records_from (some (encoded (pre ++ rs) ++ tail)) (length (encoded pre)) ≡ length rs
  unfolding count_records_in_range
  count_from-encoded pre rs tail good end =
      let fuel = length (encoded (pre ++ rs) ++ tail) in
      let enough : length rs ≤ fuel = omega (arith, fuel-enough pre rs tail) in
      rw (drop-encoded pre rs tail)
        (omega (arith, count_loop-encoded rs fuel tail (length (encoded pre)) 0 good end enough))

  -- At the limit already, it counts the record that follows: the limit is tested behind a record.
  count_loop-at_limit :
      (r : Bytes) (rs : List Bytes) (fuel : ℕ) (tail : Bytes) (offset n : ℕ)
      → All IsRecordable (r ∷ rs)
      → count_loop (suc fuel) (encoded (r ∷ rs) ++ tail) offset (some offset) n ≡ n + 1
  unfolding count_loop
  count_loop-at_limit r rs fuel tail offset n good =
      ground (arith, read_record-encoded r rs tail good.0)

  -- Between two different record boundaries it counts the records that lie there.
  pub count_range_later :
      (pre rs : List Bytes) (tail : Bytes) (r : Bytes)
      → All IsRecordable (r ∷ rs)
      → count_records_in_range
          (some (encoded (pre ++ (r ∷ rs)) ++ tail))
          (length (encoded pre))
          (some (length (encoded (pre ++ (r ∷ rs)))))
        ≡ suc (length rs)
  unfolding count_records_in_range
  count_range_later pre rs tail r good =
      let fuel = length (encoded (pre ++ (r ∷ rs)) ++ tail) in
      let enough : suc (length rs) ≤ fuel = omega (arith, fuel-enough pre (r ∷ rs) tail) in
      let end : length (encoded (pre ++ (r ∷ rs)))
          ≡ length (encoded pre) + length (encoded (r ∷ rs)) =
        ap length (encoded-append pre (r ∷ rs)) ∙ length-append (encoded pre) (encoded (r ∷ rs)) in
      rw (drop-encoded pre (r ∷ rs) tail) (
        omega (
          arith,
          count_loop-limit r rs fuel tail (length (encoded pre))
              (length (encoded (pre ++ (r ∷ rs)))) 0 good enough end,
        ))

  count_range_here :
      (pre rs : List Bytes) (tail : Bytes) (r : Bytes)
      → All IsRecordable (r ∷ rs)
      → count_records_in_range
          (some (encoded (pre ++ (r ∷ rs)) ++ tail))
          (length (encoded pre))
          (some (length (encoded pre)))
        ≡ 1
  unfolding count_records_in_range
  count_range_here pre rs tail r good =
      let all = encoded (pre ++ (r ∷ rs)) ++ tail in
      let (fuel, positive) = positive-suc (length all) (
        let enough : suc (length rs) ≤ length all = omega (arith, fuel-enough pre (r ∷ rs) tail) in
        omega arith) in
      rw (drop-encoded pre (r ∷ rs) tail, positive)
        (count_loop-at_limit r rs fuel tail (length (encoded pre)) 0 good)

  -- In a file with a record of an accepted payload behind a record boundary, the count from there
  -- to a later boundary is the number of records between the two, whatever follows them; the count
  -- from there to the same boundary is one, the record that follows.
  pub count_range-encoded :
      (pre rs : List Bytes) (tail : Bytes) (r : Bytes)
      → All IsRecordable (r ∷ rs)
      → (count_records_in_range
            (some (encoded (pre ++ (r ∷ rs)) ++ tail))
            (length (encoded pre))
            (some (length (encoded (pre ++ (r ∷ rs)))))
          ≡ suc (length rs))
        × (count_records_in_range
              (some (encoded (pre ++ (r ∷ rs)) ++ tail))
              (length (encoded pre))
              (some (length (encoded pre)))
            ≡ 1)
  count_range-encoded pre rs tail r good =
      (count_range_later pre rs tail r good, count_range_here pre rs tail r good)
