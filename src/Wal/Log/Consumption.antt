-- ===== src/Wal/Log/Consumption.antt =====
-- The parts of `commit`: what it counts between two positions, and the segments that it collects.
use trapd_sensor.Prelude.{
  ℕ, suc, ◌+◌, ◌≤◌, ◌<◌, ◌≡◌, refl, sym, ap, ◌∙◌, none, some, List, [], ◌∷◌, ◌++◌, append-nil,
  Bytes, All, length, length-append, arith, Bool, false, ==_refl, ◌==◌, if◌then◌else◌,
}
use trapd_sensor.Wal.Record.{Checksum, read_record, read_exact}
use trapd_sensor.Wal.Record.RoundTrip.{IsRecordable}
use trapd_sensor.Wal.Segment.{encoded, count_records_in_range}
use trapd_sensor.Wal.Segment.Counting.{count_from-encoded, count_range_later}
use trapd_sensor.Wal.Directory.{remove, lookup-remove_segment}
use trapd_sensor.Wal.Log.{SegmentedLog, LogPosition, segment_file, or_empty}
use trapd_sensor.Wal.Log.Consuming.{between_loop, collect_loop, unlink}
use trapd_sensor.Wal.Log.Shape.{
  Seg, records, ids, Chain, unread_of, size_of, total_size, Chain-weaken,
}

module _ ⦃c : Checksum⦄ where
  -- The file of a segment is there as a whole.
  abbrev pub Whole : SegmentedLog → Seg → Type 0
  Whole log s = segment_file log s.id ≡ some (encoded (records s))

  -- A count in this segment starts behind what was read of it.
  abbrev pub StartsAt : LogPosition → Seg → Type 0
  StartsAt from s = (if s.id == from.segment then from.offset else 0) ≡ length (encoded s.read)

  pub count_whole :
      (s : Seg)
      → All IsRecordable s.unread
      → count_records_in_range (some (encoded (records s))) (length (encoded s.read)) none
        ≡ length s.unread
  count_whole s good =
      ap (λ b. count_records_in_range (some b) (length (encoded s.read)) none)
        (sym (append-nil (encoded (records s))))
      ∙ count_from-encoded s.read s.unread [] good (unfold read_record read_exact in refl)

  -- Segments before the last one of the range count with all that is unread in them.
  pub between-mids :
      (log : SegmentedLog) (from to : LogPosition) (mids : List Seg) (more : List ℕ) (total : ℕ)
      → All (StartsAt from) mids
      → All (Whole log) mids
      → All (λ s. All IsRecordable s.unread) mids
      → All (λ s. s.id < to.segment) mids
      → between_loop log from to (ids mids ++ more) total
        ≡ between_loop log from to more (total + length (unread_of mids))
  unfolding between_loop
  between-mids log from to [] more total st wh good below =
      let e : total ≡ total + 0 = omega arith in ap (between_loop log from to more) e
  between-mids log from to (s ∷ mids) more total st wh good below =
      let inside : (s.id == to.segment) ≡ false = ground arith in
      let here =
        (λ i.
          count_records_in_range (wh.0 i) (st.0 i)
            (ap (λ (b : Bool). if b then some to.offset else none) inside i))
        ∙ count_whole s good.0 in
      let sum : total + length s.unread + length (unread_of mids)
          ≡ total + length (unread_of (s ∷ mids)) =
        omega (arith, length-append s.unread (unread_of mids)) in
      ap (λ (n : ℕ). between_loop log from to (ids mids ++ more) (total + n)) here
      ∙ between-mids log from to mids more (total + length s.unread) st.1 wh.1 good.1 below.1
      ∙ ap (between_loop log from to more) sum

  -- The range's last segment counts up to the position.
  pub between_last :
      (log : SegmentedLog) (from : LogPosition) (s : Seg) (first : Bytes) (consumed : List Bytes)
      (tail : Bytes) (total : ℕ)
      → StartsAt from s
      → segment_file log s.id ≡ some (encoded (s.read ++ (first ∷ consumed)) ++ tail)
      → All IsRecordable (first ∷ consumed)
      → between_loop log from
          (record { segment = s.id; offset = length (encoded (s.read ++ (first ∷ consumed))) })
          (s.id ∷ [])
          total
        ≡ total + suc (length consumed)
  unfolding between_loop
  between_last log from s first consumed tail total st file good =
      ap (λ (n : ℕ). total + n)
        ((λ i. count_records_in_range (file i) (st i) (
            ap
              (λ (b : Bool).
                if b then some (length (encoded (s.read ++ (first ∷ consumed)))) else none)
              (==_refl s.id) i))
          ∙ count_range_later s.read consumed tail first good)

-- What collecting leaves: the later segments and their files.
pub record Collected (log log' : SegmentedLog) (last : ℕ) (keep : List ℕ) (size : ℕ) : Type 0 where
  pub same : log' ≡ record log {
    dir = record log.dir { files = log'.dir.files };
    segments = log'.segments;
    disk_bytes = log'.disk_bytes;
  }
  pub segments_eq : log'.segments ≡ keep
  pub disk_eq : log'.disk_bytes ≡ size
  pub kept : (id : ℕ) → last ≤ id → segment_file log' id ≡ segment_file log id

pub remove_head : (x : ℕ) (xs : List ℕ) → remove x (x ∷ xs) ≡ xs
unfolding remove
remove_head x xs = ground arith

pub unlink_other :
    (log : SegmentedLog) (x size id : ℕ)
    → x < id
    → segment_file (unlink log x size) id ≡ segment_file log id
unfolding unlink
unlink_other log x size id h = ground (arith, lookup-remove_segment x id log.dir.files)

module _ ⦃c : Checksum⦄ where
  unlink-Whole :
      (log : SegmentedLog) (x size : ℕ) (segs : List Seg)
      → Chain (suc x) segs
      → All (Whole log) segs
      → All (Whole (unlink log x size)) segs
  unlink-Whole log x size [] ch wh = tt
  unlink-Whole log x size (s ∷ segs) ch wh = (
    unlink_other log x size s.id ch.0 ∙ wh.0,
    unlink-Whole log x size segs (Chain-weaken {m = suc x} {n = suc s.id} segs (omega arith) ch.1)
        wh.1,
  )

  -- The segments before the last one are unlinked, one by one.
  pub collect_loop-Collected :
      (n : ℕ) (gone : List Seg) (log : SegmentedLog) (last : ℕ) (keep : List ℕ) (size : ℕ)
      → log.segments ≡ ids gone ++ keep
      → All (λ s. s.id < last) gone
      → last ≤ log.active_id
      → Chain n gone
      → All (Whole log) gone
      → log.disk_bytes ≡ total_size gone + size
      → Collected log (collect_loop (ids gone) log) last keep size
  unfolding collect_loop
  collect_loop-Collected n [] log last keep size e below up ch wh d = record {
    same = refl;
    segments_eq = e;
    disk_eq = omega arith;
    kept = λ id h. refl;
  }
  collect_loop-Collected n (s ∷ gone) log last keep size e below up ch wh d =
      let inactive : (s.id == log.active_id) ≡ false = ground arith in
      let file_size : length (or_empty (segment_file log s.id)) ≡ size_of s =
        ap (λ f. length (or_empty f)) wh.0 in
      let next = unlink log s.id (length (or_empty (segment_file log s.id))) in
      let segments' : next.segments ≡ ids gone ++ keep =
        unfold unlink in (ap (remove s.id) e ∙ remove_head s.id (ids gone ++ keep)) in
      let disk' : next.disk_bytes ≡ total_size gone + size = unfold unlink in omega arith in
      let up' : last ≤ next.active_id = unfold unlink in up in
      let whole' =
        unlink-Whole log s.id (length (or_empty (segment_file log s.id))) gone ch.1 wh.1 in
      let rest =
        collect_loop-Collected (suc s.id) gone next last keep size segments' below.1 up' ch.1 whole'
          disk' in
      rw (inactive, collect_loop)
        (record {
          same = rest.same;
          segments_eq = rest.segments_eq;
          disk_eq = rest.disk_eq;
          kept = λ id h.
              rest.kept id h
              ∙ unlink_other log s.id (length (or_empty (segment_file log s.id))) id (omega arith);
        })
