-- ===== src/Wal/Log/Dropping.antt =====
-- `drop_oldest_segment`: retention costs the oldest segment, and reports how many pending records
-- went with it.
pub mod Retention
use trapd_sensor.Prelude.{
  ℕ, zero, suc, ◌+◌, ◌-◌, ◌≤◌, ◌<◌, ◌≡◌, ◌≢◌, ◌⊎◌, refl, sym, ap, subst, ◌∙◌, Option, none, some,
  List, [], ◌∷◌, ◌++◌, append_assoc, append-nil, Bytes, All, length, length-append, All-split,
  arith, drop, drop-append_length, inl, inr, ◌==◌, ==_refl, if◌then◌else◌, ltb, Bool, true, false,
}
use trapd_sensor.Wal.Record.{Checksum, read_record, read_exact}
use trapd_sensor.Wal.Record.RoundTrip.{IsRecordable}
use trapd_sensor.Wal.Segment.{encoded, scan_segment, count_records_in_range}
use trapd_sensor.Wal.Segment.Recovery.{encoded-nil}
use trapd_sensor.Wal.Segment.Counting.{scan_segment-encoded, count_from-encoded}
use trapd_sensor.Wal.Directory.{remove}
use trapd_sensor.Wal.Log.{
  SegmentedLog, LogPosition, segment_file, write_cursor, clamp_cursor, clamp_to,
}
use trapd_sensor.Wal.Log.Consuming.{
  unlink, unread_in, scan_or_zero, drop_segment, drop_oldest, drop_oldest_segment,
}
use trapd_sensor.Wal.Log.Consumption.{Whole, unlink_other, remove_head, count_whole}
use trapd_sensor.Wal.Log.Acknowledging.{closed-Whole}
use trapd_sensor.Wal.Log.Invariant.{content, buffered, Stored, Inv, Represents}
use trapd_sensor.Wal.Log.Shape.{
  Seg, records, ids, Chain, Chain-weaken, Chain-split, Chain-last, unread_of, last_of, below_last,
  size_of, total_size,
}

module _ ⦃c : Checksum⦄ where
  unfoldable dropped_log : SegmentedLog → Seg → ℕ → SegmentedLog
  dropped_log log s unread =
      let unlinked = unlink log s.id (size_of s) in
      write_cursor (
        clamp_cursor
          (record unlinked { pending = log.pending - unread; dropped = log.dropped + unread }))

  drop_segment-Whole :
      (log : SegmentedLog) (s : Seg) (unread : ℕ)
      → s.id < log.active_id
      → Whole log s
      → All IsRecordable (records s)
      → unread_in log s.id ≡ unread
      → drop_segment log s.id ≡ (some unread, dropped_log log s unread)
  unfolding drop_segment dropped_log scan_or_zero
  drop_segment-Whole log s unread below whole good e =
      let closed : (s.id == log.active_id) ≡ false = ground arith in
      let scanned : scan_or_zero (segment_file log s.id) ≡ (length (records s), size_of s) =
        ap scan_or_zero whole ∙ scan_segment-encoded (records s) good in
      rw (closed, drop_segment) (rw (e, scanned) refl)

  -- What the later segments of the two logs share.
  record Behind (log log' : SegmentedLog) (n : ℕ) : Type 0 where
    active : log'.active_id ≡ log.active_id
    held_back : log'.writer ≡ log.writer
    active_bytes : log'.active_bytes ≡ log.active_bytes
    files : (id : ℕ) → n < id → segment_file log' id ≡ segment_file log id

  dropped-Behind :
      (log : SegmentedLog) (s : Seg) (unread : ℕ) → Behind log (dropped_log log s unread) s.id
  unfolding dropped_log write_cursor unlink clamp_cursor
  dropped-Behind log s unread = record {
    active = refl;
    held_back = refl;
    active_bytes = refl;
    files = λ id h. unlink_other log s.id (size_of s) id h;
  }

  Behind-Stored :
      (log log' : SegmentedLog) (n m : ℕ) (segs : List Seg)
      → Behind log log' n
      → n < m
      → Chain m segs
      → All (Stored log) segs
      → All (Stored log') segs
  Behind-Stored log log' n m [] b h ch st = tt
  Behind-Stored log log' n m (s ∷ segs) b h ch st = (
    (λ i.
          buffered (if s.id == b.active i then b.held_back i else [])
            (b.files s.id (omega arith) i))
        ∙ st.0,
    Behind-Stored log log' n (suc s.id) segs b (omega arith) ch.1 st.1,
  )

  -- What a read segment and the cursor's own segment count.
  unread_done : (log : SegmentedLog) (id : ℕ) → id < log.cursor.segment → unread_in log id ≡ 0
  unfolding unread_in
  unread_done log id h = ground arith

  unread_cur :
      (log : SegmentedLog) (s : Seg)
      → log.cursor ≡ record { segment = s.id; offset = length (encoded s.read) }
      → Whole log s
      → All IsRecordable s.unread
      → unread_in log s.id ≡ length s.unread
  unfolding unread_in
  unread_cur log s at whole good =
      let here : log.cursor.segment ≡ s.id = ap (λ (p : LogPosition). p.segment) at in
      let from : log.cursor.offset ≡ length (encoded s.read) =
        ap (λ (p : LogPosition). p.offset) at in
      let later : ltb s.id log.cursor.segment ≡ false = ground arith in
      let same : (log.cursor.segment == s.id) ≡ true = ground arith in
      rw (later, unread_in) (rw same (rw (whole, from) (count_whole s good)))

  rest_eq :
      (log : SegmentedLog) (s : Seg) (unread : ℕ) (more : List ℕ)
      → log.segments ≡ s.id ∷ more
      → (dropped_log log s unread).segments ≡ more
  unfolding dropped_log write_cursor unlink clamp_cursor
  rest_eq log s unread more e = ap (remove s.id) e ∙ remove_head s.id more

  pub clamp_keeps :
      (done : List Seg) (cur : Seg) (rest : List Seg) (at : LogPosition)
      → Chain 0 (done ++ (cur ∷ rest))
      → at.segment ≡ cur.id
      → clamp_to (ids (done ++ (cur ∷ rest))) at ≡ at
  unfolding clamp_to
  clamp_keeps [] cur rest at ch e = ground arith
  clamp_keeps (d ∷ done) cur rest at ch e =
      let below : d.id < cur.id = (Chain-split 0 (d ∷ done) cur rest ch).0.0 in ground arith

  clamp_moves :
      (s t : Seg) (rest : List Seg) (at : LogPosition)
      → s.id < t.id
      → at.segment ≡ s.id
      → t.read ≡ []
      → clamp_to (ids (t ∷ rest)) at ≡ record { segment = t.id; offset = length (encoded t.read) }
  unfolding clamp_to
  clamp_moves s t rest at h e un =
      let behind : ltb at.segment t.id ≡ true = ground arith in
      let offset : 0 ≡ length (encoded t.read) =
        sym (ap (λ (rs : List Bytes). length (encoded rs)) un ∙ ap length encoded-nil) in
      rw (behind, clamp_to) (ap (λ (o : ℕ). record { segment = t.id; offset = o }) offset)

  drop_done :
      (log : SegmentedLog) (d : Seg) (done : List Seg) (cur : Seg) (rest : List Seg)
      → Inv log (d ∷ done) cur rest
      → Inv (dropped_log log d 0) done cur rest
  unfolding dropped_log write_cursor unlink clamp_cursor
  drop_done log d done cur rest v =
      let segs = rest_eq log d 0 (ids (done ++ (cur ∷ rest))) v.segments_eq in
      record {
        segments_eq = segs;
        chain = Chain-weaken {m = 0} {n = suc d.id} (done ++ (cur ∷ rest)) (omega arith) v.chain.1;
        active_eq = v.active_eq;
        stored =
            Behind-Stored log (dropped_log log d 0) d.id (suc d.id) (done ++ (cur ∷ rest))
              (dropped-Behind log d 0) (omega arith) v.chain.1 v.stored.1;
        recordable = v.recordable.1;
        fresh = λ id h.
            unlink_other log d.id (size_of d) id (
              omega (arith, (below_last log.active_id 0 (d ∷ done) cur rest v.chain v.active_eq).0))
            ∙ v.fresh id h;
        finished = v.finished.1;
        untouched = v.untouched;
        cursor_eq =
            ap (λ (xs : List ℕ). clamp_to xs log.cursor) segs
            ∙ clamp_keeps done cur rest log.cursor
                (Chain-weaken {m = 0} {n = suc d.id} (done ++ (cur ∷ rest)) (omega arith) v.chain.1)
                (ap (λ (p : LogPosition). p.segment) v.cursor_eq)
            ∙ v.cursor_eq;
        pending_eq = omega (arith, v.pending_eq);
        disk_eq = omega (arith, v.disk_eq);
        active_size = v.active_size;
      }

  drop_cur :
      (log : SegmentedLog) (cur t : Seg) (rest : List Seg)
      → Inv log [] cur (t ∷ rest)
      → Inv (dropped_log log cur (length cur.unread)) [] t rest
  unfolding dropped_log write_cursor unlink clamp_cursor
  drop_cur log cur t rest v =
      let segs = rest_eq log cur (length cur.unread) (ids (t ∷ rest)) v.segments_eq in
      record {
        segments_eq = segs;
        chain = Chain-weaken {m = 0} {n = suc cur.id} (t ∷ rest) (omega arith) v.chain.1;
        active_eq = v.active_eq;
        stored =
            Behind-Stored log (dropped_log log cur (length cur.unread)) cur.id (suc cur.id)
              (t ∷ rest) (dropped-Behind log cur (length cur.unread)) (omega arith) v.chain.1
              v.stored.1;
        recordable = v.recordable.1;
        fresh = λ id h.
            unlink_other log cur.id (size_of cur) id
              (omega (arith, v.active_eq, v.chain.1.0, Chain-last (suc cur.id) t rest v.chain.1))
            ∙ v.fresh id h;
        finished = tt;
        untouched = v.untouched.1;
        cursor_eq =
            ap (λ (xs : List ℕ). clamp_to xs log.cursor) segs
            ∙ clamp_moves cur t rest log.cursor (omega (arith, v.chain.1.0))
                (ap (λ (p : LogPosition). p.segment) v.cursor_eq) v.untouched.0;
        pending_eq = omega (arith, v.pending_eq, length-append cur.unread (unread_of (t ∷ rest)));
        disk_eq = omega (arith, v.disk_eq);
        active_size = v.active_size;
      }
