-- ===== src/Wal/Log/Reopening/Recovered.antt =====
-- The log that `open` returns for a directory that a crash left.
use trapd_sensor.Prelude.{
  ℕ, suc, ◌<◌, ◌≡◌, refl, sym, ap, subst, ◌∙◌, Option, none, some, List, [], ◌∷◌, ◌++◌, Bytes, All,
  length, All-split, arith, ◌==◌, if◌then◌else◌,
}
use trapd_sensor.Wal.Record.{Checksum}
use trapd_sensor.Wal.Record.RoundTrip.{IsRecordable}
use trapd_sensor.Wal.Segment.{encoded}
use trapd_sensor.Wal.Directory.{Directory, lookup, range_from, range_from_skip, range_from-All}
use trapd_sensor.Wal.Log.{SegmentedLog, segment_file, create_file, clamp_cursor, or_empty}
use trapd_sensor.Wal.Log.Consuming.{
  open_log, recovered_log, recover_loop, pending_loop, count_pending, nonempty_or_first,
}
use trapd_sensor.Wal.Log.Consumption.{Whole, StartsAt}
use trapd_sensor.Wal.Log.Acknowledging.{starts}
use trapd_sensor.Wal.Log.Delivery.{unread-IsRecordable}
use trapd_sensor.Wal.Log.Invariant.{buffered, Stored, Inv, Represents}
use trapd_sensor.Wal.Log.Shape.{
  Seg, records, ids, ids-append, Chain-split, unread_of, last_of, upto_last, total_size, size_of,
  All-ids, Ascending-least,
}
use trapd_sensor.Wal.Log.Reopening.{Cut, recover_loop-Cut}
use trapd_sensor.Wal.Log.Reopening.Crash.{
  below-All, cursor_of, Crashed, next_back_or-ids, nonempty-ids, cursor-clamped, idle,
  create_file-same, last_whole, pending_loop-Whole,
}

module _ ⦃c : Checksum⦄ {dir : Directory} (segment_bytes : ℕ) {done : List Seg} {cur : Seg}
    {rest : List Seg} (h : Crashed dir done cur rest) where
  segs : List Seg
  segs = done ++ (cur ∷ rest)

  recovered : ℕ × List (ℕ × Bytes)
  recovered = recover_loop (ids (done ++ (cur ∷ rest))) dir.files 0

  cut : Cut dir.files (done ++ (cur ∷ rest)) 0 recovered
  unfolding recovered
  cut = recover_loop-Cut 0 (done ++ (cur ∷ rest)) dir.files 0 h.chain h.files h.recordable

  reopened : SegmentedLog
  reopened = recovered_log dir segment_bytes (ids (done ++ (cur ∷ rest))) recovered.0 recovered.1

  open_eq : open_log dir segment_bytes ≡ record reopened { pending = count_pending reopened }
  unfolding open_log reopened recovered
  open_eq =
      ap
        (λ (xs : List ℕ).
          let log =
            recovered_log dir segment_bytes xs (recover_loop xs dir.files 0).0
              (recover_loop xs dir.files 0).1 in
          record log { pending = count_pending log })
        (ap nonempty_or_first h.there ∙ nonempty-ids done cur rest)

  active_eq : reopened.active_id ≡ (last_of cur rest).id
  unfolding reopened recovered_log clamp_cursor
  active_eq = next_back_or-ids 1 done cur rest

  file_eq : (id : ℕ) → segment_file reopened id ≡ lookup id recovered.1
  unfolding reopened recovered_log clamp_cursor
  file_eq id =
      ap (λ (a : ℕ). lookup id (create_file a recovered.1)) (next_back_or-ids 1 done cur rest)
      ∙ create_file-same (last_of cur rest).id id (encoded (records (last_of cur rest))) recovered.1
          (last_whole recovered.1 done cur rest cut.whole)

  cursor_eq : reopened.cursor ≡ cursor_of cur
  unfolding reopened recovered_log clamp_cursor
  cursor_eq = cursor-clamped dir.cursor_file done cur rest h.chain h.cursor_file

  Whole-files :
      (more : List Seg)
      → All (λ s. lookup s.id recovered.1 ≡ some (encoded (records s))) more
      → All (Whole reopened) more
  Whole-files [] w = tt
  Whole-files (s ∷ more) w = (file_eq s.id ∙ w.0, Whole-files more w.1)

  All-Stored : (more : List Seg) → All (Whole reopened) more → All (Stored reopened) more
  unfolding reopened recovered_log clamp_cursor
  All-Stored [] w = tt
  All-Stored (s ∷ more) w = (
    ap (buffered (if s.id == reopened.active_id then [] else [])) w.0
        ∙ idle (s.id == reopened.active_id) (encoded (records s)),
    All-Stored more w.1,
  )

  segments_eq : reopened.segments ≡ ids (done ++ (cur ∷ rest))
  unfolding reopened recovered_log clamp_cursor
  segments_eq = refl

  Whole-rest : All (Whole reopened) (cur ∷ rest)
  Whole-rest =
      Whole-files (cur ∷ rest)
        (All-split (λ s. lookup s.id recovered.1 ≡ some (encoded (records s))) done (cur ∷ rest)
          cut.whole).1

  pending_eq : count_pending reopened ≡ length (unread_of (cur ∷ rest))
  unfolding count_pending
  pending_eq =
      let (below, chain) = Chain-split 0 done cur rest h.chain in
      let range : range_from reopened.cursor.segment reopened.segments ≡ ids (cur ∷ rest) =
        (λ i. range_from (cursor_eq i).segment ((segments_eq ∙ ids-append done (cur ∷ rest)) i))
        ∙ range_from_skip cur.id (ids done) (ids (cur ∷ rest)) (All-ids cur.id done below)
        ∙ range_from-All cur.id (ids (cur ∷ rest))
            (omega arith, Ascending-least cur.id (suc cur.id) (ids rest) (omega arith) chain.1) in
      ap (λ (xs : List ℕ). pending_loop reopened xs 0) range
      ∙ pending_loop-Whole reopened (cur ∷ rest) 0
          (subst (λ p. All (StartsAt p) (cur ∷ rest)) (sym cursor_eq)
            (starts cur rest chain.1 h.untouched))
          Whole-rest
          (unread-IsRecordable (cur ∷ rest)
            (All-split (λ s. All IsRecordable (records s)) done (cur ∷ rest) h.recordable).1)
      ∙ omega arith

  disk_eq : reopened.disk_bytes ≡ total_size (done ++ (cur ∷ rest))
  unfolding reopened recovered_log clamp_cursor
  disk_eq = omega (arith, cut.sum)

  active_size : reopened.active_bytes ≡ size_of (last_of cur rest)
  unfolding reopened recovered_log clamp_cursor
  active_size =
      (λ i. length (
        or_empty (
          lookup (next_back_or-ids 1 done cur rest i)
            (create_file (next_back_or-ids 1 done cur rest i) recovered.1))))
      ∙ ap (λ (f : Option Bytes). length (or_empty f))
          (create_file-same (last_of cur rest).id (last_of cur rest).id
              (encoded (records (last_of cur rest))) recovered.1
              (last_whole recovered.1 done cur rest cut.whole)
            ∙ last_whole recovered.1 done cur rest cut.whole)

  counted : SegmentedLog
  counted = record reopened { pending = count_pending reopened }

  beyond_last : (id : ℕ) → reopened.active_id < id → segment_file reopened id ≡ none
  beyond_last id above =
      file_eq id
      ∙ cut.others id (
          below-All id (done ++ (cur ∷ rest))
            (upto_last reopened.active_id 0 done cur rest h.chain active_eq) above)
      ∙ h.beyond id (omega (arith, active_eq))

  opened-Inv : Inv counted done cur rest
  unfolding counted
  opened-Inv = record {
    segments_eq = segments_eq;
    chain = h.chain;
    active_eq = active_eq;
    stored = All-Stored (done ++ (cur ∷ rest)) (Whole-files (done ++ (cur ∷ rest)) cut.whole);
    recordable = h.recordable;
    fresh = beyond_last;
    finished = h.finished;
    untouched = h.untouched;
    cursor_eq = cursor_eq;
    pending_eq = pending_eq;
    disk_eq = disk_eq;
    active_size = active_size;
  }

module _ ⦃c : Checksum⦄ where
  -- A directory that a crash left opens as a log that represents what was not confirmed: each
  -- segment loses its torn rest and no whole record, and the records that the cursor file confirms
  -- stay confirmed. That file may be missing or malformed, or name a segment that is gone, where
  -- nothing of the segments that are there is confirmed.
  pub open-Represents :
      (dir : Directory) (segment_bytes : ℕ) (done : List Seg) (cur : Seg) (rest : List Seg)
      → Crashed dir done cur rest
      → Represents (open_log dir segment_bytes) (unread_of (cur ∷ rest))
  unfolding counted
  open-Represents dir segment_bytes done cur rest h =
      subst (λ (g : SegmentedLog). Represents g (unread_of (cur ∷ rest)))
        (sym (open_eq segment_bytes h))
        (record {
          done = done;
          cur = cur;
          rest = rest;
          inv = opened-Inv segment_bytes h;
          view_eq = refl;
        })
