-- ===== src/Wal/Log/Commits.antt =====
-- `commit` of a pending record's position takes that record and all before it out of the log.
pub mod Outcome
pub mod Left
use trapd_sensor.Prelude.{
  ℕ, zero, suc, ◌+◌, ◌-◌, ◌≤◌, ◌<◌, ◌≡◌, refl, sym, ap, subst, ◌∙◌, ◌≢◌, Option, none, some, List,
  [], ◌∷◌, ◌++◌, append_assoc, append-nil, Bytes, All, length, length-append, All-append, All-split,
  All-lt_mono, arith, ltb, true, false, ==_refl, Bool, Bool-cases, Option-cases, prefix_of, inl,
  inr, ◌==◌, if◌then◌else◌, drop, drop-append_length, take, get_elem?, get_elem?-take,
}
use trapd_sensor.Wal.Record.{Checksum, header_len}
use trapd_sensor.Wal.Record.RoundTrip.{IsRecordable, length-record_bytes}
use trapd_sensor.Wal.Segment.{encoded}
use trapd_sensor.Wal.Segment.Recovery.{encoded-append, encoded-nil, length-encoded-cons}
use trapd_sensor.Wal.Directory.{
  range_from, range_upto, range_below, range_from_skip, range_from-All, range_upto_cut,
  range_below_cut,
}
use trapd_sensor.Wal.Log.{
  SegmentedLog, LogPosition, LogRecord, segment_file, position_le, write_cursor,
}
use trapd_sensor.Wal.Log.Consuming.{
  commit, count_records_between, between_loop, collect_consumed_segments, collect_loop,
}
use trapd_sensor.Wal.Log.Invariant.{content, buffered, Stored, Inv, Represents}
use trapd_sensor.Wal.Log.Shape.{
  Seg, records, ids, Chain, Ascending, Ascending-least, unread_of, unread_of-append, last_of,
  last_of-append, split_cases, size_of, total_size, total_size-append, ids-append, Chain-split,
  Chain-last, Chain-weaken, All-ids, below_last,
}
use trapd_sensor.Wal.Log.Batches.{log_records}
use trapd_sensor.Wal.Log.Delivery.{unread-IsRecordable}
use trapd_sensor.Wal.Log.Locating.{Located, locate}
use trapd_sensor.Wal.Log.Consumption.{
  Whole, StartsAt, between-mids, between_last, Collected, collect_loop-Collected,
}
use trapd_sensor.Wal.Log.Acknowledging.{Synced, Synced-prefix, starts, closed-Whole}

module _ ⦃c : Checksum⦄ {log : SegmentedLog} {done : List Seg} {cur : Seg} {rest : List Seg} {k : ℕ}
    {pos : LogPosition} (v : Inv log done cur rest) (l : Located (cur ∷ rest) k pos) where
  unfoldable pub gone : List Seg
  gone = done ++ l.mids

  pub shape : done ++ (cur ∷ rest) ≡ gone ++ (l.seg ∷ l.later)
  unfolding gone
  shape = ap (◌++◌ done) l.split ∙ sym (append_assoc done l.mids (l.seg ∷ l.later))

  pub chain' : Chain 0 (gone ++ (l.seg ∷ l.later))
  chain' = subst (Chain 0) shape v.chain

  pub active' : log.active_id ≡ (last_of l.seg l.later).id
  active' =
      v.active_eq
      ∙ ap (λ (s : Seg). s.id) (ap (last_of cur) l.split ∙ last_of-append cur l.mids l.seg l.later)

  pub stored' : All (Stored log) (gone ++ (l.seg ∷ l.later))
  stored' = subst (All (Stored log)) shape v.stored

  pub recordable' : All (λ s. All IsRecordable (records s)) (gone ++ (l.seg ∷ l.later))
  recordable' = subst (All (λ s. All IsRecordable (records s))) shape v.recordable

  gone_closed : All (λ s. s.id < log.active_id) gone
  gone_closed = below_last log.active_id 0 gone l.seg l.later chain' active'

  gone-Whole : All (Whole log) gone
  gone-Whole =
      closed-Whole log gone gone_closed (All-split (Stored log) gone (l.seg ∷ l.later) stored').0

  pub seg_le_active : l.seg.id ≤ log.active_id
  seg_le_active =
      omega (arith, active', Chain-last 0 l.seg l.later (Chain-split 0 gone l.seg l.later chain').1)

  mids_below : All (λ s. s.id < l.seg.id) l.mids
  unfolding gone
  mids_below =
      (All-split (λ s. s.id < l.seg.id) done l.mids (Chain-split 0 gone l.seg l.later chain').0).1

  pos_segment : pos.segment ≡ l.seg.id
  pos_segment = ap (λ (p : LogPosition). p.segment) l.pos_eq

  pending-Whole : All (Whole log) l.mids
  unfolding gone
  pending-Whole = (All-split (Whole log) done l.mids gone-Whole).1

  pending_good : All (λ s. All IsRecordable s.unread) (l.mids ++ (l.seg ∷ l.later))
  pending_good = subst (All (λ s. All IsRecordable s.unread)) l.split (
      unread-IsRecordable (cur ∷ rest)
        (All-split (λ s. All IsRecordable (records s)) done (cur ∷ rest) v.recordable).1)

  pending_starts : All (StartsAt log.cursor) (l.mids ++ (l.seg ∷ l.later))
  pending_starts = subst (All (StartsAt log.cursor)) l.split (
      subst (λ p. All (StartsAt p) (cur ∷ rest)) (sym v.cursor_eq)
        (starts cur rest (Chain-split 0 done cur rest v.chain).1.1 v.untouched))

  unfoldable pub taken : List Bytes
  taken = l.first ∷ l.consumed

  taken_good : All IsRecordable taken
  unfolding taken
  taken_good =
      (All-split IsRecordable taken l.left (
        subst (All IsRecordable) l.unread_split
          (All-split (λ s. All IsRecordable s.unread) l.mids (l.seg ∷ l.later) pending_good).1.0)).0

  range_eq :
      range_upto pos.segment (range_from log.cursor.segment log.segments)
      ≡ ids l.mids ++ (l.seg.id ∷ [])
  range_eq =
      let (below, chain) = Chain-split 0 done cur rest v.chain in
      ap (λ (x : ℕ). range_upto x (range_from log.cursor.segment log.segments)) pos_segment
      ∙ ap (range_upto l.seg.id) (
          (λ i.
            range_from (v.cursor_eq i).segment ((v.segments_eq ∙ ids-append done (cur ∷ rest)) i))
          ∙ range_from_skip cur.id (ids done) (ids (cur ∷ rest)) (All-ids cur.id done below)
          ∙ range_from-All cur.id (ids (cur ∷ rest))
              (omega arith, Ascending-least cur.id (suc cur.id) (ids rest) (omega arith) chain.1)
          ∙ ap ids l.split
          ∙ ids-append l.mids (l.seg ∷ l.later))
      ∙ range_upto_cut l.seg.id (ids l.mids) (ids l.later) (All-ids l.seg.id l.mids mids_below) (
          Ascending-least (suc l.seg.id) (suc l.seg.id) (ids l.later) (omega arith)
            (Chain-split 0 gone l.seg l.later chain').1.1)

  count_eq : Synced log pos → count_records_between log log.cursor pos ≡ suc k
  unfolding count_records_between taken
  count_eq y =
      let (mids_start, seg_start) =
        All-split (StartsAt log.cursor) l.mids (l.seg ∷ l.later) pending_starts in
      let (tail, on_disk) =
        Synced-prefix log l.seg (l.seg.read ++ taken) l.left
          (All-split (Stored log) gone (l.seg ∷ l.later) stored').1.0
          (ap (◌++◌ l.seg.read) l.unread_split ∙ sym (append_assoc l.seg.read taken l.left))
          (subst (Synced log) l.pos_eq y) in
      ap (λ (r : List ℕ). between_loop log log.cursor pos r 0) range_eq
      ∙ between-mids log log.cursor pos l.mids (l.seg.id ∷ []) 0 mids_start pending-Whole
          (All-split (λ s. All IsRecordable s.unread) l.mids (l.seg ∷ l.later) pending_good).0
          (subst (λ (x : ℕ). All (λ s. s.id < x) l.mids) (sym pos_segment) mids_below)
      ∙ ap
          (λ (p : LogPosition).
            between_loop log log.cursor p (l.seg.id ∷ []) (0 + length (unread_of l.mids)))
          l.pos_eq
      ∙ between_last log log.cursor l.seg l.first l.consumed tail (0 + length (unread_of l.mids))
          seg_start.0 on_disk taken_good
      ∙ omega (arith, l.count_eq)
