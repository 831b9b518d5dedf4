-- ===== src/Wal/Log/Dropping/Retention.antt =====
-- Retention keeps the log's contract: what goes is a prefix of what is pending, and is counted.
use trapd_sensor.Prelude.{
  ℕ, suc, ◌+◌, ◌<◌, ◌≡◌, ◌⊎◌, refl, sym, ap, ◌∙◌, none, some, List, [], ◌∷◌, ◌++◌, Bytes, All,
  length, All-split, arith, drop, drop-append_length, inl, inr, ◌==◌, true,
}
use trapd_sensor.Wal.Record.{Checksum}
use trapd_sensor.Wal.Record.RoundTrip.{IsRecordable}
use trapd_sensor.Wal.Log.{SegmentedLog, LogPosition, write_cursor, clamp_cursor}
use trapd_sensor.Wal.Log.Consuming.{
  unlink, unread_in, drop_segment, drop_oldest, drop_oldest_segment,
}
use trapd_sensor.Wal.Log.Acknowledging.{closed-Whole}
use trapd_sensor.Wal.Log.Invariant.{Stored, Inv, Represents}
use trapd_sensor.Wal.Log.Shape.{Seg, records, ids, Chain-split, Chain-last, unread_of, below_last}
use trapd_sensor.Wal.Log.Dropping.{
  dropped_log, drop_segment-Whole, unread_done, unread_cur, drop_done, drop_cur, rest_eq,
}

module _ ⦃c : Checksum⦄ where
  total_dropped :
      (log : SegmentedLog) (s : Seg) (n : ℕ) → (dropped_log log s n).dropped ≡ log.dropped + n
  unfolding dropped_log write_cursor unlink clamp_cursor
  total_dropped log s n = refl

  one_less :
      (log : SegmentedLog) (s : Seg) (n : ℕ) (more : List ℕ)
      → log.segments ≡ s.id ∷ more
      → suc (length (dropped_log log s n).segments) ≡ length log.segments
  one_less log s n more e =
      ap (λ (xs : List ℕ). suc (length xs)) (rest_eq log s n more e) ∙ sym (ap length e)

  -- The oldest segment goes, with `n` pending records, which are counted as lost.
  abbrev pub Drops : SegmentedLog → List Bytes → ℕ → SegmentedLog → Type 0
  Drops log view n log' =
      (drop_oldest_segment log ≡ (some n, log'))
      × (Represents log' (drop n view)
          × ((log'.dropped ≡ log.dropped + n) × (suc (length log'.segments) ≡ length log.segments)))

  drop_first :
      (log : SegmentedLog) (s : Seg) (more : List ℕ) (n : ℕ)
      → log.segments ≡ s.id ∷ more
      → s.id < log.active_id
      → Stored log s
      → All IsRecordable (records s)
      → unread_in log s.id ≡ n
      → drop_oldest_segment log ≡ (some n, dropped_log log s n)
  unfolding drop_oldest_segment drop_oldest
  drop_first log s more n e below st good u =
      ap (λ (xs : List ℕ). drop_oldest xs log) e
      ∙ drop_segment-Whole log s n below (closed-Whole log (s ∷ []) (below, tt) (st, tt)).0 good u

  drop_by :
      (log : SegmentedLog) (view : List Bytes) (done : List Seg) (cur : Seg) (rest : List Seg)
      → Inv log done cur rest
      → view ≡ unread_of (cur ∷ rest)
      → ((drop_oldest_segment log ≡ (none, log)) × (log.segments ≡ log.active_id ∷ []))
        ⊎ ((n : ℕ) × (log' : SegmentedLog) × Drops log view n log')
  drop_by log view [] cur [] v e = inl (
    (unfold drop_oldest_segment drop_oldest drop_segment in
        (ap (λ (xs : List ℕ). drop_oldest xs log) v.segments_eq
          ∙ rw (let same : (cur.id == log.active_id) ≡ true = ground arith in same) refl)),
    v.segments_eq ∙ ap (λ (x : ℕ). x ∷ []) (sym v.active_eq),
  )
  drop_by log view [] cur (t ∷ rest) v e =
      let below : cur.id < log.active_id =
        omega (arith, v.active_eq, v.chain.1.0, Chain-last (suc cur.id) t rest v.chain.1) in
      let n = length cur.unread in
      let whole = (closed-Whole log (cur ∷ []) (below, tt) (v.stored.0, tt)).0 in
      let good = (All-split IsRecordable cur.read cur.unread v.recordable.0).1 in
      inr (
        n,
        dropped_log log cur n,
        (
          drop_first log cur (ids (t ∷ rest)) n v.segments_eq below v.stored.0 v.recordable.0
              (unread_cur log cur v.cursor_eq whole good),
          (
            record {
              done = [];
              cur = t;
              rest = rest;
              inv = drop_cur log cur t rest v;
              view_eq = ap (drop n) e ∙ drop-append_length cur.unread (unread_of (t ∷ rest));
            },
            (total_dropped log cur n, one_less log cur n (ids (t ∷ rest)) v.segments_eq),
          ),
        ),
      )
  drop_by log view (d ∷ done) cur rest v e =
      let below = (below_last log.active_id 0 (d ∷ done) cur rest v.chain v.active_eq).0 in
      let read : d.id < log.cursor.segment = omega (
        arith,
        (Chain-split 0 (d ∷ done) cur rest v.chain).0.0,
        ap (λ (p : LogPosition). p.segment) v.cursor_eq,
      ) in
      inr (
        0,
        dropped_log log d 0,
        (
          drop_first log d (ids (done ++ (cur ∷ rest))) 0 v.segments_eq below v.stored.0
              v.recordable.0 (unread_done log d.id read),
          (
            record {
              done = done;
              cur = cur;
              rest = rest;
              inv = drop_done log d done cur rest v;
              view_eq = e;
            },
            (total_dropped log d 0, one_less log d 0 (ids (done ++ (cur ∷ rest))) v.segments_eq),
          ),
        ),
      )

  -- Only the active segment is left and nothing changes, or the oldest segment is dropped: then the
  -- log goes on to represent the pending records but the first `n`, where `n` is what the code
  -- returns and adds to its count of lost records.
  pub drop_oldest_segment-Represents :
      (log : SegmentedLog) (view : List Bytes)
      → Represents log view
      → ((drop_oldest_segment log ≡ (none, log)) × (log.segments ≡ log.active_id ∷ []))
        ⊎ ((n : ℕ) × (log' : SegmentedLog) × Drops log view n log')
  drop_oldest_segment-Represents log view r = drop_by log view r.done r.cur r.rest r.inv r.view_eq
