-- ===== src/Wal/Log/Delivery.antt =====
-- The contract of the log towards its writer and its reader: it represents a list of payloads,
-- `append` adds one at the end, and `read_batch` shows the first ones.
use trapd_sensor.Prelude.{
  ℕ, suc, ◌+◌, ◌-◌, ◌^◌, ◌<◌, ◌≡◌, refl, sym, ap, ◌∙◌, List, [], ◌∷◌, ◌++◌, append-nil, Bytes, All,
  length, length-append, All-split, arith, ◌==◌, ==_iff, Bool-cases, Option-cases, inl, inr, false,
  take, take_all, nil_of_length, ltb, leb, ◌||◌, if◌then◌else◌,
}
use trapd_sensor.Wal.Record.{Checksum, header_len, max_record_bytes}
use trapd_sensor.Wal.Record.RoundTrip.{IsRecordable}
use trapd_sensor.Wal.Log.{
  SegmentedLog, LogPosition, ok, err, record_too_large, segment_file, flush, append, write_record,
  roll_segment,
}
use trapd_sensor.Wal.Log.Reading.{read_batch, read_segments}
use trapd_sensor.Wal.Log.Invariant.{Stored, Inv, Represents}
use trapd_sensor.Wal.Log.Shape.{
  Seg, records, ids, unread_of, push_last, unread_of-push_last, Chain-split, ids-append, length-ids,
  All-ids,
}
use trapd_sensor.Wal.Log.Writing.{flush-Extends, write_record-Extends}
use trapd_sensor.Wal.Log.Appending.{counted, counted-Inv}
use trapd_sensor.Wal.Log.Rolling.{Extends-Inv, roll-Inv, roll_unread, opened}
use trapd_sensor.Wal.Log.Batches.{
  payloads, log_records, payloads-log_records, payloads-take, nil_of_payloads,
}
use trapd_sensor.Wal.Log.BatchLoop.{Flushed, read_segments_from}

module _ ⦃c : Checksum⦄ where
  stored_record :
      (log : SegmentedLog) (view : List Bytes) (p : Bytes)
      → Represents log view
      → IsRecordable p
      → Represents (counted (write_record log p) (header_len + length p)) (view ++ (p ∷ []))
  stored_record log view p r good = record {
    done = r.done;
    cur = (push_last p r.cur r.rest).0;
    rest = (push_last p r.cur r.rest).1;
    inv =
        counted-Inv log (write_record log p) r.done r.cur r.rest p r.inv good
          (write_record-Extends log p);
    view_eq =
        ap (λ (v : List Bytes). v ++ (p ∷ [])) r.view_eq ∙ sym (unread_of-push_last p r.cur r.rest);
  }

  rolled :
      (log : SegmentedLog) (view : List Bytes)
      → Represents log view
      → Represents (roll_segment log) view
  rolled log view r = record {
    done = r.done;
    cur = r.cur;
    rest = r.rest ++ (opened log ∷ []);
    inv = roll-Inv log r.done r.cur r.rest r.inv;
    view_eq = r.view_eq ∙ sym (roll_unread log r.cur r.rest);
  }

  stored_bytes :
      (log : SegmentedLog) (p : Bytes)
      → (counted (write_record log p) (header_len + length p)).disk_bytes
        ≡ log.disk_bytes + (header_len + length p)
  stored_bytes log p =
      ap (λ (l : SegmentedLog). l.disk_bytes + (header_len + length p))
        (write_record-Extends log p).same

  stored_active : (log : SegmentedLog) (p : Bytes) → (write_record log p).active_id ≡ log.active_id
  stored_active log p = ap (λ (l : SegmentedLog). l.active_id) (write_record-Extends log p).same

  roll_active : (log : SegmentedLog) → (roll_segment log).active_id ≡ log.active_id + 1
  unfolding roll_segment
  roll_active log = refl

  roll_bytes : (log : SegmentedLog) → (roll_segment log).disk_bytes ≡ log.disk_bytes
  unfolding roll_segment
  roll_bytes log = ap (λ (l : SegmentedLog). l.disk_bytes) (flush-Extends log).same

  -- The segment that takes the next record: a new one if the active one has its size.
  abbrev pub taking : SegmentedLog → ℕ
  taking log = if leb log.segment_bytes log.active_bytes then log.active_id + 1 else log.active_id

  -- A payload of an accepted size is appended behind all that is pending, and the log counts its
  -- bytes. The active segment is the next one if it has reached the size of a segment before, and
  -- the same one otherwise.
  pub append-Represents :
      (log : SegmentedLog) (view : List Bytes) (p : Bytes)
      → Represents log view
      → IsRecordable p
      → (log' : SegmentedLog) × (append log p ≡ ok (header_len + length p, log'))
        × (Represents log' (view ++ (p ∷ []))
            × ((log'.disk_bytes ≡ log.disk_bytes + (header_len + length p))
                × (log'.active_id ≡ taking log)))
  unfolding append
  append-Represents log view p r good =
      let small : (leb (2 ^ 32) (length p) || ltb max_record_bytes (length p)) ≡ false =
        ground arith in
      elim (Bool-cases (leb log.segment_bytes log.active_bytes)) [
        | inl full ↦ (
          counted (write_record (roll_segment log) p) (header_len + length p),
          rw (full, append) (rw (small, append) refl),
          (
            stored_record (roll_segment log) view p (rolled log view r) good,
            (
              stored_bytes (roll_segment log) p
                  ∙ ap (λ (n : ℕ). n + (header_len + length p)) (roll_bytes log),
              rw full (stored_active (roll_segment log) p ∙ roll_active log),
            ),
          ),
        )
        | inr room ↦ (
          counted (write_record log p) (header_len + length p),
          rw (room, append) (rw (small, append) refl),
          (stored_record log view p r good, (stored_bytes log p, rw room (stored_active log p))),
        )
      ]

  -- A payload above the limit is refused, with its size.
  pub append_too_large :
      (log : SegmentedLog) (p : Bytes)
      → max_record_bytes < length p
      → append log p ≡ err (record_too_large (length p))
  unfolding append
  append_too_large log p h = ground arith

  pub flush-Represents :
      (log : SegmentedLog) (view : List Bytes) → Represents log view → Represents (flush log) view
  flush-Represents log view r = record {
    done = r.done;
    cur = r.cur;
    rest = r.rest;
    inv = Extends-Inv r.done r.cur r.rest (flush-Extends log) r.inv;
    view_eq = r.view_eq;
  }

  -- Behind a flush the files hold everything.
  pub Flushed-segs :
      (log : SegmentedLog) (segs : List Seg)
      → log.writer ≡ []
      → All (Stored log) segs
      → All (Flushed log 0) segs
  Flushed-segs log [] e h = tt
  Flushed-segs log (s ∷ segs) e (h, hs) = (
    elim (Option-cases (segment_file log s.id)) [
      | inl missing ↦ absurd (ground arith)
      | inr (file, found) ↦ ground (arith, append-nil file)
    ],
    Flushed-segs log segs e hs,
  )

  pub unread-IsRecordable :
      (segs : List Seg)
      → All (λ s. All IsRecordable (records s)) segs
      → All (λ s. All IsRecordable s.unread) segs
  unread-IsRecordable [] h = tt
  unread-IsRecordable (s ∷ segs) (h, hs) =
      ((All-split IsRecordable s.read s.unread h).1, unread-IsRecordable segs hs)

  flushed_batch :
      (log : SegmentedLog) (max : ℕ) (done : List Seg) (cur : Seg) (rest : List Seg)
      → Inv log done cur rest
      → read_segments (suc (length log.segments)) (flush log) max log.cursor []
        ≡ take max (log_records (cur ∷ rest))
  flushed_batch log max done cur rest v =
      let w = Extends-Inv done cur rest (flush-Extends log) v in
      let empty : (flush log).writer ≡ [] = unfold flush in refl in
      let (_, on_disk) =
        All-split (Flushed (flush log) max) done (cur ∷ rest)
          (Flushed-segs (flush log) _ empty w.stored) in
      let (_, good) =
        All-split (λ s. All IsRecordable (records s)) done (cur ∷ rest) v.recordable in
      let (below, chain) = Chain-split 0 done cur rest v.chain in
      ap (λ (p : LogPosition). read_segments (suc (length log.segments)) (flush log) max p [])
        v.cursor_eq
      ∙ read_segments_from (flush log) max (suc (length log.segments)) (ids done) cur rest []
          (w.segments_eq ∙ ids-append done (cur ∷ rest)) (All-ids cur.id done below)
          (omega arith, chain.1) on_disk (unread-IsRecordable (cur ∷ rest) good) v.untouched
          (omega (
            arith,
            ap length v.segments_eq,
            ap length (ids-append done (cur ∷ rest)),
            length-append (ids done) (ids (cur ∷ rest)),
            length-ids rest,
          ))
      ∙ (let all : max - 0 ≡ max = omega arith in
          ap (λ (n : ℕ). take n (log_records (cur ∷ rest))) all)

  no_records : (segs : List Seg) → unread_of segs ≡ [] → log_records segs ≡ []
  no_records segs e = nil_of_payloads (log_records segs) (payloads-log_records segs ∙ e)

  -- `read_batch` returns the first `max` pending records with their positions, and the log goes on
  -- to represent the same.
  pub read_batch-Inv :
      (log : SegmentedLog) (max : ℕ) (done : List Seg) (cur : Seg) (rest : List Seg)
      → Inv log done cur rest
      → ((read_batch log max).0 ≡ take max (log_records (cur ∷ rest)))
        × Inv (read_batch log max).1 done cur rest
  unfolding read_batch
  read_batch-Inv log max done cur rest v = elim (Bool-cases (max == 0 || log.pending == 0)) [
    | inr go ↦
        rw (go, read_batch)
          (flushed_batch log max done cur rest v, Extends-Inv done cur rest (flush-Extends log) v)
    | inl stop ↦
        rw (stop, read_batch)
          (elim (Bool-cases (max == 0)) [
            | inl none_wanted ↦ (rw ((==_iff max 0).0 none_wanted) refl, v)
            | inr wanted ↦
                let idle : length (unread_of (cur ∷ rest)) ≡ 0 = ground (arith, v.pending_eq) in
                (
                  rw (no_records (cur ∷ rest) (nil_of_length _ idle))
                      (sym (take_all max [] (omega arith))),
                  v,
                )
          ])
  ]

  -- A batch holds the first `max` payloads that the log represents, in order, and the log
  -- goes on to represent the same.
  pub read_batch-Represents :
      (log : SegmentedLog) (view : List Bytes) (max : ℕ)
      → Represents log view
      → (payloads (read_batch log max).0 ≡ take max view) × Represents (read_batch log max).1 view
  read_batch-Represents log view max r =
      let (got, inv) = read_batch-Inv log max r.done r.cur r.rest r.inv in
      (
        ap payloads got
            ∙ payloads-take max (log_records (r.cur ∷ r.rest))
            ∙ ap (take max) (payloads-log_records (r.cur ∷ r.rest) ∙ sym r.view_eq),
        record { done = r.done; cur = r.cur; rest = r.rest; inv = inv; view_eq = r.view_eq },
      )
