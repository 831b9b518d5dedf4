-- ===== src/Wal/Log/Commits/Left.antt =====
-- What a `commit` leaves of the log, and that the new state represents it.
use trapd_sensor.Prelude.{
  get_elem?-take, Bool-cases, ◌||◌, ℕ, suc, ◌≤◌, ◌<◌, ◌≡◌, refl, sym, ap, subst, ◌∙◌, none, some,
  List, [], ◌∷◌, ◌++◌, append_assoc, Bytes, All, length, length-append, All-split, arith, drop,
  drop-append_length, get_elem?, inl, inr, ◌==◌, if◌then◌else◌,
}
use trapd_sensor.Wal.Record.{Checksum}
use trapd_sensor.Wal.Record.RoundTrip.{IsRecordable}
use trapd_sensor.Wal.Segment.{encoded}
use trapd_sensor.Wal.Segment.Recovery.{encoded-append}
use trapd_sensor.Wal.Log.BatchLoop.{Flushed}
use trapd_sensor.Wal.Log.Delivery.{Flushed-segs, read_batch-Inv}
use trapd_sensor.Wal.Log.{flush, SegmentedLog, LogPosition, LogRecord, segment_file, write_cursor}
use trapd_sensor.Wal.Log.Consuming.{commit}
use trapd_sensor.Wal.Log.Reading.{read_batch}
use trapd_sensor.Wal.Log.Invariant.{content, buffered, Stored, Inv, Represents}
use trapd_sensor.Wal.Log.Shape.{
  Seg, records, Chain, unread_of, unread_of-append, last_of, last_of-append, size_of, Chain-split,
  Chain-weaken,
}
use trapd_sensor.Wal.Log.Batches.{log_records}
use trapd_sensor.Wal.Log.Locating.{Located, locate}
use trapd_sensor.Wal.Log.Acknowledging.{Synced}
use trapd_sensor.Wal.Log.Commits.{gone, chain', seg_le_active, active', stored', recordable', taken}
use trapd_sensor.Wal.Log.Commits.Outcome.{
  moved, now, now-records, log', collected, commit_eq, last_like,
}

untouched_after :
    (P : Seg → Type 0) (cur : Seg) (rest mids : List Seg) (s : Seg) (later : List Seg)
    → cur ∷ rest ≡ mids ++ (s ∷ later)
    → All P rest
    → All P later
untouched_after P cur rest [] s later e h = let same : rest ≡ later = cc in subst (All P) same h
untouched_after P cur rest (m ∷ mids) s later e h =
    let same : rest ≡ mids ++ (s ∷ later) = cc in
    (All-split P mids (s ∷ later) (subst (All P) same h)).1.1

module _ ⦃c : Checksum⦄ {log : SegmentedLog} {done : List Seg} {cur : Seg} {rest : List Seg} {k : ℕ}
    {pos : LogPosition} (v : Inv log done cur rest) (l : Located (cur ∷ rest) k pos) where
  same_active : (log' v l).active_id ≡ log.active_id
  unfolding moved write_cursor
  same_active = ap (λ (g : SegmentedLog). g.active_id) (collected v l).same

  same_writer : (log' v l).writer ≡ log.writer
  unfolding moved write_cursor
  same_writer = ap (λ (g : SegmentedLog). g.writer) (collected v l).same

  same_file : (id : ℕ) → l.seg.id ≤ id → segment_file (log' v l) id ≡ segment_file log id
  unfolding moved write_cursor
  same_file id h = (collected v l).kept id h

  same_content : (id : ℕ) → l.seg.id ≤ id → content (log' v l) id ≡ content log id
  same_content id h i =
      buffered (if id == same_active i then same_writer i else []) (same_file id h i)

  same-Stored :
      (segs : List Seg) → Chain l.seg.id segs → All (Stored log) segs → All (Stored (log' v l)) segs
  same-Stored [] ch h = tt
  same-Stored (s ∷ segs) ch (h, hs) = (
    same_content s.id ch.0 ∙ h,
    same-Stored segs (Chain-weaken {m = l.seg.id} {n = suc s.id} segs (omega arith) ch.1) hs,
  )

  Chain-left : Chain 0 (l.seg ∷ l.later)
  Chain-left = (Chain-split 0 (gone v l) l.seg l.later (chain' v l)).1

  unread_left :
      unread_of (cur ∷ rest) ≡ (unread_of l.mids ++ taken v l) ++ unread_of (now v l ∷ l.later)
  unfolding taken now
  unread_left =
      ap unread_of l.split
      ∙ unread_of-append l.mids (l.seg ∷ l.later)
      ∙ ap (λ (u : List Bytes). unread_of l.mids ++ (u ++ unread_of l.later)) l.unread_split
      ∙ simp append_assoc

  length-taken : length (unread_of l.mids ++ taken v l) ≡ suc k
  unfolding taken
  length-taken = length-append (unread_of l.mids) (taken v l) ∙ l.count_eq

  left_eq : unread_of (now v l ∷ l.later) ≡ drop (suc k) (unread_of (cur ∷ rest))
  left_eq =
      sym (drop-append_length (unread_of l.mids ++ taken v l) (unread_of (now v l ∷ l.later)))
      ∙ (λ i. drop (length-taken i) (sym unread_left i))

  left_count : (log' v l).pending ≡ length (unread_of (now v l ∷ l.later))
  unfolding moved write_cursor
  left_count =
      ap (λ (g : SegmentedLog). g.pending) (collected v l).same
      ∙ omega (
        arith,
        v.pending_eq,
        ap length unread_left,
        length-append (unread_of l.mids ++ taken v l) (unread_of (now v l ∷ l.later)),
        length-taken,
      )

  same_cursor : (log' v l).cursor ≡ pos
  unfolding moved write_cursor
  same_cursor = ap (λ (g : SegmentedLog). g.cursor) (collected v l).same

  same_bytes : (log' v l).active_bytes ≡ log.active_bytes
  unfolding moved write_cursor
  same_bytes = ap (λ (g : SegmentedLog). g.active_bytes) (collected v l).same

  active_seg : last_of cur rest ≡ last_of l.seg l.later
  active_seg = ap (last_of cur) l.split ∙ last_of-append cur l.mids l.seg l.later

  commit-Inv : Inv (log' v l) [] (now v l) l.later
  unfolding now
  commit-Inv = record {
    segments_eq = (collected v l).segments_eq;
    chain = (omega arith, Chain-left.1);
    active_eq =
        same_active
        ∙ active' v l
        ∙ (last_like l.seg (now v l) l.later refl (sym (now-records v l))).0;
    stored = (
      same_content l.seg.id (omega arith)
          ∙ (All-split (Stored log) (gone v l) (l.seg ∷ l.later) (stored' v l)).1.0
          ∙ ap (λ (rs : List Bytes). some (encoded rs)) (sym (now-records v l)),
      same-Stored l.later
          (Chain-weaken {m = l.seg.id} {n = suc l.seg.id} l.later (omega arith) Chain-left.1)
          (All-split (Stored log) (gone v l) (l.seg ∷ l.later) (stored' v l)).1.1,
    );
    recordable = (
      subst (All IsRecordable) (sym (now-records v l))
          (All-split (λ s. All IsRecordable (records s)) (gone v l) (l.seg ∷ l.later)
            (recordable' v l)).1.0,
      (All-split (λ s. All IsRecordable (records s)) (gone v l) (l.seg ∷ l.later)
          (recordable' v l)).1.1,
    );
    fresh = λ id h.
        same_file id (omega (arith, same_active, seg_le_active v l))
        ∙ v.fresh id (subst (λ a. a < id) same_active h);
    finished = tt;
    untouched =
        untouched_after (λ s. s.read ≡ []) cur rest l.mids l.seg l.later l.split v.untouched;
    cursor_eq = same_cursor ∙ l.pos_eq;
    pending_eq = left_count;
    disk_eq = (collected v l).disk_eq;
    active_size =
        same_bytes
        ∙ v.active_size
        ∙ ap size_of active_seg
        ∙ (last_like l.seg (now v l) l.later refl (sym (now-records v l))).1;
  }

module _ ⦃c : Checksum⦄ where
  -- When the position behind the k-th pending record (from 0) is confirmed and its bytes have left
  -- the writer's buffer, the log goes on to represent the pending records behind it.
  pub commit-Represents :
      (log : SegmentedLog) (view : List Bytes) (k : ℕ) (rec : LogRecord)
      → (r : Represents log view) → get_elem? (log_records (r.cur ∷ r.rest)) k ≡ some rec
      → Synced log rec.next
      → Represents (commit log rec.next) (drop (suc k) view)
  unfolding log'
  commit-Represents log view k rec r found synced =
      let l = locate (r.cur ∷ r.rest) k rec found in
      subst (λ (g : SegmentedLog). Represents g (drop (suc k) view))
        (sym (commit_eq r.inv l synced))
        (record {
          done = [];
          cur = now r.inv l;
          rest = l.later;
          inv = commit-Inv r.inv l;
          view_eq = ap (drop (suc k)) r.view_eq ∙ sym (left_eq r.inv l);
        })

  Synced-by_flush :
      {log : SegmentedLog} {done : List Seg} {cur : Seg} {rest : List Seg} {k : ℕ}
      {pos : LogPosition}
      → (v : Inv log done cur rest) → (l : Located (cur ∷ rest) k pos) → log.writer ≡ []
      → Synced log pos
  unfolding taken
  Synced-by_flush {log} v l flushed =
      let there =
        (All-split (Flushed log 0) (gone v l) (l.seg ∷ l.later)
          (Flushed-segs log _ flushed (stored' v l))).1.0 in
      subst (Synced log) (sym l.pos_eq) (record {
        file = encoded (records l.seg);
        found = there;
        reaches = omega (
          arith,
          ap (λ (u : List Bytes). length (encoded (l.seg.read ++ u))) l.unread_split,
          ap (λ (u : List Bytes). length (encoded u)) (append_assoc l.seg.read (taken v l) l.left),
          ap length (encoded-append (l.seg.read ++ taken v l) l.left),
          length-append (encoded (l.seg.read ++ taken v l)) (encoded l.left),
        );
      })

  -- A batch that holds a record was read behind a flush.
  flushed_by_read :
      (log : SegmentedLog) (max k : ℕ) (rec : LogRecord)
      → get_elem? (read_batch log max).0 k ≡ some rec
      → (read_batch log max).1.writer ≡ []
  unfolding read_batch
  flushed_by_read log max k rec found = elim (Bool-cases (max == 0 || log.pending == 0)) [
    | inl stop ↦
        absurd (
          let nothing : get_elem? (read_batch log max).0 k ≡ none = rw (stop, read_batch) refl in
          cc)
    | inr go ↦ rw (go, read_batch) (unfold flush in refl)
  ]

  -- To confirm the k-th record (from 0) of a batch that `read_batch` returned leaves exactly
  -- the pending records behind that one.
  pub commit-read_batch :
      (log : SegmentedLog) (view : List Bytes) (max k : ℕ) (rec : LogRecord)
      → Represents log view
      → get_elem? (read_batch log max).0 k ≡ some rec
      → Represents (commit (read_batch log max).1 rec.next) (drop (suc k) view)
  commit-read_batch log view max k rec r found =
      let (got, inv) = read_batch-Inv log max r.done r.cur r.rest r.inv in
      let found' : get_elem? (log_records (r.cur ∷ r.rest)) k ≡ some rec =
        get_elem?-take max (log_records (r.cur ∷ r.rest)) k rec
          (ap (λ (b : List LogRecord). get_elem? b k) (sym got) ∙ found) in
      let after : Represents (read_batch log max).1 view = record {
        done = r.done;
        cur = r.cur;
        rest = r.rest;
        inv = inv;
        view_eq = r.view_eq;
      } in
      commit-Represents (read_batch log max).1 view k rec after found' (
        Synced-by_flush inv (locate (r.cur ∷ r.rest) k rec found')
          (flushed_by_read log max k rec found))
