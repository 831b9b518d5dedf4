-- ===== src/Wal/Log/Appending.antt =====
-- `append` adds one record to the end of what the log represents.
use trapd_sensor.Prelude.{
  ℕ, suc, ◌+◌, ◌<◌, ◌≡◌, sym, ap, subst, ◌∙◌, ◌≢◌, some, List, [], ◌∷◌, ◌++◌, Bytes, All, length,
  length-append, All-append, All-split, arith, Option-cases, inl, inr,
}
use trapd_sensor.Wal.Record.{Checksum, header_len, record_bytes}
use trapd_sensor.Wal.Record.RoundTrip.{IsRecordable, length-record_bytes}
use trapd_sensor.Wal.Segment.{encoded}
use trapd_sensor.Wal.Log.{SegmentedLog, segment_file}
use trapd_sensor.Wal.Log.Invariant.{content, Stored, Inv}
use trapd_sensor.Wal.Log.Shape.{
  Seg, records, ids, Chain, Ascending, last_of, push_last, size_of, ids-append, ids-push_last,
  Chain-split, below_last, Chain-last, unread_of, unread_of-push_last, total_size-append,
}
use trapd_sensor.Wal.Log.Pushing.{
  push_last_head, last_of-push_last, untouched-push_last, IsRecordable-push_last, encoded-pushed,
  size-pushed, total_size-push_last,
}
use trapd_sensor.Wal.Log.Writing.{Extends}

pub content_other :
    {log log' : SegmentedLog} (bytes : Bytes) (id : ℕ)
    → Extends log bytes log'
    → id ≢ log.active_id
    → content log' id ≡ content log id
content_other {log} {log'} bytes id x h =
    ground (arith, x.others id h, ap (λ (l : SegmentedLog). l.active_id) x.same)

pub content_active :
    {log log' : SegmentedLog} (bytes file : Bytes)
    → Extends log bytes log'
    → content log log.active_id ≡ some file
    → content log' log.active_id ≡ some (file ++ bytes)
content_active {log} {log'} bytes file x h = elim (Option-cases (segment_file log log.active_id)) [
  | inl e ↦ absurd (ground arith)
  | inr (f, e) ↦
      let (f', e', q) = x.extended f e in
      ground (arith, ap (λ (l : SegmentedLog). l.active_id) x.same)
]

module _ ⦃c : Checksum⦄ {log log' : SegmentedLog} where
  Stored-push_last :
      (p : Bytes) (n : ℕ) (s : Seg) (segs : List Seg)
      → Extends log (record_bytes p) log'
      → Chain n (s ∷ segs)
      → log.active_id ≡ (last_of s segs).id
      → All (Stored log) (s ∷ segs)
      → All (Stored log') ((push_last p s segs).0 ∷ (push_last p s segs).1)
  Stored-push_last p n s [] x ch e (h, _) = (
    ap (content log') (sym e)
        ∙ content_active (record_bytes p) (encoded (records s)) x (ap (content log) e ∙ h)
        ∙ ap some (sym (encoded-pushed p s)),
    tt,
  )
  Stored-push_last p n s (t ∷ segs) x ch e (h, hs) = (
    content_other (record_bytes p) s.id x (λ q. omega (arith, Chain-last (suc s.id) t segs ch.1))
        ∙ h,
    Stored-push_last p (suc s.id) t segs x ch.1 e hs,
  )

  Stored-done :
      (bytes : Bytes) (done : List Seg)
      → Extends log bytes log'
      → All (λ d. d.id < log.active_id) done
      → All (Stored log) done
      → All (Stored log') done
  Stored-done bytes [] x below h = tt
  Stored-done bytes (d ∷ done) x below h =
      (content_other bytes d.id x (λ q. omega arith) ∙ h.0, Stored-done bytes done x below.1 h.1)

-- `append` past the write: the three counters.
abbrev pub counted : SegmentedLog → ℕ → SegmentedLog
counted log written = record log {
  active_bytes = log.active_bytes + written;
  disk_bytes = log.disk_bytes + written;
  pending = log.pending + 1;
}

module _ ⦃c : Checksum⦄ where
  pub counted-Inv :
      (log log' : SegmentedLog) (done : List Seg) (cur : Seg) (rest : List Seg) (p : Bytes)
      → Inv log done cur rest
      → IsRecordable p
      → Extends log (record_bytes p) log'
      → Inv
          (counted log' (header_len + length p))
          done
          (push_last p cur rest).0
          (push_last p cur rest).1
  counted-Inv log log' done cur rest p v good x =
      let (stored_before, stored_here) = All-split (Stored log) done (cur ∷ rest) v.stored in
      let (good_before, good_here) =
        All-split (λ s. All IsRecordable (records s)) done (cur ∷ rest) v.recordable in
      let act = ap (λ (l : SegmentedLog). l.active_id) x.same in
      let same_cursor = ap (λ (l : SegmentedLog). l.cursor) x.same in
      let same_pending = ap (λ (l : SegmentedLog). l.pending) x.same in
      let same_disk = ap (λ (l : SegmentedLog). l.disk_bytes) x.same in
      let same_active = ap (λ (l : SegmentedLog). l.active_bytes) x.same in
      let (head_id, head_read) = push_last_head p cur rest in
      let same_ids : ids (done ++ (cur ∷ rest))
          ≡ ids (done ++ ((push_last p cur rest).0 ∷ (push_last p cur rest).1)) =
        ids-append done (cur ∷ rest)
        ∙ ap (◌++◌ (ids done)) (sym (ids-push_last p cur rest))
        ∙ sym (ids-append done _) in
      record {
        segments_eq = ap (λ (l : SegmentedLog). l.segments) x.same ∙ v.segments_eq ∙ same_ids;
        chain = subst (Ascending 0) same_ids v.chain;
        active_eq = act ∙ v.active_eq ∙ sym (ap (λ (s : Seg). s.id) (last_of-push_last p cur rest));
        stored =
            All-append (Stored log') done _
              (Stored-done (record_bytes p) done x
                (below_last log.active_id 0 done cur rest v.chain v.active_eq) stored_before)
              (Stored-push_last p 0 cur rest x (Chain-split 0 done cur rest v.chain).1 v.active_eq
                stored_here);
        recordable =
            All-append (λ s. All IsRecordable (records s)) done _ good_before
              (IsRecordable-push_last p cur rest good good_here);
        fresh = λ id h. x.others id (λ q. omega arith) ∙ v.fresh id (omega arith);
        finished = v.finished;
        untouched = untouched-push_last p cur rest v.untouched;
        cursor_eq = same_cursor ∙ v.cursor_eq ∙ (λ i. record {
          segment = sym head_id i;
          offset = length (encoded (sym head_read i));
        });
        pending_eq = omega (
          arith,
          v.pending_eq,
          ap length (unread_of-push_last p cur rest),
          length-append (unread_of (cur ∷ rest)) (p ∷ []),
        );
        disk_eq = omega (
          arith,
          v.disk_eq,
          total_size-append done (cur ∷ rest),
          total_size-append done ((push_last p cur rest).0 ∷ (push_last p cur rest).1),
          total_size-push_last p cur rest,
          length-record_bytes p,
        );
        active_size = omega (
          arith,
          v.active_size,
          ap size_of (last_of-push_last p cur rest),
          size-pushed p (last_of cur rest),
          length-record_bytes p,
        );
      }
