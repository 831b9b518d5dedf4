-- ===== src/Wal/Log/Rolling.antt =====
-- `flush` and `roll_segment` leave what the log represents as it is.
use trapd_sensor.Prelude.{
  ℕ, ◌+◌, ◌<◌, ◌≡◌, refl, sym, ap, subst, ◌∙◌, none, some, List, [], ◌∷◌, ◌++◌, append_assoc,
  append-nil, All, length, All-append, arith, ◌==◌, ==_iff, Bool-cases, inl, inr,
}
use trapd_sensor.Wal.Record.{Checksum}
use trapd_sensor.Wal.Record.RoundTrip.{IsRecordable}
use trapd_sensor.Wal.Segment.{encoded}
use trapd_sensor.Wal.Segment.Recovery.{encoded-nil}
use trapd_sensor.Wal.Directory.{lookup, lookup-write, insert, insert_last}
use trapd_sensor.Wal.Log.{SegmentedLog, segment_file, flush, or_empty, roll_segment}
use trapd_sensor.Wal.Log.Invariant.{content, Stored, Inv}
use trapd_sensor.Wal.Log.Shape.{
  Seg, records, ids, Ascending, size_of, total_size, ids-append, upto_last, Ascending-snoc,
  last_of_snoc, unread_of-append, unread_of, total_size-append,
}
use trapd_sensor.Wal.Log.Writing.{Extends, flush-Extends}
use trapd_sensor.Wal.Log.Appending.{content_other, content_active}

module _ ⦃c : Checksum⦄ {log log' : SegmentedLog} where
  Stored-same :
      (segs : List Seg) → Extends log [] log' → All (Stored log) segs → All (Stored log') segs
  Stored-same [] x h = tt
  Stored-same (s ∷ segs) x (h, hs) = (
    elim (Bool-cases (s.id == log.active_id)) [
      | inl e ↦
          let at : s.id ≡ log.active_id = (==_iff s.id log.active_id).0 e in
          ap (content log') at
          ∙ content_active [] (encoded (records s)) x (ap (content log) (sym at) ∙ h)
          ∙ ap some (append-nil (encoded (records s)))
      | inr e ↦ content_other [] s.id x (λ q. ground arith) ∙ h
    ],
    Stored-same segs x hs,
  )

  pub Extends-Inv :
      (done : List Seg) (cur : Seg) (rest : List Seg)
      → Extends log [] log'
      → Inv log done cur rest
      → Inv log' done cur rest
  Extends-Inv done cur rest x v =
      let act = ap (λ (l : SegmentedLog). l.active_id) x.same in
      record {
        segments_eq = ap (λ (l : SegmentedLog). l.segments) x.same ∙ v.segments_eq;
        chain = v.chain;
        active_eq = act ∙ v.active_eq;
        stored = Stored-same (done ++ (cur ∷ rest)) x v.stored;
        recordable = v.recordable;
        fresh = λ id h. x.others id (λ q. omega arith) ∙ v.fresh id (omega arith);
        finished = v.finished;
        untouched = v.untouched;
        cursor_eq = ap (λ (l : SegmentedLog). l.cursor) x.same ∙ v.cursor_eq;
        pending_eq = ap (λ (l : SegmentedLog). l.pending) x.same ∙ v.pending_eq;
        disk_eq = ap (λ (l : SegmentedLog). l.disk_bytes) x.same ∙ v.disk_eq;
        active_size = ap (λ (l : SegmentedLog). l.active_bytes) x.same ∙ v.active_size;
      }

-- The empty segment that rolling opens.
abbrev pub opened : SegmentedLog → Seg
opened log = record { id = log.active_id + 1; read = []; unread = [] }

module _ (log : SegmentedLog) where
  roll_content :
      (id : ℕ) → id < log.active_id + 1 → content (roll_segment log) id ≡ content (flush log) id
  unfolding roll_segment flush
  roll_content id h = ground (
    arith,
    lookup-write (log.active_id + 1) id
        (or_empty (lookup (log.active_id + 1) (flush log).dir.files)) (flush log).dir.files,
  )

  roll_opened :
      segment_file log (log.active_id + 1) ≡ none
      → content (roll_segment log) (log.active_id + 1) ≡ some []
  unfolding roll_segment flush
  roll_opened h = ground (
    arith,
    lookup-write (log.active_id + 1) (log.active_id + 1)
        (or_empty (lookup (log.active_id + 1) (flush log).dir.files)) (flush log).dir.files,
    (flush-Extends log).others (log.active_id + 1) (λ q. omega arith),
  )

  roll_fresh :
      (id : ℕ)
      → log.active_id + 1 < id
      → segment_file log id ≡ none
      → segment_file (roll_segment log) id ≡ none
  unfolding roll_segment flush
  roll_fresh id h e = ground (
    arith,
    lookup-write (log.active_id + 1) id
        (or_empty (lookup (log.active_id + 1) (flush log).dir.files)) (flush log).dir.files,
    (flush-Extends log).others id (λ q. omega arith),
  )

module _ ⦃c : Checksum⦄ (log : SegmentedLog) where
  roll-Stored :
      (segs : List Seg)
      → All (λ x. x < log.active_id + 1) (ids segs)
      → All (Stored (flush log)) segs
      → All (Stored (roll_segment log)) segs
  roll-Stored [] b h = tt
  roll-Stored (s ∷ segs) b h = (roll_content log s.id b.0 ∙ h.0, roll-Stored segs b.1 h.1)

  pub roll_unread :
      (cur : Seg) (rest : List Seg)
      → unread_of (cur ∷ (rest ++ (opened log ∷ []))) ≡ unread_of (cur ∷ rest)
  roll_unread cur rest =
      ap (◌++◌ cur.unread) (unread_of-append rest (opened log ∷ []) ∙ append-nil (unread_of rest))

  pub roll-Inv :
      (done : List Seg) (cur : Seg) (rest : List Seg)
      → Inv log done cur rest
      → Inv (roll_segment log) done cur (rest ++ (opened log ∷ []))
  roll-Inv done cur rest v =
      let w = Extends-Inv done cur rest (flush-Extends log) v in
      let below = upto_last log.active_id 0 done cur rest v.chain v.active_eq in
      let empty : length (encoded []) ≡ 0 = ap length (encoded-nil ⦃c = c⦄) in
      let shape : (done ++ (cur ∷ rest)) ++ (opened log ∷ [])
          ≡ done ++ (cur ∷ (rest ++ (opened log ∷ []))) =
        append_assoc done (cur ∷ rest) (opened log ∷ []) in
      let numbers : ids (done ++ (cur ∷ (rest ++ (opened log ∷ []))))
          ≡ ids (done ++ (cur ∷ rest)) ++ ((log.active_id + 1) ∷ []) =
        ap ids (sym shape) ∙ ids-append (done ++ (cur ∷ rest)) (opened log ∷ []) in
      unfold roll_segment flush in
      record {
        segments_eq =
            ap (insert (log.active_id + 1)) v.segments_eq
            ∙ insert_last (log.active_id + 1) _ below
            ∙ sym numbers;
        chain =
            subst (Ascending 0) (sym numbers)
              (Ascending-snoc 0 (log.active_id + 1) _ v.chain below (omega arith));
        active_eq = sym (ap (λ (s : Seg). s.id) (last_of_snoc cur rest (opened log)));
        stored = subst (All (Stored (roll_segment log))) shape (
            All-append (Stored (roll_segment log)) (done ++ (cur ∷ rest)) (opened log ∷ [])
              (roll-Stored (done ++ (cur ∷ rest)) below w.stored)
              (
                roll_opened log (v.fresh (log.active_id + 1) (omega arith))
                    ∙ ap some (sym encoded-nil),
                tt,
              ));
        recordable = subst (All (λ s. All IsRecordable (records s))) shape (
            All-append (λ s. All IsRecordable (records s)) (done ++ (cur ∷ rest)) (opened log ∷ [])
              v.recordable (tt, tt));
        fresh = λ id h. roll_fresh log id h (v.fresh id (omega arith));
        finished = v.finished;
        untouched = All-append (λ s. s.read ≡ []) rest (opened log ∷ []) v.untouched (refl, tt);
        cursor_eq = v.cursor_eq;
        pending_eq = v.pending_eq ∙ ap length (sym (roll_unread cur rest));
        disk_eq = omega (
          arith,
          v.disk_eq,
          ap total_size (sym shape),
          total_size-append (done ++ (cur ∷ rest)) (opened log ∷ []),
          empty,
        );
        active_size = omega (arith, ap size_of (last_of_snoc cur rest (opened log)), empty);
      }
