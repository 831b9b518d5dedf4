-- ===== src/Wal/Log/BatchLoop.antt =====
-- The outer loop of `read_batch` over the segments of a flushed log.
use trapd_sensor.Prelude.{
  ℕ, zero, suc, ◌+◌, ◌-◌, ◌≤◌, ◌<◌, ◌≡◌, sym, ap, ◌∙◌, none, some, List, [], ◌∷◌, ◌++◌,
  append_assoc, append-nil, Bytes, All, length, length-append, All-append, arith, Bool-cases, inl,
  inr, true, false, take, take-append_short, append_snoc, All-lt_mono, take-append_long, take_all,
  length-take, ltb, drop, ==_refl, lt→ltb, ltb→lt,
}
use trapd_sensor.Wal.Record.{Checksum}
use trapd_sensor.Wal.Record.RoundTrip.{IsRecordable}
use trapd_sensor.Wal.Segment.{encoded}
use trapd_sensor.Wal.Segment.Recovery.{encoded-nil}
use trapd_sensor.Wal.Segment.Counting.{drop-encoded}
use trapd_sensor.Wal.Directory.{next_from, next_from_skip, next_from_head, next_from_nil}
use trapd_sensor.Wal.Log.{SegmentedLog, LogRecord, LogPosition, segment_file}
use trapd_sensor.Wal.Log.Reading.{
  Progress, start_of, read_file, read_segments, Continue, read_round, read_segment, after_file,
  next_after,
}
use trapd_sensor.Wal.Log.Shape.{Seg, records, ids, Chain}
use trapd_sensor.Wal.Log.Batches.{
  positions, length-positions, log_records, read_file-All, read_file_part, read_segments_full,
}

module _ ⦃c : Checksum⦄ (log : SegmentedLog) (max : ℕ) where
  -- Every file is on the disk as a whole.
  abbrev pub Flushed : Seg → Type 0
  Flushed s = segment_file log s.id ≡ some (encoded (records s))

  read_round_at :
      (continue : Continue) (room : ℕ) (s : Seg) (out : List LogRecord)
      → next_from s.id log.segments ≡ some s.id
      → Flushed s
      → read_round continue log room
          (record { segment = s.id; offset = length (encoded s.read) })
          out
        ≡ after_file continue log s.id (
            read_file room
              (encoded s.unread)
              (record { segment = s.id; offset = length (encoded s.read) })
              out)
  unfolding read_round read_segment
  read_round_at continue room s out found stored =
      let cut : drop (length (encoded s.read)) (encoded (records s)) ≡ encoded s.unread =
        ap (drop (length (encoded s.read))) (sym (append-nil (encoded (records s))))
        ∙ drop-encoded s.read s.unread []
        ∙ append-nil (encoded s.unread) in
      rw (found, read_round)
        (rw (stored, read_segment)
          (rw (==_refl s.id, read_segment)
            (ap
              (λ b. after_file continue log s.id (
                read_file room b (record { segment = s.id; offset = length (encoded s.read) }) out))
              cut)))

  after_file_end :
      (continue : Continue) (id : ℕ) (p : Progress) (out : List LogRecord)
      → p.out ≡ out
      → p.reached_segment_end ≡ true
      → after_file continue log id p ≡ next_after continue log id out
  unfolding after_file
  after_file_end continue id p out a b = rw (b, after_file) (ap (next_after continue log id) a)

  after_file_full :
      (continue : Continue) (id : ℕ) (p : Progress)
      → p.reached_segment_end ≡ false
      → after_file continue log id p ≡ continue p.pos p.out
  unfolding after_file
  after_file_full continue id p b = rw (b, after_file)

  -- Behind the last segment there is no further one.
  next_after_last :
      (continue : Continue) (pre : List ℕ) (id : ℕ) (out : List LogRecord)
      → log.segments ≡ pre ++ (id ∷ [])
      → All (λ x. x < id) pre
      → next_after continue log id out ≡ out
  unfolding next_after
  next_after_last continue pre id out e below =
      let none_left : next_from (id + 1) log.segments ≡ none =
        ap (next_from (id + 1)) (e ∙ sym (append-nil (pre ++ (id ∷ []))))
        ∙ next_from_skip (id + 1) (pre ++ (id ∷ [])) [] (
            All-append (λ x. x < id + 1) pre (id ∷ [])
              (All-lt_mono {m = id} {n = id + 1} pre (omega arith) below) (omega arith, tt))
        ∙ next_from_nil (id + 1) in
      rw (none_left, next_after)

  next_after_more :
      (continue : Continue) (pre : List ℕ) (id next : ℕ) (later : List ℕ) (out : List LogRecord)
      → log.segments ≡ pre ++ (id ∷ next ∷ later)
      → All (λ x. x < id) pre
      → id < next
      → next_after continue log id out ≡ continue (start_of next) out
  unfolding next_after
  next_after_more continue pre id next later out e below up =
      let found : next_from (id + 1) log.segments ≡ some next =
        ap (next_from (id + 1)) (e ∙ append_snoc pre (next ∷ later) id)
        ∙ next_from_skip (id + 1) (pre ++ (id ∷ [])) (next ∷ later) (
            All-append (λ x. x < id + 1) pre (id ∷ [])
              (All-lt_mono {m = id} {n = id + 1} pre (omega arith) below) (omega arith, tt))
        ∙ next_from_head (id + 1) next later (omega arith) in
      rw (found, next_after)

  abbrev pub begin : Seg → LogPosition
  begin s = record { segment = s.id; offset = length (encoded s.read) }

  begin_untouched : (s : Seg) → s.read ≡ [] → begin s ≡ start_of s.id
  begin_untouched s e = λ i. record {
    segment = s.id;
    offset = (ap (λ (rs : List Bytes). length (encoded rs)) e ∙ ap length encoded-nil) i;
  }

  read_segments_step :
      (fuel : ℕ) (pre : List ℕ) (s : Seg) (rest : List Seg) (out : List LogRecord)
      → log.segments ≡ pre ++ ids (s ∷ rest)
      → All (λ x. x < s.id) pre
      → Flushed s
      → length out < max
      → read_segments (suc fuel) log max (begin s) out
        ≡ after_file
            (read_segments fuel log max)
            log
            s.id
            (read_file (max - length out) (encoded s.unread) (begin s) out)
  unfolding read_segments
  read_segments_step fuel pre s rest out e below stored more =
      let found : next_from s.id log.segments ≡ some s.id =
        ap (next_from s.id) e
        ∙ next_from_skip s.id pre (ids (s ∷ rest)) below
        ∙ next_from_head s.id s.id (ids rest) (omega arith) in
      rw (lt→ltb (length out) max more, read_segments)
        (read_round_at (read_segments fuel log max) (max - length out) s out found stored)

  -- The batch is full before the segment's end.
  read_segments_part :
      (fuel : ℕ) (pre : List ℕ) (s : Seg) (rest : List Seg) (out : List LogRecord)
      → log.segments ≡ pre ++ ids (s ∷ rest)
      → All (λ x. x < s.id) pre
      → Flushed s
      → All IsRecordable s.unread
      → length out < max
      → max - length out ≤ length s.unread
      → read_segments (suc fuel) log max (begin s) out
        ≡ out ++ take (max - length out) (log_records (s ∷ rest))
  read_segments_part fuel pre s rest out e below stored good more part =
      let room = max - length out in
      let here = positions s.id (length (encoded s.read)) s.unread in
      let p = read_file room (encoded s.unread) (begin s) out in
      let (a, b) = read_file_part room s.unread (begin s) out good part in
      let whole : length here ≡ length s.unread =
        length-positions s.id (length (encoded s.read)) s.unread in
      let full : max ≤ length p.out =
        omega (arith, ap length a, length-append out (take room here), length-take room here) in
      read_segments_step fuel pre s rest out e below stored more
      ∙ after_file_full (read_segments fuel log max) s.id p b
      ∙ read_segments_full fuel log max p.pos p.out full
      ∙ a
      ∙ ap (◌++◌ out) (sym (take-append_short room here (log_records rest) (omega arith)))

  -- The three ways of a round: the batch is full before it, it fills up, or the segment ends.
  read_segments_cases :
      (fuel : ℕ) (pre : List ℕ) (s : Seg) (rest : List Seg) (out : List LogRecord)
      → log.segments ≡ pre ++ ids (s ∷ rest)
      → All (λ x. x < s.id) pre
      → Flushed s
      → All IsRecordable s.unread
      → (length s.unread < max - length out
          → next_after
              (read_segments fuel log max)
              log
              s.id
              (out ++ positions s.id (length (encoded s.read)) s.unread)
            ≡ out ++ take (max - length out) (log_records (s ∷ rest)))
      → read_segments (suc fuel) log max (begin s) out
        ≡ out ++ take (max - length out) (log_records (s ∷ rest))
  read_segments_cases fuel pre s rest out e below stored good later =
      elim (Bool-cases (ltb (length out) max)) [
        | inr full ↦
            let none_left : max - length out ≡ 0 = ground arith in
            read_segments_full (suc fuel) log max (begin s) out (ground arith)
            ∙ rw none_left (sym (append-nil out))
        | inl more ↦ elim (Bool-cases (ltb (length s.unread) (max - length out))) [
          | inr part ↦
              read_segments_part fuel pre s rest out e below stored good (ltb→lt _ _ more)
                (ground arith)
          | inl all ↦
              let (a, b) =
                read_file-All (max - length out) s.unread (begin s) out good (ltb→lt _ _ all) in
              read_segments_step fuel pre s rest out e below stored (ltb→lt _ _ more)
              ∙ after_file_end (read_segments fuel log max) s.id
                  (read_file (max - length out) (encoded s.unread) (begin s) out) _ a b
              ∙ later (ltb→lt _ _ all)
        ]
      ]

  -- From a segment on, the loop adds the pending records that lie there, as many as there is room.
  pub read_segments_from :
      (fuel : ℕ) (pre : List ℕ) (s : Seg) (rest : List Seg) (out : List LogRecord)
      → log.segments ≡ pre ++ ids (s ∷ rest)
      → All (λ x. x < s.id) pre
      → Chain s.id (s ∷ rest)
      → All Flushed (s ∷ rest)
      → All (λ t. All IsRecordable t.unread) (s ∷ rest)
      → All (λ t. t.read ≡ []) rest
      → suc (length rest) ≤ fuel
      → read_segments fuel log max (begin s) out
        ≡ out ++ take (max - length out) (log_records (s ∷ rest))
  read_segments_from zero pre s rest out e below ch stored good un enough = absurd (omega arith)
  read_segments_from (suc fuel) pre s [] out e below ch stored good un enough =
      read_segments_cases fuel pre s [] out e below stored.0 good.0 λ all.
        let here = positions s.id (length (encoded s.read)) s.unread in
        let whole : length here ≡ length s.unread =
          length-positions s.id (length (encoded s.read)) s.unread in
        next_after_last (read_segments fuel log max) pre s.id (out ++ here) e below
        ∙ ap (◌++◌ out) (
            sym (
              ap (take (max - length out)) (append-nil here)
              ∙ take_all (max - length out) here (omega arith)))
  read_segments_from (suc fuel) pre s (t ∷ rest) out e below ch stored good un enough =
      read_segments_cases fuel pre s (t ∷ rest) out e below stored.0 good.0 λ all.
        let here = positions s.id (length (encoded s.read)) s.unread in
        let whole : length here ≡ length s.unread =
          length-positions s.id (length (encoded s.read)) s.unread in
        let room : max - length (out ++ here) ≡ max - length out - length here =
          omega (arith, length-append out here) in
        let up : s.id < t.id = omega arith in
        next_after_more (read_segments fuel log max) pre s.id t.id (ids rest) (out ++ here) e below
          up
        ∙ ap (λ (p : LogPosition). read_segments fuel log max p (out ++ here))
            (sym (begin_untouched t un.0))
        ∙ read_segments_from fuel (pre ++ (s.id ∷ [])) t rest (out ++ here)
            (e ∙ append_snoc pre (ids (t ∷ rest)) s.id)
            (All-append (λ x. x < t.id) pre (s.id ∷ [])
              (All-lt_mono {m = s.id} {n = t.id} pre (omega arith) below) (up, tt))
            (omega arith, ch.1.1) stored.1 good.1 un.1 (omega arith)
        ∙ append_assoc out here _
        ∙ ap (◌++◌ out) (
            ap (λ (n : ℕ). here ++ take n (log_records (t ∷ rest))) room
            ∙ sym (take-append_long (max - length out) here (log_records (t ∷ rest)) (omega arith)))
