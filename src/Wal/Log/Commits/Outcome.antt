-- ===== src/Wal/Log/Commits/Outcome.antt =====
-- The log behind a `commit`: the collected state, and that it represents what is left.
use trapd_sensor.Prelude.{
  ℕ, suc, ◌+◌, ◌-◌, ◌<◌, ◌≡◌, refl, sym, ap, ◌∙◌, List, [], ◌∷◌, ◌++◌, append_assoc, Bytes, length,
  length-append, arith, false, inl, inr,
}
use trapd_sensor.Wal.Record.{Checksum}
use trapd_sensor.Wal.Segment.{encoded}
use trapd_sensor.Wal.Segment.Recovery.{encoded-append, length-encoded-cons}
use trapd_sensor.Wal.Directory.{range_below, range_below_cut}
use trapd_sensor.Wal.Log.{SegmentedLog, LogPosition, position_le, write_cursor}
use trapd_sensor.Wal.Log.Consuming.{commit, collect_consumed_segments, collect_loop}
use trapd_sensor.Wal.Log.Invariant.{Inv}
use trapd_sensor.Wal.Log.Shape.{
  Seg, records, ids, Chain, Ascending-least, last_of, split_cases, size_of, total_size,
  total_size-append, ids-append, Chain-split, All-ids,
}
use trapd_sensor.Wal.Log.Locating.{Located}
use trapd_sensor.Wal.Log.Consumption.{Collected, collect_loop-Collected}
use trapd_sensor.Wal.Log.Acknowledging.{Synced}
use trapd_sensor.Wal.Log.Commits.{
  gone, shape, chain', gone-Whole, seg_le_active, pos_segment, taken, count_eq,
}

-- The segment that holds the cursor behind the commit.
abbrev advanced : Seg → List Bytes → List Bytes → Seg
advanced s taken left = record { id = s.id; read = s.read ++ taken; unread = left }

pub last_like :
    ⦃c : Checksum⦄
    → (s t : Seg) (segs : List Seg) → s.id ≡ t.id
    → records s ≡ records t
    → ((last_of s segs).id ≡ (last_of t segs).id)
      × (size_of (last_of s segs) ≡ size_of (last_of t segs))
last_like s t [] same rs = (same, ap (λ (r : List Bytes). length (encoded r)) rs)
last_like s t (u ∷ segs) same rs = (refl, refl)

Chain-prefix : (n : ℕ) (xs ys : List Seg) → Chain n (xs ++ ys) → Chain n xs
Chain-prefix n [] ys ch = tt
Chain-prefix n (x ∷ xs) ys ch = (ch.0, Chain-prefix (suc x.id) xs ys ch.1)

module _ ⦃c : Checksum⦄ {log : SegmentedLog} {done : List Seg} {cur : Seg} {rest : List Seg} {k : ℕ}
    {pos : LogPosition} (v : Inv log done cur rest) (l : Located (cur ∷ rest) k pos) where
  offset_grows :
      (read : List Bytes) (first : Bytes) (consumed : List Bytes)
      → length (encoded read) < length (encoded (read ++ (first ∷ consumed)))
  offset_grows read first consumed = omega (
    arith,
    ap length (encoded-append read (first ∷ consumed)),
    length-append (encoded read) (encoded (first ∷ consumed)),
    length-encoded-cons first consumed,
  )

  not_before : position_le pos log.cursor ≡ false
  not_before =
      let grows = offset_grows l.seg.read l.first l.consumed in
      let move : position_le
            (record {
              segment = l.seg.id;
              offset = length (encoded (l.seg.read ++ (l.first ∷ l.consumed)));
            })
            (record { segment = cur.id; offset = length (encoded cur.read) })
          ≡ false =
        elim (split_cases 0 cur rest l.mids l.seg l.later l.split
          (Chain-split 0 done cur rest v.chain).1) [
            | inl (_, same) ↦
                let same_id = ap (λ (s : Seg). s.id) same in
                let same_read = ap (λ (s : Seg). length (encoded s.read)) same in ground arith
            | inr later ↦ ground arith
          ] in
      (λ i. position_le (l.pos_eq i) (v.cursor_eq i)) ∙ move

  -- The state that the collection starts from.
  unfoldable pub moved : SegmentedLog
  moved = write_cursor (record log { cursor = pos; pending = log.pending - suc k })

  obsolete_eq : range_below pos.segment log.segments ≡ ids (gone v l)
  obsolete_eq =
      let (below, chain) = Chain-split 0 (gone v l) l.seg l.later (chain' v l) in
      (λ i.
        range_below (pos_segment v l i)
          ((v.segments_eq ∙ ap ids (shape v l) ∙ ids-append (gone v l) (l.seg ∷ l.later)) i))
      ∙ range_below_cut l.seg.id (ids (gone v l)) (ids (l.seg ∷ l.later))
          (All-ids l.seg.id (gone v l) below)
          (omega arith, Ascending-least l.seg.id (suc l.seg.id) (ids l.later) (omega arith) chain.1)

  pub commit_eq : Synced log pos → commit log pos ≡ collect_loop (ids (gone v l)) moved
  unfolding commit moved
  commit_eq y =
      rw (not_before, commit)
        (rw (count_eq v l y) (
          unfold collect_consumed_segments write_cursor in
          ap (λ r. collect_loop r moved) obsolete_eq))

  unfoldable pub now : Seg
  unfolding taken
  now = advanced l.seg (taken v l) l.left

  pub now-records : records now ≡ records l.seg
  unfolding now taken
  now-records =
      append_assoc l.seg.read (taken v l) l.left ∙ ap (◌++◌ l.seg.read) (sym l.unread_split)

  ids-now : ids (now ∷ l.later) ≡ ids (l.seg ∷ l.later)
  unfolding now
  ids-now = refl

  unfoldable pub log' : SegmentedLog
  log' = collect_loop (ids (gone v l)) moved

  now_total : total_size (now ∷ l.later) ≡ total_size (l.seg ∷ l.later)
  now_total = ap (λ (rs : List Bytes). length (encoded rs) + total_size l.later) now-records

  size_split : log.disk_bytes ≡ total_size (gone v l) + total_size (now ∷ l.later)
  size_split =
      v.disk_eq
      ∙ ap total_size (shape v l)
      ∙ total_size-append (gone v l) (l.seg ∷ l.later)
      ∙ ap (◌+◌ (total_size (gone v l))) (sym now_total)

  pub collected : Collected moved log' l.seg.id (ids (l.seg ∷ l.later)) (total_size (now ∷ l.later))
  unfolding log' moved write_cursor
  collected =
      collect_loop-Collected 0 (gone v l) moved l.seg.id (ids (l.seg ∷ l.later))
        (total_size (now ∷ l.later))
        (v.segments_eq ∙ ap ids (shape v l) ∙ ids-append (gone v l) (l.seg ∷ l.later))
        (Chain-split 0 (gone v l) l.seg l.later (chain' v l)).0 (seg_le_active v l)
        (Chain-prefix 0 (gone v l) (l.seg ∷ l.later) (chain' v l)) (gone-Whole v l) size_split
