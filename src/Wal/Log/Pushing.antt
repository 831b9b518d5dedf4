-- ===== src/Wal/Log/Pushing.antt =====
-- One more pending record at the end of the last segment, on the abstract log.
use trapd_sensor.Prelude.{
  ◌+◌, ◌≡◌, refl, sym, ap, ◌∙◌, List, [], ◌∷◌, ◌++◌, append_assoc, Bytes, All, length,
  length-append, All-append, All-split, arith,
}
use trapd_sensor.Wal.Record.{Checksum, record_bytes}
use trapd_sensor.Wal.Record.RoundTrip.{IsRecordable}
use trapd_sensor.Wal.Segment.{encoded}
use trapd_sensor.Wal.Log.Shape.{Seg, records, last_of, push_last, size_of, total_size, encoded_snoc}

pub push_last_head :
    (p : Bytes) (s : Seg) (segs : List Seg)
    → ((push_last p s segs).0.id ≡ s.id) × ((push_last p s segs).0.read ≡ s.read)
push_last_head p s [] = (refl, refl)
push_last_head p s (t ∷ segs) = (refl, refl)

pub last_of-push_last :
    (p : Bytes) (s : Seg) (segs : List Seg)
    → last_of (push_last p s segs).0 (push_last p s segs).1
      ≡ record (last_of s segs) { unread = (last_of s segs).unread ++ (p ∷ []) }
last_of-push_last p s [] = refl
last_of-push_last p s (t ∷ segs) = last_of-push_last p t segs

pub untouched-push_last :
    (p : Bytes) (s : Seg) (segs : List Seg)
    → All (λ t. t.read ≡ []) segs
    → All (λ t. t.read ≡ []) (push_last p s segs).1
untouched-push_last p s [] h = tt
untouched-push_last p s (t ∷ segs) h =
    ((push_last_head p t segs).1 ∙ h.0, untouched-push_last p t segs h.1)

module _ ⦃c : Checksum⦄ where
  pub IsRecordable-push_last :
      (p : Bytes) (s : Seg) (segs : List Seg)
      → IsRecordable p
      → All (λ t. All IsRecordable (records t)) (s ∷ segs)
      → All (λ t. All IsRecordable (records t)) ((push_last p s segs).0 ∷ (push_last p s segs).1)
  IsRecordable-push_last p s [] h (g, _) =
      let (gr, gu) = All-split IsRecordable s.read s.unread g in
      (
        All-append IsRecordable s.read (s.unread ++ (p ∷ [])) gr
            (All-append IsRecordable s.unread (p ∷ []) gu (h, tt)),
        tt,
      )
  IsRecordable-push_last p s (t ∷ segs) h (g, gs) = (g, IsRecordable-push_last p t segs h gs)

  -- The pushed segment's file grows by the record.
  pub encoded-pushed :
      (p : Bytes) (s : Seg)
      → encoded (s.read ++ (s.unread ++ (p ∷ []))) ≡ encoded (records s) ++ record_bytes p
  encoded-pushed p s =
      ap encoded (sym (append_assoc s.read s.unread (p ∷ []))) ∙ encoded_snoc (records s) p

  pub size-pushed :
      (p : Bytes) (s : Seg)
      → length (encoded (s.read ++ (s.unread ++ (p ∷ [])))) ≡ size_of s + length (record_bytes p)
  size-pushed p s =
      ap length (encoded-pushed p s) ∙ length-append (encoded (records s)) (record_bytes p)

  pub total_size-push_last :
      (p : Bytes) (s : Seg) (segs : List Seg)
      → total_size ((push_last p s segs).0 ∷ (push_last p s segs).1)
        ≡ total_size (s ∷ segs) + length (record_bytes p)
  total_size-push_last p s [] = omega (arith, size-pushed p s)
  total_size-push_last p s (t ∷ segs) = omega (arith, total_size-push_last p t segs)
