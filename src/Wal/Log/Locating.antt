-- ===== src/Wal/Log/Locating.antt =====
-- Where a pending record's position lies among the segments.
use trapd_sensor.Prelude.{
  ℕ, zero, suc, ◌+◌, ◌-◌, ◌≡◌, refl, sym, ap, ◌∙◌, some, List, [], ◌∷◌, ◌++◌, Bytes, length,
  length-append, arith, ltb, Bool-cases, inl, inr, get_elem?, append_snoc, get_elem?-append_left,
  get_elem?-append_right,
}
use trapd_sensor.Wal.Record.{Checksum, header_len}
use trapd_sensor.Wal.Record.RoundTrip.{length-record_bytes}
use trapd_sensor.Wal.Segment.{encoded}
use trapd_sensor.Wal.Log.{LogPosition, LogRecord}
use trapd_sensor.Wal.Log.Shape.{Seg, unread_of, encoded_snoc}
use trapd_sensor.Wal.Log.Batches.{positions, log_records, length-positions}

module _ ⦃c : Checksum⦄ where
  -- `pos` lies behind `first ∷ consumed`, which begins the unread part of `seg`.
  pub record Located (segs : List Seg) (k : ℕ) (pos : LogPosition) : Type 0 where
    pub mids : List Seg
    pub seg : Seg
    pub later : List Seg
    pub first : Bytes
    pub consumed : List Bytes
    pub left : List Bytes
    pub split : segs ≡ mids ++ (seg ∷ later)
    pub unread_split : seg.unread ≡ first ∷ (consumed ++ left)
    pub pos_eq :
        pos
        ≡ record { segment = seg.id; offset = length (encoded (seg.read ++ (first ∷ consumed))) }
    pub count_eq : length (unread_of mids) + suc (length consumed) ≡ suc k

  record InFile (id : ℕ) (read rs : List Bytes) (k : ℕ) (pos : LogPosition) : Type 0 where
    first : Bytes
    consumed : List Bytes
    left : List Bytes
    split : rs ≡ first ∷ (consumed ++ left)
    pos_eq : pos ≡ record { segment = id; offset = length (encoded (read ++ (first ∷ consumed))) }
    count_eq : length consumed ≡ k

  offset_snoc :
      (read : List Bytes) (r : Bytes)
      → length (encoded (read ++ (r ∷ []))) ≡ length (encoded read) + (header_len + length r)
  offset_snoc read r = omega (
    arith,
    ap length (encoded_snoc read r),
    length-append (encoded read) _,
    length-record_bytes r,
  )

  locate-InFile :
      (id : ℕ) (read rs : List Bytes) (offset k : ℕ) (rec : LogRecord)
      → offset ≡ length (encoded read)
      → get_elem? (positions id offset rs) k ≡ some rec
      → InFile id read rs k rec.next
  locate-InFile id read [] offset k rec e h = cc
  locate-InFile id read (r ∷ rs) offset zero rec e h =
      let next : LogPosition = record { segment = id; offset = offset + (header_len + length r) } in
      let this : LogRecord = record { payload = r; next = next } in
      let here : this ≡ rec = cc in
      record {
        first = r;
        consumed = [];
        left = rs;
        split = refl;
        pos_eq = ap (λ (x : LogRecord). x.next) (sym here) ∙ (λ i. record {
          segment = id;
          offset = (ap (λ (n : ℕ). n + (header_len + length r)) e ∙ sym (offset_snoc read r)) i;
        });
        count_eq = refl;
      }
  locate-InFile id read (r ∷ rs) offset (suc k) rec e h =
      let deeper =
        locate-InFile id (read ++ (r ∷ [])) rs (offset + (header_len + length r)) k rec
          (ap (λ (n : ℕ). n + (header_len + length r)) e ∙ sym (offset_snoc read r)) h in
      record {
        first = r;
        consumed = deeper.first ∷ deeper.consumed;
        left = deeper.left;
        split = ap (◌∷◌ r) deeper.split;
        pos_eq = deeper.pos_eq ∙ (λ i. record {
          segment = id;
          offset = length (encoded (sym (append_snoc read (deeper.first ∷ deeper.consumed) r) i));
        });
        count_eq = ap suc deeper.count_eq;
      }

  pub locate :
      (segs : List Seg) (k : ℕ) (rec : LogRecord)
      → get_elem? (log_records segs) k ≡ some rec
      → Located segs k rec.next
  locate [] k rec h = cc
  locate (s ∷ segs) k rec h =
      let here = positions s.id (length (encoded s.read)) s.unread in
      let size = length-positions s.id (length (encoded s.read)) s.unread in
      elim (Bool-cases (ltb k (length here))) [
        | inl inside ↦
            let f =
              locate-InFile s.id s.read s.unread (length (encoded s.read)) k rec refl
                (sym (get_elem?-append_left here (log_records segs) k (ground arith)) ∙ h) in
            record {
              mids = [];
              seg = s;
              later = segs;
              first = f.first;
              consumed = f.consumed;
              left = f.left;
              split = refl;
              unread_split = f.split;
              pos_eq = f.pos_eq;
              count_eq = omega (arith, f.count_eq);
            }
        | inr beyond ↦
            let l =
              locate segs (k - length here) rec
                (sym (get_elem?-append_right here (log_records segs) k (ground arith)) ∙ h) in
            record {
              mids = s ∷ l.mids;
              seg = l.seg;
              later = l.later;
              first = l.first;
              consumed = l.consumed;
              left = l.left;
              split = ap (◌∷◌ s) l.split;
              unread_split = l.unread_split;
              pos_eq = l.pos_eq;
              count_eq =
                  ground (arith, l.count_eq, length-append s.unread (unread_of l.mids), size);
            }
      ]
