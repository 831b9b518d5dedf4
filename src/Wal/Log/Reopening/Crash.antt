-- ===== src/Wal/Log/Reopening/Crash.antt =====
-- What a crash leaves in the directory, and what the parts of `open` make of it.
use trapd_sensor.Prelude.{
  ◌⊎◌, inl, inr, Option, ltb, Bool-cases, ℕ, ◌+◌, ◌^◌, ◌<◌, ◌≡◌, ◌≢◌, refl, sym, ap, ◌∙◌, none,
  some, List, [], ◌∷◌, ◌++◌, append-nil, Bytes, All, length, length-append, arith, ==_iff,
  if◌then◌else◌, Bool, true, false, to_le, from_le, from_le-to_le, length-to_le, take, drop,
  take-append_length, drop-append_length,
}
use trapd_sensor.Wal.Record.{Checksum}
use trapd_sensor.Wal.Record.RoundTrip.{IsRecordable}
use trapd_sensor.Wal.Segment.{encoded, count_records_in_range}
use trapd_sensor.Wal.Segment.Recovery.{encoded-nil}
use trapd_sensor.Wal.Log.Dropping.{clamp_keeps}
use trapd_sensor.Wal.Directory.{Directory, lookup, lookup-write, discover_segments, next_back_or}
use trapd_sensor.Wal.Log.{SegmentedLog, LogPosition, read_cursor, clamp_to, create_file, or_empty}
use trapd_sensor.Wal.Log.Consuming.{pending_loop, nonempty_or_first}
use trapd_sensor.Wal.Log.Consumption.{Whole, StartsAt, count_whole}
use trapd_sensor.Wal.Log.Invariant.{buffered}
use trapd_sensor.Wal.Log.Shape.{Seg, records, ids, Chain, unread_of, last_of}
use trapd_sensor.Wal.Log.Reopening.{OnDisk}

pub below-All :
    (id : ℕ) (segs : List Seg) {a : ℕ}
    → All (λ x. x < a + 1) (ids segs)
    → a < id
    → All (λ s. s.id ≢ id) segs
below-All id [] h up = tt
below-All id (s ∷ segs) h up = (omega (arith, h.0), below-All id segs h.1 up)

abbrev pub cursor_of : ⦃c : Checksum⦄ → Seg → LogPosition
cursor_of s = record { segment = s.id; offset = length (encoded s.read) }

-- What a crash leaves of the cursor. Its file has the position behind the confirmed records; or it
-- names a segment that is gone, or there is none yet, or it has not the sixteen bytes of a position.
-- In these cases the first segment that is there has no confirmed record.
pub data CursorLeft ⦃c : Checksum⦄ (file : Option Bytes) (done : List Seg) (cur : Seg)
    : Type 0 where
  confirmed :
      file ≡ some (to_le 8 cur.id ++ to_le 8 (length (encoded cur.read)))
      → cur.id < 256 ^ 8
      → length (encoded cur.read) < 256 ^ 8
      → CursorLeft file done cur
  older :
      (segment offset : ℕ)
      → file ≡ some (to_le 8 segment ++ to_le 8 offset)
      → segment < 256 ^ 8
      → offset < 256 ^ 8
      → segment < cur.id
      → done ≡ []
      → cur.read ≡ []
      → CursorLeft file done cur
  absent_file : file ≡ none → done ≡ [] → cur.read ≡ [] → CursorLeft file done cur
  malformed :
      (bytes : Bytes)
      → file ≡ some bytes
      → length bytes ≢ 16
      → done ≡ []
      → cur.read ≡ []
      → CursorLeft file done cur

module _ ⦃c : Checksum⦄ where
  -- What a crash leaves: the segments' files, each with whole records and perhaps a torn rest, and
  -- what `CursorLeft` says of the cursor file.
  pub record Crashed (dir : Directory) (done : List Seg) (cur : Seg) (rest : List Seg)
      : Type 0 where
    pub there : discover_segments dir.files ≡ ids (done ++ (cur ∷ rest))
    pub chain : Chain 0 (done ++ (cur ∷ rest))
    pub files : All (OnDisk dir.files) (done ++ (cur ∷ rest))
    pub beyond : (id : ℕ) → (last_of cur rest).id < id → lookup id dir.files ≡ none
    pub recordable : All (λ s. All IsRecordable (records s)) (done ++ (cur ∷ rest))
    pub finished : All (λ s. s.unread ≡ []) done
    pub untouched : All (λ s. s.read ≡ []) rest
    pub cursor_file : CursorLeft dir.cursor_file done cur

pub next_back_or-ids :
    (d : ℕ) (done : List Seg) (cur : Seg) (rest : List Seg)
    → next_back_or d (ids (done ++ (cur ∷ rest))) ≡ (last_of cur rest).id
unfolding next_back_or
next_back_or-ids d [] cur [] = refl
next_back_or-ids d [] cur (t ∷ rest) = next_back_or-ids cur.id [] t rest
next_back_or-ids d (x ∷ done) cur rest = next_back_or-ids x.id done cur rest

pub nonempty-ids :
    (done : List Seg) (cur : Seg) (rest : List Seg)
    → nonempty_or_first (ids (done ++ (cur ∷ rest))) ≡ ids (done ++ (cur ∷ rest))
unfolding nonempty_or_first
nonempty-ids [] cur rest = refl
nonempty-ids (x ∷ done) cur rest = refl

pub read_cursor_sixteen :
    (bytes : Bytes)
    → length bytes ≡ 16
    → read_cursor (some bytes)
      ≡ record { segment = from_le (take 8 bytes); offset = from_le (drop 8 bytes) }
unfolding read_cursor
read_cursor_sixteen bytes h = ground arith

pub idle : (b : Bool) (file : Bytes) → buffered (if b then [] else []) (some file) ≡ some file
idle true file = ap some (append-nil file)
idle false file = ap some (append-nil file)

-- The cursor file's sixteen bytes give the position back.
pub read_cursor-to_le :
    (segment offset : ℕ)
    → segment < 256 ^ 8
    → offset < 256 ^ 8
    → read_cursor (some (to_le 8 segment ++ to_le 8 offset))
      ≡ record { segment = segment; offset = offset }
unfolding read_cursor
read_cursor-to_le segment offset hs ho =
    let bytes = to_le 8 segment ++ to_le 8 offset in
    let first : take 8 bytes ≡ to_le 8 segment =
      (λ i. take (sym (length-to_le 8 segment) i) bytes)
      ∙ take-append_length (to_le 8 segment) (to_le 8 offset) in
    let second : drop 8 bytes ≡ to_le 8 offset =
      (λ i. drop (sym (length-to_le 8 segment) i) bytes)
      ∙ drop-append_length (to_le 8 segment) (to_le 8 offset) in
    read_cursor_sixteen bytes (
      omega (
        arith,
        length-append (to_le 8 segment) (to_le 8 offset),
        length-to_le 8 segment,
        length-to_le 8 offset,
      ))
    ∙ (λ i. record {
      segment = (ap from_le first ∙ from_le-to_le 8 segment hs) i;
      offset = (ap from_le second ∙ from_le-to_le 8 offset ho) i;
    })

origin_at : LogPosition
origin_at = record { segment = 0; offset = 0 }

read_cursor-malformed : (bytes : Bytes) → length bytes ≢ 16 → read_cursor (some bytes) ≡ origin_at
unfolding read_cursor origin_at
read_cursor-malformed bytes h = ground arith

module _ ⦃c : Checksum⦄ where
  front_of : (cur : Seg) → cur.read ≡ [] → record { segment = cur.id; offset = 0 } ≡ cursor_of cur
  front_of cur fresh =
      let offset : 0 ≡ length (encoded cur.read) =
        sym (ap (λ (rs : List Bytes). length (encoded rs)) fresh ∙ ap length encoded-nil) in
      λ i. record { segment = cur.id; offset = offset i }

  -- A position before the first segment, or in front of all, is moved to the front of that segment.
  clamp_start :
      (done : List Seg) (cur : Seg) (rest : List Seg) (at : LogPosition)
      → done ≡ []
      → cur.read ≡ []
      → (at.segment < cur.id) ⊎ (at ≡ origin_at)
      → clamp_to (ids (done ++ (cur ∷ rest))) at ≡ cursor_of cur
  unfolding clamp_to origin_at
  clamp_start (d ∷ done) cur rest at nil fresh h = absurd cc
  clamp_start [] cur rest at nil fresh (inl before) =
      let behind : ltb at.segment cur.id ≡ true = ground arith in rw behind (front_of cur fresh)
  clamp_start [] cur rest at nil fresh (inr start) = elim (Bool-cases (ltb 0 cur.id)) [
    | inl behind ↦ rw (start, behind) (front_of cur fresh)
    | inr first ↦
        let zero_id : 0 ≡ cur.id = ground arith in
        rw (start, first) ((λ i. record { segment = zero_id i; offset = 0 }) ∙ front_of cur fresh)
  ]

  pub cursor-clamped :
      (file : Option Bytes) (done : List Seg) (cur : Seg) (rest : List Seg)
      → Chain 0 (done ++ (cur ∷ rest))
      → CursorLeft file done cur
      → clamp_to (ids (done ++ (cur ∷ rest))) (read_cursor file) ≡ cursor_of cur
  unfolding read_cursor origin_at
  cursor-clamped file done cur rest chain (confirmed e id_fits offset_fits) =
      ap (λ f. clamp_to (ids (done ++ (cur ∷ rest))) (read_cursor f)) e
      ∙ ap (clamp_to (ids (done ++ (cur ∷ rest))))
          (read_cursor-to_le cur.id (length (encoded cur.read)) id_fits offset_fits)
      ∙ clamp_keeps done cur rest (cursor_of cur) chain refl
  cursor-clamped file done cur rest chain (older segment offset e fits fits' before nil fresh) =
      ap (λ f. clamp_to (ids (done ++ (cur ∷ rest))) (read_cursor f)) e
      ∙ ap (clamp_to (ids (done ++ (cur ∷ rest)))) (read_cursor-to_le segment offset fits fits')
      ∙ clamp_start done cur rest (record { segment = segment; offset = offset }) nil fresh
          (inl before)
  cursor-clamped file done cur rest chain (absent_file e nil fresh) =
      ap (λ f. clamp_to (ids (done ++ (cur ∷ rest))) (read_cursor f)) e
      ∙ clamp_start done cur rest origin_at nil fresh (inr refl)
  cursor-clamped file done cur rest chain (malformed bytes e odd nil fresh) =
      ap (λ f. clamp_to (ids (done ++ (cur ∷ rest))) (read_cursor f)) e
      ∙ ap (clamp_to (ids (done ++ (cur ∷ rest)))) (read_cursor-malformed bytes odd)
      ∙ clamp_start done cur rest origin_at nil fresh (inr refl)

pub create_file-same :
    (id j : ℕ) (file : Bytes) (files : List (ℕ × Bytes))
    → lookup id files ≡ some file
    → lookup j (create_file id files) ≡ lookup j files
unfolding create_file
create_file-same id j file files h =
    lookup-write id j (or_empty (lookup id files)) files ∙ (ground (arith, h, ==_iff id j))

module _ ⦃c : Checksum⦄ where
  pub last_whole :
      (files : List (ℕ × Bytes)) (done : List Seg) (cur : Seg) (rest : List Seg)
      → All (λ s. lookup s.id files ≡ some (encoded (records s))) (done ++ (cur ∷ rest))
      → lookup (last_of cur rest).id files ≡ some (encoded (records (last_of cur rest)))
  last_whole files [] cur [] h = h.0
  last_whole files [] cur (t ∷ rest) h = last_whole files [] t rest h.1
  last_whole files (d ∷ done) cur rest h = last_whole files done cur rest h.1

  pub pending_loop-Whole :
      (log : SegmentedLog) (segs : List Seg) (total : ℕ)
      → All (StartsAt log.cursor) segs
      → All (Whole log) segs
      → All (λ s. All IsRecordable s.unread) segs
      → pending_loop log (ids segs) total ≡ total + length (unread_of segs)
  unfolding pending_loop
  pending_loop-Whole log [] total st wh good = omega arith
  pending_loop-Whole log (s ∷ segs) total st wh good =
      ap (λ (n : ℕ). pending_loop log (ids segs) (total + n))
        ((λ i. count_records_in_range (wh.0 i) (st.0 i) none) ∙ count_whole s good.0)
      ∙ pending_loop-Whole log segs (total + length s.unread) st.1 wh.1 good.1
      ∙ omega (arith, length-append s.unread (unread_of segs))
