-- ===== src/Wal/Log/Reopening.antt =====
-- `open` behind a crash: the segments are cut back to their whole records, and what was pending is
-- pending again.
pub mod Crash
pub mod Recovered
use trapd_sensor.Prelude.{
  ℕ, zero, suc, ◌+◌, ◌^◌, ◌≤◌, ◌<◌, ◌≡◌, ◌≢◌, refl, sym, ap, subst, ◌∙◌, Option, none, some, List,
  [], ◌∷◌, ◌++◌, append-nil, Bytes, All, length, length-append, All-split, arith, inl, inr, ◌==◌,
  ==_refl, if◌then◌else◌, ltb, Bool, true, false,
}
use trapd_sensor.Wal.Record.{Checksum, read_record}
use trapd_sensor.Wal.Record.RoundTrip.{IsRecordable}
use trapd_sensor.Wal.Segment.{encoded, truncate_to_last_valid_record}
use trapd_sensor.Wal.Segment.Recovery.{truncate-encoded}
use trapd_sensor.Wal.Directory.{lookup, write, lookup-write}
use trapd_sensor.Wal.Log.Consuming.{recover_loop}
use trapd_sensor.Wal.Log.Shape.{Seg, records, ids, Chain, Chain-weaken, total_size}

module _ ⦃c : Checksum⦄ where
  -- The file holds the segment's records, and behind them nothing that reads as a record: nothing
  -- at all, or the torn rest of a write.
  pub record OnDisk (files : List (ℕ × Bytes)) (s : Seg) : Type 0 where
    pub tail : Bytes
    pub found : lookup s.id files ≡ some (encoded (records s) ++ tail)
    pub torn : read_record tail ≡ none

  write-OnDisk :
      (files : List (ℕ × Bytes)) (id : ℕ) (bytes : Bytes) (segs : List Seg)
      → Chain (suc id) segs
      → All (OnDisk files) segs
      → All (OnDisk (write id bytes files)) segs
  write-OnDisk files id bytes [] ch h = tt
  write-OnDisk files id bytes (s ∷ segs) ch (h, hs) = (
    record {
      tail = h.tail;
      found =
          (let other : (id == s.id) ≡ false = ground arith in
            lookup-write id s.id bytes files ∙ ground (arith, h.found));
      torn = h.torn;
    },
    write-OnDisk files id bytes segs
        (Chain-weaken {m = suc id} {n = suc s.id} segs (omega arith) ch.1) hs,
  )

  pub record Cut (files : List (ℕ × Bytes)) (segs : List Seg) (total : ℕ)
      (out : ℕ × List (ℕ × Bytes)) : Type 0 where
    pub sum : out.0 ≡ total + total_size segs
    pub whole : All (λ s. lookup s.id out.1 ≡ some (encoded (records s))) segs
    pub others : (id : ℕ) → All (λ s. s.id ≢ id) segs → lookup id out.1 ≡ lookup id files

  Chain-apart : (n : ℕ) (segs : List Seg) → Chain (suc n) segs → All (λ s. s.id ≢ n) segs
  Chain-apart n [] ch = tt
  Chain-apart n (s ∷ segs) ch = (
    omega (arith, ch.0),
    Chain-apart n segs (Chain-weaken {m = suc n} {n = suc s.id} segs (omega arith) ch.1),
  )

  -- Recovery cuts every segment back to its whole records, and touches no other file.
  pub recover_loop-Cut :
      (n : ℕ) (segs : List Seg) (files : List (ℕ × Bytes)) (total : ℕ)
      → Chain n segs
      → All (OnDisk files) segs
      → All (λ s. All IsRecordable (records s)) segs
      → Cut files segs total (recover_loop (ids segs) files total)
  unfolding recover_loop
  recover_loop-Cut n [] files total ch h good = record {
    sum = omega arith;
    whole = tt;
    others = λ id a. refl;
  }
  recover_loop-Cut n (s ∷ segs) files total ch (h, hs) (good, goods) =
      let cut = truncate-encoded (records s) h.tail good h.torn in
      let size = length (encoded (records s)) in
      let files' = write s.id (encoded (records s)) files in
      let rest =
        recover_loop-Cut (suc s.id) segs files' (total + size) ch.1
          (write-OnDisk files s.id (encoded (records s)) segs ch.1 hs) goods in
      let step : recover_loop (ids (s ∷ segs)) files total
          ≡ recover_loop (ids segs) files' (total + size) =
        rw (h.found, recover_loop) (rw cut refl) in
      subst (Cut files (s ∷ segs) total) (sym step) (record {
        sum = omega (arith, rest.sum);
        whole = (
          rest.others s.id (Chain-apart s.id segs ch.1)
              ∙ lookup-write s.id s.id (encoded (records s)) files
              ∙ rw (==_refl s.id) refl,
          rest.whole,
        );
        others = λ id a.
            rest.others id a.1
            ∙ lookup-write s.id id (encoded (records s)) files
            ∙ ground (arith, a.0);
      })
