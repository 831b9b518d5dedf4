-- ===== src/Queue/Pushing.antt =====
-- What `push` promises: the event is stored within the limit, or nothing was left to evict.
use trapd_sensor.Prelude.{
  ℕ, suc, ◌+◌, ◌≤◌, ◌≡◌, ◌⊎◌, refl, ap, ◌∙◌, List, [], ◌∷◌, ◌++◌, Bytes, true, false, length, arith,
  inl, inr, All,
}
use trapd_sensor.Events.{Priority, bulk, standard, critical}
use trapd_sensor.Wal.Record.{Checksum, header_len}
use trapd_sensor.Wal.Record.RoundTrip.{IsRecordable}
use trapd_sensor.Wal.Log.{SegmentedLog, ok}
use trapd_sensor.Wal.Log.Delivery.{append-Represents}
use trapd_sensor.Queue.{
  Slots, get, set, set_log, EventQueue, PushOutcome, evict_order, disk_bytes, segment_count,
  after_room, stored_in, push_payload,
}
use trapd_sensor.Queue.Rounds.{Holds}
use trapd_sensor.Queue.Limit.{Exhausted, without, sum_of, Cleared, make_room-Cleared, set-Holds}

module _ ⦃c : Checksum⦄ where
  pub record Pushed (p : Priority) (payload : Bytes) (q : EventQueue) (views : Slots (List Bytes))
      : Type 0 where
    pub outcome : PushOutcome
    pub after : EventQueue
    -- How many pending events of each priority went.
    pub lost : Slots ℕ
    pub result_eq : push_payload p payload q ≡ (ok outcome, after)
    pub evicted_eq : outcome.evicted ≡ sum_of lost
    pub decided :
        ((outcome.stored ≡ true)
          × ((disk_bytes after ≤ q.max_disk_bytes)
              × Holds after
                  (set p (get p (without lost views) ++ (payload ∷ [])) (without lost views))))
        ⊎ ((outcome.stored ≡ false)
            × ((after.dropped_total ≡ q.dropped_total + 1)
                × (Holds after (without lost views)
                    × All (λ r. Exhausted (get r after.logs)) evict_order)))

  more_bytes :
      (q : EventQueue) (p : Priority) (log : SegmentedLog) (n : ℕ)
      → log.disk_bytes ≡ (get p q.logs).disk_bytes + n
      → disk_bytes (set_log p log q) ≡ disk_bytes q + n
  more_bytes q bulk log n e = omega arith
  more_bytes q standard log n e = omega arith
  more_bytes q critical log n e = omega arith

  Pushed-by :
      (q : EventQueue) (views : Slots (List Bytes)) (p : Priority) (payload : Bytes)
      → Cleared (suc (segment_count q)) (length payload + 8) q 0 views
      → IsRecordable payload
      → Pushed p payload q views
  unfolding push_payload
  Pushed-by q views p payload r good = elim r.decided [
    | inl (roomy, fits) ↦
        let (log, appended, (kept, (bytes, _))) =
          append-Represents (get p r.after.logs) (get p (without r.lost views)) payload
            (r.kept.at p) good in
        record {
          outcome = record { stored = true; evicted = r.spent };
          after = set_log p log r.after;
          lost = r.lost;
          result_eq =
              ap (after_room p payload) r.result_eq
              ∙ (λ i. after_room p payload (roomy i, r.spent, r.after))
              ∙ ap (stored_in p r.spent r.after) appended;
          evicted_eq = omega (arith, r.spent_eq);
          decided = inl (
            refl,
            (
              omega (arith, more_bytes r.after p log (header_len + length payload) bytes),
              set-Holds r.after (without r.lost views) p log _ r.kept kept,
            ),
          );
        }
    | inr (full, (over, only)) ↦ record {
      outcome = record { stored = false; evicted = r.spent };
      after = record r.after { dropped_total = r.after.dropped_total + 1 };
      lost = r.lost;
      result_eq =
          ap (after_room p payload) r.result_eq
          ∙ (λ i. after_room p payload (full i, r.spent, r.after));
      evicted_eq = omega (arith, r.spent_eq);
      decided = inr (refl, (omega (arith, r.same_dropped), (record { at = r.kept.at }, only)));
    }
  ]

  -- A payload of an accepted size is stored behind what is pending at its priority and the
  -- limit on the disk holds, or every log has only its active segment left and the payload
  -- is counted as dropped. Either way the oldest pending events of each priority may go, and
  -- the number reported is that of all that went.
  pub push_payload-Pushed :
      (q : EventQueue) (views : Slots (List Bytes)) (p : Priority) (payload : Bytes)
      → Holds q views
      → IsRecordable payload
      → Pushed p payload q views
  push_payload-Pushed q views p payload h good =
      Pushed-by q views p payload
        (make_room-Cleared (suc (segment_count q)) (length payload + 8) q 0 views h (omega arith))
        good
