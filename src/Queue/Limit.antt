-- ===== src/Queue/Limit.antt =====
-- `push`: the limit on the disk holds, and what goes for it goes from the oldest segment of the
-- least important log that still has one to give.
use trapd_sensor.Prelude.{
  ℕ, zero, suc, ◌+◌, ◌<◌, ◌≤◌, ◌≡◌, ◌⊎◌, refl, sym, ap, subst, ◌∙◌, Option, none, some, List, [],
  ◌∷◌, Bytes, Bool, true, false, Bool-cases, length, drop, drop_all, arith, inl, inr, All, ltb,
}
use trapd_sensor.Events.{Priority, bulk, standard, critical}
use trapd_sensor.Wal.Record.{Checksum}
use trapd_sensor.Wal.Log.{SegmentedLog}
use trapd_sensor.Wal.Log.Invariant.{Represents}
use trapd_sensor.Wal.Log.Dropping.Retention.{Drops, drop_oldest_segment-Represents}
use trapd_sensor.Queue.{
  Slots, get, set, set_log, EventQueue, evict_order, evict_loop, evict_one, disk_bytes,
  segment_count, make_room,
}
use trapd_sensor.Queue.Draining.{same_queue}
use trapd_sensor.Queue.Rounds.{Holds}

module _ ⦃c : Checksum⦄ where
  -- The log has only its active segment left.
  abbrev pub Exhausted : SegmentedLog → Type 0
  Exhausted log = log.segments ≡ log.active_id ∷ []

  -- One segment of one log went, with `n` pending records.
  record Evicts (q : EventQueue) (views : Slots (List Bytes)) (order : List Priority) : Type 0 where
    from : Priority
    pub lost : ℕ
    log : SegmentedLog
    loop_eq : evict_loop order q ≡ (some lost, set_log from log q)
    drops : Drops (get from q.logs) (get from views) lost log

  evict_loop-cases :
      (order : List Priority) (q : EventQueue) (views : Slots (List Bytes))
      → Holds q views
      → ((evict_loop order q ≡ (none, q)) × All (λ p. Exhausted (get p q.logs)) order)
        ⊎ Evicts q views order
  unfolding evict_loop
  evict_loop-cases [] q views h = inl (refl, tt)
  evict_loop-cases (p ∷ order) q views h =
      elim (drop_oldest_segment-Represents (get p q.logs) (get p views) (h.at p)) [
        | inr (n, log, d) ↦ inr (record {
          from = p;
          lost = n;
          log = log;
          loop_eq =
              ap
                (λ (o : Option ℕ × SegmentedLog). elim o.0 [
                  | some dropped ↦ (some dropped, set_log p o.1 q)
                  | none ↦ evict_loop order (set_log p o.1 q)
                ])
                d.0;
          drops = d;
        })
        | inl (kept, only) ↦
            let next : evict_loop (p ∷ order) q ≡ evict_loop order q =
              ap
                (λ (o : Option ℕ × SegmentedLog). elim o.0 [
                  | some dropped ↦ (some dropped, set_log p o.1 q)
                  | none ↦ evict_loop order (set_log p o.1 q)
                ])
                kept
              ∙ ap (evict_loop order) (same_queue p q) in
            elim (evict_loop-cases order q views h) [
              | inl (e, rest) ↦ inl (next ∙ e, (only, rest))
              | inr ev ↦ inr (record {
                from = ev.from;
                lost = ev.lost;
                log = ev.log;
                loop_eq = next ∙ ev.loop_eq;
                drops = ev.drops;
              })
            ]
      ]

  pub set-Holds :
      (q : EventQueue) (views : Slots (List Bytes)) (p : Priority) (log : SegmentedLog)
      (view : List Bytes)
      → Holds q views
      → Represents log view
      → Holds (set_log p log q) (set p view views)
  set-Holds q views bulk log view h r = record {
    at = elim [ bulk ↦ r | standard ↦ h.at standard | critical ↦ h.at critical ];
  }
  set-Holds q views standard log view h r = record {
    at = elim [ bulk ↦ h.at bulk | standard ↦ r | critical ↦ h.at critical ];
  }
  set-Holds q views critical log view h r = record {
    at = elim [ bulk ↦ h.at bulk | standard ↦ h.at standard | critical ↦ r ];
  }

  fewer :
      (q : EventQueue) (p : Priority) (log : SegmentedLog)
      → suc (length log.segments) ≡ length (get p q.logs).segments
      → suc (segment_count (set_log p log q)) ≡ segment_count q
  fewer q bulk log e = omega arith
  fewer q standard log e = omega arith
  fewer q critical log e = omega arith

-- The pending payloads of each priority but its oldest ones.
abbrev pub without : Slots ℕ → Slots (List Bytes) → Slots (List Bytes)
without lost views = record {
  at_bulk = drop lost.at_bulk views.at_bulk;
  at_standard = drop lost.at_standard views.at_standard;
  at_critical = drop lost.at_critical views.at_critical;
}

abbrev pub sum_of : Slots ℕ → ℕ
sum_of s = s.at_bulk + s.at_standard + s.at_critical

drop-drop {ℓ} : {A : Type ℓ} (m n : ℕ) (xs : List A) → drop n (drop m xs) ≡ drop (m + n) xs
drop-drop zero n xs = let e : 0 + n ≡ n = omega arith in ap (λ (k : ℕ). drop k xs) (sym e)
drop-drop (suc m) n [] = drop_all n [] (omega arith) ∙ sym (drop_all (suc m + n) [] (omega arith))
drop-drop (suc m) n (x ∷ xs) =
    let e : suc m + n ≡ suc (m + n) = omega arith in
    drop-drop m n xs ∙ ap (λ (k : ℕ). drop k (x ∷ xs)) (sym e)

more_lost : Priority → ℕ → Slots ℕ → Slots ℕ
more_lost p n lost = set p (n + get p lost) lost

sum-more_lost :
    (p : Priority) (n : ℕ) (lost : Slots ℕ) → sum_of (more_lost p n lost) ≡ n + sum_of lost
unfolding more_lost
sum-more_lost bulk n lost = omega arith
sum-more_lost standard n lost = omega arith
sum-more_lost critical n lost = omega arith

without-more_lost :
    (p : Priority) (n : ℕ) (lost : Slots ℕ) (views : Slots (List Bytes))
    → without lost (set p (drop n (get p views)) views) ≡ without (more_lost p n lost) views
unfolding more_lost
without-more_lost bulk n lost views i = record (without lost views) {
  at_bulk = drop-drop n lost.at_bulk views.at_bulk i;
}
without-more_lost standard n lost views i = record (without lost views) {
  at_standard = drop-drop n lost.at_standard views.at_standard i;
}
without-more_lost critical n lost views i = record (without lost views) {
  at_critical = drop-drop n lost.at_critical views.at_critical i;
}

module _ ⦃c : Checksum⦄ where
  pub record Cleared (fuel needed : ℕ) (q : EventQueue) (evicted : ℕ) (views : Slots (List Bytes))
      : Type 0 where
    pub room : Bool
    pub spent : ℕ
    pub after : EventQueue
    pub lost : Slots ℕ
    pub result_eq : make_room fuel needed q evicted ≡ (room, spent, after)
    pub spent_eq : spent ≡ evicted + sum_of lost
    pub kept : Holds after (without lost views)
    pub same_limit : after.max_disk_bytes ≡ q.max_disk_bytes
    pub same_dropped : after.dropped_total ≡ q.dropped_total
    pub decided :
        ((room ≡ true) × (disk_bytes after + needed ≤ q.max_disk_bytes))
        ⊎ ((room ≡ false)
            × ((q.max_disk_bytes < disk_bytes after + needed)
                × All (λ p. Exhausted (get p after.logs)) evict_order))

  abbrev next_round : ℕ → ℕ → ℕ → Option ℕ × EventQueue → Bool × ℕ × EventQueue
  next_round fuel needed evicted o = elim o.0 [
    | some n ↦ make_room fuel needed o.1 (evicted + n)
    | none ↦ (false, evicted, o.1)
  ]

  -- One round more than there are segments is enough.
  pub make_room-Cleared :
      (fuel needed : ℕ) (q : EventQueue) (evicted : ℕ) (views : Slots (List Bytes))
      → Holds q views
      → segment_count q < fuel
      → Cleared fuel needed q evicted views
  unfolding make_room evict_one
  make_room-Cleared zero needed q evicted views h enough = absurd (omega arith)
  make_room-Cleared (suc fuel) needed q evicted views h enough =
      elim (Bool-cases (ltb q.max_disk_bytes (disk_bytes q + needed))) [
        | inr fits ↦ record {
          room = true;
          spent = evicted;
          after = q;
          lost = record { at_bulk = 0; at_standard = 0; at_critical = 0 };
          result_eq = rw (fits, make_room) refl;
          spent_eq = omega arith;
          kept = h;
          same_limit = refl;
          same_dropped = refl;
          decided = inl (refl, ground arith);
        }
        | inl over ↦ elim (evict_loop-cases evict_order q views h) [
          | inl (e, only) ↦ record {
            room = false;
            spent = evicted;
            after = q;
            lost = record { at_bulk = 0; at_standard = 0; at_critical = 0 };
            result_eq = rw (over, make_room) (ap (next_round fuel needed evicted) e);
            spent_eq = omega arith;
            kept = h;
            same_limit = refl;
            same_dropped = refl;
            decided = inr (refl, (ground arith, only));
          }
          | inr ev ↦
              let next = set_log ev.from ev.log q in
              let fewer_now = fewer q ev.from ev.log ev.drops.1.1.1 in
              let rest =
                make_room-Cleared fuel needed next (evicted + ev.lost)
                  (set ev.from (drop ev.lost (get ev.from views)) views)
                  (set-Holds q views ev.from ev.log (drop ev.lost (get ev.from views)) h
                    ev.drops.1.0)
                  (omega arith) in
              record {
                room = rest.room;
                spent = rest.spent;
                after = rest.after;
                lost = more_lost ev.from ev.lost rest.lost;
                result_eq =
                    rw (over, make_room)
                      (ap (next_round fuel needed evicted) ev.loop_eq ∙ rest.result_eq);
                spent_eq = omega (arith, rest.spent_eq, sum-more_lost ev.from ev.lost rest.lost);
                kept =
                    subst (Holds rest.after) (without-more_lost ev.from ev.lost rest.lost views)
                      rest.kept;
                same_limit = rest.same_limit;
                same_dropped = rest.same_dropped;
                decided = rest.decided;
              }
        ]
      ]
