-- ===== src/Queue/Rounds.antt =====
-- A whole round of the uploader: read a batch by priority, then confirm it.
use trapd_sensor.Prelude.{
  ℕ, zero, suc, ◌+◌, ◌-◌, ◌≡◌, refl, sym, ap, subst, ◌∙◌, Option, none, List, [], ◌∷◌, ◌++◌,
  append_assoc, Bytes, length, take, drop, arith,
}
use trapd_sensor.Events.{Priority, bulk, standard, critical, Json}
use trapd_sensor.Wal.Record.{Checksum}
use trapd_sensor.Wal.Log.{LogPosition}
use trapd_sensor.Wal.Log.Invariant.{Represents}
use trapd_sensor.Queue.{
  commit_position, Slots, get, set_log, drain_order, EventQueue, ReadBatch, default_batch,
  read_loop, read_batch, commit, commit_loop,
}
use trapd_sensor.Queue.Draining.{decoded, refused, extended, Turn, take-Turn}

-- Each log represents its part of what is pending.
pub record Holds ⦃c : Checksum⦄ (q : EventQueue) (views : Slots (List Bytes)) : Type 0 where
  pub at : (p : Priority) → Represents (get p q.logs) (get p views)

-- What is pending, in the order in which the uploader gets it.
abbrev pub all_pending : Slots (List Bytes) → List Bytes
all_pending views = views.at_critical ++ (views.at_standard ++ views.at_bulk)

take-append {ℓ} :
    {A : Type ℓ} (n : ℕ) (xs ys : List A) → take n (xs ++ ys) ≡ take n xs ++ take (n - length xs) ys
take-append zero [] ys = refl
take-append (suc n) [] ys = let e : suc n - 0 ≡ suc n = omega arith in rw e refl
take-append zero (x ∷ xs) ys = let e : 0 - suc (length xs) ≡ 0 = omega arith in rw e refl
take-append (suc n) (x ∷ xs) ys =
    let e : suc n - suc (length xs) ≡ n - length xs = omega arith in
    rw e (ap (◌∷◌ x) (take-append n xs ys))

drop-append {ℓ} :
    {A : Type ℓ} (n : ℕ) (xs ys : List A) → drop n (xs ++ ys) ≡ drop n xs ++ drop (n - length xs) ys
drop-append zero [] ys = refl
drop-append (suc n) [] ys = let e : suc n - 0 ≡ suc n = omega arith in rw e refl
drop-append zero (x ∷ xs) ys = let e : 0 - suc (length xs) ≡ 0 = omega arith in rw e refl
drop-append (suc n) (x ∷ xs) ys =
    let e : suc n - suc (length xs) ≡ n - length xs = omega arith in rw e (drop-append n xs ys)

-- What is left of each priority when the first `n` of all that is pending are gone.
abbrev left_of : ℕ → Slots (List Bytes) → Slots (List Bytes)
left_of n views = record {
  at_critical = drop n views.at_critical;
  at_standard = drop (n - length views.at_critical) views.at_standard;
  at_bulk = drop (n - length views.at_critical - length views.at_standard) views.at_bulk;
}

left_of-all_pending :
    (n : ℕ) (views : Slots (List Bytes))
    → all_pending (left_of n views) ≡ drop n (all_pending views)
left_of-all_pending n views =
    ap (◌++◌ (drop n views.at_critical))
      (sym (drop-append (n - length views.at_critical) views.at_standard views.at_bulk))
    ∙ sym (drop-append n views.at_critical (views.at_standard ++ views.at_bulk))

three_turns :
    (views : Slots (List Bytes)) (n : ℕ)
    → take n views.at_critical
        ++ (take (n - length views.at_critical) views.at_standard
            ++ take (n - length views.at_critical - length views.at_standard) views.at_bulk)
      ≡ take n (all_pending views)
three_turns views n =
    ap (◌++◌ (take n views.at_critical))
      (sym (take-append (n - length views.at_critical) views.at_standard views.at_bulk))
    ∙ sym (take-append n views.at_critical (views.at_standard ++ views.at_bulk))

decoded-append :
    {Details : Type 0} (j : Json Details) (xs ys : List Bytes)
    → decoded j (xs ++ ys) ≡ decoded j xs ++ decoded j ys
unfolding decoded
decoded-append j [] ys = refl
decoded-append j (x ∷ xs) ys = ground (arith, decoded-append j xs ys)

refused-append :
    {Details : Type 0} (j : Json Details) (xs ys : List Bytes)
    → refused j (xs ++ ys) ≡ refused j xs + refused j ys
unfolding refused
refused-append j [] ys = omega arith
refused-append j (x ∷ xs) ys = ground (arith, refused-append j xs ys)

module _ ⦃c : Checksum⦄ {Details : Type 0} ⦃j : Json Details⦄ where
  -- What one round gives.
  pub record Round (views : Slots (List Bytes)) (max : ℕ) (batch : ReadBatch Details)
      (q : EventQueue) : Type 0 where
    pub events_eq : batch.events ≡ decoded j (take max (all_pending views))
    pub undecodable_eq : batch.undecodable ≡ refused j (take max (all_pending views))
    pub unchanged : Holds q views
    pub left : Slots (List Bytes)
    pub confirmed : Holds (commit batch q) left
    pub left_eq : all_pending left ≡ drop max (all_pending views)
    -- Each priority loses its first payloads.
    pub behind : (p : Priority) → (n : ℕ) × (get p left ≡ drop n (get p views))

  -- The three logs and the three positions behind the loop.
  abbrev final_batch : Slots (List Bytes) → ℕ → Slots (Option LogPosition) → ReadBatch Details
  final_batch views max positions =
      let n = max - length views.at_critical in
      record {
        events =
            (([] ++ decoded j (take max views.at_critical)) ++ decoded j (take n views.at_standard))
            ++ decoded j (take (n - length views.at_standard) views.at_bulk);
        positions = positions;
        undecodable =
            ((0 + refused j (take max views.at_critical)) + refused j (take n views.at_standard))
            + refused j (take (n - length views.at_standard) views.at_bulk);
      }

  final-Round :
      (q : EventQueue) (views : Slots (List Bytes)) (max : ℕ)
      (positions : Slots (Option LogPosition))
      → Holds q views
      → ((p : Priority)
          → Represents
              (commit_position (get p positions) (get p q.logs))
              (get p (left_of max views)))
      → Round views max (final_batch views max positions) q
  unfolding commit commit_loop
  final-Round q views max positions h confirm = record {
    events_eq =
        append_assoc (decoded j (take max views.at_critical))
          (decoded j (take (max - length views.at_critical) views.at_standard))
          (decoded j
            (take (max - length views.at_critical - length views.at_standard) views.at_bulk))
        ∙ sym (
            ap (decoded j) (sym (three_turns views max))
            ∙ decoded-append j (take max views.at_critical) _
            ∙ ap (◌++◌ (decoded j (take max views.at_critical))) (
                decoded-append j (take (max - length views.at_critical) views.at_standard) (
                  take (max - length views.at_critical - length views.at_standard) views.at_bulk)));
    undecodable_eq = omega (
      arith,
      ap (refused j) (three_turns views max),
      refused-append j (take max views.at_critical) (
          take (max - length views.at_critical) views.at_standard
          ++ take (max - length views.at_critical - length views.at_standard) views.at_bulk),
      refused-append j (take (max - length views.at_critical) views.at_standard)
          (take (max - length views.at_critical - length views.at_standard) views.at_bulk),
    );
    unchanged = h;
    left = left_of max views;
    confirmed = record {
      at = elim [ bulk ↦ confirm bulk | standard ↦ confirm standard | critical ↦ confirm critical ];
    };
    left_eq = left_of-all_pending max views;
    behind = elim [
      | critical ↦ (max, refl)
      | standard ↦ (max - length views.at_critical, refl)
      | bulk ↦ (max - length views.at_critical - length views.at_standard, refl)
    ];
  }

  -- The batch holds the first `max` pending events, the critical ones first and the bulk ones last,
  -- without those that no longer decode, which are counted; the queue is as before. To confirm the
  -- batch takes exactly these `max` payloads out of the queue.
  pub read_batch-Round :
      (q : EventQueue) (views : Slots (List Bytes)) (max : ℕ)
      → Holds q views
      → Round views max
          (read_batch {Details = Details} max q).0
          (read_batch {Details = Details} max q).1
  unfolding read_batch read_loop
  read_batch-Round q views max h =
      let t0 : Turn (standard ∷ bulk ∷ []) critical views.at_critical max
          (default_batch {Details = Details}) q =
        take-Turn (standard ∷ bulk ∷ []) critical views.at_critical max
          (default_batch {Details = Details}) q refl (h.at critical) in
      let n1 = max - length views.at_critical in
      let b1 : ReadBatch Details =
        record (extended (default_batch {Details = Details}) (take max views.at_critical)) {
          positions = record { at_critical = t0.pos; at_standard = none; at_bulk = none };
        } in
      let q1 = set_log critical t0.log q in
      let t1 = take-Turn (bulk ∷ []) standard views.at_standard n1 b1 q1 refl (h.at standard) in
      let n2 = n1 - length views.at_standard in
      let b2 : ReadBatch Details = record (extended b1 (take n1 views.at_standard)) {
        positions = record { at_critical = t0.pos; at_standard = t1.pos; at_bulk = none };
      } in
      let q2 = set_log standard t1.log q1 in
      let t2 = take-Turn [] bulk views.at_bulk n2 b2 q2 refl (h.at bulk) in
      let positions : Slots (Option LogPosition) = record {
        at_critical = t0.pos;
        at_standard = t1.pos;
        at_bulk = t2.pos;
      } in
      let q3 = set_log bulk t2.log q2 in
      let all : read_loop {Details = Details} drain_order max (default_batch {Details = Details}) q
          ≡ (final_batch views max positions, q3) =
        t0.loop_eq ∙ t1.loop_eq ∙ t2.loop_eq in
      subst (λ (o : ReadBatch Details × EventQueue). Round views max o.0 o.1) (sym all)
        (final-Round q3 views max positions
          (record { at = elim [ bulk ↦ t2.kept | standard ↦ t1.kept | critical ↦ t0.kept ] })
          (elim [ bulk ↦ t2.confirmed | standard ↦ t1.confirmed | critical ↦ t0.confirmed ]))
