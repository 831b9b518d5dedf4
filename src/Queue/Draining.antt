-- ===== src/Queue/Draining.antt =====
-- One priority's turn in `read_batch` of the queue.
use trapd_sensor.Prelude.{
  ◌⊎◌, ℕ, zero, suc, ◌+◌, ◌-◌, ◌<◌, ◌≡◌, refl, sym, ap, subst, ◌∙◌, Option, none, some, List, [],
  ◌∷◌, ◌++◌, append_assoc, append-nil, Bytes, length, length-take, take, drop, get_elem?, arith,
  inl, inr, Option-cases, false, ◌==◌, drop_all, min, nil_of_length,
}
use trapd_sensor.Events.{Priority, bulk, standard, critical, SensorEvent, Json}
use trapd_sensor.Wal.Record.{Checksum}
use trapd_sensor.Wal.Log.{SegmentedLog, LogPosition, LogRecord}
use trapd_sensor.Wal.Log.Reading.{read_batch as read_log}
use trapd_sensor.Wal.Log.Invariant.{Represents}
use trapd_sensor.Wal.Log.Batches.{payloads}
use trapd_sensor.Wal.Log.Delivery.{read_batch-Represents}
use trapd_sensor.Wal.Log.Commits.Left.{commit-read_batch}
use trapd_sensor.Queue.{
  Slots, get, set, set_log, EventQueue, ReadBatch, decode_records, read_loop, commit_position,
}

pub set-get {ℓ} : {A : Type ℓ} → (p : Priority) (s : Slots A) → set p (get p s) s ≡ s
set-get bulk s = refl
set-get standard s = refl
set-get critical s = refl

final_position : Option LogPosition → List LogRecord → Option LogPosition
final_position last [] = last
final_position last (r ∷ rs) = final_position (some r.next) rs

-- The position behind a batch is that of its last record.
last_record :
    (last : Option LogPosition) (r : LogRecord) (rs : List LogRecord)
    → (rec : LogRecord) × ((final_position last (r ∷ rs) ≡ some rec.next)
        × (get_elem? (r ∷ rs) (length rs) ≡ some rec))
unfolding final_position
last_record last r [] = (r, (refl, refl))
last_record last r (s ∷ rs) = last_record (some r.next) s rs

length-payloads : (rs : List LogRecord) → length (payloads rs) ≡ length rs
length-payloads [] = refl
length-payloads (r ∷ rs) = ap suc (length-payloads rs)

-- The events among some payloads.
unfoldable pub decoded : {Details : Type 0} → Json Details → List Bytes → List (SensorEvent Details)
decoded j [] = []
decoded j (p ∷ ps) = elim (j.from_slice p) [ some e ↦ e ∷ decoded j ps | none ↦ decoded j ps ]

-- How many payloads are no event.
unfoldable pub refused : {Details : Type 0} → Json Details → List Bytes → ℕ
refused j [] = 0
refused j (p ∷ ps) = elim (j.from_slice p) [ some e ↦ refused j ps | none ↦ suc (refused j ps) ]

pub same_queue : (p : Priority) (q : EventQueue) → set_log p (get p q.logs) q ≡ q
same_queue p q i = record q { logs = set-get p q.logs i }

list_cases {ℓ} :
    {A : Type ℓ} (xs : List A) → (xs ≡ []) ⊎ ((x : A) × ((ys : List A) × (xs ≡ x ∷ ys)))
list_cases [] = inl refl
list_cases (x ∷ xs) = inr (x, (xs, refl))

drop-min {ℓ} : {A : Type ℓ} (n : ℕ) (xs : List A) → drop (min n (length xs)) xs ≡ drop n xs
drop-min zero xs = let e : min 0 (length xs) ≡ 0 = omega arith in rw e refl
drop-min (suc n) [] = let e : min (suc n) 0 ≡ 0 = omega arith in rw e refl
drop-min (suc n) (x ∷ xs) =
    let e : min (suc n) (suc (length xs)) ≡ suc (min n (length xs)) = omega arith in
    rw e (drop-min n xs)

module _ {Details : Type 0} ⦃j : Json Details⦄ where
  -- A batch with what some payloads add to it.
  abbrev pub extended : ReadBatch Details → List Bytes → ReadBatch Details
  extended batch ps = record batch {
    events = batch.events ++ decoded j ps;
    undecodable = batch.undecodable + refused j ps;
  }

  pub extended-nil : (batch : ReadBatch Details) → extended batch [] ≡ batch
  unfolding decoded refused
  extended-nil batch i = record batch {
    events = append-nil batch.events i;
    undecodable = (let e : batch.undecodable + 0 ≡ batch.undecodable = omega arith in e) i;
  }

  decode_records-extended :
      (rs : List LogRecord) (last : Option LogPosition) (remaining : ℕ) (batch : ReadBatch Details)
      → decode_records rs last remaining batch
        ≡ (final_position last rs, remaining - length rs, extended batch (payloads rs))
  unfolding decode_records final_position decoded refused
  decode_records-extended [] last remaining batch = λ i.
      (last, (let e : remaining ≡ remaining - 0 = omega arith in e) i, sym (extended-nil batch) i)
  decode_records-extended (r ∷ rs) last remaining batch =
      let less : remaining - 1 - length rs ≡ remaining - suc (length rs) = omega arith in
      elim (Option-cases (j.from_slice r.payload)) [
        | inl bad ↦
            rw (bad, decode_records)
              ((decode_records-extended rs (some r.next) (remaining - 1)
                  (record batch { undecodable = batch.undecodable + 1 })
                ∙ (λ i. (
                  final_position (some r.next) rs,
                  less i,
                  record batch {
                    events = batch.events ++ decoded j (payloads rs);
                    undecodable =
                        (let e : batch.undecodable + 1 + refused j (payloads rs)
                                ≡ batch.undecodable + suc (refused j (payloads rs)) =
                              omega arith in
                            e)
                          i;
                  },
                ))))
        | inr (e, good) ↦
            rw (good, decode_records)
              ((decode_records-extended rs (some r.next) (remaining - 1)
                  (record batch { events = batch.events ++ (e ∷ []) })
                ∙ (λ i. (
                  final_position (some r.next) rs,
                  less i,
                  record batch {
                    events = append_assoc batch.events (e ∷ []) (decoded j (payloads rs)) i;
                    undecodable = batch.undecodable + refused j (payloads rs);
                  },
                ))))
      ]

module _ ⦃c : Checksum⦄ {Details : Type 0} ⦃j : Json Details⦄ where
  -- What a priority's turn does to its log: the log goes on to represent the same, and to confirm
  -- the position takes away what was read.
  pub record Turn (order : List Priority) (p : Priority) (view : List Bytes) (remaining : ℕ)
      (batch : ReadBatch Details) (q : EventQueue) : Type 0 where
    pub log : SegmentedLog
    pub pos : Option LogPosition
    pub loop_eq :
        read_loop (p ∷ order) remaining batch q
        ≡ read_loop order
            (remaining - length view)
            (record (extended batch (take remaining view)) {
              positions = set p pos batch.positions;
            })
            (set_log p log q)
    pub kept : Represents log view
    pub confirmed : Represents (commit_position pos log) (drop remaining view)

  read_loop_zero :
      (order : List Priority) (batch : ReadBatch Details) (q : EventQueue)
      → read_loop order 0 batch q ≡ (batch, q)
  unfolding read_loop
  read_loop_zero [] batch q = refl
  read_loop_zero (p ∷ order) batch q = refl

  same_batch :
      (p : Priority) (batch : ReadBatch Details)
      → get p batch.positions ≡ none
      → record (extended batch []) { positions = set p none batch.positions } ≡ batch
  same_batch p batch fresh = (λ i. record (extended-nil batch i) {
    positions =
        (ap (λ (o : Option LogPosition). set p o batch.positions) (sym fresh)
            ∙ set-get p batch.positions)
          i;
  })

  -- Nothing is asked for.
  Turn-over :
      (order : List Priority) (p : Priority) (view : List Bytes) (batch : ReadBatch Details)
      (q : EventQueue)
      → get p batch.positions ≡ none
      → Represents (get p q.logs) view
      → Turn order p view 0 batch q
  Turn-over order p view batch q fresh r =
      let none_left : 0 - length view ≡ 0 = omega arith in
      record {
        log = get p q.logs;
        pos = none;
        loop_eq =
            read_loop_zero (p ∷ order) batch q
            ∙ sym (
                rw none_left (
                  ap (λ (b : ReadBatch Details). read_loop order 0 b (set_log p (get p q.logs) q))
                    (same_batch p batch fresh)
                  ∙ ap (read_loop order 0 batch) (same_queue p q)
                  ∙ read_loop_zero order batch q));
        kept = r;
        confirmed = r;
      }

  full-Turn :
      (order : List Priority) (p : Priority) (view : List Bytes) (remaining : ℕ)
      (batch : ReadBatch Details) (q : EventQueue) (first : LogRecord) (more : List LogRecord)
      → Represents (get p q.logs) view
      → 0 < remaining
      → (read_log (get p q.logs) remaining).0 ≡ first ∷ more
      → Turn order p view remaining batch q
  unfolding read_loop
  full-Turn order p view remaining batch q first more r wanted got =
      let log = (read_log (get p q.logs) remaining).1 in
      let (rec, (at, found)) = last_record none first more in
      let (shown, kept) = read_batch-Represents (get p q.logs) view remaining r in
      let some_left : (remaining == 0) ≡ false = ground arith in
      let taken : payloads (first ∷ more) ≡ take remaining view = ap payloads (sym got) ∙ shown in
      let size : suc (length more) ≡ min remaining (length view) =
        sym (length-payloads (first ∷ more)) ∙ ap length taken ∙ length-take remaining view in
      let some_read : (length (first ∷ more) == 0) ≡ false = ground arith in
      let less : remaining - length (first ∷ more) ≡ remaining - length view = omega arith in
      record {
        log = log;
        pos = final_position none (first ∷ more);
        loop_eq =
            rw (some_left, read_loop)
              (rw got (
                rw (decode_records-extended (first ∷ more) none remaining batch) (
                  rw some_read (λ i.
                    read_loop order (less i)
                      (record (extended batch (taken i)) {
                        positions = set p (final_position none (first ∷ more)) batch.positions;
                      })
                      (set_log p log q)))));
        kept = kept;
        confirmed =
            subst
              (λ (o : Option LogPosition). Represents (commit_position o log) (drop remaining view))
              (sym at)
              (subst (Represents (commit_position (some rec.next) log))
                (ap (λ (n : ℕ). drop n view) size ∙ drop-min remaining view)
                (commit-read_batch (get p q.logs) view remaining (length more) rec r
                  (ap (λ (b : List LogRecord). get_elem? b (length more)) got ∙ found)));
      }

  empty-Turn :
      (order : List Priority) (p : Priority) (view : List Bytes) (remaining : ℕ)
      (batch : ReadBatch Details) (q : EventQueue)
      → get p batch.positions ≡ none
      → Represents (get p q.logs) view
      → 0 < remaining
      → (read_log (get p q.logs) remaining).0 ≡ []
      → Turn order p view remaining batch q
  unfolding read_loop
  empty-Turn order p view remaining batch q fresh r wanted got =
      let log = (read_log (get p q.logs) remaining).1 in
      let (shown, kept) = read_batch-Represents (get p q.logs) view remaining r in
      let some_left : (remaining == 0) ≡ false = ground arith in
      let nothing : take remaining view ≡ [] = sym (ap payloads (sym got) ∙ shown) in
      let idle : length view ≡ 0 = omega (arith, ap length nothing, length-take remaining view) in
      let same : remaining ≡ remaining - length view = omega arith in
      record {
        log = log;
        pos = none;
        loop_eq =
            rw (some_left, read_loop)
              (rw got (λ i.
                read_loop order (same i)
                  ((sym (same_batch p batch fresh)
                      ∙ ap
                          (λ (ps : List Bytes). record (extended batch ps) {
                            positions = set p none batch.positions;
                          })
                          (sym nothing))
                    i)
                  (set_log p log q)));
        kept = kept;
        confirmed =
            subst (Represents log)
              (nil_of_length view idle ∙ sym (drop_all remaining view (omega arith))) kept;
      }

  -- A priority's turn reads the oldest of its pending records, as far as there is room in the batch.
  pub take-Turn :
      (order : List Priority) (p : Priority) (view : List Bytes) (remaining : ℕ)
      (batch : ReadBatch Details) (q : EventQueue)
      → get p batch.positions ≡ none
      → Represents (get p q.logs) view
      → Turn order p view remaining batch q
  take-Turn order p view zero batch q fresh r = Turn-over order p view batch q fresh r
  take-Turn order p view (suc n) batch q fresh r =
      elim (list_cases (read_log (get p q.logs) (suc n)).0) [
        | inl got ↦ empty-Turn order p view (suc n) batch q fresh r (omega arith) got
        | inr (first, (more, got)) ↦
            full-Turn order p view (suc n) batch q first more r (omega arith) got
      ]
