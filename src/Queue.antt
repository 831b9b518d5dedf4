-- ===== src/Queue.antt =====
-- `EventQueue` of crates/sensor-buffer/src/queue.rs: one log per priority, and one limit for the
-- bytes they take together. Logging calls are left out.
pub mod Draining
pub mod Rounds
pub mod Limit
pub mod Pushing
pub mod Keeping
pub mod Tests
use trapd_sensor.Prelude.{
  ℕ, zero, suc, ◌+◌, ◌-◌, ◌*◌, Option, none, some, List, [], ◌∷◌, ◌++◌, Bytes, Bool, true, false,
  length, ltb, ◌==◌, ◌&&◌, if◌then◌else◌, max,
}
use trapd_sensor.Events.{Priority, bulk, standard, critical, SensorEvent, priority, Json}
use trapd_sensor.Wal.Record.{Checksum}
use trapd_sensor.Wal.Directory.{Directory}
use trapd_sensor.Wal.Log.{
  SegmentedLog, LogPosition, LogRecord, BufferError, Result, ok, err, append,
}
use trapd_sensor.Wal.Log.{flush as flush_log}
use trapd_sensor.Wal.Log.Reading.{read_batch as read_log}
use trapd_sensor.Wal.Log.Consuming.{commit as commit_log, drop_oldest_segment, open_log}

abbrev pub drain_order : List Priority
drain_order = critical ∷ standard ∷ bulk ∷ []

abbrev pub evict_order : List Priority
evict_order = bulk ∷ standard ∷ critical ∷ []

pub record PushOutcome : Type 0 where
  pub stored : Bool
  pub evicted : ℕ

-- An array with one slot for each priority.
pub record Slots {ℓ} (A : Type ℓ) : Type ℓ where
  pub at_bulk : A
  pub at_standard : A
  pub at_critical : A

abbrev pub get {ℓ} : {A : Type ℓ} → Priority → Slots A → A
get bulk s = s.at_bulk
get standard s = s.at_standard
get critical s = s.at_critical

abbrev pub set {ℓ} : {A : Type ℓ} → Priority → A → Slots A → Slots A
set bulk x s = record s { at_bulk = x }
set standard x s = record s { at_standard = x }
set critical x s = record s { at_critical = x }

pub record ReadBatch (Details : Type 0) : Type 0 where
  pub events : List (SensorEvent Details)
  pub positions : Slots (Option LogPosition)
  pub undecodable : ℕ

pub record QueueStats : Type 0 where
  pub pending : ℕ
  pub disk_bytes : ℕ
  pub dropped : ℕ
  pub pending_critical : ℕ
  pub pending_standard : ℕ
  pub pending_bulk : ℕ

pub record EventQueue : Type 0 where
  pub logs : Slots SegmentedLog
  pub max_disk_bytes : ℕ
  pub dropped_total : ℕ

abbrev pub disk_bytes : EventQueue → ℕ
disk_bytes q =
    q.logs.at_bulk.disk_bytes + q.logs.at_standard.disk_bytes + q.logs.at_critical.disk_bytes

abbrev pub set_log : Priority → SegmentedLog → EventQueue → EventQueue
set_log p log q = record q { logs = set p log q.logs }

abbrev pub stats : EventQueue → QueueStats
stats q = record {
  pending = q.logs.at_bulk.pending + q.logs.at_standard.pending + q.logs.at_critical.pending;
  disk_bytes = disk_bytes q;
  dropped =
      q.dropped_total
      + (q.logs.at_bulk.dropped + q.logs.at_standard.dropped + q.logs.at_critical.dropped);
  pending_critical = q.logs.at_critical.pending;
  pending_standard = q.logs.at_standard.pending;
  pending_bulk = q.logs.at_bulk.pending;
}

abbrev pub is_empty : EventQueue → Bool
is_empty q =
    (q.logs.at_bulk.pending == 0)
    && ((q.logs.at_standard.pending == 0) && (q.logs.at_critical.pending == 0))

unfoldable pub flush : EventQueue → EventQueue
flush q = record q {
  logs = record {
    at_bulk = flush_log q.logs.at_bulk;
    at_standard = flush_log q.logs.at_standard;
    at_critical = flush_log q.logs.at_critical;
  };
}

module _ {Details : Type 0} ⦃j : Json Details⦄ where
  -- The inner loop of `read_batch`, over the records of one log.
  unfoldable pub decode_records :
      List LogRecord
      → Option LogPosition
      → ℕ
      → ReadBatch Details
      → Option LogPosition × ℕ × ReadBatch Details
  decode_records [] last_pos remaining batch = (last_pos, remaining, batch)
  decode_records (r ∷ records) last_pos remaining batch =
      decode_records records (some r.next) (remaining - 1) (elim (j.from_slice r.payload) [
        | some event ↦ record batch { events = batch.events ++ (event ∷ []) }
        | none ↦ record batch { undecodable = batch.undecodable + 1 }
      ])

  abbrev pub default_batch : ReadBatch Details
  default_batch = record {
    events = [];
    positions = record { at_bulk = none; at_standard = none; at_critical = none };
    undecodable = 0;
  }

module _ ⦃c : Checksum⦄ where
  -- A directory for each priority.
  pub open_queue : Slots Directory → ℕ → ℕ → EventQueue
  open_queue dirs max_disk_bytes segment_bytes =
      let bulk_log = open_log dirs.at_bulk segment_bytes in
      let floor = bulk_log.segment_bytes * 2 * 3 in
      record {
        logs = record {
          at_bulk = bulk_log;
          at_standard = open_log dirs.at_standard segment_bytes;
          at_critical = open_log dirs.at_critical segment_bytes;
        };
        max_disk_bytes = max max_disk_bytes floor;
        dropped_total = 0;
      }

  -- `for priority in EVICT_ORDER`
  unfoldable pub evict_loop : List Priority → EventQueue → Option ℕ × EventQueue
  evict_loop [] q = (none, q)
  evict_loop (p ∷ order) q =
      let (outcome, log) = drop_oldest_segment (get p q.logs) in
      elim outcome [
        | some dropped ↦ (some dropped, set_log p log q)
        | none ↦ evict_loop order (set_log p log q)
      ]

  unfoldable pub evict_one : EventQueue → Option ℕ × EventQueue
  evict_one q = evict_loop evict_order q

  -- The loop of `push`: whether there is room now, and how many events went for it. Each round but
  -- the last drops a segment.
  unfoldable pub make_room : ℕ → ℕ → EventQueue → ℕ → Bool × ℕ × EventQueue
  make_room zero needed q evicted = (false, evicted, q)
  make_room (suc fuel) needed q evicted = elim (ltb q.max_disk_bytes (disk_bytes q + needed)) [
    | false ↦ (true, evicted, q)
    | true ↦
        let (outcome, q') = evict_one q in
        elim outcome [
          | some n ↦ make_room fuel needed q' (evicted + n)
          | none ↦ (false, evicted, q')
        ]
  ]

  abbrev pub segment_count : EventQueue → ℕ
  segment_count q =
      length q.logs.at_bulk.segments
      + length q.logs.at_standard.segments
      + length q.logs.at_critical.segments

  -- What `push` leaves behind, error or not: what went for the event stays gone.
  abbrev pub stored_in :
      Priority → ℕ → EventQueue → Result (ℕ × SegmentedLog) → Result PushOutcome × EventQueue
  stored_in p evicted q (ok (written, log)) =
      (ok (record { stored = true; evicted = evicted }), set_log p log q)
  stored_in p evicted q (err e) = (err e, q)

  -- Behind the loop: the event is appended, or counted as dropped.
  abbrev pub after_room : Priority → Bytes → Bool × ℕ × EventQueue → Result PushOutcome × EventQueue
  after_room p payload (true, evicted, q) = stored_in p evicted q (append (get p q.logs) payload)
  after_room p payload (false, evicted, q) = (
    ok (record { stored = false; evicted = evicted }),
    record q { dropped_total = q.dropped_total + 1 },
  )

  unfoldable pub push_payload : Priority → Bytes → EventQueue → Result PushOutcome × EventQueue
  push_payload p payload q =
      after_room p payload (make_room (suc (segment_count q)) (length payload + 8) q 0)

  abbrev pub commit_position : Option LogPosition → SegmentedLog → SegmentedLog
  commit_position none log = log
  commit_position (some pos) log = commit_log log pos

  module _ {Details : Type 0} ⦃j : Json Details⦄ where
    -- No result is a serialization error, which leaves the queue as it is.
    unfoldable pub push :
        SensorEvent Details → EventQueue → Option (Result PushOutcome) × EventQueue
    push event q = elim (j.to_vec event) [
      | none ↦ (none, q)
      | some payload ↦
          let (result, q') = push_payload (priority event) payload q in (some result, q')
    ]

    unfoldable pub read_loop :
        List Priority → ℕ → ReadBatch Details → EventQueue → ReadBatch Details × EventQueue
    read_loop [] remaining batch q = (batch, q)
    read_loop (p ∷ order) remaining batch q =
        let (records, log) = read_log (get p q.logs) remaining in
        let (last_pos, left, batch') = decode_records records none remaining batch in
        let next = set_log p log q in
        let empty = read_loop order remaining batch next in
        let more =
          read_loop order left (record batch' { positions = set p last_pos batch'.positions })
            next in
        if remaining == 0 then (batch, q) else if length records == 0 then empty else more

    unfoldable pub read_batch : ℕ → EventQueue → ReadBatch Details × EventQueue
    read_batch max q = read_loop drain_order max default_batch q

    unfoldable pub commit_loop : List Priority → ReadBatch Details → EventQueue → EventQueue
    commit_loop [] batch q = q
    commit_loop (p ∷ order) batch q =
        commit_loop order batch
          (set_log p (commit_position (get p batch.positions) (get p q.logs)) q)

    unfoldable pub commit : ReadBatch Details → EventQueue → EventQueue
    commit batch q = commit_loop drain_order batch q
