-- ===== src/Upload.antt =====
-- `Uploader` of crates/sensor-transport/src/uploader.rs, on top of the queue. Waiting, with the
-- backoff and the clocks behind it, is left out, and so are the texts of a batch.
pub mod Attempts
pub mod Delivery
pub mod Running
pub mod Stored
pub mod Accounts
pub mod Ending
mod Tests
use trapd_sensor.Prelude.{
  ℕ, zero, suc, ◌+◌, max, Option, none, some, List, [], ◌∷◌, Bytes, Bool, true, false, ◌||◌, length,
  ltb, leb, if◌then◌else◌,
}
use trapd_sensor.Events.{Priority, Observation, SensorEvent, priority, Json}
use trapd_sensor.Wal.Record.{Checksum}
use trapd_sensor.Wal.Log.{Result, ok, err}
use trapd_sensor.Queue.{
  EventQueue, QueueStats, ReadBatch, PushOutcome, stats, push, read_batch, commit, flush,
}

-- `TransportError`, without its messages.
pub data TransportError : Type 0 where
  network : TransportError
  server : ℕ → TransportError
  rate_limited : Option ℕ → TransportError
  routing : ℕ → TransportError
  unauthorized : TransportError
  revoked : TransportError
  bad_request : ℕ → TransportError
  encode : TransportError
  enrollment : TransportError
  tls : TransportError

abbrev pub is_terminal : TransportError → Bool
is_terminal unauthorized = true
is_terminal revoked = true
is_terminal network = false
is_terminal (server status) = false
is_terminal (rate_limited retry_after) = false
is_terminal (routing status) = false
is_terminal (bad_request status) = false
is_terminal encode = false
is_terminal enrollment = false
is_terminal tls = false

-- `Err(BadRequest)` and `Err(Encode)` in `flush_once`: the payload will never be accepted.
abbrev pub is_invalid : TransportError → Bool
is_invalid (bad_request status) = true
is_invalid encode = true
is_invalid network = false
is_invalid (server status) = false
is_invalid (rate_limited retry_after) = false
is_invalid (routing status) = false
is_invalid unauthorized = false
is_invalid revoked = false
is_invalid enrollment = false
is_invalid tls = false

pub record IngestResponse : Type 0 where
  pub received : ℕ
  pub errors : ℕ

-- What `send_batch` gives.
pub data Answer : Type 0 where
  response : IngestResponse → Answer
  failure : TransportError → Answer

pub record WireEvent : Type 0 where
  pub event_id : ℕ
  pub sequence : ℕ
  pub observed_at : Bytes
  pub priority : Priority
  pub payload : Bytes

-- `serde_json::to_value`, a crate that the sensor only calls.
pub record Value (Details : Type 0) : Type 0 where
  pub to_value : Observation Details → Option Bytes

pub record UploaderStats : Type 0 where
  pub events_accepted : ℕ
  pub events_uploaded : ℕ
  pub queue_dropped : ℕ
  pub upload_discarded : ℕ
  pub batches_sent : ℕ
  pub upload_failures : ℕ
  pub backend_requests : ℕ
  pub backend_available : Bool
  pub queue_pending : ℕ
  pub queue_bytes : ℕ

pub data UploaderOutcome : Type 0 where
  shutdown : UploaderOutcome
  sensor_revoked : TransportError → UploaderOutcome

pub record Uploader : Type 0 where
  pub queue : EventQueue
  pub batch_max_events : ℕ
  pub counters : UploaderStats

abbrev pub no_counters : UploaderStats
no_counters = record {
  events_accepted = 0;
  events_uploaded = 0;
  queue_dropped = 0;
  upload_discarded = 0;
  batches_sent = 0;
  upload_failures = 0;
  backend_requests = 0;
  backend_available = false;
  queue_pending = 0;
  queue_bytes = 0;
}

-- `UploaderConfig::new` and `Uploader::new`
abbrev pub new_uploader : EventQueue → ℕ → Uploader
new_uploader queue batch_max_events = record {
  queue = queue;
  batch_max_events = max batch_max_events 1;
  counters = no_counters;
}

abbrev pub record_queue : QueueStats → UploaderStats → UploaderStats
record_queue q s = record s {
  queue_pending = q.pending;
  queue_bytes = q.disk_bytes;
  queue_dropped = q.dropped;
}

abbrev pub events_dropped : UploaderStats → ℕ
events_dropped s = s.queue_dropped + s.upload_discarded

-- Whether the backend took all of a batch.
abbrev pub is_partial : ℕ → IngestResponse → Bool
is_partial count r = ltb 0 r.errors || ltb r.received count

abbrev pub count_with : (UploaderStats → UploaderStats) → Uploader → Uploader
count_with f u = record u { counters = f u.counters }

module _ {Details : Type 0} where
  abbrev pub wire_event : Value Details → SensorEvent Details → Bytes → WireEvent
  wire_event v e payload = record {
    event_id = e.event_id;
    sequence = e.sequence;
    observed_at = e.observed_at;
    priority = priority e;
    payload = payload;
  }

  abbrev pub push_wire :
      Value Details → SensorEvent Details → Option Bytes → List WireEvent → List WireEvent
  push_wire v e none rest = rest
  push_wire v e (some payload) rest = wire_event v e payload ∷ rest

  -- The `filter_map` of `flush_once`.
  abbrev pub wire_events : Value Details → List (SensorEvent Details) → List WireEvent
  wire_events v [] = []
  wire_events v (e ∷ events) = push_wire v e (v.to_value e.observation) (wire_events v events)

module _ ⦃c : Checksum⦄ {Details : Type 0} ⦃j : Json Details⦄ where
  abbrev pub confirmed : ReadBatch Details → Uploader → Uploader
  confirmed batch u = record u { queue = commit batch u.queue }

  -- The arms of the `match` on the answer.
  unfoldable pub on_response :
      ReadBatch Details → ℕ → IngestResponse → Uploader → Option UploaderOutcome × Uploader
  on_response batch count r u =
      if is_partial count r
      then (
        none,
        count_with
            (λ s. record s { backend_available = true; upload_failures = s.upload_failures + 1 }) u,
      )
      else (
        none,
        count_with
            (λ s. record_queue (stats (commit batch u.queue)) (record s {
              backend_available = true;
              batches_sent = s.batches_sent + 1;
              events_uploaded = s.events_uploaded + r.received;
            }))
            (confirmed batch u),
      )

  unfoldable pub on_failure :
      ReadBatch Details → ℕ → TransportError → Uploader → Option UploaderOutcome × Uploader
  on_failure batch count e u =
      if is_terminal e
      then (some (sensor_revoked e), count_with (λ s. record s { backend_available = false }) u)
      else if is_invalid e
      then (
        none,
        count_with
            (λ s. record s {
              backend_available = true;
              upload_discarded = s.upload_discarded + count;
              upload_failures = s.upload_failures + 1;
            })
            (confirmed batch u),
      )
      else (
        none,
        count_with
            (λ s. record s { backend_available = false; upload_failures = s.upload_failures + 1 })
            u,
      )

  abbrev pub on_answer :
      ReadBatch Details → ℕ → Answer → Uploader → Option UploaderOutcome × Uploader
  on_answer batch count (response r) u = on_response batch count r u
  on_answer batch count (failure e) u = on_failure batch count e u

  -- Behind the read: an empty batch is not sent, and confirmed for the records that do not decode.
  abbrev pub send :
      Value Details
      → (List WireEvent → Answer)
      → ReadBatch Details
      → List (SensorEvent Details)
      → Uploader
      → Option UploaderOutcome × Uploader
  send v sink batch [] u = (none, if ltb 0 batch.undecodable then confirmed batch u else u)
  send v sink batch (e ∷ events) u =
      let wire = wire_events v (e ∷ events) in
      on_answer batch (length wire) (sink wire)
        (count_with (λ s. record s { backend_requests = s.backend_requests + 1 }) u)

  -- One attempt, with what the backend answers to a batch.
  unfoldable pub flush_once :
      Value Details → (List WireEvent → Answer) → Uploader → Option UploaderOutcome × Uploader
  flush_once v sink u =
      let (batch, q) = read_batch u.batch_max_events u.queue in
      send v sink batch batch.events (record u { queue = q })

-- The timer that writes the log to the disk.
abbrev pub flush_wal : Uploader → Uploader
flush_wal u = record u { queue = flush u.queue }
