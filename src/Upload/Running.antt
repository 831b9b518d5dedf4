-- ===== src/Upload/Running.antt =====
-- `enqueue` and `run` of crates/sensor-transport/src/uploader.rs. What is ready in the `select!` of
-- `run`, and what the backend answers in that round, are given as a sequence.
use trapd_sensor.Prelude.{
  ◌+◌, Option, none, some, List, [], ◌∷◌, Bool, true, false, leb, if◌then◌else◌,
}
use trapd_sensor.Events.{SensorEvent, Json}
use trapd_sensor.Wal.Record.{Checksum}
use trapd_sensor.Wal.Log.{Result, ok, err}
use trapd_sensor.Queue.{PushOutcome, stats, push}
use trapd_sensor.Upload.{
  Uploader, UploaderOutcome, shutdown, Answer, WireEvent, Value, count_with, record_queue,
  flush_once, flush_wal,
}

-- The arms of `select!`. The channel is closed when it gives no event.
pub data Ready {ℓ} (Details : Type ℓ) : Type ℓ where
  shutdown_changed : Bool → Ready Details
  received : Option (SensorEvent Details) → Ready Details
  tick : Ready Details
  wal_tick : Ready Details

abbrev pub accept : Uploader → Uploader
accept u = count_with (λ s. record s { events_accepted = s.events_accepted + 1 }) u

abbrev pub discard : Uploader → Uploader
discard u = count_with (λ s. record s { upload_discarded = s.upload_discarded + 1 }) u

-- The `match` on the result of `push`.
abbrev pub noted : Option (Result PushOutcome) → Uploader → Uploader
noted none u = discard u
noted (some (err e)) u = discard u
noted (some (ok outcome)) u = if outcome.stored then accept u else u

module _ ⦃c : Checksum⦄ {Details : Type 0} ⦃j : Json Details⦄ where
  unfoldable pub enqueue : SensorEvent Details → Uploader → Uploader
  enqueue event u =
      let (result, q) = push event u.queue in
      count_with (record_queue (stats q)) (noted result (record u { queue = q }))

  module _ (v : Value Details) (sink : List WireEvent → Answer) where
    -- The last attempt, whose outcome is ignored.
    abbrev pub drain : Uploader → Option UploaderOutcome × Uploader
    drain u = (some shutdown, flush_wal (flush_once v sink u).1)

    abbrev pub after_enqueue : Uploader → Option UploaderOutcome × Uploader
    after_enqueue u =
        if leb u.batch_max_events (stats u.queue).pending then flush_once v sink u else (none, u)

    -- One round of the loop.
    unfoldable pub on_ready : Ready Details → Uploader → Option UploaderOutcome × Uploader
    on_ready (shutdown_changed true) u = drain u
    on_ready (shutdown_changed false) u = (none, u)
    on_ready (received (some event)) u = after_enqueue (enqueue event u)
    on_ready (received none) u = drain u
    on_ready tick u = flush_once v sink u
    on_ready wal_tick u = (none, flush_wal u)

  unfoldable pub run :
      Value Details
      → List (Ready Details × (List WireEvent → Answer))
      → Uploader
      → Option UploaderOutcome × Uploader
  run v [] u = (none, u)
  run v ((ready, sink) ∷ later) u =
      let (outcome, u') = on_ready v sink ready u in
      elim outcome [ none ↦ run v later u' | some o ↦ (some o, u') ]
