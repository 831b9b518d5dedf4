-- ===== src/Events.antt =====
-- The events and their priorities: crates/sensor-core/src/model.rs. What an observation says is
-- not looked at here: `Details` stands for the structs that the variants carry.
use trapd_sensor.Prelude.{ℕ, ◌<◌, ◌≡◌, Option, some, Bytes, length}

pub data Priority : Type 0 where
  bulk : Priority
  standard : Priority
  critical : Priority

pub data Observation {ℓ} (Details : Type ℓ) : Type ℓ where
  asset : Details → Observation Details
  fingerprint : Details → Observation Details
  service : Details → Observation Details
  flow : Details → Observation Details
  dns : Details → Observation Details
  dhcp : Details → Observation Details
  relationship : Details → Observation Details
  heartbeat : Details → Observation Details
  status : Details → Observation Details

abbrev pub observation_priority {ℓ} : {Details : Type ℓ} → Observation Details → Priority
observation_priority (flow d) = bulk
observation_priority (heartbeat d) = critical
observation_priority (status d) = critical
observation_priority (asset d) = standard
observation_priority (fingerprint d) = standard
observation_priority (service d) = standard
observation_priority (dns d) = standard
observation_priority (dhcp d) = standard
observation_priority (relationship d) = standard

pub record SensorEvent {ℓ} (Details : Type ℓ) : Type ℓ where
  pub event_id : ℕ
  pub sequence : ℕ
  pub observed_at : Bytes
  pub observation : Observation Details

abbrev pub priority {ℓ} : {Details : Type ℓ} → SensorEvent Details → Priority
priority e = observation_priority e.observation

-- `serde_json::to_vec` and `from_slice` for `SensorEvent`, a crate that the queue only calls: what
-- is written is never empty.
pub record Json (Details : Type 0) : Type 0 where
  pub to_vec : SensorEvent Details → Option Bytes
  pub from_slice : Bytes → Option (SensorEvent Details)
  pub nonempty :
      (e : SensorEvent Details) (bytes : Bytes) → to_vec e ≡ some bytes → 0 < length bytes
