-- ===== src/Queue/Tests.antt =====
-- The queue's theorems at a queue of three logs that hold one event each.
use trapd_sensor.Prelude.{
  if◌then◌else◌, ◌==◌, ℕ, ◌<◌, ◌≡◌, Option, none, some, List, [], ◌∷◌, Bytes, length, arith,
}
use trapd_sensor.Events.{
  bulk, standard, critical, Observation, asset, fingerprint, service, flow, dns, dhcp, relationship,
  heartbeat, status, SensorEvent, Json,
}
use trapd_sensor.Wal.Tests.{alarm, beat, held_log, held-Represents, beat-IsRecordable, sum_checksum}
use trapd_sensor.Queue.{Slots, EventQueue, read_batch}
use trapd_sensor.Queue.Rounds.{Holds, Round, read_batch-Round}
use trapd_sensor.Queue.Pushing.{Pushed, push_payload-Pushed}

abbrev kind : Observation (Unit {0}) → ℕ
kind (asset d) = 0
kind (fingerprint d) = 1
kind (service d) = 2
kind (flow d) = 3
kind (dns d) = 4
kind (dhcp d) = 5
kind (relationship d) = 6
kind (heartbeat d) = 7
kind (status d) = 8

abbrev of_kind : ℕ → Observation (Unit {0})
of_kind k =
    if k == 0
    then asset tt
    else if k == 1
    then fingerprint tt
    else if k == 2
    then service tt
    else if k == 3
    then flow tt
    else if k == 4
    then dns tt
    else if k == 5
    then dhcp tt
    else if k == 6
    then relationship tt
    else if k == 7
    then heartbeat tt
    else status tt

abbrev write_event : SensorEvent (Unit {0}) → Option Bytes
write_event e = some (kind e.observation ∷ e.event_id ∷ e.sequence ∷ e.observed_at)

abbrev read_event : Bytes → Option (SensorEvent (Unit {0}))
read_event (k ∷ id ∷ sequence ∷ at) =
    some (record { event_id = id; sequence = sequence; observed_at = at; observation = of_kind k })
read_event _ = none

pub write_event-nonempty :
    (e : SensorEvent (Unit {0})) (bytes : Bytes) → write_event e ≡ some bytes → 0 < length bytes
write_event-nonempty e [] h = cc
write_event-nonempty e (b ∷ bytes) h = omega arith

instance abbrev pub short_json : Json (Unit {0})
short_json = record {
  to_vec = write_event;
  from_slice = read_event;
  nonempty = write_event-nonempty;
}

abbrev pub queue : EventQueue
queue = record {
  logs = record { at_bulk = held_log; at_standard = held_log; at_critical = held_log };
  max_disk_bytes = 24576;
  dropped_total = 0;
}

abbrev pub one_each : Slots (List Bytes)
one_each = record { at_bulk = alarm ∷ []; at_standard = alarm ∷ []; at_critical = alarm ∷ [] }

pub queue-Holds : Holds queue one_each
queue-Holds = record {
  at = elim [ bulk ↦ held-Represents | standard ↦ held-Represents | critical ↦ held-Represents ];
}

batch_example :
    Round one_each 2
      (read_batch {Details = Unit {0}} 2 queue).0
      (read_batch {Details = Unit {0}} 2 queue).1
batch_example = read_batch-Round queue one_each 2 queue-Holds

push_example : Pushed critical beat queue one_each
push_example = push_payload-Pushed queue one_each critical beat queue-Holds beat-IsRecordable
