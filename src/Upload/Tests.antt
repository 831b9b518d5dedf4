-- ===== src/Upload/Tests.antt =====
-- The uploader's theorems at a queue that holds three events.
use trapd_sensor.Prelude.{
  ◌≡◌, refl, arith, none, some, List, [], ◌∷◌, Bytes, length, take, true, if◌then◌else◌,
}
use trapd_sensor.Events.{SensorEvent, status}
use trapd_sensor.Wal.Tests.{sum_checksum}
use trapd_sensor.Queue.{Slots}
use trapd_sensor.Queue.Draining.{decoded}
use trapd_sensor.Queue.Rounds.{Holds, all_pending}
use trapd_sensor.Queue.Tests.{queue, one_each, queue-Holds, short_json}
use trapd_sensor.Upload.{
  Uploader, new_uploader, Answer, shutdown, response, failure, revoked, network, WireEvent, Value,
  flush_once,
}
use trapd_sensor.Upload.Attempts.{Attempt, goes_out, outcome_with, flush_once-Attempt}
use trapd_sensor.Upload.Running.{Ready, shutdown_changed, received, tick, run}
use trapd_sensor.Upload.Accounts.{Served, run-Served}
use trapd_sensor.Upload.Stored.{offered}
use trapd_sensor.Upload.Ending.{Admits, stops_within, run-ends}
use trapd_sensor.Upload.Delivery.{TakesAll, attempts, attempts-empty}

abbrev example_value : Value (Unit {0})
example_value = record { to_value = λ observation. some [] }

abbrev takes_all : List WireEvent → Answer
takes_all wire = response (record { received = length wire; errors = 0 })

takes_all-TakesAll : TakesAll takes_all
takes_all-TakesAll wire = refl

abbrev refuses : List WireEvent → Answer
refuses wire = failure revoked

abbrev example_uploader : Uploader
example_uploader = new_uploader queue 2

abbrev is_down : List WireEvent → Answer
is_down wire = failure network

is_down-Admits : Admits is_down
is_down-Admits wire = refl

takes_all-Admits : Admits takes_all
takes_all-Admits wire = refl

abbrev example_event : SensorEvent (Unit {0})
example_event = record { event_id = 7; sequence = 1; observed_at = []; observation = status tt }

-- An event arrives, the timer runs out while the backend is down, and the daemon shuts down.
abbrev example_rounds : List (Ready (Unit {0}) × (List WireEvent → Answer))
example_rounds =
    (received (some example_event), takes_all)
    ∷ ((tick, is_down) ∷ ((shutdown_changed true, takes_all) ∷ []))

run-Served_example :
    Served one_each example_uploader
      (run example_value example_rounds example_uploader).1
      (offered short_json example_rounds)
run-Served_example = run-Served example_value example_rounds example_uploader one_each queue-Holds

run-ends_example :
    (run example_value example_rounds example_uploader).0
    ≡ (if stops_within example_rounds then some shutdown else none)
run-ends_example =
    run-ends example_value example_rounds example_uploader
      (takes_all-Admits, (is_down-Admits, (takes_all-Admits, tt)))

flush_once-Attempt_example :
    Attempt one_each 2
      (goes_out example_value refuses (take 2 (all_pending one_each)))
      (flush_once example_value refuses example_uploader).1
    × ((flush_once example_value refuses example_uploader).0
        ≡ outcome_with example_value refuses (decoded short_json (take 2 (all_pending one_each))))
flush_once-Attempt_example =
    flush_once-Attempt example_value refuses example_uploader one_each queue-Holds

attempts-empty_example :
    (left : Slots (List Bytes)) × (Holds
        (attempts example_value takes_all 2 example_uploader).queue
        left
      × (all_pending left ≡ []))
attempts-empty_example =
    attempts-empty example_value takes_all takes_all-TakesAll 2 example_uploader one_each
      queue-Holds (omega arith)
