-- ===== src/Upload/Stored.antt =====
-- What was stored between two states of the uploader, and where it went; what a run is offered.
use trapd_sensor.Prelude.{
  ◌≡◌, arith, ◌+◌, Option, none, some, List, [], ◌∷◌, ◌++◌, append-nil, Bytes, length,
  length-append,
}
use trapd_sensor.Events.{Priority, priority, Json}
use trapd_sensor.Wal.Record.{Checksum}
use trapd_sensor.Queue.{Slots, get}
use trapd_sensor.Queue.Rounds.{Holds}
use trapd_sensor.Queue.Keeping.{FollowsOn, FollowsOn-append, flush-Holds}
use trapd_sensor.Upload.{Uploader, Answer, WireEvent, flush_wal}
use trapd_sensor.Upload.Running.{Ready, shutdown_changed, received, tick, wal_tick}

module _ ⦃c : Checksum⦄ where
  -- From one state to another: what was stored on the way, and where it went.
  pub record Accounts (views : Slots (List Bytes)) (before : Uploader) (after : Uploader)
      (stored : List (Priority × Bytes)) : Type 0 where
    pub left : Slots (List Bytes)
    pub holds : Holds after.queue left
    pub follows : FollowsOn views stored left
    pub accepted_eq :
        after.counters.events_accepted ≡ before.counters.events_accepted + length stored

  pub Accounts-none :
      (u : Uploader) (views : Slots (List Bytes)) → Holds u.queue views → Accounts views u u []
  Accounts-none u views h = record {
    left = views;
    holds = h;
    follows = λ p. ([], append-nil (get p views));
    accepted_eq = omega arith;
  }

  pub Accounts-append :
      (views : Slots (List Bytes)) (u mid after : Uploader) (xs ys : List (Priority × Bytes))
      (a : Accounts views u mid xs)
      → Accounts a.left mid after ys
      → Accounts views u after (xs ++ ys)
  Accounts-append views u mid after xs ys a b = record {
    left = b.left;
    holds = b.holds;
    follows = FollowsOn-append xs ys a.follows b.follows;
    accepted_eq = omega (arith, a.accepted_eq, b.accepted_eq, length-append xs ys);
  }

  pub flush_wal-Accounts :
      (views : Slots (List Bytes)) (u mid : Uploader) (xs : List (Priority × Bytes))
      → Accounts views u mid xs
      → Accounts views u (flush_wal mid) xs
  flush_wal-Accounts views u mid xs a = record {
    left = a.left;
    holds = flush-Holds a.holds;
    follows = a.follows;
    accepted_eq = a.accepted_eq;
  }

-- What an event that arrives may add to the queue.
abbrev pub payload_of : Priority → Option Bytes → List (Priority × Bytes)
payload_of p none = []
payload_of p (some payload) = (p, payload) ∷ []

abbrev pub offered_by : {Details : Type 0} → Json Details → Ready Details → List (Priority × Bytes)
offered_by j (received (some event)) = payload_of (priority event) (j.to_vec event)
offered_by j (received none) = []
offered_by j (shutdown_changed b) = []
offered_by j tick = []
offered_by j wal_tick = []

abbrev pub offered :
    {Details : Type 0}
    → Json Details
    → List (Ready Details × (List WireEvent → Answer))
    → List (Priority × Bytes)
offered j [] = []
offered j ((ready, sink) ∷ later) = offered_by j ready ++ offered j later
