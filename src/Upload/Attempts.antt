-- ===== src/Upload/Attempts.antt =====
-- Upload.antt: what one attempt takes out of the queue, and what many of them do.
use trapd_sensor.Prelude.{
  ◌≡◌, refl, sym, subst, ap, ◌∙◌, arith, ℕ, ◌+◌, Option, none, some, List, [], ◌∷◌, Bytes, Bool,
  true, false, ◌&&◌, ◌==◌, leb, length, take, drop, ltb, Bool-cases, inl, inr, if◌then◌else◌,
}
use trapd_sensor.Events.{Priority, SensorEvent, Json}
use trapd_sensor.Wal.Record.{Checksum}
use trapd_sensor.Queue.{Slots, get, EventQueue, ReadBatch, read_batch, commit}
use trapd_sensor.Queue.Draining.{decoded, refused}
use trapd_sensor.Queue.Rounds.{Holds, all_pending, Round, read_batch-Round}
use trapd_sensor.Upload.{
  Uploader, UploaderOutcome, sensor_revoked, IngestResponse, Answer, response, failure, network,
  server, rate_limited, routing, unauthorized, revoked, bad_request, encode, enrollment, tls,
  is_partial, WireEvent, Value, wire_events, count_with, on_response, on_failure, on_answer, send,
  flush_once,
}

-- Whether an answer to a batch of `count` events ends the matter: all of it was taken, or none of
-- it will ever be.
abbrev pub settles : ℕ → Answer → Bool
settles count (response r) = (r.errors == 0) && leb count r.received
settles count (failure (bad_request status)) = true
settles count (failure encode) = true
settles count (failure network) = false
settles count (failure (server status)) = false
settles count (failure (rate_limited retry_after)) = false
settles count (failure (routing status)) = false
settles count (failure unauthorized) = false
settles count (failure revoked) = false
settles count (failure enrollment) = false
settles count (failure tls) = false

abbrev pub outcome_of : Answer → Option UploaderOutcome
outcome_of (failure unauthorized) = some (sensor_revoked unauthorized)
outcome_of (failure revoked) = some (sensor_revoked revoked)
outcome_of _ = none

whole_settles :
    (count : ℕ) (r : IngestResponse)
    → is_partial count r ≡ false
    → ((r.errors == 0) && leb count r.received) ≡ true
whole_settles count r whole = ground arith

partly_waits :
    (count : ℕ) (r : IngestResponse)
    → is_partial count r ≡ true
    → ((r.errors == 0) && leb count r.received) ≡ false
partly_waits count r partly = ground arith

module _ {Details : Type 0} ⦃j : Json Details⦄ where
  -- Whether an attempt at these payloads takes them out of the queue.
  abbrev pub goes_out_with :
      Value Details → (List WireEvent → Answer) → List (SensorEvent Details) → ℕ → Bool
  goes_out_with v sink [] unreadable = ltb 0 unreadable
  goes_out_with v sink (e ∷ events) unreadable =
      settles (length (wire_events v (e ∷ events))) (sink (wire_events v (e ∷ events)))

  abbrev pub goes_out : Value Details → (List WireEvent → Answer) → List Bytes → Bool
  goes_out v sink payloads = goes_out_with v sink (decoded j payloads) (refused j payloads)

  abbrev pub outcome_with :
      Value Details
      → (List WireEvent → Answer)
      → List (SensorEvent Details)
      → Option UploaderOutcome
  outcome_with v sink [] = none
  outcome_with v sink (e ∷ events) = outcome_of (sink (wire_events v (e ∷ events)))

-- What is known of an attempt, by whether the batch goes out.
pub record Attempt ⦃c : Checksum⦄ (views : Slots (List Bytes)) (n : ℕ) (goes : Bool) (u : Uploader)
    : Type 0 where
  pub left : Slots (List Bytes)
  pub holds : Holds u.queue left
  pub left_eq : all_pending left ≡ (if goes then drop n (all_pending views) else all_pending views)
  pub behind : (p : Priority) → (k : ℕ) × (get p left ≡ drop k (get p views))
  pub same_max : u.batch_max_events ≡ n

module _ ⦃c : Checksum⦄ {Details : Type 0} ⦃j : Json Details⦄ where
  on_answer_goes :
      (batch : ReadBatch Details) (count : ℕ) (a : Answer) (u : Uploader)
      → (on_answer batch count a u).1.queue
        ≡ (if settles count a then commit batch u.queue else u.queue)
  unfolding on_response on_failure
  on_answer_goes batch count (response r) u = elim (Bool-cases (is_partial count r)) [
    | inl partly ↦ rw (partly, partly_waits count r partly) refl
    | inr whole ↦ rw (whole, whole_settles count r whole) refl
  ]
  on_answer_goes batch count (failure network) u = refl
  on_answer_goes batch count (failure (server status)) u = refl
  on_answer_goes batch count (failure (rate_limited retry_after)) u = refl
  on_answer_goes batch count (failure (routing status)) u = refl
  on_answer_goes batch count (failure unauthorized) u = refl
  on_answer_goes batch count (failure revoked) u = refl
  on_answer_goes batch count (failure (bad_request status)) u = refl
  on_answer_goes batch count (failure encode) u = refl
  on_answer_goes batch count (failure enrollment) u = refl
  on_answer_goes batch count (failure tls) u = refl

  on_answer_rest :
      (batch : ReadBatch Details) (count : ℕ) (a : Answer) (u : Uploader)
      → ((on_answer batch count a u).0 ≡ outcome_of a)
        × ((on_answer batch count a u).1.batch_max_events ≡ u.batch_max_events)
        × ((on_answer batch count a u).1.counters.events_accepted ≡ u.counters.events_accepted)
  unfolding on_response on_failure
  on_answer_rest batch count (response r) u = elim (Bool-cases (is_partial count r)) [
    | inl partly ↦ rw partly (refl, refl, refl)
    | inr whole ↦ rw whole (refl, refl, refl)
  ]
  on_answer_rest batch count (failure network) u = (refl, refl, refl)
  on_answer_rest batch count (failure (server status)) u = (refl, refl, refl)
  on_answer_rest batch count (failure (rate_limited retry_after)) u = (refl, refl, refl)
  on_answer_rest batch count (failure (routing status)) u = (refl, refl, refl)
  on_answer_rest batch count (failure unauthorized) u = (refl, refl, refl)
  on_answer_rest batch count (failure revoked) u = (refl, refl, refl)
  on_answer_rest batch count (failure (bad_request status)) u = (refl, refl, refl)
  on_answer_rest batch count (failure encode) u = (refl, refl, refl)
  on_answer_rest batch count (failure enrollment) u = (refl, refl, refl)
  on_answer_rest batch count (failure tls) u = (refl, refl, refl)

  Round-Attempt :
      (views : Slots (List Bytes)) (n : ℕ) (goes : Bool) (batch : ReadBatch Details)
      (q : EventQueue) (u : Uploader)
      → Round views n batch q
      → u.queue ≡ (if goes then commit batch q else q)
      → u.batch_max_events ≡ n
      → Attempt views n goes u
  Round-Attempt views n true batch q u r e same = record {
    left = r.left;
    holds = subst (λ q'. Holds q' r.left) (sym e) r.confirmed;
    left_eq = r.left_eq;
    behind = r.behind;
    same_max = same;
  }
  Round-Attempt views n false batch q u r e same = record {
    left = views;
    holds = subst (λ q'. Holds q' views) (sym e) r.unchanged;
    left_eq = refl;
    behind = λ p. (0, refl);
    same_max = same;
  }

  module _ (v : Value Details) (sink : List WireEvent → Answer) where
    send_goes :
        (batch : ReadBatch Details) (events : List (SensorEvent Details)) (u : Uploader)
        → (send v sink batch events u).1.queue ≡ (
            if goes_out_with v sink events batch.undecodable then commit batch u.queue else u.queue)
    send_goes batch [] u = elim (Bool-cases (ltb 0 batch.undecodable)) [
      | inl some_bad ↦ rw some_bad refl
      | inr none_bad ↦ rw none_bad refl
    ]
    send_goes batch (e ∷ events) u =
        let wire = wire_events v (e ∷ events) in
        on_answer_goes batch (length wire) (sink wire)
          (count_with (λ s. record s { backend_requests = s.backend_requests + 1 }) u)

    send_rest :
        (batch : ReadBatch Details) (events : List (SensorEvent Details)) (u : Uploader)
        → ((send v sink batch events u).0 ≡ outcome_with v sink events)
          × ((send v sink batch events u).1.batch_max_events ≡ u.batch_max_events)
          × ((send v sink batch events u).1.counters.events_accepted ≡ u.counters.events_accepted)
    send_rest batch [] u = elim (Bool-cases (ltb 0 batch.undecodable)) [
      | inl some_bad ↦ rw some_bad (refl, refl, refl)
      | inr none_bad ↦ rw none_bad (refl, refl, refl)
    ]
    send_rest batch (e ∷ events) u =
        let wire = wire_events v (e ∷ events) in
        on_answer_rest batch (length wire) (sink wire)
          (count_with (λ s. record s { backend_requests = s.backend_requests + 1 }) u)

    outcome_with-none :
        ((wire : List WireEvent) → outcome_of (sink wire) ≡ none)
        → (events : List (SensorEvent Details)) → outcome_with v sink events ≡ none
    outcome_with-none keeps [] = refl
    outcome_with-none keeps (e ∷ events) = keeps (wire_events v (e ∷ events))

    -- An attempt confirms the first events that are pending, up to the size of a batch, when the
    -- backend takes all of them, when it refuses them as invalid, or when none of them can be read;
    -- in every other case it leaves all that is pending as it is. It ends the uploader exactly when
    -- the sensor is refused.
    pub flush_once-Attempt :
        (u : Uploader) (views : Slots (List Bytes))
        → Holds u.queue views
        → Attempt views u.batch_max_events
            (goes_out v sink (take u.batch_max_events (all_pending views)))
            (flush_once v sink u).1
          × ((flush_once v sink u).0
              ≡ outcome_with v sink (decoded j (take u.batch_max_events (all_pending views))))
    unfolding flush_once
    flush_once-Attempt u views h =
        let n = u.batch_max_events in
        let batch = (read_batch {Details = Details} n u.queue).0 in
        let q = (read_batch {Details = Details} n u.queue).1 in
        let u' : Uploader = record u { queue = q } in
        let r = read_batch-Round {Details = Details} u.queue views n h in
        let (outcome, same_max, _) = send_rest batch batch.events u' in
        (
          subst (λ g. Attempt views n g (send v sink batch batch.events u').1)
              (λ i. goes_out_with v sink (r.events_eq i) (r.undecodable_eq i))
              (Round-Attempt views n (goes_out_with v sink batch.events batch.undecodable) batch q
                (send v sink batch batch.events u').1 r (send_goes batch batch.events u') same_max),
          outcome ∙ ap (outcome_with v sink) r.events_eq,
        )

    pub flush_once-accepted :
        (u : Uploader)
        → (flush_once v sink u).1.counters.events_accepted ≡ u.counters.events_accepted
    unfolding flush_once
    flush_once-accepted u =
        let r = read_batch {Details = Details} u.batch_max_events u.queue in
        (send_rest r.0 r.0.events (record u { queue = r.1 })).2

    -- A backend that refuses no sensor never ends the uploader.
    pub flush_once-none :
        (u : Uploader)
        → ((wire : List WireEvent) → outcome_of (sink wire) ≡ none)
        → (flush_once v sink u).0 ≡ none
    unfolding flush_once
    flush_once-none u keeps =
        let r = read_batch {Details = Details} u.batch_max_events u.queue in
        (send_rest r.0 r.0.events (record u { queue = r.1 })).0 ∙ outcome_with-none keeps r.0.events
