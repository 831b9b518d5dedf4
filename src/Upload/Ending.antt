-- ===== src/Upload/Ending.antt =====
-- Upload.Running: when the loop of `run` ends.
use trapd_sensor.Prelude.{
  ◌≡◌, refl, ap, ◌∙◌, none, some, List, [], ◌∷◌, Bool, true, false, ◌||◌, leb, All, Bool-cases, inl,
  inr, if◌then◌else◌,
}
use trapd_sensor.Events.{Json}
use trapd_sensor.Wal.Record.{Checksum}
use trapd_sensor.Queue.{stats}
use trapd_sensor.Upload.{Uploader, shutdown, Answer, WireEvent, Value}
use trapd_sensor.Upload.Attempts.{outcome_of, flush_once-none}
use trapd_sensor.Upload.Running.{
  Ready, shutdown_changed, received, tick, wal_tick, enqueue, on_ready, run,
}

-- The backend refuses no sensor. It may fail in every other way.
abbrev pub Admits : (List WireEvent → Answer) → Type 0
Admits sink = (wire : List WireEvent) → outcome_of (sink wire) ≡ none

-- A request to stop: the shutdown flag is set, or the channel is closed.
abbrev pub stops : {Details : Type 0} → Ready Details → Bool
stops (shutdown_changed flag) = flag
stops (received none) = true
stops (received (some event)) = false
stops tick = false
stops wal_tick = false

module _ {Details : Type 0} where
  abbrev pub stops_within : List (Ready Details × (List WireEvent → Answer)) → Bool
  stops_within [] = false
  stops_within ((ready, sink) ∷ later) = stops ready || stops_within later

module _ ⦃c : Checksum⦄ {Details : Type 0} ⦃j : Json Details⦄ where
  on_ready-outcome :
      (v : Value Details) (sink : List WireEvent → Answer) (ready : Ready Details) (u : Uploader)
      → Admits sink
      → (on_ready v sink ready u).0 ≡ (if stops ready then some shutdown else none)
  unfolding on_ready
  on_ready-outcome v sink (shutdown_changed true) u admits = refl
  on_ready-outcome v sink (shutdown_changed false) u admits = refl
  on_ready-outcome v sink (received none) u admits = refl
  on_ready-outcome v sink (received (some event)) u admits =
      let mid = enqueue event u in
      elim (Bool-cases (leb mid.batch_max_events (stats mid.queue).pending)) [
        | inl enough ↦ rw enough (flush_once-none v sink mid admits)
        | inr few ↦ rw few refl
      ]
  on_ready-outcome v sink tick u admits = flush_once-none v sink u admits
  on_ready-outcome v sink wal_tick u admits = refl

  -- As long as the backend refuses no sensor, the uploader ends exactly when it is asked to stop,
  -- by the shutdown flag or the closed channel, and then in an orderly way: no other answer of the
  -- backend, no event and no error of the queue ends it.
  pub run-ends :
      (v : Value Details) (rounds : List (Ready Details × (List WireEvent → Answer))) (u : Uploader)
      → All (λ r. Admits r.1) rounds
      → (run v rounds u).0 ≡ (if stops_within rounds then some shutdown else none)
  unfolding run
  run-ends v [] u admit = refl
  run-ends v ((ready, sink) ∷ later) u (admits, admit) =
      let o = on_ready-outcome v sink ready u admits in
      elim (Bool-cases (stops ready)) [
        | inl stop ↦
            let e = o ∙ ap (λ (b : Bool). if b then some shutdown else none) stop in
            rw (stop, run) (rw (e, run) refl)
        | inr more ↦
            let e = o ∙ ap (λ (b : Bool). if b then some shutdown else none) more in
            rw (more, run) (rw (e, run) (run-ends v later (on_ready v sink ready u).1 admit))
      ]
