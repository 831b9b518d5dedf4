-- ===== src/Upload/Accounts.antt =====
-- Upload.Running: where each event that the uploader accepted is.
use trapd_sensor.Prelude.{
  ◌≡◌, refl, sym, ap, ◌∙◌, subst, arith, ◌+◌, Option, none, some, List, [], ◌∷◌, ◌++◌, append-nil,
  Bytes, Bool, true, false, length, take, leb, Bool-cases, Option-cases, inl, inr, if◌then◌else◌,
}
use mathlib.Core.List.{Sublistᴰ}
use trapd_sensor.Events.{Priority, SensorEvent, priority, Json}
use trapd_sensor.Wal.Record.{Checksum}
use trapd_sensor.Wal.Log.{Result, ok, err}
use trapd_sensor.Queue.{Slots, get, EventQueue, PushOutcome, stats, push, push_payload}
use trapd_sensor.Queue.Rounds.{Holds}
use trapd_sensor.Queue.Keeping.{front_gone, is_stored, push_payload-Kept}
use trapd_sensor.Upload.{Uploader, Answer, WireEvent, Value, flush_once, flush_wal}
use trapd_sensor.Upload.Attempts.{flush_once-Attempt, flush_once-accepted}
use trapd_sensor.Upload.Running.{
  Ready, shutdown_changed, received, tick, wal_tick, noted, enqueue, after_enqueue, on_ready, run,
}
use trapd_sensor.Upload.Stored.{
  Accounts, Accounts-none, Accounts-append, flush_wal-Accounts, payload_of, offered_by, offered,
}

module _ {ℓ} {A : Type ℓ} where
  none_of : (xs : List A) → Sublistᴰ [] xs
  none_of [] = Sublistᴰ.slnil
  none_of (x ∷ xs) = Sublistᴰ.cons (none_of xs)

  sublist-append :
      {xs xs' ys ys' : List A}
      → Sublistᴰ xs xs'
      → Sublistᴰ ys ys'
      → Sublistᴰ (xs ++ ys) (xs' ++ ys')
  sublist-append Sublistᴰ.slnil t = t
  sublist-append (Sublistᴰ.cons s) t = Sublistᴰ.cons (sublist-append s t)
  sublist-append (Sublistᴰ.cons-cons e s) t = Sublistᴰ.cons-cons e (sublist-append s t)

  one_or_none : (b : Bool) (x : A) → Sublistᴰ (if b then x ∷ [] else []) (x ∷ [])
  one_or_none true x = Sublistᴰ.cons-cons refl Sublistᴰ.slnil
  one_or_none false x = Sublistᴰ.cons Sublistᴰ.slnil

-- The accounts of a run over what was offered to the queue.
pub record Served ⦃c : Checksum⦄ (views : Slots (List Bytes)) (before : Uploader) (after : Uploader)
    (offers : List (Priority × Bytes)) : Type 0 where
  pub stored : List (Priority × Bytes)
  pub accounts : Accounts views before after stored
  pub from_offers : Sublistᴰ stored offers

unchanged-Served :
    ⦃c : Checksum⦄ (u : Uploader) (views : Slots (List Bytes)) (offers : List (Priority × Bytes))
    → Holds u.queue views
    → Served views u u offers
unchanged-Served u views offers h = record {
  stored = [];
  accounts = Accounts-none u views h;
  from_offers = none_of offers;
}

abbrev stored_by : Option (Result PushOutcome) → Bool
stored_by none = false
stored_by (some result) = is_stored result

-- The counters and the queue behind the `match` on the result of `push`.
noted_lem :
    (result : Option (Result PushOutcome)) (u : Uploader)
    → ((noted result u).queue ≡ u.queue)
      × ((noted result u).counters.events_accepted
          ≡ u.counters.events_accepted + (if stored_by result then 1 else 0))
noted_lem none u = (refl, omega arith)
noted_lem (some (err e)) u = (refl, omega arith)
noted_lem (some (ok outcome)) u = elim (Bool-cases outcome.stored) [
  | inl done ↦ rw done (refl, refl)
  | inr refused ↦ rw refused (refl, omega arith)
]

length-one_or_none {ℓ} :
    {A : Type ℓ} (b : Bool) (x : A) → length (if b then x ∷ [] else []) ≡ (if b then 1 else 0)
length-one_or_none true x = refl
length-one_or_none false x = refl

module _ ⦃c : Checksum⦄ {Details : Type 0} ⦃j : Json Details⦄ where
  push-none :
      (event : SensorEvent Details) (q : EventQueue)
      → j.to_vec event ≡ none
      → push event q ≡ (none, q)
  unfolding push
  push-none event q e = rw (e, push) refl

  push-some :
      (event : SensorEvent Details) (q : EventQueue) (payload : Bytes)
      → j.to_vec event ≡ some payload
      → push event q ≡ (
        some (push_payload (priority event) payload q).0,
        (push_payload (priority event) payload q).1,
      )
  unfolding push
  push-some event q payload e = rw (e, push) refl

  enqueue_by :
      (event : SensorEvent Details) (u : Uploader) (result : Option (Result PushOutcome))
      (q : EventQueue)
      → push event u.queue ≡ (result, q)
      → ((enqueue event u).queue ≡ q)
        × ((enqueue event u).counters.events_accepted
            ≡ u.counters.events_accepted + (if stored_by result then 1 else 0))
  unfolding enqueue
  enqueue_by event u result q e =
      let (same_queue, counted) = noted_lem result (record u { queue = q }) in
      rw e (same_queue, counted)

  enqueue-Served :
      (event : SensorEvent Details) (u : Uploader) (views : Slots (List Bytes))
      → Holds u.queue views
      → Served views u (enqueue event u) (offered_by j (received (some event)))
  enqueue-Served event u views h = elim (Option-cases (j.to_vec event)) [
    | inl bad ↦
        let (same_queue, counted) = enqueue_by event u none u.queue (push-none event u.queue bad) in
        record {
          stored = [];
          accounts = record {
            left = views;
            holds = subst (λ q. Holds q views) (sym same_queue) h;
            follows = λ p. ([], append-nil (get p views));
            accepted_eq = counted;
          };
          from_offers = none_of _;
        }
    | inr (payload, good) ↦
        let k =
          push_payload-Kept (priority event) payload u.queue views (j.nonempty event payload good)
            h in
        let (same_queue, counted) = enqueue_by event u (some k.result) k.after (
          push-some event u.queue payload good
          ∙ (λ i. (some (k.result_eq i).0, (k.result_eq i).1))) in
        record {
          stored = k.stored;
          accounts = record {
            left = k.now;
            holds = subst (λ q. Holds q k.now) (sym same_queue) k.holds;
            follows = k.follows;
            accepted_eq =
                counted
                ∙ ap (λ n. u.counters.events_accepted + n)
                    (sym (
                      ap length k.stored_eq
                      ∙ length-one_or_none (is_stored k.result) (priority event, payload)));
          };
          from_offers =
              subst (λ l. Sublistᴰ k.stored (payload_of (priority event) l)) (sym good)
                (subst (λ s. Sublistᴰ s ((priority event, payload) ∷ [])) (sym k.stored_eq)
                  (one_or_none (is_stored k.result) (priority event, payload)));
        }
  ]

  module _ (v : Value Details) (sink : List WireEvent → Answer) where
    flush_once-Accounts :
        (u : Uploader) (views : Slots (List Bytes))
        → Holds u.queue views
        → Accounts views u (flush_once v sink u).1 []
    flush_once-Accounts u views h =
        let (a, _) = flush_once-Attempt v sink u views h in
        record {
          left = a.left;
          holds = a.holds;
          follows = λ p.
              let (k, e) = a.behind p in
              (
                take k (get p views),
                front_gone k (get p views) ∙ ap (◌++◌ (take k (get p views))) (sym e),
              );
          accepted_eq = flush_once-accepted v sink u ∙ omega arith;
        }

    flushed-Served :
        (u : Uploader) (views : Slots (List Bytes))
        → Holds u.queue views
        → Served views u (flush_once v sink u).1 []
    flushed-Served u views h = record {
      stored = [];
      accounts = flush_once-Accounts u views h;
      from_offers = Sublistᴰ.slnil;
    }

    drained-Served :
        (u : Uploader) (views : Slots (List Bytes))
        → Holds u.queue views
        → Served views u (flush_wal (flush_once v sink u).1) []
    drained-Served u views h = record {
      stored = [];
      accounts = flush_wal-Accounts views u _ [] (flush_once-Accounts u views h);
      from_offers = Sublistᴰ.slnil;
    }

    after_enqueue-Served :
        (u mid : Uploader) (views : Slots (List Bytes)) (offers : List (Priority × Bytes))
        → Served views u mid offers
        → Served views u (after_enqueue v sink mid).1 offers
    after_enqueue-Served u mid views offers s =
        elim (Bool-cases (leb mid.batch_max_events (stats mid.queue).pending)) [
          | inr few ↦ rw few s
          | inl enough ↦
              let a = flush_once-Accounts mid s.accounts.left s.accounts.holds in
              rw enough (record {
                stored = s.stored;
                accounts =
                    subst (Accounts views u (flush_once v sink mid).1) (append-nil s.stored)
                      (Accounts-append views u mid _ s.stored [] s.accounts a);
                from_offers = s.from_offers;
              })
        ]

    on_ready-Served :
        (ready : Ready Details) (u : Uploader) (views : Slots (List Bytes))
        → Holds u.queue views
        → Served views u (on_ready v sink ready u).1 (offered_by j ready)
    unfolding on_ready
    on_ready-Served (shutdown_changed true) u views h = drained-Served u views h
    on_ready-Served (shutdown_changed false) u views h = unchanged-Served u views [] h
    on_ready-Served (received (some event)) u views h =
        after_enqueue-Served u (enqueue event u) views _ (enqueue-Served event u views h)
    on_ready-Served (received none) u views h = drained-Served u views h
    on_ready-Served tick u views h = flushed-Served u views h
    on_ready-Served wal_tick u views h = record {
      stored = [];
      accounts = flush_wal-Accounts views u u [] (Accounts-none u views h);
      from_offers = Sublistᴰ.slnil;
    }

  -- Whatever becomes ready in whatever order, and whatever the backend answers, the queue stays
  -- sound and every event that is counted as accepted can be accounted for: these events are some
  -- of those that arrived, in the order of their arrival, and at each priority what was pending
  -- before with them behind it is what has gone, followed by what is pending now. So events leave
  -- a priority in order and from its front alone, and none is duplicated.
  pub run-Served :
      (v : Value Details) (rounds : List (Ready Details × (List WireEvent → Answer))) (u : Uploader)
      (views : Slots (List Bytes))
      → Holds u.queue views
      → Served views u (run v rounds u).1 (offered j rounds)
  unfolding run
  run-Served v [] u views h = unchanged-Served u views [] h
  run-Served v ((ready, sink) ∷ later) u views h =
      let s = on_ready-Served v sink ready u views h in
      elim (Option-cases (on_ready v sink ready u).0) [
        | inr (o, stop) ↦
            rw (stop, run)
              (record {
                stored = s.stored;
                accounts = s.accounts;
                from_offers =
                    subst (λ l. Sublistᴰ l (offered_by j ready ++ offered j later))
                      (append-nil s.stored)
                      (sublist-append s.from_offers (none_of (offered j later)));
              })
        | inl more ↦
            let t =
              run-Served v later (on_ready v sink ready u).1 s.accounts.left s.accounts.holds in
            rw (more, run)
              (record {
                stored = s.stored ++ t.stored;
                accounts = Accounts-append views u _ _ s.stored t.stored s.accounts t.accounts;
                from_offers = sublist-append s.from_offers t.from_offers;
              })
      ]
