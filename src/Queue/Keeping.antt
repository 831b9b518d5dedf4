-- ===== src/Queue/Keeping.antt =====
-- `push` and `flush` of Queue.antt as their caller sees them: whatever the outcome, each priority's
-- pending payloads lose some at the front and gain the new one at the end, when it is stored.
use trapd_sensor.Prelude.{
  ℕ, suc, ◌+◌, ◌<◌, ◌≡◌, refl, sym, ap, ◌∙◌, List, [], ◌∷◌, ◌++◌, append_assoc, append-nil, Bytes,
  Bool, true, false, length, take, drop, take-append-drop, ltb, Bool-cases, ltb→lt, arith, inl, inr,
  if◌then◌else◌,
}
use trapd_sensor.Events.{Priority, bulk, standard, critical}
use trapd_sensor.Wal.Record.{Checksum, max_record_bytes}
use trapd_sensor.Wal.Record.RoundTrip.{IsRecordable}
use trapd_sensor.Wal.Log.{Result, ok, err, record_too_large}
use trapd_sensor.Wal.Log.Delivery.{append_too_large, flush-Represents}
use trapd_sensor.Queue.{
  Slots, get, set, EventQueue, PushOutcome, segment_count, after_room, stored_in, push_payload,
  flush,
}
use trapd_sensor.Queue.Rounds.{Holds}
use trapd_sensor.Queue.Limit.{without, make_room-Cleared}
use trapd_sensor.Queue.Pushing.{push_payload-Pushed}

abbrev pub same : Priority → Priority → Bool
same bulk bulk = true
same bulk standard = false
same bulk critical = false
same standard bulk = false
same standard standard = true
same standard critical = false
same critical bulk = false
same critical standard = false
same critical critical = true

abbrev pub is_stored : Result PushOutcome → Bool
is_stored (ok outcome) = outcome.stored
is_stored (err e) = false

-- The payloads of one priority.
abbrev pub payloads_of : Priority → List (Priority × Bytes) → List Bytes
payloads_of p [] = []
payloads_of p ((r, payload) ∷ rest) =
    if same r p then payload ∷ payloads_of p rest else payloads_of p rest

pub payloads_of-append :
    (p : Priority) (xs ys : List (Priority × Bytes))
    → payloads_of p (xs ++ ys) ≡ payloads_of p xs ++ payloads_of p ys
payloads_of-append p [] ys = refl
payloads_of-append p ((r, payload) ∷ xs) ys = ground (arith, payloads_of-append p xs ys)

-- What was pending, with what was stored behind it, is what is pending now behind what is gone.
abbrev pub FollowsOn : Slots (List Bytes) → List (Priority × Bytes) → Slots (List Bytes) → Type 0
FollowsOn views stored left =
    (p : Priority)
    → (gone : List Bytes) × (get p views ++ payloads_of p stored ≡ gone ++ get p left)

pub FollowsOn-append :
    {views mid left : Slots (List Bytes)} (xs ys : List (Priority × Bytes))
    → FollowsOn views xs mid
    → FollowsOn mid ys left
    → FollowsOn views (xs ++ ys) left
FollowsOn-append {views} {mid} {left} xs ys f g p =
    let (gone, e) = f p in
    let (gone', e') = g p in
    (
      gone ++ gone',
      ap (◌++◌ (get p views)) (payloads_of-append p xs ys)
          ∙ (sym (append_assoc (get p views) (payloads_of p xs) (payloads_of p ys))
              ∙ (ap (λ v. v ++ payloads_of p ys) e
                  ∙ (append_assoc gone (get p mid) (payloads_of p ys)
                      ∙ (ap (◌++◌ gone) e' ∙ sym (append_assoc gone gone' (get p left)))))),
    )

pub front_gone : (n : ℕ) (view : List Bytes) → view ++ [] ≡ take n view ++ drop n view
front_gone n view = append-nil view ∙ sym (take-append-drop n view)

added_behind :
    (n : ℕ) (view : List Bytes) (x : Bytes)
    → view ++ (x ∷ []) ≡ take n view ++ (drop n view ++ (x ∷ []))
added_behind n view x =
    ap (λ v. v ++ (x ∷ [])) (sym (take-append-drop n view))
    ∙ append_assoc (take n view) (drop n view) (x ∷ [])

without-FollowsOn :
    (lost : Slots ℕ) (views : Slots (List Bytes)) → FollowsOn views [] (without lost views)
without-FollowsOn lost views bulk =
    (take lost.at_bulk views.at_bulk, front_gone lost.at_bulk views.at_bulk)
without-FollowsOn lost views standard =
    (take lost.at_standard views.at_standard, front_gone lost.at_standard views.at_standard)
without-FollowsOn lost views critical =
    (take lost.at_critical views.at_critical, front_gone lost.at_critical views.at_critical)

stored-FollowsOn :
    (p : Priority) (payload : Bytes) (views : Slots (List Bytes))
    → FollowsOn views ((p, payload) ∷ []) (set p (get p views ++ (payload ∷ [])) views)
stored-FollowsOn bulk payload views bulk = ([], refl)
stored-FollowsOn bulk payload views standard = ([], append-nil views.at_standard)
stored-FollowsOn bulk payload views critical = ([], append-nil views.at_critical)
stored-FollowsOn standard payload views bulk = ([], append-nil views.at_bulk)
stored-FollowsOn standard payload views standard = ([], refl)
stored-FollowsOn standard payload views critical = ([], append-nil views.at_critical)
stored-FollowsOn critical payload views bulk = ([], append-nil views.at_bulk)
stored-FollowsOn critical payload views standard = ([], append-nil views.at_standard)
stored-FollowsOn critical payload views critical = ([], refl)

module _ ⦃c : Checksum⦄ where
  -- What is known after `push`, whatever its result.
  pub record Kept (p : Priority) (payload : Bytes) (q : EventQueue) (views : Slots (List Bytes))
      : Type 0 where
    pub result : Result PushOutcome
    pub after : EventQueue
    pub result_eq : push_payload p payload q ≡ (result, after)
    pub now : Slots (List Bytes)
    pub holds : Holds after now
    pub stored : List (Priority × Bytes)
    pub stored_eq : stored ≡ (if is_stored result then (p, payload) ∷ [] else [])
    pub follows : FollowsOn views stored now

  too_large :
      (p : Priority) (payload : Bytes) (q : EventQueue) (views : Slots (List Bytes))
      → max_record_bytes < length payload
      → Holds q views
      → Kept p payload q views
  unfolding push_payload
  too_large p payload q views big h =
      let r =
        make_room-Cleared (suc (segment_count q)) (length payload + 8) q 0 views h (omega arith) in
      elim r.decided [
        | inl (roomy, _) ↦ record {
          result = err (record_too_large (length payload));
          after = r.after;
          result_eq =
              ap (after_room p payload) r.result_eq
              ∙ (λ i. after_room p payload (roomy i, r.spent, r.after))
              ∙ ap (stored_in p r.spent r.after)
                  (append_too_large (get p r.after.logs) payload big);
          now = without r.lost views;
          holds = r.kept;
          stored = [];
          stored_eq = refl;
          follows = without-FollowsOn r.lost views;
        }
        | inr (full, _) ↦ record {
          result = ok (record { stored = false; evicted = r.spent });
          after = record r.after { dropped_total = r.after.dropped_total + 1 };
          result_eq =
              ap (after_room p payload) r.result_eq
              ∙ (λ i. after_room p payload (full i, r.spent, r.after));
          now = without r.lost views;
          holds = record { at = r.kept.at };
          stored = [];
          stored_eq = refl;
          follows = without-FollowsOn r.lost views;
        }
      ]

  fits :
      (p : Priority) (payload : Bytes) (q : EventQueue) (views : Slots (List Bytes))
      → IsRecordable payload
      → Holds q views
      → Kept p payload q views
  fits p payload q views good h =
      let r = push_payload-Pushed q views p payload h good in
      elim r.decided [
        | inl (done, (_, holds)) ↦ record {
          result = ok r.outcome;
          after = r.after;
          result_eq = r.result_eq;
          now = set p (get p (without r.lost views) ++ (payload ∷ [])) (without r.lost views);
          holds = holds;
          stored = (p, payload) ∷ [];
          stored_eq = rw done refl;
          follows =
              FollowsOn-append [] ((p, payload) ∷ []) (without-FollowsOn r.lost views)
                (stored-FollowsOn p payload (without r.lost views));
        }
        | inr (refused, (_, (holds, _))) ↦ record {
          result = ok r.outcome;
          after = r.after;
          result_eq = r.result_eq;
          now = without r.lost views;
          holds = holds;
          stored = [];
          stored_eq = rw refused refl;
          follows = without-FollowsOn r.lost views;
        }
      ]

  pub push_payload-Kept :
      (p : Priority) (payload : Bytes) (q : EventQueue) (views : Slots (List Bytes))
      → 0 < length payload
      → Holds q views
      → Kept p payload q views
  push_payload-Kept p payload q views some_bytes h =
      elim (Bool-cases (ltb max_record_bytes (length payload))) [
        | inl big ↦ too_large p payload q views (ltb→lt _ _ big) h
        | inr small ↦
            fits p payload q views (record { nonempty = some_bytes; fits = ground arith }) h
      ]

  pub flush-Holds :
      {q : EventQueue} {views : Slots (List Bytes)} → Holds q views → Holds (flush q) views
  unfolding flush
  flush-Holds {q} {views} h = record {
    at = elim [
      | bulk ↦ flush-Represents q.logs.at_bulk views.at_bulk (h.at bulk)
      | standard ↦ flush-Represents q.logs.at_standard views.at_standard (h.at standard)
      | critical ↦ flush-Represents q.logs.at_critical views.at_critical (h.at critical)
    ];
  }
