-- ===== src/Upload/Delivery.antt =====
-- Upload.antt: a backend that takes every batch gets all that is pending.
use trapd_sensor.Prelude.{
  ◌≡◌, ◌⊎◌, refl, sym, ap, ◌∙◌, arith, ℕ, ◌≤◌, ◌<◌, ◌+◌, ◌*◌, zero, suc, List, [], ◌∷◌, ◌++◌, Bytes,
  true, length, take, drop, take-append-drop, drop-drop, drop_all, lt→ltb, le→leb, inl, inr,
  if◌then◌else◌, Option-cases, Bool-cases,
}
use trapd_sensor.Events.{SensorEvent, Json}
use trapd_sensor.Wal.Record.{Checksum}
use trapd_sensor.Queue.{Slots}
use trapd_sensor.Queue.Draining.{decoded, refused}
use trapd_sensor.Queue.Rounds.{Holds, all_pending}
use trapd_sensor.Upload.{Uploader, Answer, response, WireEvent, Value, wire_events, flush_once}
use trapd_sensor.Upload.Attempts.{goes_out, goes_out_with, flush_once-Attempt}

length-decoded :
    {Details : Type 0} (j : Json Details) (xs : List Bytes)
    → length (decoded j xs) + refused j xs ≡ length xs
unfolding decoded refused
length-decoded j [] = refl
length-decoded j (x ∷ xs) =
    let rest = length-decoded j xs in
    elim (Option-cases (j.from_slice x)) [
      | inl bad ↦ rw (bad, decoded, refused) (omega arith)
      | inr (e, good) ↦ rw (good, decoded, refused) (omega arith)
    ]

-- A backend that takes every batch whole.
abbrev pub TakesAll : (List WireEvent → Answer) → Type 0
TakesAll sink =
    (wire : List WireEvent) → sink wire ≡ response (record { received = length wire; errors = 0 })

drop_of_take : (n : ℕ) (xs : List Bytes) → take n xs ≡ [] → drop n xs ≡ xs
drop_of_take n xs nothing = sym (ap (λ t. t ++ drop n xs) nothing) ∙ take-append-drop n xs

module _ ⦃c : Checksum⦄ {Details : Type 0} ⦃j : Json Details⦄ (v : Value Details)
    (sink : List WireEvent → Answer) where
  -- Attempts one after another.
  abbrev pub attempts : ℕ → Uploader → Uploader
  attempts zero u = u
  attempts (suc k) u = attempts k (flush_once v sink u).1

  -- What is left after some attempts.
  pub record Delivered (pending : List Bytes) (gone : ℕ) (u : Uploader) : Type 0 where
    pub left : Slots (List Bytes)
    pub holds : Holds u.queue left
    pub left_eq : all_pending left ≡ drop gone pending

module _ {Details : Type 0} ⦃j : Json Details⦄ (v : Value Details) (sink : List WireEvent → Answer)
    (takes : TakesAll sink) where
  taken_with :
      (events : List (SensorEvent Details)) (unread : ℕ)
      → 0 < length events + unread
      → goes_out_with v sink events unread ≡ true
  taken_with [] unread some_there = lt→ltb 0 unread (omega arith)
  taken_with (e ∷ events) unread some_there =
      let wire = wire_events v (e ∷ events) in
      rw (takes wire, le→leb (length wire) (length wire) (omega arith)) refl

  taken_cases : (ys : List Bytes) → (ys ≡ []) ⊎ (goes_out v sink ys ≡ true)
  taken_cases [] = inl refl
  taken_cases (y ∷ ys) =
      let all = length-decoded j (y ∷ ys) in
      inr (taken_with (decoded j (y ∷ ys)) (refused j (y ∷ ys)) (omega arith))

  taken_out :
      (n : ℕ) (xs : List Bytes)
      → (if goes_out v sink (take n xs) then drop n xs else xs) ≡ drop n xs
  taken_out n xs = elim (taken_cases (take n xs)) [
    | inr goes ↦ rw goes refl
    | inl nothing ↦
        let same = drop_of_take n xs nothing in
        elim (Bool-cases (goes_out v sink (take n xs))) [
          | inl goes ↦ rw goes refl
          | inr stays ↦ rw stays (sym same)
        ]
  ]

module _ ⦃c : Checksum⦄ {Details : Type 0} ⦃j : Json Details⦄ (v : Value Details)
    (sink : List WireEvent → Answer) (takes : TakesAll sink) where
  attempts-Delivered :
      (k n : ℕ) (u : Uploader) (views : Slots (List Bytes))
      → Holds u.queue views
      → u.batch_max_events ≡ n
      → Delivered v sink (all_pending views) (k * n) (attempts v sink k u)
  attempts-Delivered zero n u views h same =
      let none_gone : 0 * n ≡ 0 = omega arith in
      record { left = views; holds = h; left_eq = rw none_gone refl }
  attempts-Delivered (suc k) n u views h same =
      let (a, _) = flush_once-Attempt v sink u views h in
      let out = taken_out v sink takes u.batch_max_events (all_pending views) in
      let d = attempts-Delivered k n (flush_once v sink u).1 a.left a.holds (a.same_max ∙ same) in
      let total : suc k * n ≡ n + k * n = omega arith in
      record {
        left = d.left;
        holds = d.holds;
        left_eq =
            d.left_eq
            ∙ (ap (drop (k * n)) (a.left_eq ∙ (out ∙ ap (λ m. drop m (all_pending views)) same))
                ∙ (sym (drop-drop n (k * n) (all_pending views))
                    ∙ ap (λ m. drop m (all_pending views)) (sym total)));
      }

  -- When the backend takes every batch whole, as many attempts as there are batches empty the
  -- queue: nothing is left that is pending.
  pub attempts-empty :
      (k : ℕ) (u : Uploader) (views : Slots (List Bytes))
      → Holds u.queue views
      → length (all_pending views) ≤ k * u.batch_max_events
      → (left : Slots (List Bytes)) × (Holds (attempts v sink k u).queue left
          × (all_pending left ≡ []))
  attempts-empty k u views h enough =
      let d = attempts-Delivered k u.batch_max_events u views h refl in
      (d.left, (d.holds, d.left_eq ∙ drop_all (k * u.batch_max_events) (all_pending views) enough))
