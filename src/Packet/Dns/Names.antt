-- ===== src/Packet/Dns/Names.antt =====
-- Packet/Dns.antt: `read_name` against a description of names, and its end.
use trapd_sensor.Prelude.{
  ◌≡◌, ◌≢◌, ◌⊎◌, inl, inr, refl, sym, ◌∙◌, arith, ℕ, ◌≤◌, ◌<◌, ◌+◌, ◌-◌, zero, suc, some, List, [],
  ◌∷◌, ◌++◌, Bytes, length, length-append, get_elem?, slice, ltb, leb, ◌==◌, Bool-cases,
  Option-cases, ltb→ge, leb→le, false,
}
use trapd_sensor.Packet.Dns.{
  NameState, NameStep, failed, finished, again, name_step, name_loop, pointer_step, label_step,
  start_state, max_rounds, max_labels, max_pointer_jumps, sanitize_label, join_labels,
  get_or_insert, pointer_target,
}

-- A name in a packet: at its position, its labels, the pointers that it takes and the position
-- behind it. A pointer goes backwards.
pub data NameAt (bytes : Bytes) : ℕ → List Bytes → ℕ → ℕ → Type 0 where
  root : {pos : ℕ} → get_elem? bytes pos ≡ some 0 → NameAt bytes pos [] 0 (pos + 1)
  label :
      {pos len jumps stop : ℕ} {text : Bytes} {labels : List Bytes}
      → get_elem? bytes pos ≡ some len
      → len < 192
      → 1 ≤ len
      → slice bytes (pos + 1) (pos + 1 + len) ≡ some text
      → NameAt bytes (pos + 1 + len) labels jumps stop
      → NameAt bytes pos (text ∷ labels) jumps stop
  pointer :
      {pos len low jumps stop : ℕ} {labels : List Bytes}
      → get_elem? bytes pos ≡ some len
      → 192 ≤ len
      → get_elem? bytes (pos + 1) ≡ some low
      → pointer_target len low < pos
      → NameAt bytes (pointer_target len low) labels jumps stop
      → NameAt bytes pos labels (suc jumps) (pos + 2)

-- One round, told by what it has read.
pub data Round (bytes : Bytes) (s : NameState) : NameStep → Type 0 where
  stops : Round bytes s failed
  ends :
      get_elem? bytes s.cursor ≡ some 0
      → Round bytes s (finished (join_labels s.labels) (get_or_insert s.stream_end (s.cursor + 1)))
  takes :
      (len : ℕ) (text : Bytes)
      → get_elem? bytes s.cursor ≡ some len
      → len < 192
      → 1 ≤ len
      → slice bytes (s.cursor + 1) (s.cursor + 1 + len) ≡ some text
      → length s.labels + 1 ≤ max_labels
      → Round bytes s (
          again (record s {
            labels = s.labels ++ (sanitize_label text ∷ []);
            cursor = s.cursor + 1 + len;
          }))
  goes :
      (len low : ℕ)
      → get_elem? bytes s.cursor ≡ some len
      → 192 ≤ len
      → get_elem? bytes (s.cursor + 1) ≡ some low
      → pointer_target len low < s.cursor
      → s.jumps + 1 ≤ max_pointer_jumps
      → Round bytes s (
          again (record s {
            cursor = pointer_target len low;
            jumps = s.jumps + 1;
            stream_end = some (get_or_insert s.stream_end (s.cursor + 2));
          }))

pub leb→ge : (a b : ℕ) → leb a b ≡ false → b < a
leb→ge a b h = ground arith

module _ (bytes : Bytes) (s : NameState) where
  snoc_len : (x : Bytes) → length (s.labels ++ (x ∷ [])) ≡ length s.labels + 1
  snoc_len x = length-append s.labels (x ∷ [])

  pointer_step-Round :
      (len : ℕ)
      → get_elem? bytes s.cursor ≡ some len
      → 192 ≤ len
      → Round bytes s (pointer_step bytes s len)
  unfolding pointer_step
  pointer_step-Round len here large = elim (Option-cases (get_elem? bytes (s.cursor + 1))) [
    | inl e ↦ rw (e, pointer_step) stops
    | inr (low, e) ↦
        rw (e, pointer_step)
          (elim (Bool-cases (leb s.cursor (pointer_target len low))) [
            | inl forward ↦ rw forward stops
            | inr back ↦ rw back (elim (Bool-cases (ltb max_pointer_jumps (s.jumps + 1))) [
              | inl many ↦ rw many stops
              | inr few ↦ rw few (goes len low here large e (leb→ge _ _ back) (ltb→ge _ _ few))
            ])
          ])
  ]

  label_step-Round :
      (len : ℕ)
      → get_elem? bytes s.cursor ≡ some len
      → len < 192
      → 1 ≤ len
      → Round bytes s (label_step bytes s len)
  unfolding label_step
  label_step-Round len here small positive =
      elim (Option-cases (slice bytes (s.cursor + 1) (s.cursor + 1 + len))) [
        | inl e ↦ rw (e, label_step) stops
        | inr (text, e) ↦
            let size = snoc_len (sanitize_label text) in
            rw (e, label_step)
              (elim (Bool-cases
                (ltb max_labels (length (s.labels ++ (sanitize_label text ∷ []))))) [
                  | inl many ↦ rw many stops
                  | inr few ↦
                      let fits = ltb→ge _ _ few in
                      rw few (takes len text here small positive e (omega arith))
                ])
      ]

  pub name_step-Round : Round bytes s (name_step bytes s)
  unfolding name_step
  name_step-Round = elim (Option-cases (get_elem? bytes s.cursor)) [
    | inl e ↦ rw (e, name_step) stops
    | inr (len, e) ↦
        rw (e, name_step)
          (elim (Bool-cases (leb 0xc0 len)) [
            | inl large ↦ rw large (pointer_step-Round len e (leb→le _ _ large))
            | inr small ↦ rw small (elim (Bool-cases (len == 0)) [
              | inl empty ↦
                  let nothing : len ≡ 0 = ground arith in rw empty (ends (rw (sym nothing) e))
              | inr full ↦ rw full (label_step-Round len e (leb→ge _ _ small) (ground arith))
            ])
          ])
  ]

pub NameStep-cases :
    (n : NameStep)
    → (n ≡ failed)
      ⊎ (((name : Bytes) × (next : ℕ) × (n ≡ finished name next))
          ⊎ ((s : NameState) × (n ≡ again s)))
NameStep-cases failed = inl refl
NameStep-cases (finished name next) = inr (inl (name, next, refl))
NameStep-cases (again s) = inr (inr (s, refl))

module _ (bytes : Bytes) (fuel : ℕ) (s : NameState) where
  pub name_loop_failed : name_step bytes s ≡ failed → name_loop (suc fuel) bytes s ≡ failed
  unfolding name_loop
  name_loop_failed e = rw (e, name_loop) refl

  pub name_loop_finished :
      (name : Bytes) (next : ℕ)
      → name_step bytes s ≡ finished name next
      → name_loop (suc fuel) bytes s ≡ finished name next
  unfolding name_loop
  name_loop_finished name next e = rw (e, name_loop) refl

  pub name_loop_again :
      (s' : NameState)
      → name_step bytes s ≡ again s'
      → name_loop (suc fuel) bytes s ≡ name_loop fuel bytes s'
  unfolding name_loop
  name_loop_again s' e = rw (e, name_loop) refl

-- What is left of the two limits.
abbrev budget : NameState → ℕ
budget s = (max_pointer_jumps - s.jumps) + (max_labels - length s.labels)

Round-pays :
    (bytes : Bytes) (s s' : NameState) (n : NameStep)
    → Round bytes s n
    → n ≡ again s'
    → budget s' + 1 ≤ budget s
Round-pays bytes s s' _ stops e = absurd cc
Round-pays bytes s s' _ (ends _) e = absurd cc
Round-pays bytes s s' _ (takes len text _ _ _ _ fits) e =
    let same : record s {
      labels = s.labels ++ (sanitize_label text ∷ []);
      cursor = s.cursor + 1 + len;
    }
        ≡ s' =
      cc in
    let size = length-append s.labels (sanitize_label text ∷ []) in
    rw (sym same, size) (omega arith)
Round-pays bytes s s' _ (goes len low _ _ _ _ fits) e =
    let same : record s {
      cursor = pointer_target len low;
      jumps = s.jumps + 1;
      stream_end = some (get_or_insert s.stream_end (s.cursor + 2));
    }
        ≡ s' =
      cc in
    rw (sym same) (omega arith)

name_loop_ends :
    (bytes : Bytes) (fuel : ℕ) (s s' : NameState)
    → budget s < fuel
    → name_loop fuel bytes s ≢ again s'
name_loop_ends bytes zero s s' enough never = omega arith
name_loop_ends bytes (suc fuel) s s' enough never = elim (NameStep-cases (name_step bytes s)) [
  | inl e ↦ let stopped = sym (name_loop_failed bytes fuel s e) ∙ never in cc
  | inr (inl (name, next, e)) ↦
      let done = sym (name_loop_finished bytes fuel s name next e) ∙ never in cc
  | inr (inr (t, e)) ↦
      let less = Round-pays bytes s t _ (name_step-Round bytes s) e in
      name_loop_ends bytes fuel t s' (omega arith) (sym (name_loop_again bytes fuel s t e) ∙ never)
]

-- The loop of `read_name` ends: whatever the packet and the position are, it does not want another
-- round after 81.
pub name_loop_terminates :
    (bytes : Bytes) (start : ℕ) (s : NameState)
    → name_loop max_rounds bytes (start_state start) ≢ again s
name_loop_terminates bytes start s =
    name_loop_ends bytes max_rounds (start_state start) s (omega arith)
