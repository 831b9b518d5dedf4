-- ===== src/Packet/Dns/Finding.antt =====
-- Packet/Dns.antt: `read_name` finds the names that Packet/Dns/Names.antt describes.
use trapd_sensor.Prelude.{
  ◌≡◌, refl, ◌∙◌, arith, ℕ, ◌≤◌, ◌<◌, ◌+◌, zero, suc, Option, some, List, [], ◌∷◌, ◌++◌, map, Bytes,
  length, length-append, append-nil, append_snoc, get_elem?, slice, ltb, ◌==◌, lt→leb, le→ltb,
  le→leb, false,
}
use trapd_sensor.Packet.Dns.{
  NameState, finished, again, name_step, name_loop, pointer_step, label_step, max_labels,
  max_pointer_jumps, sanitize_label, join_labels, get_or_insert, pointer_target,
}
use trapd_sensor.Packet.Dns.Names.{
  NameAt, root, label, pointer, name_loop_finished, name_loop_again,
}

-- The rounds that a description asks for.
module _ (bytes : Bytes) (s : NameState) where
  step_root :
      get_elem? bytes s.cursor ≡ some 0
      → name_step bytes s
        ≡ finished (join_labels s.labels) (get_or_insert s.stream_end (s.cursor + 1))
  unfolding name_step
  step_root e = rw (e, name_step) refl

  step_label :
      (len : ℕ) (text : Bytes)
      → get_elem? bytes s.cursor ≡ some len
      → len < 192
      → 1 ≤ len
      → slice bytes (s.cursor + 1) (s.cursor + 1 + len) ≡ some text
      → length s.labels + 1 ≤ max_labels
      → name_step bytes s
        ≡ again (record s {
          labels = s.labels ++ (sanitize_label text ∷ []);
          cursor = s.cursor + 1 + len;
        })
  unfolding name_step label_step
  step_label len text e small positive inside fits =
      let plain = lt→leb 0xc0 len small in
      let full : (len == 0) ≡ false = ground arith in
      let size = length-append s.labels (sanitize_label text ∷ []) in
      let few : ltb max_labels (length (s.labels ++ (sanitize_label text ∷ []))) ≡ false =
        le→ltb _ _ (rw size fits) in
      rw (e, name_step, plain, full, inside, label_step, few) refl

  step_pointer :
      (len low : ℕ)
      → get_elem? bytes s.cursor ≡ some len
      → 192 ≤ len
      → get_elem? bytes (s.cursor + 1) ≡ some low
      → pointer_target len low < s.cursor
      → s.jumps + 1 ≤ max_pointer_jumps
      → name_step bytes s
        ≡ again (record s {
          cursor = pointer_target len low;
          jumps = s.jumps + 1;
          stream_end = some (get_or_insert s.stream_end (s.cursor + 2));
        })
  unfolding name_step pointer_step
  step_pointer len low e large next back fits =
      rw
        (
          e,
          name_step,
          le→leb 0xc0 len large,
          next,
          pointer_step,
          lt→leb s.cursor (pointer_target len low) back,
          le→ltb max_pointer_jumps (s.jumps + 1) fits,
        )
        refl

-- The loop finds a name that is described.
pub finds :
    (bytes : Bytes) (fuel pos : ℕ) (ls : List Bytes) (j stop : ℕ)
    → NameAt bytes pos ls j stop
    → (before : List Bytes) (jumps : ℕ) (end : Option ℕ) → jumps + j ≤ max_pointer_jumps
    → length before + length ls ≤ max_labels
    → j + length ls < fuel
    → name_loop fuel bytes
        (record { labels = before; cursor = pos; jumps = jumps; stream_end = end })
      ≡ finished (join_labels (before ++ map sanitize_label ls)) (get_or_insert end stop)
finds bytes zero pos ls j stop at before jumps end few short enough = absurd (omega arith)
finds bytes (suc fuel) pos _ _ _ (root e) before taken end few short enough =
    let s : NameState = record { labels = before; cursor = pos; jumps = taken; stream_end = end } in
    rw (append-nil before) (name_loop_finished bytes fuel s _ _ (step_root bytes s e))
finds bytes (suc fuel) pos _ j stop (label {len} {text} {labels} e small positive inside more)
      before taken end few short enough =
    let s : NameState = record { labels = before; cursor = pos; jumps = taken; stream_end = end } in
    let size = length-append before (sanitize_label text ∷ []) in
    rw (append_snoc before (map sanitize_label labels) (sanitize_label text)) (
      name_loop_again bytes fuel s _
        (step_label bytes s len text e small positive inside (omega arith))
      ∙ finds bytes fuel (pos + 1 + len) labels j stop more (before ++ (sanitize_label text ∷ []))
          taken end few (omega arith) (omega arith))
finds bytes (suc fuel) pos ls _ _ (pointer {len} {low} {jumps} e large next back more) before taken
      end few short enough =
    let s : NameState = record { labels = before; cursor = pos; jumps = taken; stream_end = end } in
    name_loop_again bytes fuel s _ (step_pointer bytes s len low e large next back (omega arith))
    ∙ finds bytes fuel (pointer_target len low) ls jumps _ more before (taken + 1)
        (some (get_or_insert end (pos + 2))) (omega arith) short (omega arith)
