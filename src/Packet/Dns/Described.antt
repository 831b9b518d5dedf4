-- ===== src/Packet/Dns/Described.antt =====
-- Packet/Dns.antt: `read_name` finds the names that Packet/Dns/Names.antt describes, and no others.
use trapd_sensor.Prelude.{
  ◌≡◌, ◌↔◌, inl, inr, sym, subst, ap, ◌∙◌, arith, ℕ, ◌≤◌, ◌+◌, zero, suc, none, some, List, [], ◌∷◌,
  ◌++◌, map, Bytes, length, length-append, append-nil, append_snoc,
}
use trapd_sensor.Packet.Dns.{
  NameState, NameStep, failed, finished, again, name_step, name_loop, read_name, start_state,
  max_rounds, name_of, max_labels, max_pointer_jumps, sanitize_label, join_labels, get_or_insert,
  pointer_target,
}
use trapd_sensor.Packet.Dns.Names.{
  NameAt, root, label, pointer, Round, stops, ends, takes, goes, NameStep-cases, name_loop_failed,
  name_loop_finished, name_loop_again, name_step-Round,
}
use trapd_sensor.Packet.Dns.Finding.{finds}

-- What the loop finds from a state on.
record Found (bytes : Bytes) (s : NameState) (name : Bytes) (next : ℕ) : Type 0 where
  more_labels : List Bytes
  more_jumps : ℕ
  stop : ℕ
  at : NameAt bytes s.cursor more_labels more_jumps stop
  few_jumps : s.jumps + more_jumps ≤ max_pointer_jumps
  few_labels : length s.labels + length more_labels ≤ max_labels
  name_is : name ≡ join_labels (s.labels ++ map sanitize_label more_labels)
  next_is : next ≡ get_or_insert s.stream_end stop

found_after :
    (bytes : Bytes) (s : NameState) (n : NameStep) (s' : NameState) (name : Bytes) (next : ℕ)
    → s.jumps ≤ max_pointer_jumps
    → length s.labels ≤ max_labels
    → Round bytes s n
    → n ≡ again s'
    → (s'.jumps ≤ max_pointer_jumps → length s'.labels ≤ max_labels → Found bytes s' name next)
    → Found bytes s name next
found_after bytes s _ s' name next few short stops e rest = absurd cc
found_after bytes s _ s' name next few short (ends _) e rest = absurd cc
found_after bytes s _ s' name next few short (takes len text here small positive inside fits) e
      rest =
    let t : NameState = record s {
      labels = s.labels ++ (sanitize_label text ∷ []);
      cursor = s.cursor + 1 + len;
    } in
    let same : t ≡ s' = cc in
    let size = length-append s.labels (sanitize_label text ∷ []) in
    let f =
      subst
        (λ u. u.jumps ≤ max_pointer_jumps → length u.labels ≤ max_labels → Found bytes u name next)
        (sym same) rest in
    let g = f few (omega arith) in
    let count = g.few_labels in
    record {
      more_labels = text ∷ g.more_labels;
      more_jumps = g.more_jumps;
      stop = g.stop;
      at = label here small positive inside g.at;
      few_jumps = g.few_jumps;
      few_labels = omega arith;
      name_is =
          rw (append_snoc s.labels (map sanitize_label g.more_labels) (sanitize_label text))
            g.name_is;
      next_is = g.next_is;
    }
found_after bytes s _ s' name next few short (goes len low here large more back fits) e rest =
    let t : NameState = record s {
      cursor = pointer_target len low;
      jumps = s.jumps + 1;
      stream_end = some (get_or_insert s.stream_end (s.cursor + 2));
    } in
    let same : t ≡ s' = cc in
    let f =
      subst
        (λ u. u.jumps ≤ max_pointer_jumps → length u.labels ≤ max_labels → Found bytes u name next)
        (sym same) rest in
    let g = f fits short in
    let count = g.few_jumps in
    record {
      more_labels = g.more_labels;
      more_jumps = suc g.more_jumps;
      stop = s.cursor + 2;
      at = pointer here large more back g.at;
      few_jumps = omega arith;
      few_labels = g.few_labels;
      name_is = g.name_is;
      next_is = g.next_is;
    }

found_last :
    (bytes : Bytes) (s : NameState) (n : NameStep) (name : Bytes) (next : ℕ)
    → s.jumps ≤ max_pointer_jumps
    → length s.labels ≤ max_labels
    → Round bytes s n
    → n ≡ finished name next
    → Found bytes s name next
found_last bytes s _ name next few short stops e = absurd cc
found_last bytes s _ name next few short (takes _ _ _ _ _ _ _) e = absurd cc
found_last bytes s _ name next few short (goes _ _ _ _ _ _ _) e = absurd cc
found_last bytes s _ name next few short (ends here) e =
    let same_name : join_labels s.labels ≡ name = cc in
    let same_next : get_or_insert s.stream_end (s.cursor + 1) ≡ next = cc in
    record {
      more_labels = [];
      more_jumps = 0;
      stop = s.cursor + 1;
      at = root here;
      few_jumps = omega arith;
      few_labels = omega arith;
      name_is = rw (append-nil s.labels) (sym same_name);
      next_is = sym same_next;
    }

found :
    (bytes : Bytes) (fuel : ℕ) (s : NameState) (name : Bytes) (next : ℕ)
    → s.jumps ≤ max_pointer_jumps
    → length s.labels ≤ max_labels
    → name_loop fuel bytes s ≡ finished name next
    → Found bytes s name next
unfolding name_loop
found bytes zero s name next few short e = absurd cc
found bytes (suc fuel) s name next few short e = elim (NameStep-cases (name_step bytes s)) [
  | inl stopped ↦ let never = sym (name_loop_failed bytes fuel s stopped) ∙ e in absurd cc
  | inr (inl (name', next', done)) ↦
      let last = sym (name_loop_finished bytes fuel s name' next' done) ∙ e in
      found_last bytes s _ name next few short (name_step-Round bytes s) (done ∙ last)
  | inr (inr (s', on)) ↦
      found_after bytes s _ s' name next few short (name_step-Round bytes s) on (λ few' short'.
        found bytes fuel s' name next few' short' (sym (name_loop_again bytes fuel s s' on) ∙ e))
]

-- The name that a packet has at a position, with at most 16 pointers and 64 labels, and the
-- position behind it.
pub record Named (bytes : Bytes) (start : ℕ) (name : Bytes) (next : ℕ) : Type 0 where
  pub labels : List Bytes
  pub jumps : ℕ
  pub at : NameAt bytes start labels jumps next
  pub few_jumps : jumps ≤ max_pointer_jumps
  pub few_labels : length labels ≤ max_labels
  pub name_is : name ≡ join_labels (map sanitize_label labels)

Found-Named :
    (bytes : Bytes) (start : ℕ) (name : Bytes) (next : ℕ)
    → Found bytes (start_state start) name next
    → Named bytes start name next
Found-Named bytes start name next f =
    let few = f.few_jumps in
    let short = f.few_labels in
    record {
      labels = f.more_labels;
      jumps = f.more_jumps;
      at = subst (λ n. NameAt bytes start f.more_labels f.more_jumps n) (sym f.next_is) f.at;
      few_jumps = omega arith;
      few_labels = omega arith;
      name_is = f.name_is;
    }

name_of-finished :
    (n : NameStep) (name : Bytes) (next : ℕ)
    → name_of n ≡ some (name, next)
    → n ≡ finished name next
name_of-finished failed name next e = absurd cc
name_of-finished (finished name' next') name next e = cc
name_of-finished (again s) name next e = absurd cc

-- `read_name` gives a name and a position exactly when the packet has that name at the start
-- position, with at most 16 pointers, each to an earlier byte, and at most 64 labels, and the
-- position is the one behind the name's own bytes.
pub read_name-Named :
    (bytes : Bytes) (start : ℕ) (name : Bytes) (next : ℕ)
    → (read_name bytes start ≡ some (name, next)) ↔ Named bytes start name next
unfolding read_name
read_name-Named bytes start name next = (
  (λ e.
      let done = name_of-finished (name_loop max_rounds bytes (start_state start)) name next e in
      Found-Named bytes start name next
        (found bytes max_rounds (start_state start) name next (omega arith) (omega arith) done)),
  (λ n.
      let few = n.few_jumps in
      let short = n.few_labels in
      let done =
        finds bytes max_rounds start n.labels n.jumps next n.at [] 0 none (omega arith)
          (omega arith) (omega arith) in
      ap name_of done ∙ (λ i. some (sym n.name_is i, next))),
)
