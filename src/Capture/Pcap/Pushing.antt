-- ===== src/Capture/Pcap/Pushing.antt =====
-- Capture/Pcap/Decoder.antt: a push is one look at all that has arrived.
use trapd_sensor.Prelude.{
  take, min, ◌-◌, take-append-drop, lt→leb, ◌≡◌, inl, inr, refl, sym, subst, ap, ◌∙◌, arith, ℕ, ◌≤◌,
  ◌+◌, zero, suc, some, List, [], ◌∷◌, ◌++◌, Bytes, length, length-append, append-nil, append_assoc,
  drop, le→ltb, Option-cases, drop-append_short, length-drop,
}
use trapd_sensor.Capture.Pcap.{Header, PcapPacket, ok, ◌>>=◌, Result-cases, read_global, global_len}
use trapd_sensor.Capture.Pcap.Decoder.{
  PcapStreamDecoder, record_loop, decode_records, decode_available, accept, limit_of, push,
  push_loop, usize_max,
}
use trapd_sensor.Capture.Pcap.Prefixes.{field-append}
use trapd_sensor.Capture.Pcap.Settled.{
  Settled, decode_ready, decode_short, decode_global, le_or_lt, decode_available-Settled,
  decode_available_stable, Settled-bound,
}
use trapd_sensor.Capture.Pcap.Loops.{
  record_loop-rest, record_loop_fuel, record_loop-append, record_loop_shift,
}

pub read_global-append :
    (m : ℕ) (b ys : Bytes) → global_len ≤ length b → read_global m (b ++ ys) ≡ read_global m b
unfolding read_global
read_global-append m b ys long = rw (
  field-append b ys 0 4 (omega arith),
  field-append b ys 4 2 (omega arith),
  field-append b ys 16 4 (omega arith),
  field-append b ys 20 4 (omega arith),
)

pub decode_records-append :
    (h : Header) (d : PcapStreamDecoder) (ps : List PcapPacket) (b ys : Bytes)
    → decode_records h (accept d ys) ps (b ++ ys)
      ≡ (decode_records h d ps b >>= λ out. decode_available (accept out.1 ys) out.0)
unfolding decode_records
decode_records-append h d ps b ys =
    let m = d.max_packet in
    let f = suc (length (b ++ ys)) in
    let lengths = length-append b ys in
    let all = record_loop-append h m f f ps b ys (omega arith) (omega arith) in
    let same = record_loop_fuel h m f (suc (length b)) ps b (omega arith) (omega arith) in
    rw (all, same)
      (elim (Result-cases (record_loop (suc (length b)) h m ps b)) [
        | inl (x, e) ↦ rw e refl
        | inr (out, e) ↦
            let (shorter, _) = record_loop-rest h m (suc (length b)) ps b out (omega arith) e in
            let after = length-append out.1 ys in
            let d' = accept (record d { buffer = out.1; header = some h }) ys in
            rw
              (
                e,
                decode_ready d' out.0 h refl,
                record_loop_fuel h m f (suc (length (out.1 ++ ys))) out.0 (out.1 ++ ys)
                    (omega arith) (omega arith),
              )
              refl
      ])

-- What a decoder makes of two pieces is what it makes of the first, and then of the second.
pub decode_available-append :
    (d : PcapStreamDecoder) (ps : List PcapPacket) (ys : Bytes)
    → decode_available (accept d ys) ps
      ≡ (decode_available d ps >>= λ out. decode_available (accept out.1 ys) out.0)
decode_available-append d ps ys = elim (Option-cases d.header) [
  | inr (h, e) ↦
      rw (decode_ready (accept d ys) ps h e, decode_ready d ps h e)
        (decode_records-append h d ps d.buffer ys)
  | inl e ↦ elim (le_or_lt (length d.buffer) global_len) [
    | inl short ↦ rw (decode_short d ps e short) refl
    | inr long ↦
        let longer : global_len ≤ length (d.buffer ++ ys) =
          rw (length-append d.buffer ys) (omega arith) in
        rw
          (
            decode_global (accept d ys) ps e longer,
            decode_global d ps e long,
            read_global-append d.max_packet d.buffer ys long,
            drop-append_short global_len d.buffer ys long,
          )
          (elim (Result-cases (read_global d.max_packet d.buffer)) [
            | inl (x, failed) ↦ rw failed refl
            | inr (h, read) ↦ rw read (decode_records-append h d ps (drop global_len d.buffer) ys)
          ])
  ]
]

pub accept-nil : (d : PcapStreamDecoder) → accept d [] ≡ d
accept-nil d = λ i. record d { buffer = append-nil d.buffer i }

pub accept-accept :
    (d : PcapStreamDecoder) (n : ℕ) (bytes : Bytes)
    → accept (accept d (take n bytes)) (drop n bytes) ≡ accept d bytes
accept-accept d n bytes =
    let joined : (d.buffer ++ take n bytes) ++ drop n bytes ≡ d.buffer ++ bytes =
      append_assoc d.buffer (take n bytes) (drop n bytes)
      ∙ ap (◌++◌ d.buffer) (take-append-drop n bytes) in
    λ i. record d { buffer = joined i }

-- The loop makes of the bytes what one look at all of them makes.
pub push_loop_lem :
    (fuel : ℕ) (d : PcapStreamDecoder) (ps : List PcapPacket) (bytes : Bytes)
    → Settled d
    → length bytes ≤ fuel
    → push_loop fuel (limit_of d) d ps bytes ≡ decode_available (accept d bytes) ps
unfolding push_loop
push_loop_lem zero d ps [] s enough = rw (accept-nil d) (sym (decode_available_stable d ps s))
push_loop_lem zero d ps (c ∷ cs) s enough = absurd (omega arith)
push_loop_lem (suc fuel) d ps [] s enough = rw (accept-nil d) (sym (decode_available_stable d ps s))
push_loop_lem (suc fuel) d ps (c ∷ cs) s enough =
    let bytes = c ∷ cs in
    let n = min (limit_of d - length d.buffer) (length bytes) in
    let room = Settled-bound d s in
    let whole = decode_available-append (accept d (take n bytes)) ps (drop n bytes) in
    rw (lt→leb _ _ room, sym (accept-accept d n bytes), whole)
      (elim (Result-cases (decode_available (accept d (take n bytes)) ps)) [
        | inl (x, e) ↦ rw e refl
        | inr (out, e) ↦
            let (settled, same) = decode_available-Settled (accept d (take n bytes)) ps out e in
            let fewer = length-drop n bytes in
            let rest = push_loop_lem fuel out.1 out.0 (drop n bytes) settled (omega arith) in
            rw e (
              subst
                (λ k.
                  push_loop fuel k out.1 out.0 (drop n bytes)
                  ≡ decode_available (accept out.1 (drop n bytes)) out.0)
                (ap (λ m. m + 24) same) rest)
      ])

-- A settled decoder whose limit is a machine word takes a push as one look at all of its bytes.
pub push_lem :
    (d : PcapStreamDecoder) (bytes : Bytes)
    → Settled d
    → limit_of d ≤ usize_max
    → push d bytes ≡ decode_available (accept d bytes) []
unfolding push
push_lem d bytes s small =
    rw (le→ltb _ _ small) (push_loop_lem (length bytes) d [] bytes s (omega arith))

pub decode_records_shift :
    (h : Header) (d : PcapStreamDecoder) (ps : List PcapPacket) (b : Bytes)
    → decode_records h d ps b ≡ (decode_records h d [] b >>= λ out. ok (ps ++ out.0, out.1))
unfolding decode_records
decode_records_shift h d ps b =
    let f = suc (length b) in
    rw (sym (append-nil ps), record_loop_shift h d.max_packet f ps [] b)
      (elim (Result-cases (record_loop f h d.max_packet [] b)) [
        | inl (x, e) ↦ rw e refl
        | inr (out, e) ↦ rw (e, append-nil ps) refl
      ])

pub decode_available_shift :
    (d : PcapStreamDecoder) (ps : List PcapPacket)
    → decode_available d ps ≡ (decode_available d [] >>= λ out. ok (ps ++ out.0, out.1))
decode_available_shift d ps = elim (Option-cases d.header) [
  | inr (h, e) ↦
      rw (decode_ready d ps h e, decode_ready d [] h e) (decode_records_shift h d ps d.buffer)
  | inl e ↦ elim (le_or_lt (length d.buffer) global_len) [
    | inl short ↦ rw (decode_short d ps e short, decode_short d [] e short, append-nil ps) refl
    | inr long ↦
        rw (decode_global d ps e long, decode_global d [] e long)
          (elim (Result-cases (read_global d.max_packet d.buffer)) [
            | inl (x, failed) ↦ rw failed refl
            | inr (h, read) ↦ rw read (decode_records_shift h d ps (drop global_len d.buffer))
          ])
  ]
]

-- After a push that succeeds the decoder is settled, and its limit is what it was.
pub push-Settled :
    (d : PcapStreamDecoder) (bytes : Bytes) (out : List PcapPacket × PcapStreamDecoder)
    → Settled d
    → limit_of d ≤ usize_max
    → push d bytes ≡ ok out
    → Settled out.1 × (out.1.max_packet ≡ d.max_packet)
push-Settled d bytes out s small done =
    decode_available-Settled (accept d bytes) [] out (sym (push_lem d bytes s small) ∙ done)
