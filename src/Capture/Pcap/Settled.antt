-- ===== src/Capture/Pcap/Settled.antt =====
-- Capture/Pcap/Decoder.antt: a decoder between two calls.
use trapd_sensor.Prelude.{
  ◌≡◌, ◌⊎◌, inl, inr, refl, sym, subst, ◌∙◌, arith, ℕ, ◌≤◌, ◌<◌, ◌+◌, suc, Option, none, some, List,
  Bytes, length, drop, ltb, Bool-cases, ltb→lt, ltb→ge, le→ltb, lt→ltb, Option-cases,
}
use trapd_sensor.Capture.Pcap.{
  next_record, Next, wait, Header, PcapPacket, ok, ◌>>=◌, bind_inversion, read_global, global_len,
  refusal, record_header_len, standard, extended, PcapVariant,
}
use trapd_sensor.Capture.Pcap.Decoder.{
  PcapStreamDecoder, new_decoder, record_loop, decode_records, decode_available, limit_of,
}
use trapd_sensor.Capture.Pcap.Prefixes.{
  Front, short_header, refused, short_record, whole, next_record-Front,
}
use trapd_sensor.Capture.Pcap.Loops.{record_loop-rest, loop_wait}

-- Nothing can be taken off the buffer's front.
abbrev pub NothingToTake : Option Header → ℕ → Bytes → Type 0
NothingToTake none m b = length b < global_len
NothingToTake (some h) m b = next_record h m b ≡ wait

pub record Settled (d : PcapStreamDecoder) : Type 0 where
  pub nothing_to_take : NothingToTake d.header d.max_packet d.buffer

pub header_len_le : (v : PcapVariant) → record_header_len v ≤ 24
header_len_le standard = omega arith
header_len_le extended = omega arith

pub refusal-none : (h : Header) (m cap original : ℕ) → refusal h m cap original ≡ none → cap ≤ m
unfolding refusal
refusal-none h m cap original fine = ground arith

waiting : (h : Header) (m : ℕ) (b : Bytes) (n : Next) → Front h m b n → n ≡ wait → length b < m + 24
waiting h m b _ (short_header short) e = let bound = header_len_le h.format.variant in omega arith
waiting h m b _ (refused _ _ _) e = absurd cc
waiting h m b _ (whole _ _ _) e = absurd cc
waiting h m b _ (short_record _ fine short) e =
    let bound = header_len_le h.format.variant in
    let fits = refusal-none h m _ _ fine in omega arith

NothingToTake-bound :
    (o : Option Header) (m : ℕ) (b : Bytes) → NothingToTake o m b → length b < m + 24
NothingToTake-bound none m b short = omega arith
NothingToTake-bound (some h) m b stuck = waiting h m b _ (next_record-Front h m b) stuck

pub Settled-bound : (d : PcapStreamDecoder) → Settled d → length d.buffer < limit_of d
Settled-bound d s = NothingToTake-bound d.header d.max_packet d.buffer s.nothing_to_take

pub new_decoder-Settled : (m : ℕ) → Settled (new_decoder m)
new_decoder-Settled m = record { nothing_to_take = omega arith }

-- What `decode_available` leaves is settled.
pub decode_records-Settled :
    (h : Header) (d : PcapStreamDecoder) (ps : List PcapPacket) (b : Bytes)
    (out : List PcapPacket × PcapStreamDecoder)
    → decode_records h d ps b ≡ ok out
    → Settled out.1 × (out.1.max_packet ≡ d.max_packet)
unfolding decode_records
decode_records-Settled h d ps b out done =
    let (loop, ran, same) =
      bind_inversion (record_loop (suc (length b)) h d.max_packet ps b) _ out done in
    let (_, stuck) = record_loop-rest h d.max_packet (suc (length b)) ps b loop (omega arith) ran in
    let left : record d { buffer = loop.1; header = some h } ≡ out.1 = cc in
    rw (sym left) (record { nothing_to_take = stuck }, refl)

pub decode_ready :
    (d : PcapStreamDecoder) (ps : List PcapPacket) (h : Header)
    → d.header ≡ some h
    → decode_available d ps ≡ decode_records h d ps d.buffer
unfolding decode_available
decode_ready d ps h e = rw e refl

pub decode_short :
    (d : PcapStreamDecoder) (ps : List PcapPacket)
    → d.header ≡ none
    → length d.buffer < global_len
    → decode_available d ps ≡ ok (ps, d)
unfolding decode_available
decode_short d ps e short = rw (e, lt→ltb _ _ short) refl

pub decode_global :
    (d : PcapStreamDecoder) (ps : List PcapPacket)
    → d.header ≡ none
    → global_len ≤ length d.buffer
    → decode_available d ps ≡ (
        read_global d.max_packet d.buffer >>= λ h. decode_records h d ps (drop global_len d.buffer))
unfolding decode_available
decode_global d ps e long = rw (e, le→ltb _ _ long) refl

pub le_or_lt : (a b : ℕ) → (a < b) ⊎ (b ≤ a)
le_or_lt a b = elim (Bool-cases (ltb a b)) [
  | inl less ↦ inl (ltb→lt a b less)
  | inr not_less ↦ inr (ltb→ge a b not_less)
]

pub decode_available-Settled :
    (d : PcapStreamDecoder) (ps : List PcapPacket) (out : List PcapPacket × PcapStreamDecoder)
    → decode_available d ps ≡ ok out
    → Settled out.1 × (out.1.max_packet ≡ d.max_packet)
decode_available-Settled d ps out done = elim (Option-cases d.header) [
  | inl e ↦ elim (le_or_lt (length d.buffer) global_len) [
    | inl short ↦
        let same = sym (decode_short d ps e short) ∙ done in
        let left : d ≡ out.1 = cc in
        let stuck : NothingToTake d.header d.max_packet d.buffer = rw e short in
        rw (sym left) (record { nothing_to_take = stuck }, refl)
    | inr long ↦
        let (h, _, ran) =
          bind_inversion (read_global d.max_packet d.buffer) _ out
            (sym (decode_global d ps e long) ∙ done) in
        decode_records-Settled h d ps (drop global_len d.buffer) out ran
  ]
  | inr (h, e) ↦ decode_records-Settled h d ps d.buffer out (sym (decode_ready d ps h e) ∙ done)
]

-- A settled decoder finds nothing more.
pub decode_available_stable :
    (d : PcapStreamDecoder) (ps : List PcapPacket) → Settled d → decode_available d ps ≡ ok (ps, d)
unfolding decode_records
decode_available_stable d ps s = elim (Option-cases d.header) [
  | inl e ↦
      let short : length d.buffer < global_len =
        subst (λ o. NothingToTake o d.max_packet d.buffer) e s.nothing_to_take in
      decode_short d ps e short
  | inr (h, e) ↦
      let stuck : next_record h d.max_packet d.buffer ≡ wait =
        subst (λ o. NothingToTake o d.max_packet d.buffer) e s.nothing_to_take in
      let loop = loop_wait h d.max_packet (length d.buffer) ps d.buffer stuck in
      rw (decode_ready d ps h e, loop) (λ i. ok (ps, record d { header = sym e i }))
]
