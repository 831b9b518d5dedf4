-- ===== src/Capture/Pcap/Limits.antt =====
-- Capture/Pcap/Decoder.antt: how much a decoder holds, and the error it never gives.
use trapd_sensor.Prelude.{
  ◌≡◌, ◌≢◌, inl, inr, sym, ap, ◌∙◌, arith, ℕ, ◌≤◌, ◌<◌, ◌+◌, zero, suc, Option, none, some, List,
  [], ◌∷◌, ◌++◌, Bytes, length, drop, Option-cases,
}
use trapd_sensor.Capture.Pcap.{
  next_record, Next, bad, Header, PcapPacket, ok, err, bind_failure, checked_header, read_global,
  global_len, refusal, buffer_limit, Format, detect_format, field,
}
use trapd_sensor.Capture.Pcap.Decoder.{
  PcapStreamDecoder, record_loop, decode_records, decode_available, accept, limit_of, push,
  usize_max, buffered_len,
}
use trapd_sensor.Capture.Pcap.Prefixes.{
  Front, short_header, refused, short_record, whole, next_record-Front,
}
use trapd_sensor.Capture.Pcap.Settled.{
  Settled, decode_ready, decode_short, decode_global, le_or_lt, Settled-bound,
}
use trapd_sensor.Capture.Pcap.Loops.{Next-cases, loop_wait, loop_bad, loop_packet}
use trapd_sensor.Capture.Pcap.Pushing.{push_lem, push-Settled}

-- After a push that succeeds the buffer is shorter than the configured packet limit and 24 bytes,
-- and the packet limit is what it was. The decoder is one between two calls, with a limit that
-- is a machine word.
pub push-buffered_len :
    (d : PcapStreamDecoder) (bytes : Bytes) (out : List PcapPacket × PcapStreamDecoder)
    → Settled d
    → limit_of d ≤ usize_max
    → push d bytes ≡ ok out
    → (buffered_len out.1 < d.max_packet + 24) × (out.1.max_packet ≡ d.max_packet)
push-buffered_len d bytes out s small done =
    let (settled, same) = push-Settled d bytes out s small done in
    let bound = Settled-bound out.1 settled in (omega arith, same)

refusal-buffer_limit :
    (h : Header) (m cap original : ℕ) → refusal h m cap original ≢ some buffer_limit
unfolding refusal
refusal-buffer_limit h m cap original never = ground arith

checked_header-buffer_limit :
    (m : ℕ) (o : Option Format) (a b c : Bytes) → checked_header m o a b c ≢ err buffer_limit
unfolding checked_header
checked_header-buffer_limit m none a b c never = cc
checked_header-buffer_limit m (some f) a b c never = ground arith

read_global-buffer_limit : (m : ℕ) (b : Bytes) → read_global m b ≢ err buffer_limit
unfolding read_global
read_global-buffer_limit m b =
    checked_header-buffer_limit m (detect_format (field b 0 4)) (field b 4 2) (field b 16 4)
      (field b 20 4)

front-buffer_limit :
    (h : Header) (m : ℕ) (b : Bytes) (n : Next) → Front h m b n → n ≢ bad buffer_limit
front-buffer_limit h m b _ (short_header _) e = cc
front-buffer_limit h m b _ (short_record _ _ _) e = cc
front-buffer_limit h m b _ (whole _ _ _) e = cc
front-buffer_limit h m b _ (refused x _ found) e =
    refusal-buffer_limit h m _ _ (found ∙ (let same : x ≡ buffer_limit = cc in ap some same))

record_loop-buffer_limit :
    (h : Header) (m f : ℕ) (ps : List PcapPacket) (b : Bytes)
    → record_loop f h m ps b ≢ err buffer_limit
unfolding record_loop
record_loop-buffer_limit h m zero ps b never = cc
record_loop-buffer_limit h m (suc f) ps b never = elim (Next-cases (next_record h m b)) [
  | inl e ↦ let waits = sym (loop_wait h m f ps b e) ∙ never in cc
  | inr (inl (x, e)) ↦
      let fails = sym (loop_bad h m f ps b x e) ∙ never in
      let same : x ≡ buffer_limit = cc in
      front-buffer_limit h m b _ (next_record-Front h m b) (e ∙ ap bad same)
  | inr (inr (p, rest, e)) ↦
      record_loop-buffer_limit h m f (ps ++ (p ∷ [])) rest
        (sym (loop_packet h m f ps b p rest e) ∙ never)
]

decode_records-buffer_limit :
    (h : Header) (d : PcapStreamDecoder) (ps : List PcapPacket) (b : Bytes)
    → decode_records h d ps b ≢ err buffer_limit
unfolding decode_records
decode_records-buffer_limit h d ps b never =
    elim (bind_failure (record_loop (suc (length b)) h d.max_packet ps b) _ buffer_limit never) [
      | inl failed ↦ record_loop-buffer_limit h d.max_packet (suc (length b)) ps b failed
      | inr (_, _, done) ↦ cc
    ]

decode_available-buffer_limit :
    (d : PcapStreamDecoder) (ps : List PcapPacket) → decode_available d ps ≢ err buffer_limit
decode_available-buffer_limit d ps never = elim (Option-cases d.header) [
  | inr (h, e) ↦ decode_records-buffer_limit h d ps d.buffer (sym (decode_ready d ps h e) ∙ never)
  | inl e ↦ elim (le_or_lt (length d.buffer) global_len) [
    | inl short ↦ let done = sym (decode_short d ps e short) ∙ never in cc
    | inr long ↦
        elim (bind_failure (read_global d.max_packet d.buffer) _ buffer_limit
          (sym (decode_global d ps e long) ∙ never)) [
            | inl failed ↦ read_global-buffer_limit d.max_packet d.buffer failed
            | inr (h, _, ran) ↦ decode_records-buffer_limit h d ps (drop global_len d.buffer) ran
          ]
  ]
]

-- A push never fails with `BufferLimit`. The decoder is one between two calls, with a limit that
-- is a machine word.
pub push-buffer_limit :
    (d : PcapStreamDecoder) (bytes : Bytes)
    → Settled d
    → limit_of d ≤ usize_max
    → push d bytes ≢ err buffer_limit
push-buffer_limit d bytes s small never =
    decode_available-buffer_limit (accept d bytes) [] (sym (push_lem d bytes s small) ∙ never)
