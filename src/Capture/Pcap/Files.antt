-- ===== src/Capture/Pcap/Files.antt =====
-- Capture/Pcap/Decoder.antt: a capture that a writer makes, in each of the formats, is read back.
use trapd_sensor.Prelude.{
  drop_behind, ◌==◌, ◌≡◌, refl, sym, subst, ap, ◌∙◌, arith, ℕ, ◌≤◌, ◌<◌, zero, suc, some, List, [],
  ◌∷◌, ◌++◌, Bytes, length, length-append, append-nil, append_snoc, lt→ltb, le→ltb, drop, take,
  take-append_length, All, drop-append_length, drop-drop, false,
}
use trapd_sensor.Capture.Pcap.{
  next_record, wait, packet, Header, PcapPacket, ok, checked_header, read_global, global_len, field,
  detect_format, read_int, record_header_len, captured_len, total_len,
}
use trapd_sensor.Capture.Pcap.Decoder.{
  PcapStreamDecoder, new_decoder, record_loop, decode_records, accept, limit_of, push, usize_max,
  finish,
}
use trapd_sensor.Capture.Pcap.Prefixes.{header_len_ge, packet_shorter, next_record-whole}
use trapd_sensor.Capture.Pcap.Settled.{decode_global, new_decoder-Settled}
use trapd_sensor.Capture.Pcap.Loops.{loop_packet, loop_wait}
use trapd_sensor.Capture.Pcap.Chunks.{joined, push_all, push_all_ok}
use trapd_sensor.Capture.Pcap.Pushing.{push_lem}
use trapd_sensor.Capture.Pcap.Writer.{
  write_int, write_record, write_records, Storable, IsU32, read_four, length-four,
  length-write_meta, drop_header, read_meta, write_meta, drop_int, read_first, length-write_int,
}

-- A packet that is written is the next record, and what follows it is left.
pub next_record-write_record :
    (h : Header) (m : ℕ) (p : PcapPacket) (rest : Bytes)
    → Storable h m p
    → next_record h m (write_record h.format.endian p rest) ≡ packet p rest
next_record-write_record h m p rest s =
    let e = h.format.endian in
    let v = h.format.variant in
    let a = p.timestamp_seconds in
    let b = p.timestamp_fraction in
    let c = length p.captured in
    let d = p.original_len in
    let tail = p.captured ++ rest in
    let all = write_record e p rest in
    let (seconds, (fraction, (cap, original))) =
      read_four e a b c d (write_meta e p.extended_meta tail) s.seconds_fit s.fraction_fits
        s.captured_fits s.original_fits in
    let meta = read_meta e a b c d tail v p.extended_meta s.meta_fits in
    let body = drop_header e a b c d tail v p.extended_meta s.meta_fits in
    let size = length-four e a b c d (write_meta e p.extended_meta tail) in
    let header_size = length-write_meta e a b c d tail v p.extended_meta s.meta_fits in
    let tail_size = length-append p.captured rest in
    let step =
      next_record-whole h m all (omega arith) (rw (cap, original) s.accepted)
        (rw cap (omega arith)) in
    let payload : field all (record_header_len v) (captured_len h all) ≡ p.captured =
      rw (cap, body) (take-append_length p.captured rest) in
    let left : drop (total_len h all) all ≡ rest =
      rw (cap, drop-drop (record_header_len v) (length p.captured) all, body)
        (drop-append_length p.captured rest) in
    step ∙ (λ i.
      packet
        (record {
          timestamp_seconds = seconds i;
          timestamp_fraction = fraction i;
          original_len = original i;
          extended_meta = meta i;
          captured = payload i;
        })
        (left i))

next_record_empty : (h : Header) (m : ℕ) → next_record h m [] ≡ wait
unfolding next_record
next_record_empty h m =
    let wide = header_len_ge h.format.variant in
    rw (lt→ltb 0 (record_header_len h.format.variant) (omega arith)) refl

module _ (h : Header) (m : ℕ) where
  -- The loop reads back what was written, and stops at the end.
  pub record_loop-write_records :
      (f : ℕ) (before ps : List PcapPacket)
      → length (write_records h.format.endian ps) < f
      → All (Storable h m) ps
      → record_loop f h m before (write_records h.format.endian ps) ≡ ok (before ++ ps, [])
  record_loop-write_records zero before ps enough s = absurd (omega arith)
  record_loop-write_records (suc f) before [] enough s =
      loop_wait h m f before [] (next_record_empty h m) ∙ (λ i. ok (sym (append-nil before) i, []))
  record_loop-write_records (suc f) before (p ∷ ps) enough (s, more) =
      let rest = write_records h.format.endian ps in
      let first = next_record-write_record h m p rest s in
      let shorter = packet_shorter h m (write_record h.format.endian p rest) p rest first in
      rw
        (
          loop_packet h m f before (write_record h.format.endian p rest) p rest first,
          append_snoc before ps p,
        )
        (record_loop-write_records f (before ++ (p ∷ [])) ps (omega arith) more)

abbrev pub write_global : Header → Bytes → Bytes → Bytes → Bytes
write_global h magic reserved rest =
    let e = h.format.endian in
    magic
    ++ (write_int e 2 2
        ++ (reserved ++ (write_int e 4 h.snaplen ++ (write_int e 4 h.link_type ++ rest))))

-- A global header that a decoder with the limit `m` takes: its format is one that the magic number
-- tells, and the ten bytes behind the major version are not read.
pub record Declared (h : Header) (m : ℕ) (magic reserved : Bytes) : Type 0 where
  pub magic_len : length magic ≡ 4
  pub reserved_len : length reserved ≡ 10
  pub format_told : detect_format magic ≡ some h.format
  pub snaplen_positive : 1 ≤ h.snaplen
  pub snaplen_allowed : h.snaplen ≤ m
  pub snaplen_fits : IsU32 h.snaplen
  pub link_type_fits : IsU32 h.link_type

checked_header_ok :
    (h : Header) (m : ℕ) (version snaplen link : Bytes)
    → read_int h.format.endian version ≡ 2
    → read_int h.format.endian snaplen ≡ h.snaplen
    → read_int h.format.endian link ≡ h.link_type
    → 1 ≤ h.snaplen
    → h.snaplen ≤ m
    → checked_header m (some h.format) version snaplen link ≡ ok h
unfolding checked_header
checked_header_ok h m version snaplen link two same_snaplen same_link positive allowed =
    let nonzero : (h.snaplen == 0) ≡ false = ground arith in
    rw (two, same_snaplen, same_link, nonzero, le→ltb m h.snaplen allowed) refl

pub read_global-write_global :
    (h : Header) (m : ℕ) (magic reserved rest : Bytes)
    → Declared h m magic reserved
    → (read_global m (write_global h magic reserved rest) ≡ ok h)
      × (drop global_len (write_global h magic reserved rest) ≡ rest)
unfolding read_global
read_global-write_global h m magic reserved rest d =
    let e = h.format.endian in
    let snaplen_on = write_int e 4 h.snaplen ++ (write_int e 4 h.link_type ++ rest) in
    let version_on = write_int e 2 2 ++ (reserved ++ snaplen_on) in
    let all = magic ++ version_on in
    let front : take 4 all ≡ magic =
      subst (λ n. take n all ≡ magic) d.magic_len (take-append_length magic version_on) in
    let at_version : drop 4 all ≡ version_on =
      drop_behind magic version_on 0 4 (rw d.magic_len refl) in
    let at_snaplen : drop 16 all ≡ snaplen_on =
      drop_behind magic version_on 12 16 (rw d.magic_len refl)
      ∙ (drop_int e 2 2 10 12 (reserved ++ snaplen_on) refl
          ∙ drop_behind reserved snaplen_on 0 10 (rw d.reserved_len refl)) in
    let at_link : drop 20 all ≡ write_int e 4 h.link_type ++ rest =
      drop-drop 16 4 all ∙ (ap (λ b. drop 4 b) at_snaplen ∙ drop_int e 4 h.snaplen 0 4 _ refl) in
    let end : drop 24 all ≡ rest =
      drop-drop 20 4 all ∙ (ap (λ b. drop 4 b) at_link ∙ drop_int e 4 h.link_type 0 4 rest refl) in
    (
      rw (front, d.format_told, at_version, at_snaplen, at_link)
          (checked_header_ok h m _ _ _ (read_first e 2 2 _ (omega arith))
            (read_first e 4 h.snaplen _ d.snaplen_fits)
            (read_first e 4 h.link_type rest d.link_type_fits) d.snaplen_positive
            d.snaplen_allowed),
      end,
    )

length-write_global :
    (h : Header) (m : ℕ) (magic reserved rest : Bytes)
    → Declared h m magic reserved
    → global_len ≤ length (write_global h magic reserved rest)
length-write_global h m magic reserved rest d =
    let e = h.format.endian in
    rw
      (
        length-append magic,
        length-append (write_int e 2 2),
        length-append reserved,
        length-append (write_int e 4 h.snaplen),
        length-append (write_int e 4 h.link_type),
      )
      (omega (
        arith,
        d.magic_len,
        d.reserved_len,
        length-write_int e 2 2,
        length-write_int e 4 h.snaplen,
        length-write_int e 4 h.link_type,
      ))

abbrev pub write_capture : Header → Bytes → Bytes → List PcapPacket → Bytes
write_capture h magic reserved ps = write_global h magic reserved (write_records h.format.endian ps)

-- A capture that a writer makes, in any of the formats and with any packets that the limits allow,
-- cut into pieces in any way, gives its packets in order when the pieces are pushed one after
-- another into a new decoder, whose buffer limit is a machine word, and the decoder then finishes.
pub push_all-write_capture :
    (h : Header) (m : ℕ) (magic reserved : Bytes) (ps : List PcapPacket) (chunks : List Bytes)
    → limit_of (new_decoder m) ≤ usize_max
    → Declared h m magic reserved
    → All (Storable h m) ps
    → joined chunks ≡ write_capture h magic reserved ps
    → (d : PcapStreamDecoder) × ((push_all (new_decoder m) chunks
          ≡ record { delivered = ps; ended = ok d })
        × (finish d ≡ ok tt))
unfolding decode_records finish
push_all-write_capture h m magic reserved ps chunks small declared storable cut =
    let records = write_records h.format.endian ps in
    let capture = write_capture h magic reserved ps in
    let start = new_decoder m in
    let done : PcapStreamDecoder = record { buffer = []; header = some h; max_packet = m } in
    let (read, left) = read_global-write_global h m magic reserved records declared in
    let long : global_len ≤ length capture =
      length-write_global h m magic reserved records declared in
    let loop = record_loop-write_records h m (suc (length records)) [] ps (omega arith) storable in
    let at_once : push start capture ≡ ok (ps, done) =
      push_lem start capture (new_decoder-Settled m) small
      ∙ (decode_global (accept start capture) [] refl long ∙ rw (read, left, loop) refl) in
    (
      done,
      (
        push_all_ok start chunks (ps, done) (new_decoder-Settled m) small
            (ap (λ b. push start b) cut ∙ at_once),
        refl,
      ),
    )
