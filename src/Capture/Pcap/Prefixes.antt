-- ===== src/Capture/Pcap/Prefixes.antt =====
-- Capture/Pcap.antt: what a longer buffer changes.
use trapd_sensor.Prelude.{
  ◌≡◌, refl, sym, ap, arith, Bool-cases, inl, inr, ltb→lt, ltb, ℕ, ◌≤◌, ◌<◌, ◌+◌, [], ◌++◌, Bytes,
  drop, length, none, some, Option-cases, le→ltb, ltb→ge, take-append_short, length-append,
  length-drop, drop-append_short,
}
use trapd_sensor.Capture.Pcap.{
  field, next_record, Next, wait, bad, packet, Header, PcapPacket, PcapError, meta_of, standard,
  extended, PcapVariant, Endianness, record_header_len, captured_len, original_len_of, total_len,
  record_at, refusal, read_int,
}

pub field-append :
    (b ys : Bytes) (from n : ℕ) → from + n ≤ length b → field (b ++ ys) from n ≡ field b from n
field-append b ys from n h =
    let e : n ≤ length (drop from b) = rw (length-drop from b) (omega arith) in
    rw (drop-append_short from b ys (omega arith)) (take-append_short n (drop from b) ys e)

pub meta_of-append :
    (v : PcapVariant) (endian : Endianness) (b ys : Bytes)
    → record_header_len v ≤ length b
    → meta_of v endian (b ++ ys) ≡ meta_of v endian b
meta_of-append standard endian b ys h = refl
meta_of-append extended endian b ys h = rw (
  field-append b ys 16 4 (omega arith),
  field-append b ys 20 2 (omega arith),
  field-append b ys 22 1 (omega arith),
  field-append b ys 23 1 (omega arith),
)

pub header_len_ge : (v : PcapVariant) → 16 ≤ record_header_len v
header_len_ge standard = omega arith
header_len_ge extended = omega arith

-- The front of a longer buffer reads as before.
module _ (h : Header) (b ys : Bytes) (long : record_header_len h.format.variant ≤ length b) where
  pub captured_len-append : captured_len h (b ++ ys) ≡ captured_len h b
  captured_len-append =
      ap (read_int h.format.endian)
        (field-append b ys 8 4 (omega (arith, header_len_ge h.format.variant)))

  pub original_len-append : original_len_of h (b ++ ys) ≡ original_len_of h b
  original_len-append =
      ap (read_int h.format.endian)
        (field-append b ys 12 4 (omega (arith, header_len_ge h.format.variant)))

  pub total_len-append : total_len h (b ++ ys) ≡ total_len h b
  total_len-append = ap (◌+◌ (record_header_len h.format.variant)) captured_len-append

  pub record_at-append : total_len h b ≤ length b → record_at h (b ++ ys) ≡ record_at h b
  record_at-append whole = rw (
    field-append b ys 0 4 (omega (arith, header_len_ge h.format.variant)),
    field-append b ys 4 4 (omega (arith, header_len_ge h.format.variant)),
    original_len-append,
    meta_of-append h.format.variant h.format.endian b ys long,
    captured_len-append,
    field-append b ys (record_header_len h.format.variant) (captured_len h b) whole,
  )

-- What the front of a buffer is, told by its tests.
pub data Front (h : Header) (m : ℕ) (b : Bytes) : Next → Type 0 where
  short_header : length b < record_header_len h.format.variant → Front h m b wait
  refused :
      (e : PcapError)
      → record_header_len h.format.variant ≤ length b
      → refusal h m (captured_len h b) (original_len_of h b) ≡ some e
      → Front h m b (bad e)
  short_record :
      record_header_len h.format.variant ≤ length b
      → refusal h m (captured_len h b) (original_len_of h b) ≡ none
      → length b < total_len h b
      → Front h m b wait
  whole :
      record_header_len h.format.variant ≤ length b
      → refusal h m (captured_len h b) (original_len_of h b) ≡ none
      → total_len h b ≤ length b
      → Front h m b (packet (record_at h b) (drop (total_len h b) b))

pub next_record-Front : (h : Header) (m : ℕ) (b : Bytes) → Front h m b (next_record h m b)
unfolding next_record
next_record-Front h m b = elim (Bool-cases (ltb (length b) (record_header_len h.format.variant))) [
  | inl short ↦ rw short (short_header (ltb→lt _ _ short))
  | inr long ↦
      let room : record_header_len h.format.variant ≤ length b = ltb→ge _ _ long in
      rw long (elim (Option-cases (refusal h m (captured_len h b) (original_len_of h b))) [
        | inr (e, found) ↦ rw found (refused e room found)
        | inl fine ↦ rw fine (elim (Bool-cases (ltb (length b) (total_len h b))) [
          | inl short ↦ rw short (short_record room fine (ltb→lt _ _ short))
          | inr all ↦ rw all (whole room fine (ltb→ge _ _ all))
        ])
      ])
]

pub next_record-whole :
    (h : Header) (m : ℕ) (b : Bytes)
    → record_header_len h.format.variant ≤ length b
    → refusal h m (captured_len h b) (original_len_of h b) ≡ none
    → total_len h b ≤ length b
    → next_record h m b ≡ packet (record_at h b) (drop (total_len h b) b)
unfolding next_record
next_record-whole h m b long fine all = rw (le→ltb _ _ long, fine, le→ltb _ _ all)

pub next_record-refused :
    (h : Header) (m : ℕ) (b : Bytes) (e : PcapError)
    → record_header_len h.format.variant ≤ length b
    → refusal h m (captured_len h b) (original_len_of h b) ≡ some e
    → next_record h m b ≡ bad e
unfolding next_record
next_record-refused h m b e long found = rw (le→ltb _ _ long, found)

append_room : (b ys : Bytes) (n : ℕ) → n ≤ length b → n ≤ length (b ++ ys)
append_room b ys n h = rw (length-append b ys) (omega arith)

-- What follows a packet is what followed it and what has arrived since.
packet_again :
    (h : Header) (m : ℕ) (b ys : Bytes) (n : Next)
    → Front h m b n
    → (p : PcapPacket) (rest : Bytes) → n ≡ packet p rest
    → (next_record h m (b ++ ys) ≡ packet p (rest ++ ys)) × (length rest + 16 ≤ length b)
packet_again h m b ys _ (short_header _) p rest e = absurd cc
packet_again h m b ys _ (refused _ _ _) p rest e = absurd cc
packet_again h m b ys _ (short_record _ _ _) p rest e = absurd cc
packet_again h m b ys _ (whole long fine all) p rest e =
    let fits : length (drop (total_len h b) b) + 16 ≤ length b =
      rw (length-drop (total_len h b) b) (omega (arith, header_len_ge h.format.variant)) in
    let tail : drop (total_len h b) b ≡ rest = cc in
    let cut = drop-append_short (total_len h b) b ys all in
    let same_len = total_len-append h b ys long in
    let same_record = record_at-append h b ys long all in
    let step =
      next_record-whole h m (b ++ ys) (append_room b ys _ long)
        (rw (captured_len-append h b ys long, original_len-append h b ys long) fine)
        (rw (total_len-append h b ys long) (append_room b ys _ all)) in
    (cc, rw (sym tail) fits)

-- A refused record stays refused.
refused_again :
    (h : Header) (m : ℕ) (b ys : Bytes) (n : Next)
    → Front h m b n
    → (e : PcapError) → n ≡ bad e
    → next_record h m (b ++ ys) ≡ bad e
refused_again h m b ys _ (short_header _) e same = absurd cc
refused_again h m b ys _ (whole _ _ _) e same = absurd cc
refused_again h m b ys _ (short_record _ _ _) e same = absurd cc
refused_again h m b ys _ (refused e' long found) e same =
    next_record-refused h m (b ++ ys) e (append_room b ys _ long)
      (rw (captured_len-append h b ys long, original_len-append h b ys long) cc)

module _ (h : Header) (m : ℕ) (b : Bytes) where
  pub packet-append :
      (ys : Bytes) (p : PcapPacket) (rest : Bytes)
      → next_record h m b ≡ packet p rest
      → next_record h m (b ++ ys) ≡ packet p (rest ++ ys)
  packet-append ys p rest e = (packet_again h m b ys _ (next_record-Front h m b) p rest e).0

  pub packet_shorter :
      (p : PcapPacket) (rest : Bytes)
      → next_record h m b ≡ packet p rest
      → length rest + 16 ≤ length b
  packet_shorter p rest e = (packet_again h m b [] _ (next_record-Front h m b) p rest e).1

  pub bad-append :
      (ys : Bytes) (e : PcapError) → next_record h m b ≡ bad e → next_record h m (b ++ ys) ≡ bad e
  bad-append ys e found = refused_again h m b ys _ (next_record-Front h m b) e found
