-- ===== src/Capture/Pcap/Writer.antt =====
-- Capture/Pcap.antt: a writer of captures in every format, and what the reads find in its records.
use trapd_sensor.Prelude.{
  drop_behind, ◌≡◌, refl, subst, ap, ◌∙◌, arith, ℕ, ◌<◌, ◌+◌, ◌^◌, Option, none, some, List, [],
  ◌∷◌, ◌++◌, Bytes, length, length-append, drop, take, take-append_length, from_le, from_le-to_le,
  from_be-to_be, to_le, to_be, length-to_le, length-to_be,
}
use trapd_sensor.Capture.Pcap.{
  Header, PcapPacket, ExtendedRecordMeta, field, Endianness, little, big, PcapVariant, standard,
  extended, read_int, refusal, record_header_len, meta_of,
}

abbrev pub write_int : Endianness → ℕ → ℕ → Bytes
write_int little n v = to_le n v
write_int big n v = to_be n v

pub length-write_int : (e : Endianness) (n v : ℕ) → length (write_int e n v) ≡ n
length-write_int little n v = length-to_le n v
length-write_int big n v = length-to_be n v

pub read_int-write_int : (e : Endianness) (n v : ℕ) → v < 256 ^ n → read_int e (write_int e n v) ≡ v
unfolding read_int
read_int-write_int little n v h = from_le-to_le n v h
read_int-write_int big n v h = from_be-to_be n v h

abbrev pub write_meta : Endianness → Option ExtendedRecordMeta → Bytes → Bytes
write_meta e none rest = rest
write_meta e (some x) rest =
    write_int e 4 x.ifindex ++ (write_int e 2 x.protocol ++ (x.pkt_type ∷ x.pad ∷ rest))

-- A record, with what follows it.
abbrev pub write_record : Endianness → PcapPacket → Bytes → Bytes
write_record e p rest =
    write_int e 4 p.timestamp_seconds
    ++ (write_int e 4 p.timestamp_fraction
        ++ (write_int e 4 (length p.captured)
            ++ (write_int e 4 p.original_len ++ write_meta e p.extended_meta (p.captured ++ rest))))

abbrev pub write_records : Endianness → List PcapPacket → Bytes
write_records e [] = []
write_records e (p ∷ ps) = write_record e p (write_records e ps)

abbrev pub IsU32 : ℕ → Type 0
IsU32 v = v < 4294967296

abbrev pub MetaFits : PcapVariant → Option ExtendedRecordMeta → Type 0
MetaFits standard none = Unit {0}
MetaFits standard (some x) = ⊥
MetaFits extended none = ⊥
MetaFits extended (some x) =
    IsU32 x.ifindex × ((x.protocol < 65536) × ((x.pkt_type < 256) × (x.pad < 256)))

-- A packet that a capture with this global header can hold, for a decoder with the limit `m`.
pub record Storable (h : Header) (m : ℕ) (p : PcapPacket) : Type 0 where
  pub seconds_fit : IsU32 p.timestamp_seconds
  pub fraction_fits : IsU32 p.timestamp_fraction
  pub original_fits : IsU32 p.original_len
  pub captured_fits : IsU32 (length p.captured)
  pub meta_fits : MetaFits h.format.variant p.extended_meta
  pub accepted : refusal h m (length p.captured) p.original_len ≡ none

pub drop_int :
    (e : Endianness) (n v k m : ℕ) (y : Bytes)
    → m ≡ n + k
    → drop m (write_int e n v ++ y) ≡ drop k y
drop_int e n v k m y h = drop_behind (write_int e n v) y k m (rw (length-write_int e n v) h)

pub take_int :
    (e : Endianness) (n v : ℕ) (y : Bytes) → take n (write_int e n v ++ y) ≡ write_int e n v
take_int e n v y =
    subst (λ a. take a (write_int e n v ++ y) ≡ write_int e n v) (length-write_int e n v)
      (take-append_length (write_int e n v) y)

pub read_first :
    (e : Endianness) (n v : ℕ) (y : Bytes)
    → v < 256 ^ n
    → read_int e (field (write_int e n v ++ y) 0 n) ≡ v
read_first e n v y small = ap (read_int e) (take_int e n v y) ∙ read_int-write_int e n v small

-- The four numbers in front of every record.
module _ (e : Endianness) (a b c d : ℕ) (rest : Bytes) where
  abbrev pub four : Bytes
  four = write_int e 4 a ++ (write_int e 4 b ++ (write_int e 4 c ++ (write_int e 4 d ++ rest)))

  pub drop-four : (k : ℕ) → drop (16 + k) four ≡ drop k rest
  drop-four k =
      drop_int e 4 a (12 + k) (16 + k) _ (omega arith)
      ∙ (drop_int e 4 b (8 + k) (12 + k) _ (omega arith)
          ∙ (drop_int e 4 c (4 + k) (8 + k) _ (omega arith)
              ∙ drop_int e 4 d k (4 + k) _ (omega arith)))

  pub length-four : length four ≡ 16 + length rest
  length-four =
      rw
        (
          length-append (write_int e 4 a),
          length-append (write_int e 4 b),
          length-append (write_int e 4 c),
          length-append (write_int e 4 d),
        )
        (omega (
          arith,
          length-write_int e 4 a,
          length-write_int e 4 b,
          length-write_int e 4 c,
          length-write_int e 4 d,
        ))

  pub read_four :
      IsU32 a
      → IsU32 b
      → IsU32 c
      → IsU32 d
      → (read_int e (field four 0 4) ≡ a)
        × ((read_int e (field four 4 4) ≡ b)
            × ((read_int e (field four 8 4) ≡ c) × (read_int e (field four 12 4) ≡ d)))
  read_four ha hb hc hd = (
    read_first e 4 a _ ha,
    (
      ap (λ x. read_int e (take 4 x)) (drop_int e 4 a 0 4 _ refl) ∙ read_first e 4 b _ hb,
      (
        ap (λ x. read_int e (take 4 x)) (drop_int e 4 a 4 8 _ refl ∙ drop_int e 4 b 0 4 _ refl)
            ∙ read_first e 4 c _ hc,
        ap (λ x. read_int e (take 4 x))
              (drop_int e 4 a 8 12 _ refl ∙ (drop_int e 4 b 4 8 _ refl ∙ drop_int e 4 c 0 4 _ refl))
            ∙ read_first e 4 d _ hd,
      ),
    ),
  )

-- The meta data of an extended record, behind the four numbers.
module _ (e : Endianness) (a b c d : ℕ) (tail : Bytes) where
  pub length-write_meta :
      (v : PcapVariant) (o : Option ExtendedRecordMeta)
      → MetaFits v o
      → 16 + length (write_meta e o tail) ≡ record_header_len v + length tail
  length-write_meta standard none fits = refl
  length-write_meta standard (some x) fits = absurd fits
  length-write_meta extended none fits = absurd fits
  length-write_meta extended (some x) fits =
      rw (length-append (write_int e 4 x.ifindex), length-append (write_int e 2 x.protocol))
        (omega (arith, length-write_int e 4 x.ifindex, length-write_int e 2 x.protocol))

  pub drop_header :
      (v : PcapVariant) (o : Option ExtendedRecordMeta)
      → MetaFits v o
      → drop (record_header_len v) (four e a b c d (write_meta e o tail)) ≡ tail
  drop_header standard none fits = drop-four e a b c d tail 0
  drop_header standard (some x) fits = absurd fits
  drop_header extended none fits = absurd fits
  drop_header extended (some x) fits =
      drop-four e a b c d _ 8
      ∙ (drop_int e 4 x.ifindex 4 8 _ refl ∙ drop_int e 2 x.protocol 2 4 _ refl)

  pub read_meta :
      (v : PcapVariant) (o : Option ExtendedRecordMeta)
      → MetaFits v o
      → meta_of v e (four e a b c d (write_meta e o tail)) ≡ o
  read_meta standard none fits = refl
  read_meta standard (some x) fits = absurd fits
  read_meta extended none fits = absurd fits
  read_meta extended (some x) (index_fits, (protocol_fits, _)) =
      let at = drop-four e a b c d (write_meta e (some x) tail) in
      let index = ap (λ y. read_int e (take 4 y)) (at 0) ∙ read_first e 4 x.ifindex _ index_fits in
      let protocol =
        ap (λ y. read_int e (take 2 y)) (at 4 ∙ drop_int e 4 x.ifindex 0 4 _ refl)
        ∙ read_first e 2 x.protocol _ protocol_fits in
      let kind : from_le (field (four e a b c d (write_meta e (some x) tail)) 22 1) ≡ x.pkt_type =
        ap (λ y. from_le (take 1 y))
          (at 6 ∙ (drop_int e 4 x.ifindex 2 6 _ refl ∙ drop_int e 2 x.protocol 0 2 _ refl))
        ∙ omega arith in
      let padding : from_le (field (four e a b c d (write_meta e (some x) tail)) 23 1) ≡ x.pad =
        ap (λ y. from_le (take 1 y))
          (at 7 ∙ (drop_int e 4 x.ifindex 3 7 _ refl ∙ drop_int e 2 x.protocol 1 3 _ refl))
        ∙ omega arith in
      λ i.
        some
          (record { ifindex = index i; protocol = protocol i; pkt_type = kind i; pad = padding i })
