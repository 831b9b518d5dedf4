-- ===== src/Capture/Pcap.antt =====
-- crates/sensor-capture/src/fritzbox/pcap.rs: the formats, and one record of a capture.
pub mod Decoder
pub mod Prefixes
pub mod Loops
pub mod Settled
pub mod Pushing
pub mod Chunks
pub mod Limits
pub mod Writer
pub mod Files
mod Tests
use trapd_sensor.Prelude.{
  bytes_eq, ◌≡◌, refl, ◌⊎◌, inl, inr, ℕ, zero, suc, ◌+◌, ◌-◌, ◌*◌, min, Option, none, some, List,
  [], ◌∷◌, Bytes, Bool, true, false, not, ◌&&◌, ◌||◌, take, drop, length, from_le, from_be, ltb,
  leb, ◌==◌, if◌then◌else◌,
}

abbrev pub global_len : ℕ
global_len = 24

abbrev pub record_len : ℕ
record_len = 16

abbrev pub record_extended_len : ℕ
record_extended_len = 24

abbrev pub linktype_ethernet : ℕ
linktype_ethernet = 1

abbrev pub extended_ethernet_snaplen_slack : ℕ
extended_ethernet_snaplen_slack = 14

pub data Endianness : Type 0 where
  little : Endianness
  big : Endianness

pub data TimestampPrecision : Type 0 where
  microseconds : TimestampPrecision
  nanoseconds : TimestampPrecision

pub data PcapVariant : Type 0 where
  standard : PcapVariant
  extended : PcapVariant

abbrev pub record_header_len : PcapVariant → ℕ
record_header_len standard = record_len
record_header_len extended = record_extended_len

pub record ExtendedRecordMeta : Type 0 where
  pub ifindex : ℕ
  pub protocol : ℕ
  pub pkt_type : ℕ
  pub pad : ℕ

pub record PcapPacket : Type 0 where
  pub timestamp_seconds : ℕ
  pub timestamp_fraction : ℕ
  pub original_len : ℕ
  pub extended_meta : Option ExtendedRecordMeta
  pub captured : Bytes

pub data PcapError : Type 0 where
  unsupported_magic : PcapError
  unsupported_version : PcapError
  snapshot_too_large : PcapError
  empty_record : PcapError
  record_exceeds_snaplen : PcapError
  record_exceeds_configured_limit : PcapError
  captured_longer_than_original : PcapError
  truncated_global_header : PcapError
  truncated_record : PcapError
  buffer_limit : PcapError

pub data Result {ℓ} (A : Type ℓ) : Type ℓ where
  ok : A → Result A
  err : PcapError → Result A

infixl 5 ◌>>=◌
abbrev pub ◌>>=◌ {ℓ κ} : {A : Type ℓ} {B : Type κ} → Result A → (A → Result B) → Result B
ok a >>= f = f a
err e >>= f = err e

pub bind_inversion {ℓ κ} :
    {A : Type ℓ} {B : Type κ} (r : Result A) (f : A → Result B) (b : B)
    → (r >>= f) ≡ ok b
    → (a : A) × (r ≡ ok a) × (f a ≡ ok b)
bind_inversion (ok a) f b h = (a, refl, h)
bind_inversion (err e) f b h = absurd cc

pub bind_failure {ℓ κ} :
    {A : Type ℓ} {B : Type κ} (r : Result A) (f : A → Result B) (e : PcapError)
    → (r >>= f) ≡ err e
    → (r ≡ err e) ⊎ ((a : A) × (r ≡ ok a) × (f a ≡ err e))
bind_failure (ok a) f e h = inr (a, refl, h)
bind_failure (err x) f e h = let same : x ≡ e = cc in inl (λ i. err (same i))

pub Result-cases {ℓ} :
    {A : Type ℓ} (r : Result A) → ((e : PcapError) × (r ≡ err e)) ⊎ ((a : A) × (r ≡ ok a))
Result-cases (ok a) = inr (a, refl)
Result-cases (err e) = inl (e, refl)

pub record Format : Type 0 where
  pub endian : Endianness
  pub variant : PcapVariant
  pub precision : TimestampPrecision

unfoldable pub detect_format : Bytes → Option Format
detect_format magic =
    if bytes_eq magic (0xd4 ∷ 0xc3 ∷ 0xb2 ∷ 0xa1 ∷ [])
    then some (record { endian = little; variant = standard; precision = microseconds })
    else if bytes_eq magic (0xa1 ∷ 0xb2 ∷ 0xc3 ∷ 0xd4 ∷ [])
    then some (record { endian = big; variant = standard; precision = microseconds })
    else if bytes_eq magic (0x4d ∷ 0x3c ∷ 0xb2 ∷ 0xa1 ∷ [])
    then some (record { endian = little; variant = standard; precision = nanoseconds })
    else if bytes_eq magic (0xa1 ∷ 0xb2 ∷ 0x3c ∷ 0x4d ∷ [])
    then some (record { endian = big; variant = standard; precision = nanoseconds })
    else if bytes_eq magic (0x34 ∷ 0xcd ∷ 0xb2 ∷ 0xa1 ∷ [])
    then some (record { endian = little; variant = extended; precision = microseconds })
    else if bytes_eq magic (0xa1 ∷ 0xb2 ∷ 0xcd ∷ 0x34 ∷ [])
    then some (record { endian = big; variant = extended; precision = microseconds })
    else none

-- `read16` and `read32` of a slice of two or four bytes.
unfoldable pub read_int : Endianness → Bytes → ℕ
read_int little b = from_le b
read_int big b = from_be b

-- `&self.buffer[from..from + n]`
abbrev pub field : Bytes → ℕ → ℕ → Bytes
field buffer from n = take n (drop from buffer)

-- What the global header tells: the decoder's fields that it sets together.
pub record Header : Type 0 where
  pub format : Format
  pub snaplen : ℕ
  pub link_type : ℕ

abbrev pub extended_snaplen_slack : PcapVariant → ℕ → ℕ
extended_snaplen_slack extended link_type =
    if link_type == linktype_ethernet then extended_ethernet_snaplen_slack else 0
extended_snaplen_slack standard link_type = 0

abbrev pub u32_max : ℕ
u32_max = 4294967295

-- `snaplen.saturating_add(…)`
abbrev pub declared_limit : Header → ℕ
declared_limit h = min u32_max (h.snaplen + extended_snaplen_slack h.format.variant h.link_type)

-- The checks on the global header, with the fields that they read.
unfoldable pub checked_header : ℕ → Option Format → Bytes → Bytes → Bytes → Result Header
checked_header max_packet none version snaplen link = err unsupported_magic
checked_header max_packet (some format) version snaplen link =
    if not (read_int format.endian version == 2)
    then err unsupported_version
    else if (read_int format.endian snaplen == 0) || ltb max_packet (read_int format.endian snaplen)
    then err snapshot_too_large
    else ok (record {
      format = format;
      snaplen = read_int format.endian snaplen;
      link_type = read_int format.endian link;
    })

-- The global header at the front of the buffer, which holds all of it.
unfoldable pub read_global : ℕ → Bytes → Result Header
read_global max_packet buffer =
    checked_header max_packet (detect_format (field buffer 0 4)) (field buffer 4 2)
      (field buffer 16 4) (field buffer 20 4)

-- What the buffer holds at its front: too little for a record, a record that is refused, or a
-- packet, and what follows it.
pub data Next : Type 0 where
  wait : Next
  bad : PcapError → Next
  packet : PcapPacket → Bytes → Next

abbrev pub meta_of : PcapVariant → Endianness → Bytes → Option ExtendedRecordMeta
meta_of standard endian buffer = none
meta_of extended endian buffer = some (record {
  ifindex = read_int endian (field buffer 16 4);
  protocol = read_int endian (field buffer 20 2);
  pkt_type = from_le (field buffer 22 1);
  pad = from_le (field buffer 23 1);
})

abbrev pub captured_len : Header → Bytes → ℕ
captured_len h buffer = read_int h.format.endian (field buffer 8 4)

abbrev pub original_len_of : Header → Bytes → ℕ
original_len_of h buffer = read_int h.format.endian (field buffer 12 4)

-- The checks on a record's lengths, in the code's order.
unfoldable pub refusal : Header → ℕ → ℕ → ℕ → Option PcapError
refusal h max_packet cap original =
    if cap == 0
    then some empty_record
    else if ltb max_packet cap
    then some record_exceeds_configured_limit
    else if ltb (declared_limit h) cap
    then some record_exceeds_snaplen
    else if ltb original cap
    then some captured_longer_than_original
    else none

-- The record at the front of a buffer that holds all of it.
abbrev pub record_at : Header → Bytes → PcapPacket
record_at h buffer = record {
  timestamp_seconds = read_int h.format.endian (field buffer 0 4);
  timestamp_fraction = read_int h.format.endian (field buffer 4 4);
  original_len = original_len_of h buffer;
  extended_meta = meta_of h.format.variant h.format.endian buffer;
  captured = field buffer (record_header_len h.format.variant) (captured_len h buffer);
}

abbrev pub total_len : Header → Bytes → ℕ
total_len h buffer = record_header_len h.format.variant + captured_len h buffer

-- One round of the loop in `decode_available`.
unfoldable pub next_record : Header → ℕ → Bytes → Next
next_record h max_packet buffer =
    if ltb (length buffer) (record_header_len h.format.variant)
    then wait
    else elim (refusal h max_packet (captured_len h buffer) (original_len_of h buffer)) [
      | some e ↦ bad e
      | none ↦
          if ltb (length buffer) (total_len h buffer)
          then wait
          else packet (record_at h buffer) (drop (total_len h buffer) buffer)
    ]
