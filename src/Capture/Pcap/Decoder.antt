-- ===== src/Capture/Pcap/Decoder.antt =====
-- `PcapStreamDecoder`: what has arrived, and the loops that take packets off its front.
use trapd_sensor.Prelude.{
  ℕ, zero, suc, ◌+◌, ◌-◌, min, Option, none, some, List, [], ◌∷◌, ◌++◌, Bytes, Bool, true, false,
  take, drop, length, ltb, leb, if◌then◌else◌,
}
use trapd_sensor.Capture.Pcap.{
  truncated_global_header, truncated_record, buffer_limit, Result, ok, err, ◌>>=◌, Endianness,
  PcapVariant, TimestampPrecision, PcapPacket, Header, wait, bad, packet, next_record, read_global,
  global_len,
}

pub record PcapStreamDecoder : Type 0 where
  pub buffer : Bytes
  pub header : Option Header
  pub max_packet : ℕ

abbrev pub new_decoder : ℕ → PcapStreamDecoder
new_decoder max_packet = record { buffer = []; header = none; max_packet = max_packet }

-- The loop of `decode_available`. A record takes sixteen bytes and more, so the buffer's length is
-- enough fuel.
unfoldable pub record_loop :
    ℕ → Header → ℕ → List PcapPacket → Bytes → Result (List PcapPacket × Bytes)
record_loop zero h max_packet packets buffer = ok (packets, buffer)
record_loop (suc fuel) h max_packet packets buffer = elim (next_record h max_packet buffer) [
  | wait ↦ ok (packets, buffer)
  | bad e ↦ err e
  | packet p rest ↦ record_loop fuel h max_packet (packets ++ (p ∷ [])) rest
]

unfoldable pub decode_records :
    Header
    → PcapStreamDecoder
    → List PcapPacket
    → Bytes
    → Result (List PcapPacket × PcapStreamDecoder)
decode_records h d packets buffer =
    record_loop (suc (length buffer)) h d.max_packet packets buffer >>= λ out.
    ok (out.0, record d { buffer = out.1; header = some h })

-- The packets found so far, and the decoder.
unfoldable pub decode_available :
    PcapStreamDecoder → List PcapPacket → Result (List PcapPacket × PcapStreamDecoder)
decode_available d packets = elim d.header [
  | some h ↦ decode_records h d packets d.buffer
  | none ↦
      if ltb (length d.buffer) global_len
      then ok (packets, d)
      else (read_global d.max_packet d.buffer >>= λ h.
          decode_records h d packets (drop global_len d.buffer))
]

abbrev pub accept : PcapStreamDecoder → Bytes → PcapStreamDecoder
accept d bytes = record d { buffer = d.buffer ++ bytes }

abbrev pub is_empty : Bytes → Bool
is_empty [] = true
is_empty (b ∷ bs) = false

-- `while !remaining.is_empty()`. Each round takes a byte at least.
unfoldable pub push_loop :
    ℕ
    → ℕ
    → PcapStreamDecoder
    → List PcapPacket
    → Bytes
    → Result (List PcapPacket × PcapStreamDecoder)
push_loop zero limit d packets remaining = ok (packets, d)
push_loop (suc fuel) limit d packets remaining =
    let accepted = min (limit - length d.buffer) (length remaining) in
    let round =
      (decode_available (accept d (take accepted remaining)) packets >>= λ out.
      push_loop fuel limit out.1 out.0 (drop accepted remaining)) in
    if is_empty remaining
    then ok (packets, d)
    else if leb limit (length d.buffer)
    then err buffer_limit
    else round

abbrev pub usize_max : ℕ
usize_max = 18446744073709551615

abbrev pub limit_of : PcapStreamDecoder → ℕ
limit_of d = d.max_packet + 24

unfoldable pub push : PcapStreamDecoder → Bytes → Result (List PcapPacket × PcapStreamDecoder)
push d bytes =
    if ltb usize_max (limit_of d)
    then err buffer_limit
    else push_loop (length bytes) (limit_of d) d [] bytes

unfoldable pub finish : PcapStreamDecoder → Result (Unit {0})
finish d = elim d.header [
  | none ↦ err truncated_global_header
  | some h ↦ if is_empty d.buffer then ok tt else err truncated_record
]

abbrev pub buffered_len : PcapStreamDecoder → ℕ
buffered_len d = length d.buffer

abbrev pub snaplen : PcapStreamDecoder → Option ℕ
snaplen d = elim d.header [ none ↦ none | some h ↦ some h.snaplen ]

abbrev pub link_type : PcapStreamDecoder → Option ℕ
link_type d = elim d.header [ none ↦ none | some h ↦ some h.link_type ]

abbrev pub endian : PcapStreamDecoder → Option Endianness
endian d = elim d.header [ none ↦ none | some h ↦ some h.format.endian ]

abbrev pub variant : PcapStreamDecoder → Option PcapVariant
variant d = elim d.header [ none ↦ none | some h ↦ some h.format.variant ]

abbrev pub timestamp_precision : PcapStreamDecoder → Option TimestampPrecision
timestamp_precision d = elim d.header [ none ↦ none | some h ↦ some h.format.precision ]
