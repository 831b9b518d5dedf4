-- ===== src/Capture/Pcap/Tests.antt =====
-- Runs of the decoder on a small capture, which meet the hypotheses of its theorems.
use trapd_sensor.Prelude.{
  ◌≡◌, ◌≢◌, refl, arith, ◌≤◌, ◌<◌, ◌+◌, none, some, List, [], ◌∷◌, Bytes, take, drop,
}
use trapd_sensor.Capture.Pcap.{
  Header, PcapPacket, little, standard, microseconds, ok, err, refusal, detect_format, buffer_limit,
  read_global, read_int, checked_header, next_record,
}
use trapd_sensor.Capture.Pcap.Decoder.{
  PcapStreamDecoder, new_decoder, push, finish, record_loop, decode_records, decode_available,
  push_loop, buffered_len,
}
use trapd_sensor.Capture.Pcap.Settled.{new_decoder-Settled}
use trapd_sensor.Capture.Pcap.Chunks.{Agrees, joined, push_all, push_all-push}
use trapd_sensor.Capture.Pcap.Limits.{push-buffered_len, push-buffer_limit}
use trapd_sensor.Capture.Pcap.Writer.{Storable}
use trapd_sensor.Capture.Pcap.Files.{Declared, write_capture, push_all-write_capture}

abbrev example_header : Header
example_header = record {
  format = record { endian = little; variant = standard; precision = microseconds };
  snaplen = 64;
  link_type = 1;
}

abbrev example_magic : Bytes
example_magic = 0xd4 ∷ 0xc3 ∷ 0xb2 ∷ 0xa1 ∷ []

abbrev example_reserved : Bytes
example_reserved = 4 ∷ 0 ∷ 0 ∷ 0 ∷ 0 ∷ 0 ∷ 0 ∷ 0 ∷ 0 ∷ 0 ∷ []

abbrev example_packet : PcapPacket
example_packet = record {
  timestamp_seconds = 7;
  timestamp_fraction = 300;
  original_len = 3;
  extended_meta = none;
  captured = 1 ∷ 2 ∷ 3 ∷ [];
}

abbrev example_packets : List PcapPacket
example_packets = example_packet ∷ example_packet ∷ []

abbrev example_capture : Bytes
example_capture = write_capture example_header example_magic example_reserved example_packets

-- The capture in three pieces.
abbrev example_chunks : List Bytes
example_chunks =
    take 5 example_capture ∷ take 30 (drop 5 example_capture) ∷ drop 35 example_capture ∷ []

example-Declared : Declared example_header 64 example_magic example_reserved
unfolding detect_format
example-Declared = record {
  magic_len = refl;
  reserved_len = refl;
  format_told = refl;
  snaplen_positive = omega arith;
  snaplen_allowed = omega arith;
  snaplen_fits = omega arith;
  link_type_fits = omega arith;
}

example_packet-Storable : Storable example_header 64 example_packet
unfolding refusal
example_packet-Storable = record {
  seconds_fit = omega arith;
  fraction_fits = omega arith;
  original_fits = omega arith;
  captured_fits = omega arith;
  meta_fits = tt;
  accepted = refl;
}

example_limit : 64 + 24 ≤ 18446744073709551615
example_limit = omega arith

push_all-write_capture_example :
    (d : PcapStreamDecoder) × ((push_all (new_decoder 64) example_chunks
        ≡ record { delivered = example_packets; ended = ok d })
      × (finish d ≡ ok tt))
push_all-write_capture_example =
    push_all-write_capture example_header 64 example_magic example_reserved example_packets
      example_chunks example_limit example-Declared
      (example_packet-Storable, (example_packet-Storable, tt)) refl

push_all-push_example :
    Agrees
      (new_decoder 64)
      example_chunks
      (push (new_decoder 64) (joined example_chunks))
      (push_all (new_decoder 64) example_chunks)
push_all-push_example =
    push_all-push (new_decoder 64) example_chunks (new_decoder-Settled 64) example_limit

-- What the decoder holds after the first piece and half of the second.
abbrev partial : Bytes
partial = take 28 example_capture

abbrev after_partial : PcapStreamDecoder
after_partial = record { buffer = drop 24 partial; header = some example_header; max_packet = 64 }

partial-push : push (new_decoder 64) partial ≡ ok ([], after_partial)
unfolding push push_loop decode_available decode_records record_loop read_global checked_header
    detect_format read_int next_record
partial-push = refl

push-buffered_len_example :
    (buffered_len after_partial < 64 + 24)
    × (after_partial.max_packet ≡ (new_decoder 64).max_packet)
push-buffered_len_example =
    push-buffered_len (new_decoder 64) partial ([], after_partial) (new_decoder-Settled 64)
      example_limit partial-push

push-buffer_limit_example : push (new_decoder 64) example_capture ≢ err buffer_limit
push-buffer_limit_example =
    push-buffer_limit (new_decoder 64) example_capture (new_decoder-Settled 64) example_limit
