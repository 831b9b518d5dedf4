-- ===== src/Lib.antt =====
-- TRAPD-Sensor: the event buffer of the sensor and its uploader, its packet and capture parsers, the
-- passive observer, the active scanner, and the configuration that both obey.
--
-- The sensor watches a network, turns packets into observations, and keeps these as events until
-- its backend has them. Modelled are the crate sensor-buffer, where events wait on the disk, with
-- the uploader of sensor-transport; the parsers of the crates sensor-passive, sensor-capture and
-- sensor-active, which read foreign bytes; the observer, which makes observations of what the
-- parsers read; and the scanner, which probes where the policy of sensor-core permits it.
--
-- Prelude and its children hold the lists, byte strings and Boolean tests that all parts share. Text
-- is what the sources use of the type `str`: a text is the list of its characters' codes.
-- Text.Writing writes numbers and texts, `normalize_mac` and `sanitize_banner` of
-- crates/sensor-core/src/model.rs among them; Text.Utf8 reads UTF-8.
--
-- Config is crates/sensor-core/src/config.rs: the sections that other parts read. Config.Cidr is its
-- networks, Config.Hosts what the hosts of a network are, Config.Policy its `EffectivePolicy`.
-- Config.Remote is crates/sensor-transport/src/remote_config.rs with the poll loop of
-- crates/sensor-daemon/src/runtime.rs; Config.Restraint is about what the backend cannot change.
--
-- Wal is `SegmentedLog`, crates/sensor-buffer/src/log.rs: the write-ahead log of one priority.
--   Wal.Record     a record: length, checksum, payload (`read_record`, and what `append` writes)
--   Wal.Segment    a segment file (`truncate_to_last_valid_record`, `scan_segment`,
--                  `count_records_in_range`)
--   Wal.Directory  the files as an association list by segment number, and the set of numbers
--   Wal.Log        the state, `append`, `flush`, `roll_segment`, the cursor file; Wal.Log.Reading
--                  is `read_batch`; Wal.Log.Consuming is `commit`, `drop_oldest_segment` and `open`
-- The abstract log is a list of segments, each with its confirmed and its pending records
-- (Wal.Log.Shape). `Inv` (Wal.Log.Invariant) ties the state to it: the files and what the writer
-- still holds back are the encoded records, the cursor lies between the confirmed and the pending
-- ones, and the counters agree. `Represents log view` says that such segments exist with `view` as
-- their pending payloads.
--
-- Queue is `EventQueue`, crates/sensor-buffer/src/queue.rs: three logs, one limit for their bytes.
-- It uses the logs through what they represent. Events is the part of crates/sensor-core/src/model.rs
-- that the queue looks at: the variants of an observation and their priorities. Observed has the
-- structs of that file that an observation reports.
--
-- Packet is crates/sensor-passive/src/frame.rs (Packet.Frame), arp.rs (Packet.Arp) and icmpv6.rs
-- (Packet.Ndp); Packet.Safety and Packet.Chains are about what is accepted, and
-- Packet.ArpRoundTrip writes ARP packets.
--
-- Packet.Dns is crates/sensor-passive/src/dns.rs: `read_name` as a loop of rounds on the variables of
-- the code's loop; Packet.Dns.Message is `parse_dns`, Packet.Dns.Services `advertised_services`. An
-- address is the list of its bytes. `NameAt` (Packet.Dns.Names) describes a name without the loop.
--
-- Packet.Dhcp is crates/sensor-passive/src/dhcp.rs: `parse_options` as a loop of steps, the texts that
-- reach a log, and `parse_dhcp`. Packet.Ssdp is crates/sensor-passive/src/ssdp.rs.
--
-- Flow is the flow table of crates/sensor-passive/src/flow.rs: packets counted for each pair of
-- endpoints, given out when their window is over. Flow.Observation is what a flow becomes.
--
-- Observer is crates/sensor-passive/src/observer.rs: its state, the suppression of repeated reports
-- and the exclusion of clients. Observer.Handlers is the handlers of the messages, with Observer.Parts
-- for what they read out of these; Observer.Frames is `handle_frame` with its dispatch, and
-- Observer.Watching any sequence of frames, expiries of flows and shutdowns.
--
-- Scanner is crates/sensor-active/src/scanner.rs: one `sweep`, with the answers of the network and the
-- shutdown flag as functions. Scanner.Consent joins it to the configuration that its policy is from.
--
-- Upload is `Uploader` of crates/sensor-transport/src/uploader.rs on top of the queue: `flush_once`,
-- with what the backend answers as a function of the batch. Upload.Running has `enqueue` and `run`:
-- which arm of the `select!` is ready, and with which answers, is a sequence. Waiting is left out,
-- since no event depends on it. Upload.Delivery repeats attempts, Upload.Stored and Upload.Accounts
-- say where each accepted event is, Upload.Ending when the loop ends.
--
-- Capture.Pcap is the PCAP stream decoder of crates/sensor-capture/src/fritzbox/pcap.rs: its formats
-- and `next_record`, one round of the loop in `decode_available`; Capture.Pcap.Decoder is the decoder
-- with `push` and `finish`. The fields that the global header sets are one optional `Header`. An error
-- ends the stream in the decoder's callers, so that an error has no decoder beside it.
-- Capture.Pcap.Writer writes captures; Prefixes, Loops, Settled, Pushing and Chunks are about bytes
-- that arrive in pieces.
--
-- Snmp is the client of crates/sensor-active/src/snmp.rs: its encoding (`tlv`, `integer`, `Reader`);
-- Snmp.Client is the request and the response, without the socket. A `Reader` is the bytes that it
-- has not read yet, and a 32-bit signed integer its residue. Snmp.Responses has a writer of
-- responses, Snmp.Answers what a device says in them, Snmp.Requests a reader of requests.
--
-- Conventions. An integer is a natural number. The log's counters and offsets are 64 bits wide in
-- the code and unbounded here, since each is bounded by the bytes on a disk; the 32-bit and 64-bit
-- fields of a record and of the cursor file are written and read with their width. A `saturating_sub`
-- is the subtraction that stops at 0. Bytes are numbers, and a file is the list of its bytes.
-- The checksum of the crate crc32fast is a parameter, `Checksum`: any function into the 32-bit
-- words. serde_json is the parameters `Json` and `Value`; how the standard library reads and writes
-- an IP address is the parameter `AddressText`. `BufWriter` is modelled with its 8 KiB buffer, so
-- that the files lag behind the log as they do in the code, until `flush`.
--
-- Fuel. The loops over a segment file run on the file's length, and each record takes at least nine
-- bytes; the loop of `read_batch` runs on one round more than there are segments, and so does the
-- loop of the queue's `push`, where each round but the last drops a segment. The tags of a frame, the
-- extension headers and the neighbor discovery options are counted down from the code's own limits.
-- The loops over a capture, a text record, the DHCP options and a UTF-8 text run on the number of
-- their bytes. The loops over lines, hosts, ports and records follow the list.
-- The loop of `read_name` has a round for each pointer and label that it may take, and one more.
--
-- Not modelled: errors of the file system other than a missing file, `fsync`, the atomic rename of
-- the cursor file, log messages, the sizes of a struct's text fields and the tables of display names;
-- the backoff, the rate limiter and the fingerprinting engine, which count in floating point;
-- sockets, the probes behind them, HTTP and the session with a FRITZ!Box; the validation of a
-- configuration file and the sections that nothing modelled reads; the daemon's device registry,
-- admin interface and runtime but for the poll loop; the visibility report and the command line.
pub mod Capture
pub mod Config
pub mod Events
pub mod Flow
pub mod Observed
pub mod Observer
pub mod Packet
pub mod Prelude
pub mod Queue
pub mod Scanner
pub mod Snmp
pub mod Text
pub mod Upload
pub mod Wal
