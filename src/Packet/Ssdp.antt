-- ===== src/Packet/Ssdp.antt =====
-- crates/sensor-passive/src/ssdp.rs. The `BTreeMap` of the headers is an association list.
pub mod Clean
pub mod Tests
use trapd_sensor.Prelude.{
  ℕ, Option, none, some, List, [], ◌∷◌, ◌++◌, Bytes, Bool, true, false, ◌&&◌, ◌||◌, length, take,
  bytes_eq, leb, ◌==◌, if◌then◌else◌,
}
use trapd_sensor.Packet.{◌>>=◌}
use trapd_sensor.Packet.Dhcp.{or_else}
use trapd_sensor.Text.{codes, trim, split_once, starts_with, is_empty, to_ascii_uppercase}
use trapd_sensor.Text.Utf8.{from_utf8}

abbrev pub ssdp_port : ℕ
ssdp_port = 1900

abbrev pub max_headers : ℕ
max_headers = 32

abbrev pub max_value_len : ℕ
max_value_len = 256

pub data SsdpKind : Type 0 where
  notify : SsdpKind
  search_request : SsdpKind
  search_response : SsdpKind

abbrev pub Headers : Type 0
Headers = List (Bytes × Bytes)

pub record SsdpMessage : Type 0 where
  pub kind : SsdpKind
  pub headers : Headers

abbrev pub find : Bytes → Headers → Option Bytes
find name [] = none
find name ((n, value) ∷ rest) = if bytes_eq n name then some value else find name rest

abbrev pub header : SsdpMessage → Bytes → Option Bytes
header m name = find (to_ascii_uppercase name) m.headers

abbrev pub device_type : SsdpMessage → Option Bytes
device_type m = or_else (header m (codes "NT")) (header m (codes "ST"))

abbrev pub server : SsdpMessage → Option Bytes
server m = header m (codes "SERVER")

abbrev pub location : SsdpMessage → Option Bytes
location m = header m (codes "LOCATION")

abbrev pub describes_sender : SsdpKind → Bool
describes_sender notify = true
describes_sender search_request = false
describes_sender search_response = true

-- `split('\n')`
abbrev pub onto_first : ℕ → List Bytes → List Bytes
onto_first c [] = (c ∷ []) ∷ []
onto_first c (line ∷ lines) = (c ∷ line) ∷ lines

unfoldable pub split_lines : Bytes → List Bytes
split_lines [] = [] ∷ []
split_lines (c ∷ cs) =
    let rest = split_lines cs in if c == 0x0a then [] ∷ rest else onto_first c rest

abbrev pub is_shown : ℕ → Bool
is_shown c = (leb 0x21 c && leb c 0x7e) || (c == 0x20)

abbrev pub shown : Bytes → Bytes
shown [] = []
shown (c ∷ cs) = let rest = shown cs in if is_shown c then c ∷ rest else rest

unfoldable pub clean_value : Bytes → Bytes
clean_value value = take max_value_len (shown (trim value))

-- `headers.entry(name).or_insert(value)`
abbrev pub insert_vacant : Option Bytes → Bytes → Bytes → Headers → Headers
insert_vacant (some old) name value headers = headers
insert_vacant none name value headers = headers ++ ((name, value) ∷ [])

abbrev pub or_insert : Bytes → Bytes → Headers → Headers
or_insert name value headers = insert_vacant (find name headers) name value headers

-- A line with a colon.
abbrev pub add_header : Bytes → Bytes → Headers → Headers
add_header name value headers =
    if is_empty name || is_empty value then headers else or_insert name value headers

abbrev pub add_line : Option (Bytes × Bytes) → Headers → Headers
add_line none headers = headers
add_line (some parts) headers =
    add_header (to_ascii_uppercase (trim parts.0)) (clean_value parts.1) headers

unfoldable pub header_loop : List Bytes → Headers → Headers
header_loop [] headers = headers
header_loop (line ∷ lines) headers = elim (is_empty (trim line)) [
  | true ↦ header_loop lines headers
  | false ↦ elim (leb max_headers (length headers)) [
    | true ↦ headers
    | false ↦ header_loop lines (add_line (split_once 0x3a (trim line)) headers)
  ]
]

unfoldable pub kind_of : Bytes → Option SsdpKind
kind_of start_line =
    if starts_with (codes "NOTIFY") start_line
    then some notify
    else if starts_with (codes "M-SEARCH") start_line
    then some search_request
    else if starts_with (codes "HTTP/1.") start_line
    then some search_response
    else none

abbrev pub message_of : List Bytes → Option SsdpMessage
message_of [] = none
message_of (first ∷ lines) =
    kind_of (trim first) >>= λ kind. some (record { kind = kind; headers = header_loop lines [] })

-- A line ends with a line feed; a carriage return before it goes with the `trim` of each line.
unfoldable pub parse_ssdp : Bytes → Option SsdpMessage
parse_ssdp bytes = from_utf8 bytes >>= λ text. message_of (split_lines text)
