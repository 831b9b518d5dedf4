-- ===== src/Packet/Dns.antt =====
-- crates/sensor-passive/src/dns.rs: names. A string is the list of its characters' codes.
pub mod Message
pub mod Names
pub mod Finding
pub mod Described
pub mod Clean
pub mod Bounds
pub mod Services
mod Tests
use trapd_sensor.Prelude.{
  ℕ, zero, suc, ◌+◌, ◌*◌, ◌%◌, Option, none, some, List, [], ◌∷◌, ◌++◌, map, Bytes, Bool, true,
  false, not, ◌&&◌, ◌||◌, length, get_elem?, slice, ltb, leb, ◌==◌, if◌then◌else◌,
}

abbrev pub max_pointer_jumps : ℕ
max_pointer_jumps = 16

abbrev pub max_labels : ℕ
max_labels = 64

-- `to_ascii_lowercase`
unfoldable pub to_ascii_lowercase : ℕ → ℕ
to_ascii_lowercase b = if leb 0x41 b && leb b 0x5a then b + 32 else b

abbrev pub is_printable : ℕ → Bool
is_printable b = leb 0x20 b && ltb b 0x7f

-- One character of `sanitize_label`: `?` for what is not printable, and for a dot.
unfoldable pub sanitize_byte : ℕ → ℕ
sanitize_byte b = if is_printable b && not (b == 0x2e) then to_ascii_lowercase b else 0x3f

abbrev pub sanitize_label : Bytes → Bytes
sanitize_label = map sanitize_byte

-- `labels.join(".")`
abbrev pub join_labels : List Bytes → Bytes
join_labels [] = []
join_labels (label ∷ []) = label
join_labels (label ∷ next ∷ labels) = label ++ (0x2e ∷ join_labels (next ∷ labels))

-- The variables of the loop in `read_name`.
pub record NameState : Type 0 where
  pub labels : List Bytes
  pub cursor : ℕ
  pub jumps : ℕ
  pub stream_end : Option ℕ

-- How a round ends: `return None`, the name with the position behind it, or the next round.
pub data NameStep : Type 0 where
  failed : NameStep
  finished : Bytes → ℕ → NameStep
  again : NameState → NameStep

abbrev pub get_or_insert : Option ℕ → ℕ → ℕ
get_or_insert none n = n
get_or_insert (some e) n = e

-- `((len & 0x3f) << 8) | low`, of two bytes.
abbrev pub pointer_target : ℕ → ℕ → ℕ
pointer_target len low = len % 64 * 256 + low

unfoldable pub pointer_step : Bytes → NameState → ℕ → NameStep
pointer_step bytes s len = elim (get_elem? bytes (s.cursor + 1)) [
  | none ↦ failed
  | some low ↦
      if leb s.cursor (pointer_target len low)
      then failed
      else if ltb max_pointer_jumps (s.jumps + 1)
      then failed
      else again (record s {
        cursor = pointer_target len low;
        jumps = s.jumps + 1;
        stream_end = some (get_or_insert s.stream_end (s.cursor + 2));
      })
]

unfoldable pub label_step : Bytes → NameState → ℕ → NameStep
label_step bytes s len = elim (slice bytes (s.cursor + 1) (s.cursor + 1 + len)) [
  | none ↦ failed
  | some label ↦
      let labels = s.labels ++ (sanitize_label label ∷ []) in
      if ltb max_labels (length labels)
      then failed
      else again (record s { labels = labels; cursor = s.cursor + 1 + len })
]

-- One round of the loop. `len & 0xc0 == 0xc0` is an order on bytes.
unfoldable pub name_step : Bytes → NameState → NameStep
name_step bytes s = elim (get_elem? bytes s.cursor) [
  | none ↦ failed
  | some len ↦
      if leb 0xc0 len
      then pointer_step bytes s len
      else if len == 0
      then finished (join_labels s.labels) (get_or_insert s.stream_end (s.cursor + 1))
      else label_step bytes s len
]

-- The loop, for a number of rounds; it gives the state of the next one when they are used up.
unfoldable pub name_loop : ℕ → Bytes → NameState → NameStep
name_loop zero bytes s = again s
name_loop (suc fuel) bytes s = elim (name_step bytes s) [
  | failed ↦ failed
  | finished name next ↦ finished name next
  | again s' ↦ name_loop fuel bytes s'
]

abbrev pub start_state : ℕ → NameState
start_state start = record { labels = []; cursor = start; jumps = 0; stream_end = none }

-- Every round but the last takes a jump or a label.
abbrev pub max_rounds : ℕ
max_rounds = max_pointer_jumps + max_labels + 1

-- `Some((labels.join("."), stream_end?))`
abbrev pub name_of : NameStep → Option (Bytes × ℕ)
name_of failed = none
name_of (finished name next) = some (name, next)
name_of (again s) = none

unfoldable pub read_name : Bytes → ℕ → Option (Bytes × ℕ)
read_name bytes start = name_of (name_loop max_rounds bytes (start_state start))
