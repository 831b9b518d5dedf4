-- ===== src/Snmp.antt =====
-- crates/sensor-active/src/snmp.rs: the encoding. A `Reader` is the bytes that it has not read yet,
-- a 32-bit signed integer its residue modulo 2 ^ 32, and an `io::Error` is `none`.
pub mod Encoding
pub mod Client
pub mod Requests
pub mod Responses
pub mod Answers
mod Tests
use trapd_sensor.Prelude.{
  ℕ, zero, suc, ◌+◌, ◌-◌, ◌*◌, ◌/◌, ◌%◌, ◌^◌, Option, none, some, List, [], ◌∷◌, ◌++◌, Bytes, Bool,
  true, false, not, ◌||◌, length, take, drop, to_be, ltb, leb, ◌==◌, if◌then◌else◌,
}
use trapd_sensor.Packet.{◌>>=◌, ◌>>◌, guard}

-- `u16::MAX`
abbrev pub u16_max : ℕ
u16_max = 65535

unfoldable pub tlv : ℕ → Bytes → Option Bytes
tlv tag value =
    if ltb (length value) 128
    then some (tag ∷ length value ∷ value)
    else if leb (length value) u16_max
    then some (tag ∷ 0x82 ∷ (length value / 256) ∷ (length value % 256) ∷ value)
    else none

-- `unwrap_or_default`
abbrev pub or_default : Option Bytes → Bytes
or_default none = []
or_default (some bytes) = bytes

unfoldable pub integer : ℕ → Bytes
integer value = or_default (tlv 0x02 (to_be 4 value))

-- The bytes of a long length.
abbrev pub read_length : ℕ → ℕ → Bytes → Option (ℕ × Bytes)
read_length zero len rest = some (len, rest)
read_length (suc n) len [] = none
read_length (suc n) len (b ∷ rest) = read_length n (len * 256 + b) rest

-- A length, short or long; a long one has one byte or two.
unfoldable pub length_at : Bytes → Option (ℕ × Bytes)
length_at [] = none
length_at (first ∷ rest) =
    if ltb first 128
    then some (first, rest)
    else if (first % 128 == 0) || ltb 2 (first % 128)
    then none
    else read_length (first % 128) 0 rest

-- The tag and the value at the front, and what follows.
unfoldable pub read_any : Bytes → Option (ℕ × Bytes × Bytes)
read_any [] = none
read_any (tag ∷ rest) = length_at rest >>= λ sized.
    guard (leb sized.0 (length sized.1)) >> some (tag, take sized.0 sized.1, drop sized.0 sized.1)

unfoldable pub read_bytes : ℕ → Bytes → Option (Bytes × Bytes)
read_bytes wanted reader =
    read_any reader >>= λ found. guard (found.0 == wanted) >> some (found.1, found.2)

-- The bytes shifted into the value, of 32 bits.
abbrev pub shift_in : ℕ → Bytes → ℕ
shift_in value [] = value
shift_in value (b ∷ bs) = shift_in ((value * 256 + b) % 2 ^ 32) bs

-- A negative number starts as -1.
abbrev pub sign_of : Bytes → ℕ
sign_of [] = 0
sign_of (b ∷ bs) = if leb 128 b then 2 ^ 32 - 1 else 0

unfoldable pub read_integer : Bytes → Option (ℕ × Bytes)
read_integer reader = read_bytes 0x02 reader >>= λ found.
    guard (not ((length found.0 == 0) || ltb 4 (length found.0)))
    >> some (shift_in (sign_of found.0) found.0, found.1)
