-- ===== src/Text/Utf8.antt =====
-- `std::str::from_utf8`: the characters of a byte string, if it is well-formed.
use trapd_sensor.Prelude.{
  ℕ, zero, suc, ◌+◌, ◌*◌, ◌%◌, Option, none, some, [], ◌∷◌, Bytes, ◌&&◌, length, ltb, leb, ◌==◌,
  if◌then◌else◌,
}
use trapd_sensor.Packet.{◌>>=◌}

-- A continuation byte in a range, added to the bits before it.
abbrev pub continue : ℕ → ℕ → ℕ → Bytes → Option (ℕ × Bytes)
continue low high bits [] = none
continue low high bits (b ∷ bs) =
    if leb low b && leb b high then some (bits * 64 + b % 64, bs) else none

abbrev pub two : ℕ → Bytes → Option (ℕ × Bytes)
two b bs = continue 0x80 0xbf (b % 32) bs

abbrev pub three : ℕ → Bytes → Option (ℕ × Bytes)
three b bs =
    continue (if b == 0xe0 then 0xa0 else 0x80) (if b == 0xed then 0x9f else 0xbf) (b % 16) bs
    >>= λ s. continue 0x80 0xbf s.0 s.1

abbrev pub four : ℕ → Bytes → Option (ℕ × Bytes)
four b bs =
    continue (if b == 0xf0 then 0x90 else 0x80) (if b == 0xf4 then 0x8f else 0xbf) (b % 8) bs
    >>= λ s. continue 0x80 0xbf s.0 s.1 >>= λ t. continue 0x80 0xbf t.0 t.1

-- A character and what is behind it.
unfoldable pub next_char : ℕ → Bytes → Option (ℕ × Bytes)
next_char b bs =
    if ltb b 0x80
    then some (b, bs)
    else if leb 0xc2 b && leb b 0xdf
    then two b bs
    else if leb 0xe0 b && leb b 0xef
    then three b bs
    else if leb 0xf0 b && leb b 0xf4
    then four b bs
    else none

-- Each round takes a byte at least.
unfoldable pub char_loop : ℕ → Bytes → Option Bytes
char_loop fuel [] = some []
char_loop zero (b ∷ bs) = none
char_loop (suc fuel) (b ∷ bs) = next_char b bs >>= λ found. (elim (char_loop fuel found.1) [
  | none ↦ none
  | some rest ↦ some (found.0 ∷ rest)
])

unfoldable pub from_utf8 : Bytes → Option Bytes
from_utf8 bytes = char_loop (length bytes) bytes
