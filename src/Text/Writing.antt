-- ===== src/Text/Writing.antt =====
-- Numbers and addresses as text.
use trapd_sensor.Prelude.{
  ℕ, ◌+◌, ◌/◌, ◌%◌, Option, none, some, [], ◌∷◌, ◌++◌, map, Bytes, Bool, true, false, ◌&&◌, take,
  ltb, leb, ◌==◌, if◌then◌else◌,
}

abbrev pub hex_digit : ℕ → ℕ
hex_digit d = if ltb d 10 then 0x30 + d else 0x57 + d

-- `{:02x}`
abbrev pub hex_byte : ℕ → Bytes
hex_byte b = hex_digit (b / 16) ∷ hex_digit (b % 16) ∷ []

-- `normalize_mac` of crates/sensor-core/src/model.rs.
unfoldable pub normalize_mac : Bytes → Bytes
normalize_mac [] = []
normalize_mac (b ∷ []) = hex_byte b
normalize_mac (b ∷ c ∷ bs) = hex_byte b ++ (0x3a ∷ normalize_mac (c ∷ bs))

abbrev pub max_banner_len : ℕ
max_banner_len = 256

-- One character of a banner.
abbrev pub banner_char : ℕ → ℕ
banner_char b = if leb 0x20 b && ltb b 0x7f then b else 0x20

abbrev is_nil : Bytes → Bool
is_nil [] = true
is_nil (b ∷ bs) = false

-- `split_whitespace` and `join(" ")` of a text whose only white space is the space: a space is
-- kept between two words.
unfoldable pub join_words : Bytes → Bytes
join_words [] = []
join_words (b ∷ []) = if b == 0x20 then [] else b ∷ []
join_words (b ∷ c ∷ cs) =
    let rest = join_words (c ∷ cs) in
    if b == 0x20
    then rest
    else if c == 0x20
    then (if is_nil rest then b ∷ [] else b ∷ 0x20 ∷ rest)
    else b ∷ rest

abbrev pub some_text : Bytes → Option Bytes
some_text [] = none
some_text (b ∷ bs) = some (b ∷ bs)

-- `sanitize_banner` of crates/sensor-core/src/model.rs.
unfoldable pub sanitize_banner : Bytes → Option Bytes
sanitize_banner raw = some_text (join_words (map banner_char (take max_banner_len raw)))

-- `{}` of a number of at most five digits, such as a port.
abbrev pub decimal_text : ℕ → Bytes
decimal_text n =
    if ltb n 10
    then (0x30 + n) ∷ []
    else if ltb n 100
    then (0x30 + n / 10) ∷ (0x30 + n % 10) ∷ []
    else if ltb n 1000
    then (0x30 + n / 100) ∷ (0x30 + n / 10 % 10) ∷ (0x30 + n % 10) ∷ []
    else if ltb n 10000
    then (0x30 + n / 1000) ∷ (0x30 + n / 100 % 10) ∷ (0x30 + n / 10 % 10) ∷ (0x30 + n % 10) ∷ []
    else (0x30 + n / 10000)
      ∷ (0x30 + n / 1000 % 10)
      ∷ (0x30 + n / 100 % 10)
      ∷ (0x30 + n / 10 % 10)
      ∷ (0x30 + n % 10)
      ∷ []
