-- ===== src/Text.antt =====
-- What the sources use of `str`, on the list of a text's characters.
pub mod Writing
pub mod Utf8
use Prim.Native.Char.{code}
use Prim.Native.String
use Prim.Native.String.{String}
use trapd_sensor.Prelude.{
  ℕ, ◌+◌, ◌-◌, ◌*◌, ◌≡◌, Option, none, some, List, [], ◌∷◌, ◌++◌, map, Bytes, Bool, true, false,
  ◌&&◌, ◌||◌, not, length, drop, bytes_eq, ltb, leb, ◌==◌, if◌then◌else◌,
}

-- A literal.
abbrev pub codes : String → Bytes
codes String.[] = []
codes (String.◌∷◌ c s) = code c ∷ codes s

-- `char::is_whitespace`: the characters with the property White_Space.
unfoldable pub is_whitespace : ℕ → Bool
is_whitespace c =
    (leb 9 c && leb c 13)
    || ((c == 0x20)
        || ((c == 0x85)
            || ((c == 0xa0)
                || ((c == 0x1680)
                    || ((leb 0x2000 c && leb c 0x200a)
                        || ((c == 0x2028)
                            || ((c == 0x2029)
                                || ((c == 0x202f) || ((c == 0x205f) || (c == 0x3000))))))))))

unfoldable pub trim_start : Bytes → Bytes
trim_start [] = []
trim_start (c ∷ cs) = let rest = trim_start cs in if is_whitespace c then rest else c ∷ cs

cons_unless_blank : ℕ → Bytes → Bytes
cons_unless_blank c [] = if is_whitespace c then [] else c ∷ []
cons_unless_blank c (d ∷ ds) = c ∷ d ∷ ds

unfoldable pub trim_end : Bytes → Bytes
unfolding cons_unless_blank
trim_end [] = []
trim_end (c ∷ cs) = cons_unless_blank c (trim_end cs)

unfoldable pub trim : Bytes → Bytes
trim cs = trim_end (trim_start cs)

-- The text before the first such character and the text behind it.
unfoldable pub split_once : ℕ → Bytes → Option (Bytes × Bytes)
split_once at [] = none
split_once at (c ∷ cs) =
    let later = split_once at cs in
    if c == at
    then some ([], cs)
    else elim later [ none ↦ none | some found ↦ some (c ∷ found.0, found.1) ]

abbrev pub is_empty : Bytes → Bool
is_empty [] = true
is_empty (c ∷ cs) = false

unfoldable pub starts_with : Bytes → Bytes → Bool
starts_with [] text = true
starts_with (p ∷ ps) [] = false
starts_with (p ∷ ps) (c ∷ cs) = (p == c) && starts_with ps cs

unfoldable pub ends_with : Bytes → Bytes → Bool
ends_with suffix text =
    leb (length suffix) (length text) && bytes_eq (drop (length text - length suffix) text) suffix

abbrev pub lower : ℕ → ℕ
lower c = if leb 0x41 c && leb c 0x5a then c + 32 else c

abbrev pub upper : ℕ → ℕ
upper c = if leb 0x61 c && leb c 0x7a then c - 32 else c

abbrev pub to_ascii_lowercase : Bytes → Bytes
to_ascii_lowercase = map lower

abbrev pub to_ascii_uppercase : Bytes → Bytes
to_ascii_uppercase = map upper

-- `trim_start_matches` with a character.
unfoldable pub trim_start_matches : ℕ → Bytes → Bytes
trim_start_matches p [] = []
trim_start_matches p (c ∷ cs) =
    let rest = trim_start_matches p cs in if c == p then rest else c ∷ cs

-- `str::parse::<u8>`: an optional plus sign, and digits that do not exceed 255.
unfoldable pub digits : Bytes → ℕ → Option ℕ
digits [] n = some n
digits (c ∷ cs) n =
    let next = n * 10 + (c - 0x30) in
    let rest = digits cs next in
    if not (leb 0x30 c && leb c 0x39) then none else if ltb 255 next then none else rest

abbrev pub unsigned : Bytes → Bytes
unsigned [] = []
unsigned (c ∷ cs) = if c == 0x2b then cs else c ∷ cs

unfoldable pub parse_u8 : Bytes → Option ℕ
parse_u8 cs = if is_empty (unsigned cs) then none else digits (unsigned cs) 0
