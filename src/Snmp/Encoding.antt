-- ===== src/Snmp/Encoding.antt =====
-- Snmp.antt: what is written is read back.
use trapd_sensor.Prelude.{
  ◌⊎◌, ◌≡◌, refl, sym, ◌∙◌, arith, ℕ, ◌≤◌, ◌<◌, ◌+◌, ◌*◌, ◌/◌, ◌%◌, none, some, [], ◌∷◌, ◌++◌,
  Bytes, length, length-append, take-append_length, drop-append_length, to_be, ltb, leb, Bool-cases,
  inl, inr, leb→le, le→leb, le→ltb, lt→ltb, ltb→ge, ltb→lt, ==_refl, true, false,
}
use trapd_sensor.Packet.{some_injective}
use trapd_sensor.Snmp.{
  tlv, u16_max, integer, length_at, read_any, read_bytes, shift_in, sign_of, read_integer,
}

pub tlv_short :
    (tag : ℕ) (value : Bytes)
    → length value < 128
    → tlv tag value ≡ some (tag ∷ length value ∷ value)
unfolding tlv
tlv_short tag value short = rw (lt→ltb _ _ short) refl

pub tlv_long :
    (tag : ℕ) (value : Bytes)
    → 128 ≤ length value
    → length value ≤ u16_max
    → tlv tag value ≡ some (tag ∷ 0x82 ∷ (length value / 256) ∷ (length value % 256) ∷ value)
unfolding tlv
tlv_long tag value long fits = rw (le→ltb _ _ long, le→leb _ _ fits) refl

pub tlv_huge :
    (tag : ℕ) (value : Bytes)
    → ltb (length value) 128 ≡ false
    → leb (length value) u16_max ≡ false
    → tlv tag value ≡ none
unfolding tlv
tlv_huge tag value long huge = rw (long, huge) refl

read_sized :
    (tag : ℕ) (value rest after : Bytes)
    → length_at rest ≡ some (length value, value ++ after)
    → read_any (tag ∷ rest) ≡ some (tag, value, after)
unfolding read_any
read_sized tag value rest after found =
    let room : leb (length value) (length (value ++ after)) ≡ true =
      le→leb _ _ (rw (length-append value after) (omega arith)) in
    rw (found, room, take-append_length value after, drop-append_length value after) refl

length_at_short : (n : ℕ) (rest : Bytes) → n < 128 → length_at (n ∷ rest) ≡ some (n, rest)
unfolding length_at
length_at_short n rest short = rw (lt→ltb _ _ short) refl

length_at_long :
    (a b : ℕ) (rest : Bytes) → length_at (0x82 ∷ a ∷ b ∷ rest) ≡ some (a * 256 + b, rest)
unfolding length_at
length_at_long a b rest = let e : (0 * 256 + a) * 256 + b ≡ a * 256 + b = omega arith in rw e refl

-- A value that is written is read back, with its tag and what follows it.
pub read_any-tlv :
    (tag : ℕ) (value written rest : Bytes)
    → tlv tag value ≡ some written
    → read_any (written ++ rest) ≡ some (tag, value, rest)
read_any-tlv tag value written rest e = elim (Bool-cases (ltb (length value) 128)) [
  | inl short ↦
      let made = some_injective _ _ (sym (tlv_short tag value (ltb→lt _ _ short)) ∙ e) in
      rw (sym made) (
        read_sized tag value (length value ∷ (value ++ rest)) rest
          (length_at_short (length value) (value ++ rest) (ltb→lt _ _ short)))
  | inr long ↦ elim (Bool-cases (leb (length value) u16_max)) [
    | inl fits ↦
        let n = length value in
        let made =
          some_injective _ _ (sym (tlv_long tag value (ltb→ge _ _ long) (leb→le _ _ fits)) ∙ e) in
        let whole : n / 256 * 256 + n % 256 ≡ n = omega arith in
        let sized = length_at_long (n / 256) (n % 256) (value ++ rest) in
        rw (sym made) (
          read_sized tag value (0x82 ∷ n / 256 ∷ n % 256 ∷ (value ++ rest)) rest
            (sized ∙ (λ i. some (whole i, value ++ rest))))
    | inr huge ↦ let never = sym (tlv_huge tag value long huge) ∙ e in absurd cc
  ]
]

pub read_bytes-tlv :
    (tag : ℕ) (value written rest : Bytes)
    → tlv tag value ≡ some written
    → read_bytes tag (written ++ rest) ≡ some (value, rest)
unfolding read_bytes
read_bytes-tlv tag value written rest e =
    rw (read_any-tlv tag value written rest e, ==_refl tag) refl

pub integer-tlv : (v : ℕ) → tlv 0x02 (to_be 4 v) ≡ some (integer v)
unfolding integer tlv
integer-tlv v = refl

-- Four bytes push a sign out of 32 bits.
shift_zero :
    (a b c d : ℕ)
    → a < 256
    → b < 256
    → c < 256
    → d < 256
    → shift_in 0 (a ∷ b ∷ c ∷ d ∷ []) ≡ ((a * 256 + b) * 256 + c) * 256 + d
shift_zero a b c d ha hb hc hd =
    let one : (0 * 256 + a) % 4294967296 ≡ a = omega arith in
    let two : (a * 256 + b) % 4294967296 ≡ a * 256 + b = omega arith in
    let three : ((a * 256 + b) * 256 + c) % 4294967296 ≡ (a * 256 + b) * 256 + c = omega arith in
    rw (one, two, three) (omega arith)

shift_negative :
    (a b c d : ℕ)
    → a < 256
    → b < 256
    → c < 256
    → d < 256
    → shift_in 4294967295 (a ∷ b ∷ c ∷ d ∷ []) ≡ ((a * 256 + b) * 256 + c) * 256 + d
shift_negative a b c d ha hb hc hd =
    let one : (4294967295 * 256 + a) % 4294967296 ≡ 4294967040 + a = omega arith in
    let two : ((4294967040 + a) * 256 + b) % 4294967296 ≡ 4294901760 + (a * 256 + b) =
      omega arith in
    let three : ((4294901760 + (a * 256 + b)) * 256 + c) % 4294967296
        ≡ 4278190080 + ((a * 256 + b) * 256 + c) =
      omega arith in
    rw (one, two, three) (omega arith)

shift_in-to_be :
    (s v : ℕ) → (s ≡ 0) ⊎ (s ≡ 4294967295) → v < 4294967296 → shift_in s (to_be 4 v) ≡ v
shift_in-to_be s v (inl plain) small = rw plain (
    shift_zero (v / 256 / 256 / 256 % 256) (v / 256 / 256 % 256) (v / 256 % 256) (v % 256)
      (omega arith) (omega arith) (omega arith) (omega arith)
    ∙ omega arith)
shift_in-to_be s v (inr negative) small = rw negative (
    shift_negative (v / 256 / 256 / 256 % 256) (v / 256 / 256 % 256) (v / 256 % 256) (v % 256)
      (omega arith) (omega arith) (omega arith) (omega arith)
    ∙ omega arith)

sign_of-cases : (bs : Bytes) → (sign_of bs ≡ 0) ⊎ (sign_of bs ≡ 4294967295)
sign_of-cases [] = inl refl
sign_of-cases (b ∷ bs) = elim (Bool-cases (leb 128 b)) [
  | inl negative ↦ rw negative (inr refl)
  | inr plain ↦ rw plain (inl refl)
]

-- A 32-bit integer that is written is read back.
pub read_integer-integer :
    (v : ℕ) (rest : Bytes) → v < 4294967296 → read_integer (integer v ++ rest) ≡ some (v, rest)
unfolding read_integer
read_integer-integer v rest small =
    rw (read_bytes-tlv 0x02 (to_be 4 v) (integer v) rest (integer-tlv v)) (
      let same = shift_in-to_be (sign_of (to_be 4 v)) v (sign_of-cases (to_be 4 v)) small in
      λ i. some (same i, rest))
