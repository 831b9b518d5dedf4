-- ===== src/Packet/Ssdp/Clean.antt =====
-- crates/sensor-passive/src/ssdp.rs: what the headers of an accepted message are.
use trapd_sensor.Prelude.{
  ◌≡◌, refl, sym, ◌∙◌, inl, inr, arith, ℕ, zero, suc, ◌+◌, ◌≤◌, Option, none, some, List, [], ◌∷◌,
  ◌++◌, Bytes, true, false, length, take, length-append, length-take, bytes_eq, leb, ◌==◌, All,
  All-append, Bool-cases, Option-cases,
}
use trapd_sensor.Packet.{some_injective}
use trapd_sensor.Text.{trim, split_once, is_empty, to_ascii_uppercase}
use trapd_sensor.Text.Utf8.{from_utf8}
use trapd_sensor.Packet.Ssdp.{
  max_headers, max_value_len, SsdpMessage, Headers, find, is_shown, shown, clean_value, or_insert,
  add_line, header_loop, kind_of, message_of, split_lines, parse_ssdp,
}

abbrev pub Shown : ℕ → Type 0
Shown c = is_shown c ≡ true

pub record CleanHeader (h : Bytes × Bytes) : Type 0 where
  pub named : is_empty h.0 ≡ false
  pub filled : is_empty h.1 ≡ false
  pub short : length h.1 ≤ max_value_len
  pub printed : All Shown h.1

-- No name twice.
abbrev pub DistinctNames : Headers → Type 0
DistinctNames [] = Unit {0}
DistinctNames ((name, value) ∷ rest) = (find name rest ≡ none) × DistinctNames rest

pub record CleanHeaders (hs : Headers) : Type 0 where
  pub few : length hs ≤ max_headers
  pub clean : All CleanHeader hs
  pub distinct : DistinctNames hs

All-shown : (cs : Bytes) → All Shown (shown cs)
All-shown [] = tt
All-shown (c ∷ cs) = elim (Bool-cases (is_shown c)) [
  | inl keep ↦ rw keep (keep, All-shown cs)
  | inr drop ↦ rw drop (All-shown cs)
]

All-take : (n : ℕ) (cs : Bytes) → All Shown cs → All Shown (take n cs)
All-take zero cs h = tt
All-take (suc n) [] h = tt
All-take (suc n) (c ∷ cs) h = (h.0, All-take n cs h.1)

bytes_eq_comm : (a b : Bytes) → bytes_eq a b ≡ bytes_eq b a
bytes_eq_comm [] [] = refl
bytes_eq_comm [] (b ∷ bs) = refl
bytes_eq_comm (a ∷ as') [] = refl
bytes_eq_comm (a ∷ as') (b ∷ bs) =
    let e = bytes_eq_comm as' bs in let f : (a == b) ≡ (b == a) = ground arith in rw (e, f) refl

find-snoc :
    (n name value : Bytes) (hs : Headers)
    → find n hs ≡ none
    → bytes_eq name n ≡ false
    → find n (hs ++ ((name, value) ∷ [])) ≡ none
find-snoc n name value [] h ne = rw ne refl
find-snoc n name value ((m, v) ∷ hs) h ne = elim (Bool-cases (bytes_eq m n)) [
  | inl same ↦ let e : some v ≡ none = rw same at h in cc
  | inr other ↦ rw other (find-snoc n name value hs (rw other at h) ne)
]

snoc-DistinctNames :
    (name value : Bytes) (hs : Headers)
    → find name hs ≡ none
    → DistinctNames hs
    → DistinctNames (hs ++ ((name, value) ∷ []))
snoc-DistinctNames name value [] h d = (refl, tt)
snoc-DistinctNames name value ((m, v) ∷ hs) h d = elim (Bool-cases (bytes_eq m name)) [
  | inl same ↦ let e : some v ≡ none = rw same at h in cc
  | inr other ↦ (
    find-snoc m name value hs d.0 (bytes_eq_comm name m ∙ other),
    snoc-DistinctNames name value hs (rw other at h) d.1,
  )
]

or_insert-Clean :
    (name value : Bytes) (hs : Headers)
    → CleanHeader (name, value)
    → length hs + 1 ≤ max_headers
    → CleanHeaders hs
    → CleanHeaders (or_insert name value hs)
or_insert-Clean name value hs new room h = elim (Option-cases (find name hs)) [
  | inr (old, known) ↦ rw known h
  | inl vacant ↦ rw vacant (record {
    few = rw (length-append hs ((name, value) ∷ [])) (omega arith);
    clean = All-append CleanHeader hs ((name, value) ∷ []) h.clean (new, tt);
    distinct = snoc-DistinctNames name value hs vacant h.distinct;
  })
]

add_line-Clean :
    (parts : Option (Bytes × Bytes)) (hs : Headers)
    → length hs + 1 ≤ max_headers
    → CleanHeaders hs
    → CleanHeaders (add_line parts hs)
unfolding clean_value
add_line-Clean none hs room h = h
add_line-Clean (some (left, right)) hs room h =
    let name = to_ascii_uppercase (trim left) in
    let value = clean_value right in
    elim (Bool-cases (is_empty name)) [
      | inl bare ↦ rw bare h
      | inr named ↦ elim (Bool-cases (is_empty value)) [
        | inl blank ↦ rw (named, blank) h
        | inr filled ↦
            rw (named, filled)
              (or_insert-Clean name value hs
                (record {
                  named = named;
                  filled = filled;
                  short = rw (length-take max_value_len (shown (trim right))) (omega arith);
                  printed = All-take max_value_len (shown (trim right)) (All-shown (trim right));
                })
                room h)
      ]
    ]

header_loop-Clean :
    (lines : List Bytes) (hs : Headers) → CleanHeaders hs → CleanHeaders (header_loop lines hs)
unfolding header_loop
header_loop-Clean [] hs h = h
header_loop-Clean (line ∷ lines) hs h = elim (Bool-cases (is_empty (trim line))) [
  | inl blank ↦ rw (blank, header_loop) (header_loop-Clean lines hs h)
  | inr text ↦ elim (Bool-cases (leb max_headers (length hs))) [
    | inl full ↦ rw (text, full, header_loop) h
    | inr room ↦
        rw (text, room, header_loop)
          (header_loop-Clean lines (add_line (split_once 0x3a (trim line)) hs)
            (add_line-Clean (split_once 0x3a (trim line)) hs (ground arith) h))
  ]
]

no_headers : CleanHeaders []
no_headers = record { few = omega arith; clean = tt; distinct = tt }

message_of-Clean :
    (lines : List Bytes) (m : SsdpMessage) → message_of lines ≡ some m → CleanHeaders m.headers
message_of-Clean [] m h = let e : none ≡ some m = h in cc
message_of-Clean (first ∷ lines) m h = elim (Option-cases (kind_of (trim first))) [
  | inl unknown ↦ let e : none ≡ some m = rw unknown at h in cc
  | inr (kind, known) ↦
      let e : some (record { kind = kind; headers = header_loop lines [] }) ≡ some m =
        rw known at h in
      rw (sym (some_injective _ _ e)) (header_loop-Clean lines [] no_headers)
]

-- The headers of an accepted message are at most 32, no two of one name; a name is not empty, and a
-- value is 1 to 256 printable characters.
pub parse_ssdp-Clean :
    (bytes : Bytes) (m : SsdpMessage) → parse_ssdp bytes ≡ some m → CleanHeaders m.headers
unfolding parse_ssdp
parse_ssdp-Clean bytes m h = elim (Option-cases (from_utf8 bytes)) [
  | inl bad ↦ let e : none ≡ some m = rw bad at h in cc
  | inr (text, good) ↦ message_of-Clean (split_lines text) m (rw good at h)
]
