-- ===== src/Snmp/Answers.antt =====
-- crates/sensor-active/src/snmp.rs: what a device says of the four values, and the result of its
-- response.
use trapd_sensor.Prelude.{
  ◌≡◌, ◌≢◌, refl, ℕ, ◌+◌, ◌*◌, ◌≤◌, ◌<◌, Option, none, some, List, [], ◌∷◌, ◌++◌, map, Bytes,
  length, All,
}
use trapd_sensor.Snmp.Client.{SnmpResult, plain_char, some_text, dotted}
use trapd_sensor.Snmp.Responses.{Binding}

-- sysDescr, sysObjectID, sysName and sysLocation: 1.3.6.1.2.1.1 with 1, 2, 5 and 6, and an instance.
pub data Field : Type 0 where
  descr : Field
  object_id : Field
  name : Field
  location : Field

abbrev pub field_oid : Field → Bytes
field_oid descr = 43 ∷ 6 ∷ 1 ∷ 2 ∷ 1 ∷ 1 ∷ 1 ∷ 0 ∷ []
field_oid object_id = 43 ∷ 6 ∷ 1 ∷ 2 ∷ 1 ∷ 1 ∷ 2 ∷ 0 ∷ []
field_oid name = 43 ∷ 6 ∷ 1 ∷ 2 ∷ 1 ∷ 1 ∷ 5 ∷ 0 ∷ []
field_oid location = 43 ∷ 6 ∷ 1 ∷ 2 ∷ 1 ∷ 1 ∷ 6 ∷ 0 ∷ []

-- A part of an object identifier: seven bits in each byte, and the highest bit in all but the last.
pub record Arc : Type 0 where
  pub high : List ℕ
  pub low : ℕ

abbrev pub arc_from : List ℕ → ℕ → ℕ → ℕ
arc_from [] low current = current * 128 + low
arc_from (h ∷ hs) low current = arc_from hs low (current * 128 + h)

abbrev pub arc_number : Arc → ℕ
arc_number a = arc_from a.high a.low 0

abbrev pub arc_bytes : List ℕ → ℕ → Bytes → Bytes
arc_bytes [] low rest = low ∷ rest
arc_bytes (h ∷ hs) low rest = (128 + h) ∷ arc_bytes hs low rest

abbrev pub arcs_bytes : List Arc → Bytes
arcs_bytes [] = []
arcs_bytes (a ∷ arcs) = arc_bytes a.high a.low (arcs_bytes arcs)

pub record IsArc (a : Arc) : Type 0 where
  pub high_fit : All (λ h. h < 128) a.high
  pub low_fits : a.low < 128
  pub number_fits : arc_number a < 4294967296

-- What a device says of a field: words with a space between them, an object identifier, or a value
-- of another type.
pub data Said : Type 0 where
  words : List Bytes → Said
  object : ℕ → ℕ → List Arc → Said
  silent : ℕ → Bytes → Said

abbrev pub spaced : List Bytes → Bytes
spaced [] = []
spaced (w ∷ []) = w
spaced (w ∷ v ∷ ws) = w ++ (32 ∷ spaced (v ∷ ws))

abbrev pub Graphic : ℕ → Type 0
Graphic b = (33 ≤ b) × (b ≤ 126)

abbrev pub IsWord : Bytes → Type 0
IsWord w = (0 < length w) × All Graphic w

abbrev pub IsSaid : Said → Type 0
IsSaid (words ws) = All IsWord ws × (length (spaced ws) ≤ 256)
IsSaid (object a b arcs) = (b < 40) × (All IsArc arcs × (length arcs ≤ 62))
IsSaid (silent tag value) = (tag ≢ 4) × (tag ≢ 6)

abbrev pub said_text : Said → Option Bytes
said_text (words []) = none
said_text (words (w ∷ ws)) = some (spaced (w ∷ ws))
said_text (object a b arcs) = some (dotted (a ∷ b ∷ map arc_number arcs))
said_text (silent tag value) = none

abbrev pub said_binding : Field × Said → Binding
said_binding (field, words ws) = record { oid = field_oid field; tag = 4; value = spaced ws }
said_binding (field, object a b arcs) = record {
  oid = field_oid field;
  tag = 6;
  value = (a * 40 + b) ∷ arcs_bytes arcs;
}
said_binding (field, silent tag value) = record { oid = field_oid field; tag = tag; value = value }

abbrev pub with_field : Field → Option Bytes → SnmpResult → SnmpResult
with_field descr text r = record r { sys_descr = text }
with_field object_id text r = record r { sys_object_id = text }
with_field name text r = record r { sys_name = text }
with_field location text r = record r { sys_location = text }

abbrev pub answer : SnmpResult → List (Field × Said) → SnmpResult
answer r [] = r
answer r ((field, said) ∷ rest) = answer (with_field field (said_text said) r) rest

Kept : Bytes → Type 0
Kept bs = All (λ b. plain_char b ≡ b) bs

some_text-append : (b : ℕ) (w rest : Bytes) → some_text ((b ∷ w) ++ rest) ≡ some ((b ∷ w) ++ rest)
some_text-append b w rest = refl
