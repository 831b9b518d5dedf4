-- ===== src/Snmp/Client.antt =====
-- crates/sensor-active/src/snmp.rs: the request and the response. The socket is left out.
use trapd_sensor.Prelude.{
  ℕ, zero, suc, ◌+◌, ◌*◌, ◌/◌, ◌%◌, Option, none, some, List, [], ◌∷◌, ◌++◌, map, Bytes, true,
  false, not, length, take, bytes_eq, ltb, leb, ◌==◌, if◌then◌else◌,
}
use trapd_sensor.Packet.{◌>>=◌, ◌>>◌, guard}
use trapd_sensor.Snmp.{tlv, integer, read_any, read_bytes, read_integer}

abbrev pub max_snmp_packet : ℕ
max_snmp_packet = 8192

abbrev pub sys_descr_oid : Bytes
sys_descr_oid = 43 ∷ 6 ∷ 1 ∷ 2 ∷ 1 ∷ 1 ∷ 1 ∷ 0 ∷ []

abbrev pub sys_object_id_oid : Bytes
sys_object_id_oid = 43 ∷ 6 ∷ 1 ∷ 2 ∷ 1 ∷ 1 ∷ 2 ∷ 0 ∷ []

abbrev pub sys_name_oid : Bytes
sys_name_oid = 43 ∷ 6 ∷ 1 ∷ 2 ∷ 1 ∷ 1 ∷ 5 ∷ 0 ∷ []

abbrev pub sys_location_oid : Bytes
sys_location_oid = 43 ∷ 6 ∷ 1 ∷ 2 ∷ 1 ∷ 1 ∷ 6 ∷ 0 ∷ []

abbrev pub oids : List Bytes
oids = sys_descr_oid ∷ sys_object_id_oid ∷ sys_name_oid ∷ sys_location_oid ∷ []

pub record SnmpResult : Type 0 where
  pub sys_descr : Option Bytes
  pub sys_object_id : Option Bytes
  pub sys_name : Option Bytes
  pub sys_location : Option Bytes

abbrev pub no_result : SnmpResult
no_result = record { sys_descr = none; sys_object_id = none; sys_name = none; sys_location = none }

-- The loop over the object identifiers of a request.
unfoldable pub request_varbinds : List Bytes → Option Bytes
request_varbinds [] = some []
request_varbinds (oid ∷ rest) = tlv 0x06 oid >>= λ name. tlv 0x05 [] >>= λ null.
    tlv 0x30 (name ++ null) >>= λ varbind.
    request_varbinds rest >>= λ varbinds. some (varbind ++ varbinds)

unfoldable pub build_get_request : Bytes → ℕ → Option Bytes
build_get_request community request_id = request_varbinds oids >>= λ varbinds.
    tlv 0x30 varbinds >>= λ vars.
    tlv 0xa0 (integer request_id ++ (integer 0 ++ (integer 0 ++ vars))) >>= λ pdu.
    tlv 0x04 community >>= λ secret. tlv 0x30 (integer 1 ++ (secret ++ pdu)) >>= λ packet.
    guard (not (ltb max_snmp_packet (length packet))) >> some packet

-- A character of `bounded_text`: a space for what is neither graphic nor a space.
abbrev pub plain_char : ℕ → ℕ
plain_char b = if leb 0x20 b then (if leb b 0x7e then b else 0x20) else 0x20

abbrev pub push_word : Bytes → List Bytes → List Bytes
push_word [] words = words
push_word (c ∷ cs) words = (c ∷ cs) ∷ words

-- `split_whitespace`, of a text whose only whitespace is the space.
abbrev pub split_words : Bytes → Bytes → List Bytes
split_words word [] = push_word word []
split_words word (b ∷ bs) = elim (b == 0x20) [
  | true ↦ push_word word (split_words [] bs)
  | false ↦ split_words (word ++ (b ∷ [])) bs
]

abbrev pub join_words : List Bytes → Bytes
join_words [] = []
join_words (word ∷ []) = word
join_words (word ∷ next ∷ words) = word ++ (0x20 ∷ join_words (next ∷ words))

abbrev pub some_text : Bytes → Option Bytes
some_text [] = none
some_text (b ∷ bs) = some (b ∷ bs)

unfoldable pub bounded_text : Bytes → Option Bytes
bounded_text value = some_text (join_words (split_words [] (map plain_char (take 256 value))))

abbrev pub u32_limit : ℕ
u32_limit = 4294967295

-- The loop of `format_oid`: the parts so far, and the one that is being read.
unfoldable pub oid_loop : Bytes → List ℕ → ℕ → Option (List ℕ)
oid_loop [] parts current = if current == 0 then some parts else none
oid_loop (byte ∷ bytes) parts current =
    let value = current * 128 + byte % 128 in
    elim (ltb u32_limit value) [
      | true ↦ none
      | false ↦ elim (ltb byte 128) [
        | true ↦ elim (ltb 64 (length parts + 1)) [
          | true ↦ none
          | false ↦ oid_loop bytes (parts ++ (value ∷ [])) 0
        ]
        | false ↦ elim (ltb 64 (length parts)) [ true ↦ none | false ↦ oid_loop bytes parts value ]
      ]
    ]

-- `u32::to_string`; a number of 32 bits has ten digits at most.
abbrev pub digits : ℕ → ℕ → Bytes
digits zero v = []
digits (suc n) v =
    let front = digits n (v / 10) in
    if ltb v 10 then (0x30 + v) ∷ [] else front ++ ((0x30 + v % 10) ∷ [])

abbrev pub dotted : List ℕ → Bytes
dotted [] = []
dotted (part ∷ []) = digits 10 part
dotted (part ∷ next ∷ parts) = digits 10 part ++ (0x2e ∷ dotted (next ∷ parts))

unfoldable pub format_oid : Bytes → Option Bytes
format_oid [] = none
format_oid (first ∷ rest) =
    oid_loop rest ((first / 40) ∷ (first % 40) ∷ []) 0 >>= λ parts. some (dotted parts)

-- The value of a binding: a text, an object identifier, or nothing.
unfoldable pub value_text : ℕ → Bytes → Option (Option Bytes)
value_text tag value =
    if tag == 0x04
    then some (bounded_text value)
    else if tag == 0x06
    then (format_oid value >>= λ text. some (some text))
    else some none

-- `position(|candidate| *candidate == oid)`
abbrev pub position : List Bytes → Bytes → Option ℕ
position [] oid = none
position (candidate ∷ rest) oid =
    let later = position rest oid >>= (λ i. some (i + 1)) in
    if bytes_eq candidate oid then some 0 else later

abbrev pub set_field : SnmpResult → ℕ → Option Bytes → Option SnmpResult
set_field r index text =
    if index == 0
    then some (record r { sys_descr = text })
    else if index == 1
    then some (record r { sys_object_id = text })
    else if index == 2
    then some (record r { sys_name = text })
    else if index == 3
    then some (record r { sys_location = text })
    else none

-- The body of the loop: the bindings left, and the result with this one.
unfoldable pub read_varbind : Bytes → SnmpResult → Option (Bytes × SnmpResult)
read_varbind list r = read_bytes 0x30 list >>= λ varbind. read_bytes 0x06 varbind.0 >>= λ oid.
    read_any oid.1 >>= λ found.
    guard (length found.2 == 0)
    >> (value_text found.0 found.1 >>= λ text.
        position oids oid.0 >>= λ index. set_field r index text >>= λ r'. some (varbind.1, r'))

-- The loop, with the number of bindings that may come.
unfoldable pub response_loop : ℕ → Bytes → SnmpResult → Option SnmpResult
response_loop n [] r = some r
response_loop zero (b ∷ bs) r = none
response_loop (suc n) (b ∷ bs) r = read_varbind (b ∷ bs) r >>= λ out. response_loop n out.0 out.1

unfoldable pub parse_response : Bytes → Bytes → ℕ → Option SnmpResult
parse_response bytes community request_id =
    guard (not (ltb max_snmp_packet (length bytes)))
    >> (read_bytes 0x30 bytes >>= λ outer. read_integer outer.0 >>= λ version.
        guard (version.0 == 1)
        >> (read_bytes 0x04 version.1 >>= λ secret.
            guard (bytes_eq secret.0 community)
            >> (read_bytes 0xa2 secret.1 >>= λ pdu. read_integer pdu.0 >>= λ id.
                guard (id.0 == request_id)
                >> (read_integer id.1 >>= λ status.
                    guard (status.0 == 0)
                    >> (read_integer status.1 >>= λ index.
                        read_bytes 0x30 index.1 >>= λ list. response_loop 4 list.0 no_result)))))
