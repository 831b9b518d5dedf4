-- ===== src/Snmp/Requests.antt =====
-- Snmp/Client.antt: the request that is sent, as its receiver reads it.
use trapd_sensor.Prelude.{
  ◌≡◌, refl, sym, subst, ◌∙◌, arith, ℕ, ◌≤◌, ◌<◌, ◌+◌, ◌/◌, ◌%◌, zero, suc, Option, none, some,
  List, [], ◌∷◌, ◌++◌, Bytes, not, length, length-append, ltb, le→ltb, ltb→lt, ltb→ge, Bool-cases,
  inl, inr,
}
use trapd_sensor.Packet.{◌>>=◌, guard, bind_inversion, some_injective}
use trapd_sensor.Snmp.{
  tlv, u16_max, integer, or_default, read_any, read_bytes, read_integer, length_at,
}
use trapd_sensor.Snmp.Encoding.{tlv_short, tlv_long, read_bytes-tlv, read_integer-integer}
use trapd_sensor.Snmp.Client.{build_get_request, request_varbinds, oids, max_snmp_packet}
use trapd_sensor.Snmp.Responses.{read_whole}

-- A value of up to 65535 bytes can be written, with four bytes more.
tlv_total :
    (tag : ℕ) (value : Bytes)
    → length value ≤ u16_max
    → (written : Bytes) × ((tlv tag value ≡ some written) × (length written ≤ length value + 4))
tlv_total tag value fits = elim (Bool-cases (ltb (length value) 128)) [
  | inl short ↦ (tag ∷ length value ∷ value, (tlv_short tag value (ltb→lt _ _ short), omega arith))
  | inr long ↦ (
    tag ∷ 0x82 ∷ length value / 256 ∷ length value % 256 ∷ value,
    (tlv_long tag value (ltb→ge _ _ long) fits, omega arith),
  )
]

abbrev all_varbinds : Bytes
unfolding request_varbinds tlv
all_varbinds = or_default (request_varbinds oids)

varbinds_ready : request_varbinds oids ≡ some all_varbinds
unfolding request_varbinds tlv
varbinds_ready = refl

length-varbinds : length all_varbinds ≡ 56
unfolding request_varbinds tlv
length-varbinds = refl

length-integer : (v : ℕ) → length (integer v) ≡ 6
unfolding integer tlv
length-integer v = refl

pdu_length :
    (request_id : ℕ) (vars : Bytes)
    → length (integer request_id ++ (integer 0 ++ (integer 0 ++ vars))) ≡ 18 + length vars
pdu_length request_id vars =
    rw
      (
        length-append (integer request_id),
        length-append (integer 0),
        length-append (integer 0),
        length-integer request_id,
        length-integer 0,
      )
      (omega arith)

-- A request with a community of up to 128 bytes is always built, and fits into a packet.
pub build_get_request_total :
    (community : Bytes) (request_id : ℕ)
    → length community ≤ 128
    → (packet : Bytes) × ((build_get_request community request_id ≡ some packet)
        × (length packet ≤ max_snmp_packet))
unfolding build_get_request
build_get_request_total community request_id short =
    let (vars, (wrapped, vars_len)) =
      tlv_total 0x30 all_varbinds (rw length-varbinds (omega arith)) in
    let inner = integer request_id ++ (integer 0 ++ (integer 0 ++ vars)) in
    let inner_len = pdu_length request_id vars in
    let known = length-varbinds in
    let (pdu, (made, pdu_len)) = tlv_total 0xa0 inner (omega arith) in
    let (secret, (hidden, secret_len)) = tlv_total 0x04 community (omega arith) in
    let message = integer 1 ++ (secret ++ pdu) in
    let message_len : length message ≡ 6 + (length secret + length pdu) =
      rw (length-append (integer 1), length-append secret, length-integer 1) refl in
    let (packet, (sent, packet_len)) = tlv_total 0x30 message (omega arith) in
    let fits : length packet ≤ max_snmp_packet = omega arith in
    (
      packet,
      (
        rw
            (
              varbinds_ready,
              wrapped,
              made,
              hidden,
              sent,
              le→ltb max_snmp_packet (length packet) fits,
            )
            refl,
        fits,
      ),
    )

-- What a receiver finds in a request: each binding has an object identifier and an empty value.
pub record Request : Type 0 where
  pub version : ℕ
  pub community : Bytes
  pub request_id : ℕ
  pub names : List Bytes

unfoldable pub read_names : ℕ → Bytes → Option (List Bytes)
read_names n [] = some []
read_names zero (b ∷ bs) = none
read_names (suc n) (b ∷ bs) = read_bytes 0x30 (b ∷ bs) >>= λ binding.
    read_bytes 0x06 binding.0 >>= λ name.
    read_bytes 0x05 name.1 >>= λ null. read_names n binding.1 >>= λ names. some (name.0 ∷ names)

-- A receiver of a request for values (tag 0xa0).
unfoldable pub read_request : Bytes → Option Request
read_request packet = read_bytes 0x30 packet >>= λ outer. read_integer outer.0 >>= λ version.
    read_bytes 0x04 version.1 >>= λ secret. read_bytes 0xa0 secret.1 >>= λ pdu.
    read_integer pdu.0 >>= λ id. read_integer id.1 >>= λ status. read_integer status.1 >>= λ index.
    read_bytes 0x30 index.1 >>= λ list. read_names 4 list.0 >>= λ names.
    some (record { version = version.0; community = secret.0; request_id = id.0; names = names })

names_read : read_names 4 all_varbinds ≡ some oids
unfolding read_names read_bytes read_any length_at request_varbinds tlv
names_read = refl

-- A request that is built is a request for values of version 1, with the community, the identifier
-- of the request and the four object identifiers of the system group.
pub read_request-build_get_request :
    (community packet : Bytes) (request_id : ℕ)
    → request_id < 4294967296
    → build_get_request community request_id ≡ some packet
    → read_request packet
      ≡ some (record { version = 1; community = community; request_id = request_id; names = oids })
unfolding build_get_request read_request
read_request-build_get_request community packet request_id small e =
    let (varbinds, (ready, e1)) = bind_inversion (request_varbinds oids) _ packet e in
    let (vars, (wrapped, e2)) = bind_inversion (tlv 0x30 varbinds) _ packet e1 in
    let inner = integer request_id ++ (integer 0 ++ (integer 0 ++ vars)) in
    let (pdu, (made, e3)) = bind_inversion (tlv 0xa0 inner) _ packet e2 in
    let (secret, (hidden, e4)) = bind_inversion (tlv 0x04 community) _ packet e3 in
    let message = integer 1 ++ (secret ++ pdu) in
    let (sent, (whole, e5)) = bind_inversion (tlv 0x30 message) _ packet e4 in
    let (_, (_, e6)) =
      bind_inversion (guard (not (ltb max_snmp_packet (length sent)))) _ packet e5 in
    let same : sent ≡ packet = some_injective _ _ e6 in
    let known : all_varbinds ≡ varbinds = some_injective _ _ (sym varbinds_ready ∙ ready) in
    let names : read_names 4 varbinds ≡ some oids =
      subst (λ v. read_names 4 v ≡ some oids) known names_read in
    rw
      (
        sym same,
        read_whole 0x30 message sent whole,
        read_integer-integer 1 (secret ++ pdu) (omega arith),
        read_bytes-tlv 0x04 community secret pdu hidden,
        read_whole 0xa0 inner pdu made,
        read_integer-integer request_id (integer 0 ++ (integer 0 ++ vars)) small,
        read_integer-integer 0 (integer 0 ++ vars) (omega arith),
        read_integer-integer 0 vars (omega arith),
        read_whole 0x30 varbinds vars wrapped,
        names,
      )
      refl
