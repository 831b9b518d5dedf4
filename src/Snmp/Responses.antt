-- ===== src/Snmp/Responses.antt =====
-- Snmp/Client.antt: a response to a request, as a device writes it, and what is read from it.
use trapd_sensor.Prelude.{
  ◌/◌, ◌%◌, leb→le, ltb→lt, ltb→ge, Option-cases, inl, inr, Bool-cases, ◌≡◌, refl, sym, subst, ◌∙◌,
  arith, ℕ, ◌≤◌, ◌<◌, zero, suc, Option, some, List, [], ◌∷◌, ◌++◌, Bytes, length, append-nil,
  bytes_eq_refl, ltb, leb, ==_refl, le→ltb,
}
use trapd_sensor.Packet.{◌>>=◌, bind_inversion, some_injective}
use trapd_sensor.Snmp.{u16_max, tlv, integer, read_any, read_bytes}
use trapd_sensor.Snmp.Encoding.{
  tlv_short, tlv_long, tlv_huge, read_any-tlv, read_bytes-tlv, read_integer-integer,
}
use trapd_sensor.Snmp.Client.{
  SnmpResult, no_result, value_text, position, set_field, oids, read_varbind, response_loop,
  parse_response, max_snmp_packet,
}

-- A binding of a response: an object identifier and a value with its tag.
pub record Binding : Type 0 where
  pub oid : Bytes
  pub tag : ℕ
  pub value : Bytes

-- What a device writes, where every part has a length that can be written.
unfoldable pub write_binding : Binding → Option Bytes
write_binding b = tlv 0x06 b.oid >>= λ name. tlv b.tag b.value >>= λ value. tlv 0x30 (name ++ value)

unfoldable pub write_bindings : List Binding → Option Bytes
write_bindings [] = some []
write_bindings (b ∷ bs) =
    write_binding b >>= λ one. write_bindings bs >>= λ more. some (one ++ more)

unfoldable pub write_response : Bytes → ℕ → ℕ → List Binding → Option Bytes
write_response community request_id index bindings = write_bindings bindings >>= λ list.
    tlv 0x30 list >>= λ vars.
    tlv 0xa2 (integer request_id ++ (integer 0 ++ (integer index ++ vars))) >>= λ pdu.
    tlv 0x04 community >>= λ secret. tlv 0x30 (integer 1 ++ (secret ++ pdu))

-- What the bindings say, one after another.
unfoldable pub take_binding : SnmpResult → Binding → Option SnmpResult
take_binding r b =
    value_text b.tag b.value >>= λ text. position oids b.oid >>= λ index. set_field r index text

abbrev pub take_bindings : SnmpResult → List Binding → Option SnmpResult
take_bindings r [] = some r
take_bindings r (b ∷ bs) = take_binding r b >>= λ r'. take_bindings r' bs

-- A value that ends the bytes.
pub read_whole :
    (tag : ℕ) (value written : Bytes)
    → tlv tag value ≡ some written
    → read_bytes tag written ≡ some (value, [])
read_whole tag value written e =
    subst (λ v. read_bytes tag v ≡ some (value, [])) (append-nil written)
      (read_bytes-tlv tag value written [] e)

read_varbind-write_binding :
    (b : Binding) (written rest : Bytes) (r : SnmpResult)
    → write_binding b ≡ some written
    → read_varbind (written ++ rest) r ≡ (take_binding r b >>= λ r'. some (rest, r'))
unfolding write_binding read_varbind take_binding
read_varbind-write_binding b written rest r e =
    let (name, (named, e1)) = bind_inversion (tlv 0x06 b.oid) _ written e in
    let (value, (valued, e2)) = bind_inversion (tlv b.tag b.value) _ written e1 in
    let last : read_any value ≡ some (b.tag, b.value, []) =
      subst (λ v. read_any v ≡ some (b.tag, b.value, [])) (append-nil value)
        (read_any-tlv b.tag b.value value [] valued) in
    rw
      (
        read_bytes-tlv 0x30 (name ++ value) written rest e2,
        read_bytes-tlv 0x06 b.oid name value named,
        last,
      )
      (elim (Option-cases (value_text b.tag b.value)) [
        | inl none_there ↦ rw none_there refl
        | inr (text, e3) ↦ rw e3 (elim (Option-cases (position oids b.oid)) [
          | inl unknown ↦ rw unknown refl
          | inr (index, e4) ↦ rw e4 refl
        ])
      ])

tlv_cons :
    (tag : ℕ) (value written : Bytes)
    → tlv tag value ≡ some written
    → (rest : Bytes) × (written ≡ tag ∷ rest)
tlv_cons tag value written e = elim (Bool-cases (ltb (length value) 128)) [
  | inl short ↦
      let made = some_injective _ _ (sym (tlv_short tag value (ltb→lt _ _ short)) ∙ e) in
      (length value ∷ value, sym made)
  | inr long ↦ elim (Bool-cases (leb (length value) u16_max)) [
    | inl fits ↦
        let made =
          some_injective _ _ (sym (tlv_long tag value (ltb→ge _ _ long) (leb→le _ _ fits)) ∙ e) in
        (0x82 ∷ length value / 256 ∷ length value % 256 ∷ value, sym made)
    | inr huge ↦ let never = sym (tlv_huge tag value long huge) ∙ e in absurd cc
  ]
]

write_binding_cons :
    (b : Binding) (written : Bytes)
    → write_binding b ≡ some written
    → (rest : Bytes) × (written ≡ 0x30 ∷ rest)
unfolding write_binding
write_binding_cons b written e =
    let (name, (_, e1)) = bind_inversion (tlv 0x06 b.oid) _ written e in
    let (value, (_, e2)) = bind_inversion (tlv b.tag b.value) _ written e1 in
    tlv_cons 0x30 (name ++ value) written e2

response_loop_binding :
    (n : ℕ) (b : Binding) (written more : Bytes) (r : SnmpResult)
    → write_binding b ≡ some written
    → response_loop (suc n) (written ++ more) r
      ≡ (take_binding r b >>= λ r'. response_loop n more r')
unfolding response_loop
response_loop_binding n b written more r e =
    let (rest, shape) = write_binding_cons b written e in
    let step = read_varbind-write_binding b written more r e in
    let front : response_loop (suc n) (written ++ more) r
        ≡ (read_varbind (written ++ more) r >>= λ out. response_loop n out.0 out.1) =
      subst
        (λ w.
          response_loop (suc n) (w ++ more) r
          ≡ (read_varbind (w ++ more) r >>= λ out. response_loop n out.0 out.1))
        (sym shape) refl in
    rw (front, step)
      (elim (Option-cases (take_binding r b)) [
        | inl refused ↦ rw refused refl
        | inr (r', taken) ↦ rw taken refl
      ])

response_loop-write_bindings :
    (n : ℕ) (bs : List Binding) (written : Bytes) (r : SnmpResult)
    → write_bindings bs ≡ some written
    → length bs ≤ n
    → response_loop n written r ≡ take_bindings r bs
unfolding write_bindings response_loop
response_loop-write_bindings n [] written r e few =
    let empty : [] ≡ written = some_injective _ _ e in rw (sym empty) refl
response_loop-write_bindings zero (b ∷ bs) written r e few = absurd (omega arith)
response_loop-write_bindings (suc n) (b ∷ bs) written r e few =
    let (one, (first, e1)) = bind_inversion (write_binding b) _ written e in
    let (more, (later, e2)) = bind_inversion (write_bindings bs) _ written e1 in
    let joined : one ++ more ≡ written = some_injective _ _ e2 in
    rw (sym joined, response_loop_binding n b one more r first)
      (elim (Option-cases (take_binding r b)) [
        | inl refused ↦ rw refused refl
        | inr (r', taken) ↦ rw taken (response_loop-write_bindings n bs more r' later (omega arith))
      ])

-- A response that fits into a packet, to the same request and community, with any error index and
-- at most four bindings of any values, is read as what its bindings say one after another.
pub parse_response-take_bindings :
    (community packet : Bytes) (request_id index : ℕ) (bindings : List Binding)
    → write_response community request_id index bindings ≡ some packet
    → length packet ≤ max_snmp_packet
    → request_id < 4294967296
    → index < 4294967296
    → length bindings ≤ 4
    → parse_response packet community request_id ≡ take_bindings no_result bindings
unfolding write_response parse_response
parse_response-take_bindings community packet request_id index bindings e fits id_fits index_fits
      few =
    let (list, (listed, e1)) = bind_inversion (write_bindings bindings) _ packet e in
    let (vars, (wrapped, e2)) = bind_inversion (tlv 0x30 list) _ packet e1 in
    let (pdu, (made, e3)) =
      bind_inversion (tlv 0xa2 (integer request_id ++ (integer 0 ++ (integer index ++ vars)))) _
        packet e2 in
    let (secret, (hidden, e4)) = bind_inversion (tlv 0x04 community) _ packet e3 in
    rw
      (
        le→ltb max_snmp_packet (length packet) fits,
        read_whole 0x30 (integer 1 ++ (secret ++ pdu)) packet e4,
        read_integer-integer 1 (secret ++ pdu) (omega arith),
        read_bytes-tlv 0x04 community secret pdu hidden,
        bytes_eq_refl community,
        read_whole 0xa2 (integer request_id ++ (integer 0 ++ (integer index ++ vars))) pdu made,
        read_integer-integer request_id (integer 0 ++ (integer index ++ vars)) id_fits,
        ==_refl request_id,
        read_integer-integer 0 (integer index ++ vars) (omega arith),
        read_integer-integer index vars index_fits,
        read_whole 0x30 list vars wrapped,
      )
      (response_loop-write_bindings 4 bindings list no_result listed few)
