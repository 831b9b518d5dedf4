-- ===== src/Snmp/Tests.antt =====
-- A request and a response, which meet the hypotheses of the theorems on SNMP.
use trapd_sensor.Prelude.{◌≡◌, map, refl, arith, ◌≤◌, some, List, [], ◌∷◌, Bytes, length}
use trapd_sensor.Snmp.{tlv, integer, or_default}
use trapd_sensor.Snmp.Client.{
  SnmpResult, no_result, sys_name_oid, sys_object_id_oid, oids, build_get_request, request_varbinds,
  value_text, bounded_text, format_oid, oid_loop, max_snmp_packet,
}
use trapd_sensor.Snmp.Requests.{
  read_request, read_request-build_get_request, build_get_request_total,
}
use trapd_sensor.Snmp.Responses.{
  Binding, write_binding, write_bindings, write_response, take_binding, take_bindings,
}
use trapd_sensor.Snmp.Answers.{name, object_id, Field, Said, words, object, said_binding}

abbrev example_community : Bytes
example_community = 0x61 ∷ 0x62 ∷ []

abbrev example_request : Bytes
unfolding build_get_request request_varbinds tlv integer
example_request = or_default (build_get_request example_community 7)

example_request-built : build_get_request example_community 7 ≡ some example_request
unfolding build_get_request request_varbinds tlv integer
example_request-built = refl

read_request-build_get_request_example :
    read_request example_request
    ≡ some (record { version = 1; community = example_community; request_id = 7; names = oids })
read_request-build_get_request_example =
    read_request-build_get_request example_community example_request 7 (omega arith)
      example_request-built

build_get_request_total_example :
    (packet : Bytes) × ((build_get_request example_community 7 ≡ some packet)
      × (length packet ≤ max_snmp_packet))
build_get_request_total_example = build_get_request_total example_community 7 (omega arith)

-- The name ` a\t b `, and an object identifier.
abbrev example_bindings : List Binding
example_bindings =
    record { oid = sys_name_oid; tag = 4; value = 0x20 ∷ 0x61 ∷ 9 ∷ 0x20 ∷ 0x62 ∷ 0x20 ∷ [] }
    ∷ record { oid = sys_object_id_oid; tag = 6; value = 43 ∷ 0x81 ∷ 0x00 ∷ [] }
    ∷ []

abbrev example_result : SnmpResult
example_result = record no_result {
  sys_name = some (0x61 ∷ 0x20 ∷ 0x62 ∷ []);
  sys_object_id = some (0x31 ∷ 0x2e ∷ 0x33 ∷ 0x2e ∷ 0x31 ∷ 0x32 ∷ 0x38 ∷ []);
}

example_bindings-taken : take_bindings no_result example_bindings ≡ some example_result
unfolding take_binding value_text bounded_text format_oid oid_loop
example_bindings-taken = refl

-- The name `a b`, and the object identifier 1.3.6.311.
abbrev example_said : List (Field × Said)
example_said =
    (name, words ((0x61 ∷ []) ∷ (0x62 ∷ []) ∷ []))
    ∷ (
      object_id,
      object 1 3 (record { high = []; low = 6 } ∷ record { high = 2 ∷ []; low = 55 } ∷ []),
    )
    ∷ []

abbrev example_response : Bytes
unfolding write_response write_bindings write_binding tlv integer
example_response = or_default (write_response example_community 7 0 (map said_binding example_said))
