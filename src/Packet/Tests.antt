-- ===== src/Packet/Tests.antt =====
-- The parsers' theorems at concrete packets.
use trapd_sensor.Prelude.{arith, ◌≡◌, refl, [], ◌∷◌, ◌++◌, Bytes, some}
use trapd_sensor.Packet.Frame.{EthernetFrame, IpPacket, parse_ethernet, vlan_loop}
use trapd_sensor.Packet.Arp.{ArpPacket, parse_arp}
use trapd_sensor.Packet.ArpRoundTrip.{ArpSizes, write_arp, parse_arp-write_arp}
use trapd_sensor.Packet.Safety.{Unwrapped, parse_ethernet-Unwrapped}

abbrev mac : Bytes
mac = 0 ∷ 17 ∷ 34 ∷ 51 ∷ 68 ∷ 85 ∷ []

-- VLAN 100, IPv4.
abbrev tagged : Bytes
tagged = mac ++ (mac ++ (129 ∷ 0 ∷ 0 ∷ 100 ∷ 8 ∷ 0 ∷ 190 ∷ 239 ∷ []))

abbrev untagged : EthernetFrame
untagged = record {
  dst_mac = mac;
  src_mac = mac;
  vlan_id = some 100;
  ethertype = 2048;
  payload = 190 ∷ 239 ∷ [];
}

parse_tagged : parse_ethernet tagged ≡ some untagged
unfolding parse_ethernet vlan_loop
parse_tagged = refl

vlan_example : Unwrapped tagged untagged
vlan_example = parse_ethernet-Unwrapped tagged untagged parse_tagged

abbrev address : Bytes
address = 254 ∷ 128 ∷ 0 ∷ 0 ∷ 0 ∷ 0 ∷ 0 ∷ 0 ∷ 0 ∷ 0 ∷ 0 ∷ 0 ∷ 0 ∷ 0 ∷ 0 ∷ 1 ∷ []

-- A hop-by-hop header, then UDP.
abbrev with_options : Bytes
with_options =
    (96 ∷ 0 ∷ 0 ∷ 0 ∷ 0 ∷ 10 ∷ 0 ∷ 64 ∷ [])
    ++ (address ++ (address ++ (17 ∷ 0 ∷ 0 ∷ 0 ∷ 0 ∷ 0 ∷ 0 ∷ 0 ∷ 1 ∷ 2 ∷ [])))

abbrev udp_packet : IpPacket
udp_packet = record { src = address; dst = address; protocol = 17; ttl = 64; payload = 1 ∷ 2 ∷ [] }

abbrev question : ArpPacket
question = record {
  operation = 1;
  sender_mac = mac;
  sender_ip = 10 ∷ 0 ∷ 0 ∷ 1 ∷ [];
  target_mac = 0 ∷ 0 ∷ 0 ∷ 0 ∷ 0 ∷ 0 ∷ [];
  target_ip = 10 ∷ 0 ∷ 0 ∷ 2 ∷ [];
}

question-ArpSizes : ArpSizes question
question-ArpSizes = record {
  operation_fits = omega arith;
  sender_mac_len = refl;
  sender_ip_len = refl;
  target_mac_len = refl;
  target_ip_len = refl;
}

arp_example : parse_arp (write_arp question (0 ∷ 0 ∷ [])) ≡ some question
arp_example = parse_arp-write_arp question (0 ∷ 0 ∷ []) question-ArpSizes
