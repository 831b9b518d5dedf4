-- ===== src/Packet/Arp.antt =====
-- crates/sensor-passive/src/arp.rs.
use trapd_sensor.Prelude.{
  ℕ, Option, some, [], ◌∷◌, Bytes, Bool, true, ◌&&◌, not, get_elem?, slice, ◌==◌,
}
use trapd_sensor.Packet.{be16, ◌>>=◌, ◌>>◌, guard}

abbrev pub arp_request : ℕ
arp_request = 1

abbrev pub arp_reply : ℕ
arp_reply = 2

pub record ArpPacket : Type 0 where
  pub operation : ℕ
  pub sender_mac : Bytes
  pub sender_ip : Bytes
  pub target_mac : Bytes
  pub target_ip : Bytes

abbrev pub is_request : ArpPacket → Bool
is_request p = p.operation == arp_request

abbrev pub is_reply : ArpPacket → Bool
is_reply p = p.operation == arp_reply

abbrev pub all_zero : Bytes → Bool
all_zero [] = true
all_zero (b ∷ bs) = (b == 0) && all_zero bs

abbrev pub announces_sender : ArpPacket → Bool
announces_sender p = not (all_zero p.sender_ip) && not (all_zero p.sender_mac)

unfoldable pub parse_arp : Bytes → Option ArpPacket
parse_arp packet = do
  htype ← slice packet 0 2
  ptype ← slice packet 2 4
  hlen ← get_elem? packet 4
  plen ← get_elem? packet 5
  guard ((be16 htype == 1) && ((be16 ptype == 2048) && ((hlen == 6) && (plen == 4))))
  operation ← slice packet 6 8
  sender_mac ← slice packet 8 14
  sender_ip ← slice packet 14 18
  target_mac ← slice packet 18 24
  target_ip ← slice packet 24 28
  some (record {
    operation = be16 operation;
    sender_mac = sender_mac;
    sender_ip = sender_ip;
    target_mac = target_mac;
    target_ip = target_ip;
  })
