-- ===== src/Packet/Frame.antt =====
-- crates/sensor-passive/src/frame.rs: Ethernet with VLAN tags, IPv4, IPv6, UDP and TCP.
use trapd_sensor.Prelude.{
  ℕ, zero, suc, ◌+◌, ◌*◌, ◌/◌, ◌%◌, min, max, Option, none, some, Bytes, Bool, ◌||◌, ◌&&◌, not,
  get_elem?, drop, slice, slice_from, length, leb, ◌==◌, if◌then◌else◌,
}
use trapd_sensor.Packet.{be16, ◌>>=◌, ◌>>◌, guard}

abbrev pub ethertype_vlan : ℕ
ethertype_vlan = 33024

abbrev pub ethertype_qinq : ℕ
ethertype_qinq = 34984

abbrev pub max_vlan_tags : ℕ
max_vlan_tags = 2

abbrev pub max_ipv6_extension_headers : ℕ
max_ipv6_extension_headers = 8

pub record EthernetFrame : Type 0 where
  pub dst_mac : Bytes
  pub src_mac : Bytes
  pub vlan_id : Option ℕ
  pub ethertype : ℕ
  pub payload : Bytes

abbrev pub is_tag : ℕ → Bool
is_tag ethertype = (ethertype == ethertype_vlan) || (ethertype == ethertype_qinq)

-- What the loop over the tags finds: the outer VLAN, the inner ethertype and the offset behind.
pub record Tags : Type 0 where
  pub vlan_id : Option ℕ
  pub ethertype : ℕ
  pub offset : ℕ

abbrev pub outer : Option ℕ → ℕ → Option ℕ
outer none tci = some (tci % 4096)
outer (some id) tci = some id

-- `fuel` is the number of tags that may still come; with none left a tag is refused.
unfoldable pub vlan_loop : ℕ → Bytes → ℕ → ℕ → Option ℕ → Option Tags
vlan_loop zero packet ethertype offset vlan_id =
    if is_tag ethertype
    then none
    else some (record { vlan_id = vlan_id; ethertype = ethertype; offset = offset })
vlan_loop (suc tags) packet ethertype offset vlan_id =
    let found : Tags = record { vlan_id = vlan_id; ethertype = ethertype; offset = offset } in
    if is_tag ethertype
    then (slice packet offset (offset + 2) >>= λ tci.
        slice packet (offset + 2) (offset + 4) >>= λ next.
        vlan_loop tags packet (be16 next) (offset + 4) (outer vlan_id (be16 tci)))
    else some found

unfoldable pub parse_ethernet : Bytes → Option EthernetFrame
parse_ethernet packet = do
  dst_mac ← slice packet 0 6
  src_mac ← slice packet 6 12
  ethertype ← slice packet 12 14
  tags ← vlan_loop max_vlan_tags packet (be16 ethertype) 14 none
  payload ← slice_from packet tags.offset
  some (record {
    dst_mac = dst_mac;
    src_mac = src_mac;
    vlan_id = tags.vlan_id;
    ethertype = tags.ethertype;
    payload = payload;
  })

pub record IpPacket : Type 0 where
  pub src : Bytes
  pub dst : Bytes
  pub protocol : ℕ
  pub ttl : ℕ
  pub payload : Bytes

unfoldable pub parse_ipv4 : Bytes → Option IpPacket
parse_ipv4 packet = do
  version_ihl ← get_elem? packet 0
  guard (version_ihl / 16 == 4)
  let header_len = version_ihl % 16 * 4
  guard (leb 20 header_len)
  total_len ← slice packet 2 4
  ttl ← get_elem? packet 8
  protocol ← get_elem? packet 9
  src ← slice packet 12 16
  dst ← slice packet 16 20
  payload ← slice packet header_len (min (max (be16 total_len) header_len) (length packet))
  some (record { src = src; dst = dst; protocol = protocol; ttl = ttl; payload = payload })

-- The chain of IPv6 extension headers: the next header, the offset and whether the loop goes on.
pub record Chain6 : Type 0 where
  pub next_header : ℕ
  pub offset : ℕ

abbrev pub is_options : ℕ → Bool
is_options h = (h == 0) || ((h == 43) || (h == 60))

-- One extension header, where there is one.
abbrev pub extension : Bytes → Chain6 → Option Chain6
extension packet at =
    if is_options at.next_header
    then (get_elem? packet at.offset >>= λ next. get_elem? packet (at.offset + 1) >>= λ len.
        some (record { next_header = next; offset = at.offset + (len + 1) * 8 }))
    else if at.next_header == 44
    then (get_elem? packet at.offset >>= λ next.
        slice packet (at.offset + 2) (at.offset + 4) >>= λ fragment.
        guard (be16 fragment / 8 == 0) >>= λ _.
        some (record { next_header = next; offset = at.offset + 8 }))
    else (get_elem? packet at.offset >>= λ next. get_elem? packet (at.offset + 1) >>= λ len.
        some (record { next_header = next; offset = at.offset + (len + 2) * 4 }))

abbrev pub is_extension : ℕ → Bool
is_extension h = is_options h || ((h == 44) || (h == 51))

unfoldable pub extension_loop : ℕ → Bytes → ℕ → Chain6 → Option Chain6
extension_loop zero packet end at = some at
extension_loop (suc left) packet end at =
    let next =
      (extension packet at >>= λ after.
      guard (leb after.offset end) >>= λ _. extension_loop left packet end after) in
    if is_extension at.next_header
    then next
    else if at.next_header == 59
    then some (record at { offset = end })
    else some at

unfoldable pub parse_ipv6 : Bytes → Option IpPacket
parse_ipv6 packet = do
  version ← get_elem? packet 0
  guard (version / 16 == 6)
  payload_len ← slice packet 4 6
  next_header ← get_elem? packet 6
  hop_limit ← get_elem? packet 7
  src ← slice packet 8 24
  dst ← slice packet 24 40
  let end = min (40 + be16 payload_len) (length packet)
  at ←
      extension_loop max_ipv6_extension_headers packet end
        (record { next_header = next_header; offset = 40 })
  guard (not (is_extension at.next_header))
  payload ← slice packet at.offset end
  some (record {
    src = src;
    dst = dst;
    protocol = at.next_header;
    ttl = hop_limit;
    payload = payload;
  })

pub record UdpDatagram : Type 0 where
  pub src_port : ℕ
  pub dst_port : ℕ
  pub payload : Bytes

unfoldable pub parse_udp : Bytes → Option UdpDatagram
parse_udp packet = do
  src_port ← slice packet 0 2
  dst_port ← slice packet 2 4
  len ← slice packet 4 6
  payload ← slice packet 8 (min (max (be16 len) 8) (length packet))
  some (record { src_port = be16 src_port; dst_port = be16 dst_port; payload = payload })

pub record TcpSegment : Type 0 where
  pub src_port : ℕ
  pub dst_port : ℕ
  pub flags : ℕ
  pub window : ℕ
  pub payload : Bytes

abbrev pub is_syn : TcpSegment → Bool
is_syn s = (s.flags / 2 % 2 == 1) && (s.flags / 16 % 2 == 0)

abbrev pub is_syn_ack : TcpSegment → Bool
is_syn_ack s = (s.flags / 2 % 2 == 1) && (s.flags / 16 % 2 == 1)

abbrev pub is_reset : TcpSegment → Bool
is_reset s = s.flags / 4 % 2 == 1

unfoldable pub parse_tcp : Bytes → Option TcpSegment
parse_tcp packet = do
  guard (leb 20 (length packet))
  src_port ← slice packet 0 2
  dst_port ← slice packet 2 4
  offset_byte ← get_elem? packet 12
  let data_offset = offset_byte / 16 * 4
  guard (leb 20 data_offset)
  flags ← get_elem? packet 13
  window ← slice packet 14 16
  some (record {
    src_port = be16 src_port;
    dst_port = be16 dst_port;
    flags = flags;
    window = be16 window;
    payload = drop data_offset packet;
  })
