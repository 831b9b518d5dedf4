-- ===== src/Observer/Frames.antt =====
-- From a frame to the handlers: `handle_frame`, `handle_ip`, `handle_udp` and the flow table.
use trapd_sensor.Prelude.{
  ℕ, ◌+◌, Option, none, some, [], ◌∷◌, map, Bytes, Bool, not, ◌&&◌, ◌||◌, length, ◌==◌,
  if◌then◌else◌,
}
use trapd_sensor.Flow.{
  IpAddr, TransportProtocol, udp, tcp, icmp, FlowKey, FlowState, normalized, observe, expire,
  drain_all,
}
use trapd_sensor.Flow.Observation.{to_observation}
use trapd_sensor.Config.Cidr.{AddressText}
use trapd_sensor.Packet.Frame.{
  EthernetFrame, IpPacket, UdpDatagram, TcpSegment, parse_ethernet, parse_ipv4, parse_ipv6,
  parse_udp, parse_tcp, is_syn_ack,
}
use trapd_sensor.Packet.Ssdp.{ssdp_port}
use trapd_sensor.Observed.{Report, flow}
use trapd_sensor.Observer.{PassiveObserver, allow_key, ip_addr, is_excluded, prune}
use trapd_sensor.Observer.Handlers.{
  key_of, handle_arp, handle_icmpv6, handle_dhcp, handle_mdns, handle_ssdp, handle_dns,
  open_service,
}
use trapd_sensor.Observer.Parts.{Handled, if_allowed}
use trapd_sensor.Text.{codes}
use trapd_sensor.Text.Writing.{decimal_text}

abbrev pub ethertype_arp : ℕ
ethertype_arp = 0x0806

abbrev pub ethertype_ipv4 : ℕ
ethertype_ipv4 = 0x0800

abbrev pub ethertype_ipv6 : ℕ
ethertype_ipv6 = 0x86dd

abbrev pub ip_proto_icmp : ℕ
ip_proto_icmp = 1

abbrev pub ip_proto_tcp : ℕ
ip_proto_tcp = 6

abbrev pub ip_proto_udp : ℕ
ip_proto_udp = 17

abbrev pub ip_proto_icmpv6 : ℕ
ip_proto_icmpv6 = 58

abbrev pub dhcp_server_port : ℕ
dhcp_server_port = 67

abbrev pub dhcp_client_port : ℕ
dhcp_client_port = 68

abbrev pub dns_port : ℕ
dns_port = 53

abbrev pub mdns_port : ℕ
mdns_port = 5353

-- `record_flow`
unfoldable pub record_flow :
    IpAddr → ℕ → IpAddr → ℕ → TransportProtocol → ℕ → ℕ → PassiveObserver → PassiveObserver
record_flow src src_port dst dst_port protocol bytes now o =
    if not o.policy.passive.flows then o else record o {
      flows = observe o.flows (normalized src src_port dst dst_port protocol) bytes now;
    }

abbrev pub uses_port : ℕ → UdpDatagram → Bool
uses_port port d = (d.src_port == port) || (d.dst_port == port)

-- A handler, and the flow recorded behind it.
abbrev pub with_flow : IpPacket → ℕ → ℕ → TransportProtocol → ℕ → ℕ → Handled → Handled
with_flow ip src_port dst_port protocol bytes now (out, o) =
    (out, record_flow (ip_addr ip.src) src_port (ip_addr ip.dst) dst_port protocol bytes now o)

module _ ⦃t : AddressText⦄ where
  unfoldable pub handle_udp : IpPacket → UdpDatagram → Option ℕ → ℕ → PassiveObserver → Handled
  handle_udp ip d vlan_id now o =
      let src = ip_addr ip.src in
      if o.policy.passive.dhcp && (uses_port dhcp_server_port d || uses_port dhcp_client_port d)
      then handle_dhcp d.payload vlan_id now o
      else if o.policy.passive.mdns && uses_port mdns_port d
      then handle_mdns d.payload src vlan_id now o
      else if o.policy.passive.ssdp && uses_port ssdp_port d
      then handle_ssdp d.payload src vlan_id now o
      else if o.policy.passive.dns && uses_port dns_port d
      then handle_dns d.payload ip now o
      else ([], o)

  abbrev pub udp_packet :
      IpPacket → Option ℕ → ℕ → ℕ → PassiveObserver → Option UdpDatagram → Handled
  udp_packet ip vlan_id bytes now o none = ([], o)
  udp_packet ip vlan_id bytes now o (some d) =
      with_flow ip d.src_port d.dst_port udp bytes now (handle_udp ip d vlan_id now o)

  -- An open port shows itself by a SYN-ACK.
  abbrev pub syn_ack : IpPacket → TcpSegment → ℕ → PassiveObserver → Handled
  syn_ack ip s now o =
      if is_syn_ack s
      then if_allowed (open_service ip s.src_port ∷ [])
          (allow_key (key_of (codes "svc") (ip_addr ip.src) (decimal_text s.src_port)) now o)
      else ([], o)

  abbrev pub tcp_packet : IpPacket → ℕ → ℕ → PassiveObserver → Option TcpSegment → Handled
  tcp_packet ip bytes now o none = ([], o)
  tcp_packet ip bytes now o (some s) =
      with_flow ip s.src_port s.dst_port tcp bytes now (syn_ack ip s now o)

  unfoldable pub handle_ip : IpPacket → Bytes → Option ℕ → ℕ → ℕ → PassiveObserver → Handled
  handle_ip ip source_mac vlan_id bytes now o =
      if is_excluded (ip_addr ip.src) o || is_excluded (ip_addr ip.dst) o
      then ([], o)
      else if ip.protocol == ip_proto_udp
      then udp_packet ip vlan_id bytes now o (parse_udp ip.payload)
      else if ip.protocol == ip_proto_tcp
      then tcp_packet ip bytes now o (parse_tcp ip.payload)
      else if ip.protocol == ip_proto_icmpv6
      then with_flow ip 0 0 icmp bytes now (handle_icmpv6 ip source_mac vlan_id now o)
      else if ip.protocol == ip_proto_icmp
      then with_flow ip 0 0 icmp bytes now ([], o)
      else ([], o)

  abbrev pub ip_packet : EthernetFrame → ℕ → ℕ → PassiveObserver → Option IpPacket → Handled
  ip_packet frame bytes now o none = ([], o)
  ip_packet frame bytes now o (some ip) = handle_ip ip frame.src_mac frame.vlan_id bytes now o

  abbrev pub arp_frame : EthernetFrame → ℕ → PassiveObserver → Handled
  arp_frame frame now o =
      if o.policy.passive.arp then handle_arp frame.payload frame.vlan_id now o else ([], o)

  -- The `match` on the ethertype.
  unfoldable pub handle_payload : EthernetFrame → ℕ → ℕ → PassiveObserver → Handled
  handle_payload frame bytes now o =
      if frame.ethertype == ethertype_arp
      then arp_frame frame now o
      else if frame.ethertype == ethertype_ipv4
      then ip_packet frame bytes now o (parse_ipv4 frame.payload)
      else if frame.ethertype == ethertype_ipv6
      then ip_packet frame bytes now o (parse_ipv6 frame.payload)
      else ([], o)

  abbrev pub parsed : ℕ → ℕ → PassiveObserver → Option EthernetFrame → Handled
  parsed bytes now o none = ([], o)
  parsed bytes now o (some frame) =
      handle_payload frame bytes now (record o { packets_parsed = o.packets_parsed + 1 })

  unfoldable pub handle_frame : Bytes → ℕ → PassiveObserver → Handled
  handle_frame frame now o =
      parsed (length frame) now (record o { packets_seen = o.packets_seen + 1 })
        (parse_ethernet frame)

abbrev pub flow_report : FlowKey × FlowState → Report
flow_report (key, state) = flow (to_observation key state)

-- The flows whose window is over.
unfoldable pub expire_flows : ℕ → PassiveObserver → Handled
expire_flows now o =
    let (expired, table) = expire o.flows now in
    (map flow_report expired, record o { flows = table; suppression = prune now o.suppression })

unfoldable pub drain : PassiveObserver → Handled
drain o =
    let (expired, table) = drain_all o.flows in
    (map flow_report expired, record o { flows = table })
