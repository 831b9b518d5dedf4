-- ===== src/Observer/Watching.antt =====
-- The observer over a whole life: frames, expiries and the drain at the end.
use trapd_sensor.Prelude.{
  refl, sym, ap, ◌∙◌, arith, ℕ, Option, none, some, List, [], ◌∷◌, map, Bytes, Bool, true, false,
  not, ◌&&◌, ◌||◌, All, length, ◌==◌, if◌then◌else◌,
}
use trapd_sensor.Flow.{
  IpAddr, FlowKey, FlowState, TransportProtocol, udp, tcp, icmp, normalized, expire,
}
use trapd_sensor.Flow.Observation.{to_observation}
use trapd_sensor.Config.Cidr.{AddressText}
use trapd_sensor.Config.Policy.{EffectivePolicy}
use trapd_sensor.Packet.Frame.{
  EthernetFrame, IpPacket, UdpDatagram, TcpSegment, parse_ethernet, parse_ipv4, parse_ipv6,
  parse_udp, parse_tcp, is_syn_ack,
}
use trapd_sensor.Packet.Ssdp.{ssdp_port}
use trapd_sensor.Observer.{PassiveObserver, new_observer, allow_key, ip_addr, is_excluded, prune}
use trapd_sensor.Observer.Handlers.{behind_reports, key_of}
use trapd_sensor.Observer.Parts.{Handled}
use trapd_sensor.Observer.Frames.{
  ethertype_arp, ethertype_ipv4, ethertype_ipv6, ip_proto_udp, ip_proto_tcp, ip_proto_icmpv6,
  ip_proto_icmp, dhcp_server_port, dhcp_client_port, mdns_port, dns_port, uses_port, record_flow,
  with_flow, handle_udp, udp_packet, tcp_packet, handle_ip, ip_packet, handle_payload, parsed,
  handle_frame, flow_report, expire_flows, drain,
}
use trapd_sensor.Observer.Privacy.{
  Allowed, AllowedKey, IsPrivate, KeepsPrivate, Handles, nothing-Handles, allow_key-Keeps,
  if_allowed-Handles, behind_reports-Handles, normalized-Allowed, observe-Keeps, expire_loop-keys,
  retain_recent-length,
}
use trapd_sensor.Observer.Handling.{
  if-Handles, Allowed-by, or_false, and_true, handle_arp-Handles, handle_icmpv6-Handles,
  handle_dhcp-Handles, handle_mdns-Handles, handle_ssdp-Handles, handle_dns-Handles,
}
use trapd_sensor.Text.{codes}
use trapd_sensor.Text.Writing.{decimal_text}

-- What happens to an observer.
pub data Occasion : Type 0 where
  frame : Bytes → ℕ → Occasion
  expiry : ℕ → Occasion
  shutdown : Occasion

module _ ⦃t : AddressText⦄ where
  abbrev pub react : Occasion → PassiveObserver → Handled
  react (frame bytes now) o = handle_frame bytes now o
  react (expiry now) o = expire_flows now o
  react shutdown o = drain o

  unfoldable pub watch : List Occasion → PassiveObserver → Handled
  watch [] o = ([], o)
  watch (occasion ∷ occasions) o =
      let (out, o') = react occasion o in behind_reports out (watch occasions o')

module _ ⦃t : AddressText⦄ (policy : EffectivePolicy) where
  if_keeps :
      {x y : PassiveObserver} (b : Bool)
      → KeepsPrivate policy x
      → KeepsPrivate policy y
      → KeepsPrivate policy (if b then x else y)
  if_keeps true k l = k
  if_keeps false k l = l

  record_flow-Keeps :
      (src : IpAddr) (src_port : ℕ) (dst : IpAddr) (dst_port : ℕ) (protocol : TransportProtocol)
      (bytes now : ℕ) (o : PassiveObserver)
      → Allowed policy src
      → Allowed policy dst
      → KeepsPrivate policy o
      → KeepsPrivate policy (record_flow src src_port dst dst_port protocol bytes now o)
  unfolding record_flow
  record_flow-Keeps src src_port dst dst_port protocol bytes now o s d k =
      if_keeps (not o.policy.passive.flows) k (
        observe-Keeps (normalized src src_port dst dst_port protocol) bytes now
          (normalized-Allowed policy src src_port dst dst_port protocol s d) k)

  with_flow-Handles :
      (ip : IpPacket) (src_port dst_port : ℕ) (protocol : TransportProtocol) (bytes now : ℕ)
      (h : Handled)
      → Allowed policy (ip_addr ip.src)
      → Allowed policy (ip_addr ip.dst)
      → Handles policy h
      → Handles policy (with_flow ip src_port dst_port protocol bytes now h)
  with_flow-Handles ip src_port dst_port protocol bytes now (out, o) s d r = record {
    reports = r.reports;
    keeps =
        record_flow-Keeps (ip_addr ip.src) src_port (ip_addr ip.dst) dst_port protocol bytes now o s
          d r.keeps;
  }

  handle_udp-Handles :
      (ip : IpPacket) (d : UdpDatagram) (vlan_id : Option ℕ) (now : ℕ) (o : PassiveObserver)
      → Allowed policy (ip_addr ip.src)
      → Allowed policy (ip_addr ip.dst)
      → KeepsPrivate policy o
      → Handles policy (handle_udp ip d vlan_id now o)
  unfolding handle_udp
  handle_udp-Handles ip d vlan_id now o a b k =
      let src = ip_addr ip.src in
      if-Handles policy
        (o.policy.passive.dhcp && (uses_port dhcp_server_port d || uses_port dhcp_client_port d))
        (λ dhcp.
          handle_dhcp-Handles policy d.payload vlan_id now o
            (ap (λ (p : EffectivePolicy). p.passive.dhcp) (sym k.same_policy) ∙ (and_true dhcp).0)
            k)
        (λ _.
          if-Handles policy (o.policy.passive.mdns && uses_port mdns_port d)
            (λ _. handle_mdns-Handles policy d.payload src vlan_id now o a k)
            (λ _.
              if-Handles policy (o.policy.passive.ssdp && uses_port ssdp_port d)
                (λ _. handle_ssdp-Handles policy d.payload src vlan_id now o a k)
                (λ _.
                  if-Handles policy (o.policy.passive.dns && uses_port dns_port d)
                    (λ dns.
                      handle_dns-Handles policy d.payload ip now o
                        (ap (λ (p : EffectivePolicy). p.passive.dns) (sym k.same_policy)
                          ∙ (and_true dns).0)
                        a b k)
                    (λ _. nothing-Handles k))))

  udp_packet-Handles :
      (ip : IpPacket) (vlan_id : Option ℕ) (bytes now : ℕ) (o : PassiveObserver)
      (d : Option UdpDatagram)
      → Allowed policy (ip_addr ip.src)
      → Allowed policy (ip_addr ip.dst)
      → KeepsPrivate policy o
      → Handles policy (udp_packet ip vlan_id bytes now o d)
  udp_packet-Handles ip vlan_id bytes now o none a b k = nothing-Handles k
  udp_packet-Handles ip vlan_id bytes now o (some d) a b k =
      with_flow-Handles ip d.src_port d.dst_port udp bytes now _ a b
        (handle_udp-Handles ip d vlan_id now o a b k)

  tcp_packet-Handles :
      (ip : IpPacket) (bytes now : ℕ) (o : PassiveObserver) (s : Option TcpSegment)
      → Allowed policy (ip_addr ip.src)
      → Allowed policy (ip_addr ip.dst)
      → KeepsPrivate policy o
      → Handles policy (tcp_packet ip bytes now o s)
  tcp_packet-Handles ip bytes now o none a b k = nothing-Handles k
  tcp_packet-Handles ip bytes now o (some s) a b k =
      let key = key_of (codes "svc") (ip_addr ip.src) (decimal_text s.src_port) in
      with_flow-Handles ip s.src_port s.dst_port tcp bytes now _ a b (
        if-Handles policy (is_syn_ack s)
          (λ _. if_allowed-Handles _ (allow_key key now o) (a, tt) (allow_key-Keeps key now k))
          (λ _. nothing-Handles k))

  handle_ip-Handles :
      (ip : IpPacket) (source_mac : Bytes) (vlan_id : Option ℕ) (bytes now : ℕ)
      (o : PassiveObserver)
      → KeepsPrivate policy o
      → Handles policy (handle_ip ip source_mac vlan_id bytes now o)
  unfolding handle_ip
  handle_ip-Handles ip source_mac vlan_id bytes now o k =
      if-Handles policy (is_excluded (ip_addr ip.src) o || is_excluded (ip_addr ip.dst) o)
        (λ _. nothing-Handles k)
        (λ fit.
          let a = Allowed-by policy (ip_addr ip.src) k (or_false fit).0 in
          let b = Allowed-by policy (ip_addr ip.dst) k (or_false fit).1 in
          if-Handles policy (ip.protocol == ip_proto_udp)
            (λ _. udp_packet-Handles ip vlan_id bytes now o (parse_udp ip.payload) a b k)
            (λ _.
              if-Handles policy (ip.protocol == ip_proto_tcp)
                (λ _. tcp_packet-Handles ip bytes now o (parse_tcp ip.payload) a b k)
                (λ _.
                  if-Handles policy (ip.protocol == ip_proto_icmpv6)
                    (λ _.
                      with_flow-Handles ip 0 0 icmp bytes now _ a b
                        (handle_icmpv6-Handles policy ip source_mac vlan_id now o k))
                    (λ _.
                      if-Handles policy (ip.protocol == ip_proto_icmp)
                        (λ _.
                          with_flow-Handles ip 0 0 icmp bytes now ([], o) a b (nothing-Handles k))
                        (λ _. nothing-Handles k)))))

  ip_packet-Handles :
      (f : EthernetFrame) (bytes now : ℕ) (o : PassiveObserver) (ip : Option IpPacket)
      → KeepsPrivate policy o
      → Handles policy (ip_packet f bytes now o ip)
  ip_packet-Handles f bytes now o none k = nothing-Handles k
  ip_packet-Handles f bytes now o (some ip) k =
      handle_ip-Handles ip f.src_mac f.vlan_id bytes now o k

  handle_payload-Handles :
      (f : EthernetFrame) (bytes now : ℕ) (o : PassiveObserver)
      → KeepsPrivate policy o
      → Handles policy (handle_payload f bytes now o)
  unfolding handle_payload
  handle_payload-Handles f bytes now o k =
      if-Handles policy (f.ethertype == ethertype_arp)
        (λ _.
          if-Handles policy o.policy.passive.arp
            (λ _. handle_arp-Handles policy f.payload f.vlan_id now o k) (λ _. nothing-Handles k))
        (λ _.
          if-Handles policy (f.ethertype == ethertype_ipv4)
            (λ _. ip_packet-Handles f bytes now o (parse_ipv4 f.payload) k)
            (λ _.
              if-Handles policy (f.ethertype == ethertype_ipv6)
                (λ _. ip_packet-Handles f bytes now o (parse_ipv6 f.payload) k)
                (λ _. nothing-Handles k)))

  parsed-Handles :
      (bytes now : ℕ) (o : PassiveObserver) (f : Option EthernetFrame)
      → KeepsPrivate policy o
      → Handles policy (parsed bytes now o f)
  parsed-Handles bytes now o none k = nothing-Handles k
  parsed-Handles bytes now o (some f) k =
      handle_payload-Handles f bytes now _
        (record { same_policy = k.same_policy; tracked = k.tracked; bounded = k.bounded })

  flow_reports-IsPrivate :
      (flows : List (FlowKey × FlowState))
      → All (λ entry. AllowedKey policy entry.0) flows
      → All (IsPrivate policy) (map flow_report flows)
  unfolding to_observation
  flow_reports-IsPrivate [] h = tt
  flow_reports-IsPrivate ((key, state) ∷ flows) (h, hs) = (h, flow_reports-IsPrivate flows hs)

  react-Handles :
      (occasion : Occasion) (o : PassiveObserver)
      → KeepsPrivate policy o
      → Handles policy (react occasion o)
  unfolding handle_frame expire_flows drain expire prune
  react-Handles (frame bytes now) o k =
      parsed-Handles (length bytes) now _ (parse_ethernet bytes)
        (record { same_policy = k.same_policy; tracked = k.tracked; bounded = k.bounded })
  react-Handles (expiry now) o k =
      let (gone, left) =
        expire_loop-keys (AllowedKey policy) o.flows.window_secs now o.flows.flows k.tracked in
      record {
        reports = flow_reports-IsPrivate _ gone;
        keeps = record {
          same_policy = k.same_policy;
          tracked = left;
          bounded = omega (
            arith,
            k.bounded,
            retain_recent-length o.suppression.ttl_secs now o.suppression.seen,
          );
        };
      }
  react-Handles shutdown o k = record {
    reports = flow_reports-IsPrivate o.flows.flows k.tracked;
    keeps = record { same_policy = k.same_policy; tracked = tt; bounded = k.bounded };
  }

  watch-Keeps :
      (occasions : List Occasion) (o : PassiveObserver)
      → KeepsPrivate policy o
      → Handles policy (watch occasions o)
  unfolding watch
  watch-Keeps [] o k = nothing-Handles k
  watch-Keeps (occasion ∷ occasions) o k =
      let r = react-Handles occasion o k in
      behind_reports-Handles _ _ r.reports (watch-Keeps occasions (react occasion o).1 r.keeps)

  -- Over any frames, expiries and drains, an observer reports no client that the policy excludes,
  -- neither as an asset or a service nor as an end of a flow, a DNS query or a relationship, except
  -- in what it learns from a DHCP message; it reports DHCP messages and DNS queries only where the
  -- policy observes them, no query for an excluded domain, the query's pseudonym in place of its
  -- name where names are hashed, and no answers unless they may be stored. What it holds stays
  -- within this: it tracks flows of allowed clients alone, and the cache of what was reported has
  -- at most 20000 entries.
  pub watch-Handles :
      (interface : Bytes) (flow_window_secs max_flows : ℕ) (occasions : List Occasion)
      → Handles policy (watch occasions (new_observer interface policy flow_window_secs max_flows))
  watch-Handles interface flow_window_secs max_flows occasions =
      watch-Keeps occasions (new_observer interface policy flow_window_secs max_flows)
        (record { same_policy = refl; tracked = tt; bounded = omega arith })
