-- ===== src/Observer/Handlers.antt =====
-- The handlers of `PassiveObserver`, one for each protocol.

use trapd_sensor.Prelude.{
  ℕ, Option, none, some, List, [], ◌∷◌, ◌++◌, map, Bytes, Bool, true, false, not, ◌||◌,
  if◌then◌else◌,
}
use trapd_sensor.Flow.{IpAddr, tcp}
use trapd_sensor.Flow.Observation.{well_known_service}
use trapd_sensor.Config.{PrivacyConfig}
use trapd_sensor.Config.Cidr.{AddressText}
use trapd_sensor.Packet.Frame.{IpPacket}
use trapd_sensor.Packet.Arp.{ArpPacket, parse_arp, announces_sender}
use trapd_sensor.Packet.Ndp.{parse_neighbor_discovery}
use trapd_sensor.Packet.Dns.Message.{
  DnsMessage, DnsQuestion, parse_dns, resolved_addresses, is_nxdomain,
}
use trapd_sensor.Packet.Dns.Services.{advertised_services}
use trapd_sensor.Packet.Dhcp.{DhcpMessage, parse_dhcp, effective_ip, confirms_lease}
use trapd_sensor.Packet.Ssdp.{
  SsdpMessage, parse_ssdp, describes_sender, device_type, server, location,
}
use trapd_sensor.Text.{codes}
use trapd_sensor.Text.Writing.{normalize_mac}
use trapd_sensor.Observed.{
  by_arp, by_ndp, by_dhcp, by_mdns, by_ssdp, by_passive_flow, dhcp_served_by, resolves_via,
  advertises_service, Report, service, dns, dhcp, relationship,
}
use trapd_sensor.Observer.{
  PassiveObserver, allow_key, ip_addr, is_unspecified, is_multicast, is_excluded_domain,
  pseudonymize, qtype_name, response_code_name, is_excluded,
}
use trapd_sensor.Observer.Parts.{
  Handled, colon, seen_asset, if_allowed, or_mac, type_name, map_addr, neighbor, find_host,
  first_question, or_unknown, attribute, ends_of, bool_text,
}

module _ ⦃t : AddressText⦄ where
  open t use {address_text}

  -- `format!("{kind}:{ip}:{rest}")`
  abbrev pub key_of : Bytes → IpAddr → Bytes → Bytes
  key_of kind ip rest = kind ++ (colon ∷ address_text ip) ++ (colon ∷ rest)

  abbrev pub announce : ArpPacket → Option ℕ → ℕ → PassiveObserver → Handled
  announce arp vlan_id now o =
      let ip = ip_addr arp.sender_ip in
      let mac = normalize_mac arp.sender_mac in
      if not (announces_sender arp)
      then ([], o)
      else if is_excluded ip o
      then ([], o)
      else if_allowed (seen_asset o ip (some mac) none vlan_id by_arp ∷ [])
          (allow_key (key_of (codes "arp") ip mac) now o)

  unfoldable pub handle_arp : Bytes → Option ℕ → ℕ → PassiveObserver → Handled
  handle_arp payload vlan_id now o = elim (parse_arp payload) [
    | none ↦ ([], o)
    | some arp ↦ announce arp vlan_id now o
  ]

  abbrev pub meet : IpAddr × Option Bytes → Bytes → Option ℕ → ℕ → PassiveObserver → Handled
  meet (address, option_mac) ethernet_mac vlan_id now o =
      let mac = normalize_mac (or_mac option_mac ethernet_mac) in
      if is_unspecified address || (is_multicast address || is_excluded address o)
      then ([], o)
      else if_allowed (seen_asset o address (some mac) none vlan_id by_ndp ∷ [])
          (allow_key (key_of (codes "ndp") address mac) now o)

  unfoldable pub handle_icmpv6 : IpPacket → Bytes → Option ℕ → ℕ → PassiveObserver → Handled
  handle_icmpv6 ip ethernet_mac vlan_id now o = elim (parse_neighbor_discovery ip.payload) [
    | none ↦ ([], o)
    | some ndp ↦ meet (neighbor ip.src ndp) ethernet_mac vlan_id now o
  ]

  abbrev pub served_by : IpAddr → Option Bytes → List Report
  served_by ip none = []
  served_by ip (some server_ip) =
      relationship (record {
        source_node = address_text ip;
        dest_node = address_text (ip_addr server_ip);
        source_ip = some ip;
        dest_ip = some (ip_addr server_ip);
        edge_type = dhcp_served_by;
        observed_count = 1;
        attributes = [];
      })
      ∷ []

  -- A confirmed lease is an asset too.
  abbrev pub lease_reports : DhcpMessage → Option IpAddr → Option ℕ → PassiveObserver → List Report
  lease_reports msg none vlan_id o = []
  lease_reports msg (some ip) vlan_id o =
      if confirms_lease msg.message_type
      then seen_asset o ip (some (normalize_mac msg.client_mac)) msg.hostname vlan_id by_dhcp
        ∷ served_by ip msg.server_ip
      else []

  abbrev pub dhcp_report : DhcpMessage → Report
  dhcp_report msg = dhcp (record {
    mac = normalize_mac msg.client_mac;
    assigned_ip = map_addr (effective_ip msg);
    server_ip = map_addr msg.server_ip;
    hostname = msg.hostname;
    vendor_class = msg.vendor_class;
    param_request_list = msg.param_request_list;
    message_type = type_name msg.message_type;
    lease_seconds = msg.lease_seconds;
  })

  unfoldable pub handle_dhcp : Bytes → Option ℕ → ℕ → PassiveObserver → Handled
  handle_dhcp payload vlan_id now o = elim (parse_dhcp payload) [
    | none ↦ ([], o)
    | some msg ↦
        if_allowed (dhcp_report msg ∷ lease_reports msg (map_addr (effective_ip msg)) vlan_id o) (
          allow_key
            (codes "dhcp:" ++ normalize_mac msg.client_mac ++ (colon ∷ type_name msg.message_type))
            now o)
  ]

  abbrev pub service_report : IpAddr → Bytes → Report
  service_report src name = relationship (record {
    source_node = address_text src;
    dest_node = name;
    source_ip = some src;
    dest_ip = none;
    edge_type = advertises_service;
    observed_count = 1;
    attributes = [];
  })

  abbrev pub behind_reports : List Report → Handled → Handled
  behind_reports before (out, o) = (before ++ out, o)

  -- The loop over the advertised services.
  unfoldable pub service_loop : IpAddr → List Bytes → ℕ → PassiveObserver → Handled
  service_loop src [] now o = ([], o)
  service_loop src (name ∷ names) now o =
      let (out, o') =
        if_allowed (service_report src name ∷ [])
          (allow_key (key_of (codes "mdns") src name) now o) in
      behind_reports out (service_loop src names now o')

  abbrev pub own_name : IpAddr → Option Bytes → Option ℕ → ℕ → PassiveObserver → Handled
  own_name src none vlan_id now o = ([], o)
  own_name src (some hostname) vlan_id now o =
      if_allowed (seen_asset o src none (some hostname) vlan_id by_mdns ∷ [])
        (allow_key (key_of (codes "mdns-host") src hostname) now o)

  abbrev pub mdns_message : DnsMessage → IpAddr → Option ℕ → ℕ → PassiveObserver → Handled
  mdns_message msg src vlan_id now o =
      let (out, o') = service_loop src (advertised_services msg) now o in
      behind_reports out (own_name src (find_host msg.answers) vlan_id now o')

  unfoldable pub handle_mdns : Bytes → IpAddr → Option ℕ → ℕ → PassiveObserver → Handled
  handle_mdns payload src vlan_id now o = elim (parse_dns payload) [
    | none ↦ ([], o)
    | some msg ↦ if msg.is_response then mdns_message msg src vlan_id now o else ([], o)
  ]

  abbrev pub ssdp_report : IpAddr → Bytes → SsdpMessage → Report
  ssdp_report src type msg = relationship (record {
    source_node = address_text src;
    dest_node = type;
    source_ip = some src;
    dest_ip = none;
    edge_type = advertises_service;
    observed_count = 1;
    attributes =
        (codes "device_type", type) ∷ attribute (codes "server") (server msg)
        ++ attribute (codes "location") (location msg);
  })

  abbrev pub ssdp_message : SsdpMessage → Bytes → IpAddr → Option ℕ → ℕ → PassiveObserver → Handled
  ssdp_message msg type src vlan_id now o =
      if describes_sender msg.kind
      then if_allowed (seen_asset o src none none vlan_id by_ssdp ∷ ssdp_report src type msg ∷ [])
          (allow_key (key_of (codes "ssdp") src type) now o)
      else ([], o)

  unfoldable pub handle_ssdp : Bytes → IpAddr → Option ℕ → ℕ → PassiveObserver → Handled
  handle_ssdp payload src vlan_id now o = elim (parse_ssdp payload) [
    | none ↦ ([], o)
    | some msg ↦ ssdp_message msg (or_unknown (device_type msg)) src vlan_id now o
  ]

  -- What is said of a query: its name or its pseudonym, and its answers if they may be stored.
  abbrev pub dns_report : PrivacyConfig → DnsMessage → DnsQuestion → IpAddr → IpAddr → Report
  dns_report privacy msg question client server_ip = dns (record {
    query_name = if privacy.hash_dns_names then pseudonymize question.name else question.name;
    query_name_hashed = privacy.hash_dns_names;
    query_type = some (qtype_name question.qtype);
    response_code = if msg.is_response then some (response_code_name msg.response_code) else none;
    client_ip = some client;
    server_ip = some server_ip;
    resolved_ips = if privacy.store_dns_answers then map ip_addr (resolved_addresses msg) else [];
    answer_count = msg.answer_count;
    is_nxdomain = is_nxdomain msg;
  })

  abbrev pub resolver_report : IpAddr → IpAddr → Report
  resolver_report client server_ip = relationship (record {
    source_node = address_text client;
    dest_node = address_text server_ip;
    source_ip = some client;
    dest_ip = some server_ip;
    edge_type = resolves_via;
    observed_count = 1;
    attributes = [];
  })

  abbrev pub resolver_of : Bool → IpAddr → IpAddr → ℕ → PassiveObserver → Handled
  resolver_of false client server_ip now o = ([], o)
  resolver_of true client server_ip now o =
      if_allowed (resolver_report client server_ip ∷ [])
        (allow_key (key_of (codes "resolver") client (address_text server_ip)) now o)

  -- Behind `self.suppression.allow(&key, now)`.
  abbrev pub after_query :
      DnsMessage → DnsQuestion → IpAddr × IpAddr → ℕ → Bool × PassiveObserver → Handled
  after_query msg question (client, server_ip) now (false, o) = ([], o)
  after_query msg question (client, server_ip) now (true, o) =
      behind_reports (dns_report o.policy.privacy msg question client server_ip ∷ [])
        (resolver_of msg.is_response client server_ip now o)

  abbrev pub dns_query : DnsMessage → Option DnsQuestion → IpPacket → ℕ → PassiveObserver → Handled
  dns_query msg none ip now o = ([], o)
  dns_query msg (some question) ip now o =
      let ends = ends_of msg.is_response ip in
      if is_excluded_domain question.name o.policy.privacy.dns_exclude_domains
      then ([], o)
      else after_query msg question ends now (
          allow_key
            (key_of (codes "dns") ends.0 (question.name ++ (colon ∷ bool_text msg.is_response))) now
            o)

  unfoldable pub handle_dns : Bytes → IpPacket → ℕ → PassiveObserver → Handled
  handle_dns payload ip now o = elim (parse_dns payload) [
    | none ↦ ([], o)
    | some msg ↦ dns_query msg (first_question msg.questions) ip now o
  ]

  abbrev pub open_service : IpPacket → ℕ → Report
  open_service ip port = service (record {
    ip = ip_addr ip.src;
    port = port;
    protocol = tcp;
    service = well_known_service port tcp;
    banner = none;
    method = by_passive_flow;
  })
