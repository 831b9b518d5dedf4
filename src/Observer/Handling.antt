-- ===== src/Observer/Handling.antt =====
-- The handlers of crates/sensor-passive/src/observer.rs: each respects the privacy policy.
use trapd_sensor.Prelude.{
  ◌≡◌, ◌⊎◌, refl, sym, subst, inl, inr, ℕ, Option, none, some, List, [], ◌∷◌, ◌++◌, Bytes, Bool,
  true, false, not, ◌&&◌, ◌||◌, All, Option-cases, if◌then◌else◌,
}
use trapd_sensor.Flow.{IpAddr}
use trapd_sensor.Config.Cidr.{AddressText}
use trapd_sensor.Config.Policy.{EffectivePolicy}
use trapd_sensor.Packet.Frame.{IpPacket}
use trapd_sensor.Packet.Arp.{ArpPacket, parse_arp, announces_sender}
use trapd_sensor.Packet.Ndp.{parse_neighbor_discovery}
use trapd_sensor.Packet.Dns.Message.{DnsMessage, DnsQuestion, parse_dns}
use trapd_sensor.Packet.Dns.Services.{advertised_services}
use trapd_sensor.Packet.Dhcp.{DhcpMessage, parse_dhcp, effective_ip, confirms_lease}
use trapd_sensor.Packet.Ssdp.{SsdpMessage, parse_ssdp, describes_sender, device_type}
use trapd_sensor.Text.{codes}
use trapd_sensor.Observed.{Report}
use trapd_sensor.Text.Writing.{normalize_mac}
use trapd_sensor.Observer.{
  PassiveObserver, allow_key, ip_addr, is_unspecified, is_multicast, is_excluded_domain,
  is_excluded_client, is_excluded,
}
use trapd_sensor.Observer.Handlers.{
  key_of, announce, handle_arp, meet, handle_icmpv6, served_by, lease_reports, handle_dhcp,
  service_report, service_loop, own_name, handle_mdns, ssdp_message, handle_ssdp, dns_report,
  resolver_of, after_query, dns_query, handle_dns,
}
use trapd_sensor.Observer.Parts.{
  Handled, if_allowed, neighbor, or_mac, map_addr, type_name, colon, find_host, or_unknown,
  first_question, ends_of, bool_text,
}
use trapd_sensor.Observer.Privacy.{
  Allowed, IsPrivate, KeepsPrivate, Handles, nothing-Handles, allow_key-Keeps, if_allowed-Handles,
  behind_reports-Handles,
}

pub or_false : {a b : Bool} → (a || b) ≡ false → (a ≡ false) × (b ≡ false)
or_false {a = true} {b} h = cc
or_false {a = false} {b} h = (refl, h)

pub and_true : {a b : Bool} → (a && b) ≡ true → (a ≡ true) × (b ≡ true)
and_true {a = true} {b} h = (refl, h)
and_true {a = false} {b} h = cc

stored_or_none :
    (store : Bool) (ips : List IpAddr) → (store ≡ true) ⊎ ((if store then ips else []) ≡ [])
stored_or_none true ips = inl refl
stored_or_none false ips = inr refl

module _ ⦃t : AddressText⦄ (policy : EffectivePolicy) where
  pub Allowed-by :
      {o : PassiveObserver} (ip : IpAddr)
      → KeepsPrivate policy o
      → is_excluded ip o ≡ false
      → Allowed policy ip
  Allowed-by ip k e = subst (λ p. is_excluded_client ip p.privacy ≡ false) k.same_policy e

  -- A test decides which of two results it is.
  pub if-Handles :
      {x y : Handled} (b : Bool)
      → (b ≡ true → Handles policy x)
      → (b ≡ false → Handles policy y)
      → Handles policy (if b then x else y)
  if-Handles true f g = f refl
  if-Handles false f g = g refl

  announce-Handles :
      (arp : ArpPacket) (vlan_id : Option ℕ) (now : ℕ) (o : PassiveObserver)
      → KeepsPrivate policy o
      → Handles policy (announce arp vlan_id now o)
  announce-Handles arp vlan_id now o k =
      let ip = ip_addr arp.sender_ip in
      let key = key_of (codes "arp") ip (normalize_mac arp.sender_mac) in
      if-Handles (not (announces_sender arp)) (λ _. nothing-Handles k)
        (λ _.
          if-Handles (is_excluded ip o) (λ _. nothing-Handles k)
            (λ allowed.
              if_allowed-Handles _ (allow_key key now o) (inr (Allowed-by ip k allowed), tt)
                (allow_key-Keeps key now k)))

  pub handle_arp-Handles :
      (payload : Bytes) (vlan_id : Option ℕ) (now : ℕ) (o : PassiveObserver)
      → KeepsPrivate policy o
      → Handles policy (handle_arp payload vlan_id now o)
  unfolding handle_arp
  handle_arp-Handles payload vlan_id now o k = elim (Option-cases (parse_arp payload)) [
    | inl bad ↦ rw (bad, handle_arp) (nothing-Handles k)
    | inr (arp, good) ↦ rw (good, handle_arp) (announce-Handles arp vlan_id now o k)
  ]

  meet-Handles :
      (found : IpAddr × Option Bytes) (ethernet_mac : Bytes) (vlan_id : Option ℕ) (now : ℕ)
      (o : PassiveObserver)
      → KeepsPrivate policy o
      → Handles policy (meet found ethernet_mac vlan_id now o)
  meet-Handles (address, option_mac) ethernet_mac vlan_id now o k =
      let key = key_of (codes "ndp") address (normalize_mac (or_mac option_mac ethernet_mac)) in
      if-Handles (is_unspecified address || (is_multicast address || is_excluded address o))
        (λ _. nothing-Handles k)
        (λ fit.
          if_allowed-Handles _ (allow_key key now o)
            (inr (Allowed-by address k (or_false (or_false fit).1).1), tt)
            (allow_key-Keeps key now k))

  pub handle_icmpv6-Handles :
      (ip : IpPacket) (ethernet_mac : Bytes) (vlan_id : Option ℕ) (now : ℕ) (o : PassiveObserver)
      → KeepsPrivate policy o
      → Handles policy (handle_icmpv6 ip ethernet_mac vlan_id now o)
  unfolding handle_icmpv6
  handle_icmpv6-Handles ip ethernet_mac vlan_id now o k =
      elim (Option-cases (parse_neighbor_discovery ip.payload)) [
        | inl bad ↦ rw (bad, handle_icmpv6) (nothing-Handles k)
        | inr (ndp, good) ↦
            rw (good, handle_icmpv6)
              (meet-Handles (neighbor ip.src ndp) ethernet_mac vlan_id now o k)
      ]

  if_IsPrivate :
      (b : Bool) (reports : List Report)
      → All (IsPrivate policy) reports
      → All (IsPrivate policy) (if b then reports else [])
  if_IsPrivate true reports h = h
  if_IsPrivate false reports h = tt

  served_by-IsPrivate :
      (ip : IpAddr) (server : Option Bytes) → All (IsPrivate policy) (served_by ip server)
  served_by-IsPrivate ip none = tt
  served_by-IsPrivate ip (some server) = (inl refl, tt)

  lease_reports-IsPrivate :
      (msg : DhcpMessage) (ip : Option IpAddr) (vlan_id : Option ℕ) (o : PassiveObserver)
      → All (IsPrivate policy) (lease_reports msg ip vlan_id o)
  lease_reports-IsPrivate msg none vlan_id o = tt
  lease_reports-IsPrivate msg (some ip) vlan_id o =
      if_IsPrivate (confirms_lease msg.message_type) _
        (inl refl, served_by-IsPrivate ip msg.server_ip)

  pub handle_dhcp-Handles :
      (payload : Bytes) (vlan_id : Option ℕ) (now : ℕ) (o : PassiveObserver)
      → policy.passive.dhcp ≡ true
      → KeepsPrivate policy o
      → Handles policy (handle_dhcp payload vlan_id now o)
  unfolding handle_dhcp
  handle_dhcp-Handles payload vlan_id now o on k = elim (Option-cases (parse_dhcp payload)) [
    | inl bad ↦ rw (bad, handle_dhcp) (nothing-Handles k)
    | inr (msg, good) ↦
        let key =
          codes "dhcp:" ++ normalize_mac msg.client_mac ++ (colon ∷ type_name msg.message_type) in
        rw (good, handle_dhcp)
          (if_allowed-Handles _ (allow_key key now o)
            (on, lease_reports-IsPrivate msg (map_addr (effective_ip msg)) vlan_id o)
            (allow_key-Keeps key now k))
  ]

  service_loop-Handles :
      (src : IpAddr) (names : List Bytes) (now : ℕ) (o : PassiveObserver)
      → Allowed policy src
      → KeepsPrivate policy o
      → Handles policy (service_loop src names now o)
  unfolding service_loop
  service_loop-Handles src [] now o h k = nothing-Handles k
  service_loop-Handles src (name ∷ names) now o h k =
      let key = key_of (codes "mdns") src name in
      let first =
        if_allowed-Handles (service_report src name ∷ []) (allow_key key now o) (inr (h, tt), tt)
          (allow_key-Keeps key now k) in
      behind_reports-Handles _ _ first.reports (
        service_loop-Handles src names now
          (if_allowed (service_report src name ∷ []) (allow_key key now o)).1 h first.keeps)

  own_name-Handles :
      (src : IpAddr) (name : Option Bytes) (vlan_id : Option ℕ) (now : ℕ) (o : PassiveObserver)
      → Allowed policy src
      → KeepsPrivate policy o
      → Handles policy (own_name src name vlan_id now o)
  own_name-Handles src none vlan_id now o h k = nothing-Handles k
  own_name-Handles src (some hostname) vlan_id now o h k =
      let key = key_of (codes "mdns-host") src hostname in
      if_allowed-Handles _ (allow_key key now o) (inr h, tt) (allow_key-Keeps key now k)

  pub handle_mdns-Handles :
      (payload : Bytes) (src : IpAddr) (vlan_id : Option ℕ) (now : ℕ) (o : PassiveObserver)
      → Allowed policy src
      → KeepsPrivate policy o
      → Handles policy (handle_mdns payload src vlan_id now o)
  unfolding handle_mdns
  handle_mdns-Handles payload src vlan_id now o h k = elim (Option-cases (parse_dns payload)) [
    | inl bad ↦ rw (bad, handle_mdns) (nothing-Handles k)
    | inr (msg, good) ↦
        let first = service_loop-Handles src (advertised_services msg) now o h k in
        rw (good, handle_mdns)
          (if-Handles msg.is_response
            (λ _. behind_reports-Handles _ _ first.reports (
              own_name-Handles src (find_host msg.answers) vlan_id now
                (service_loop src (advertised_services msg) now o).1 h first.keeps))
            (λ _. nothing-Handles k))
  ]

  ssdp_message-Handles :
      (msg : SsdpMessage) (type : Bytes) (src : IpAddr) (vlan_id : Option ℕ) (now : ℕ)
      (o : PassiveObserver)
      → Allowed policy src
      → KeepsPrivate policy o
      → Handles policy (ssdp_message msg type src vlan_id now o)
  ssdp_message-Handles msg type src vlan_id now o h k =
      let key = key_of (codes "ssdp") src type in
      if-Handles (describes_sender msg.kind)
        (λ _.
          if_allowed-Handles _ (allow_key key now o) (inr h, (inr (h, tt), tt))
            (allow_key-Keeps key now k))
        (λ _. nothing-Handles k)

  pub handle_ssdp-Handles :
      (payload : Bytes) (src : IpAddr) (vlan_id : Option ℕ) (now : ℕ) (o : PassiveObserver)
      → Allowed policy src
      → KeepsPrivate policy o
      → Handles policy (handle_ssdp payload src vlan_id now o)
  unfolding handle_ssdp
  handle_ssdp-Handles payload src vlan_id now o h k = elim (Option-cases (parse_ssdp payload)) [
    | inl bad ↦ rw (bad, handle_ssdp) (nothing-Handles k)
    | inr (msg, good) ↦
        rw (good, handle_ssdp)
          (ssdp_message-Handles msg (or_unknown (device_type msg)) src vlan_id now o h k)
  ]

  dns_report-IsPrivate :
      (msg : DnsMessage) (question : DnsQuestion) (client server : IpAddr)
      → policy.passive.dns ≡ true
      → Allowed policy client
      → Allowed policy server
      → is_excluded_domain question.name policy.privacy.dns_exclude_domains ≡ false
      → IsPrivate policy (dns_report policy.privacy msg question client server)
  dns_report-IsPrivate msg question client server on c s apart = record {
    observed = on;
    client = c;
    server = s;
    name = question.name;
    not_excluded = apart;
    name_eq = refl;
    marked = refl;
    answers = stored_or_none policy.privacy.store_dns_answers _;
  }

  resolver_of-Handles :
      (is_response : Bool) (client server : IpAddr) (now : ℕ) (o : PassiveObserver)
      → Allowed policy client
      → Allowed policy server
      → KeepsPrivate policy o
      → Handles policy (resolver_of is_response client server now o)
  resolver_of-Handles false client server now o c s k = nothing-Handles k
  resolver_of-Handles true client server now o c s k =
      let key = key_of (codes "resolver") client (t.address_text server) in
      if_allowed-Handles _ (allow_key key now o) (inr (c, s), tt) (allow_key-Keeps key now k)

  after_query-Handles :
      (msg : DnsMessage) (question : DnsQuestion) (ends : IpAddr × IpAddr) (now : ℕ)
      (a : Bool × PassiveObserver)
      → policy.passive.dns ≡ true
      → Allowed policy ends.0
      → Allowed policy ends.1
      → is_excluded_domain question.name policy.privacy.dns_exclude_domains ≡ false
      → KeepsPrivate policy a.1
      → Handles policy (after_query msg question ends now a)
  after_query-Handles msg question (client, server) now (false, o) on c s apart k =
      nothing-Handles k
  after_query-Handles msg question (client, server) now (true, o) on c s apart k =
      behind_reports-Handles (dns_report o.policy.privacy msg question client server ∷ []) _
        (
          subst
              (λ (p : EffectivePolicy).
                IsPrivate policy (dns_report p.privacy msg question client server))
              (sym k.same_policy) (dns_report-IsPrivate msg question client server on c s apart),
          tt,
        )
        (resolver_of-Handles msg.is_response client server now o c s k)

  ends-Allowed :
      (is_response : Bool) (ip : IpPacket)
      → Allowed policy (ip_addr ip.src)
      → Allowed policy (ip_addr ip.dst)
      → Allowed policy (ends_of is_response ip).0 × Allowed policy (ends_of is_response ip).1
  ends-Allowed true ip s d = (d, s)
  ends-Allowed false ip s d = (s, d)

  dns_query-Handles :
      (msg : DnsMessage) (question : Option DnsQuestion) (ip : IpPacket) (now : ℕ)
      (o : PassiveObserver)
      → policy.passive.dns ≡ true
      → Allowed policy (ip_addr ip.src)
      → Allowed policy (ip_addr ip.dst)
      → KeepsPrivate policy o
      → Handles policy (dns_query msg question ip now o)
  dns_query-Handles msg none ip now o on s d k = nothing-Handles k
  dns_query-Handles msg (some question) ip now o on s d k =
      let ends = ends_of msg.is_response ip in
      let (c, v) = ends-Allowed msg.is_response ip s d in
      let key =
        key_of (codes "dns") ends.0 (question.name ++ (colon ∷ bool_text msg.is_response)) in
      if-Handles (is_excluded_domain question.name o.policy.privacy.dns_exclude_domains)
        (λ _. nothing-Handles k)
        (λ apart.
          after_query-Handles msg question ends now (allow_key key now o) on c v
            (subst
              (λ (p : EffectivePolicy).
                is_excluded_domain question.name p.privacy.dns_exclude_domains ≡ false)
              k.same_policy apart)
            (allow_key-Keeps key now k))

  pub handle_dns-Handles :
      (payload : Bytes) (ip : IpPacket) (now : ℕ) (o : PassiveObserver)
      → policy.passive.dns ≡ true
      → Allowed policy (ip_addr ip.src)
      → Allowed policy (ip_addr ip.dst)
      → KeepsPrivate policy o
      → Handles policy (handle_dns payload ip now o)
  unfolding handle_dns
  handle_dns-Handles payload ip now o on s d k = elim (Option-cases (parse_dns payload)) [
    | inl bad ↦ rw (bad, handle_dns) (nothing-Handles k)
    | inr (msg, good) ↦
        rw (good, handle_dns)
          (dns_query-Handles msg (first_question msg.questions) ip now o on s d k)
  ]
