-- ===== src/Observed.antt =====
-- What the sensor reports, of crates/sensor-core/src/model.rs: the variants of `Observation` that
-- the observer and the scanner make, with their fields. A text is the list of its characters'
-- codes, and the attributes of a relationship are an association list.
use trapd_sensor.Prelude.{ℕ, Option, List, Bytes, Bool}
use trapd_sensor.Flow.{IpAddr, TransportProtocol}
use trapd_sensor.Flow.Observation.{ServiceName, FlowObservation}

pub data DiscoveryMethod : Type 0 where
  by_arp : DiscoveryMethod
  by_ndp : DiscoveryMethod
  by_dhcp : DiscoveryMethod
  by_mdns : DiscoveryMethod
  by_ssdp : DiscoveryMethod
  by_passive_flow : DiscoveryMethod
  by_icmp_probe : DiscoveryMethod
  by_tcp_connect : DiscoveryMethod
  by_banner : DiscoveryMethod
  by_snmp : DiscoveryMethod

-- `subnet` is `None` wherever an asset is made.
pub record AssetObservation : Type 0 where
  pub ip : Option IpAddr
  pub mac : Option Bytes
  pub hostname : Option Bytes
  pub vlan_id : Option ℕ
  pub method : DiscoveryMethod
  pub interface : Option Bytes

pub record ServiceObservation : Type 0 where
  pub ip : IpAddr
  pub port : ℕ
  pub protocol : TransportProtocol
  pub service : Option ServiceName
  pub banner : Option Bytes
  pub method : DiscoveryMethod

pub record DnsObservation : Type 0 where
  pub query_name : Bytes
  pub query_name_hashed : Bool
  pub query_type : Option Bytes
  pub response_code : Option Bytes
  pub client_ip : Option IpAddr
  pub server_ip : Option IpAddr
  pub resolved_ips : List IpAddr
  pub answer_count : ℕ
  pub is_nxdomain : Bool

pub record DhcpObservation : Type 0 where
  pub mac : Bytes
  pub assigned_ip : Option IpAddr
  pub server_ip : Option IpAddr
  pub hostname : Option Bytes
  pub vendor_class : Option Bytes
  pub param_request_list : Option Bytes
  pub message_type : Bytes
  pub lease_seconds : Option ℕ

pub data RelationshipType : Type 0 where
  dhcp_served_by : RelationshipType
  resolves_via : RelationshipType
  advertises_service : RelationshipType

pub record RelationshipObservation : Type 0 where
  pub source_node : Bytes
  pub dest_node : Bytes
  pub source_ip : Option IpAddr
  pub dest_ip : Option IpAddr
  pub edge_type : RelationshipType
  pub observed_count : ℕ
  pub attributes : List (Bytes × Bytes)

pub data Report : Type 0 where
  asset : AssetObservation → Report
  service : ServiceObservation → Report
  flow : FlowObservation → Report
  dns : DnsObservation → Report
  dhcp : DhcpObservation → Report
  relationship : RelationshipObservation → Report
