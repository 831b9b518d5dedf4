-- ===== src/Observer/Parts.antt =====
-- What the handlers of `PassiveObserver` read out of messages, and the parts of their reports.
use trapd_sensor.Prelude.{
  ℕ, Option, none, some, List, [], ◌∷◌, Bytes, Bool, true, false, not, ◌&&◌, if◌then◌else◌,
}
use trapd_sensor.Flow.{IpAddr}
use trapd_sensor.Packet.Frame.{IpPacket}
use trapd_sensor.Packet.Ndp.{
  NeighborDiscovery, router_advertisement, neighbor_solicitation, neighbor_advertisement,
}
use trapd_sensor.Packet.Dns.Message.{DnsQuestion, DnsRecord}
use trapd_sensor.Packet.Dhcp.{
  DhcpMessageType, discover, offer, request, decline, ack, nak, release, inform, other_type,
}
use trapd_sensor.Text.{codes, starts_with, ends_with}
use trapd_sensor.Observed.{DiscoveryMethod, Report, asset}
use trapd_sensor.Observer.{PassiveObserver, ip_addr}

abbrev pub Handled : Type 0
Handled = List Report × PassiveObserver

abbrev pub colon : ℕ
colon = 0x3a

-- An asset that was seen on the observer's interface.
abbrev pub seen_asset :
    PassiveObserver → IpAddr → Option Bytes → Option Bytes → Option ℕ → DiscoveryMethod → Report
seen_asset o ip mac hostname vlan_id method = asset (record {
  ip = some ip;
  mac = mac;
  hostname = hostname;
  vlan_id = vlan_id;
  method = method;
  interface = some o.interface;
})

-- Reports behind `if self.suppression.allow(…)`.
abbrev pub if_allowed : List Report → Bool × PassiveObserver → Handled
if_allowed reports (true, o) = (reports, o)
if_allowed reports (false, o) = ([], o)

abbrev pub or_mac : Option Bytes → Bytes → Bytes
or_mac none mac = mac
or_mac (some m) mac = m

abbrev pub type_name : DhcpMessageType → Bytes
type_name discover = codes "discover"
type_name offer = codes "offer"
type_name request = codes "request"
type_name decline = codes "decline"
type_name ack = codes "ack"
type_name nak = codes "nak"
type_name release = codes "release"
type_name inform = codes "inform"
type_name (other_type code) = codes "other"

abbrev pub map_addr : Option Bytes → Option IpAddr
map_addr none = none
map_addr (some bytes) = some (ip_addr bytes)

-- The address of a neighbor and its link-layer option.
abbrev pub neighbor : Bytes → NeighborDiscovery → IpAddr × Option Bytes
neighbor src (router_advertisement mac) = (ip_addr src, mac)
neighbor src (neighbor_solicitation target mac) = (ip_addr src, mac)
neighbor src (neighbor_advertisement target mac) = (ip_addr target, mac)

-- `name.ends_with(".local") && !name.starts_with('_')`
abbrev pub is_host_name : Bytes → Bool
is_host_name name = ends_with (codes ".local") name && not (starts_with (codes "_") name)

abbrev pub find_host : List DnsRecord → Option Bytes
find_host [] = none
find_host (r ∷ rs) = if is_host_name r.name then some r.name else find_host rs

abbrev pub first_question : List DnsQuestion → Option DnsQuestion
first_question [] = none
first_question (q ∷ qs) = some q

abbrev pub or_unknown : Option Bytes → Bytes
or_unknown none = codes "unknown"
or_unknown (some text) = text

abbrev pub attribute : Bytes → Option Bytes → List (Bytes × Bytes)
attribute name none = []
attribute name (some value) = (name, value) ∷ []

-- A client and a server.
abbrev pub ends_of : Bool → IpPacket → IpAddr × IpAddr
ends_of true ip = (ip_addr ip.dst, ip_addr ip.src)
ends_of false ip = (ip_addr ip.src, ip_addr ip.dst)

abbrev pub bool_text : Bool → Bytes
bool_text true = codes "true"
bool_text false = codes "false"
