-- ===== src/Flow/Observation.antt =====
-- crates/sensor-passive/src/flow.rs: what an expired flow becomes. A time is its milliseconds; the
-- service names are a data type.
use trapd_sensor.Prelude.{
  ◌≡◌, refl, arith, ℕ, ◌-◌, ◌/◌, ◌%◌, Option, none, some, Bool, true, false, ◌&&◌, ◌||◌, ltb, leb,
  ◌==◌, if◌then◌else◌,
}
use trapd_sensor.Flow.{
  IpAddr, v4, v6, TransportProtocol, tcp, udp, icmp, other, FlowKey, FlowState, is_cgnat,
}

pub data FlowDirection : Type 0 where
  inbound : FlowDirection
  outbound : FlowDirection
  lateral : FlowDirection

pub data ServiceName : Type 0 where
  ssh : ServiceName
  smtp : ServiceName
  http : ServiceName
  imap : ServiceName
  https : ServiceName
  smb : ServiceName
  ipp : ServiceName
  mysql : ServiceName
  postgres : ServiceName
  http_alt : ServiceName
  jetdirect : ServiceName
  dns_service : ServiceName
  dhcp_service : ServiceName
  ntp : ServiceName
  snmp_service : ServiceName
  ssdp : ServiceName
  mdns_service : ServiceName

pub record FlowObservation : Type 0 where
  pub source_ip : IpAddr
  pub source_port : Option ℕ
  pub dest_ip : IpAddr
  pub dest_port : Option ℕ
  pub protocol : TransportProtocol
  pub service : Option ServiceName
  pub direction : FlowDirection
  pub bytes : ℕ
  pub packets : ℕ
  pub duration_ms : ℕ
  pub first_seen : ℕ
  pub last_seen : ℕ

-- The first and the second octet of an IPv4 address.
abbrev pub octet0 : ℕ → ℕ
octet0 ip = ip / 16777216

abbrev pub octet1 : ℕ → ℕ
octet1 ip = ip / 65536 % 256

-- `Ipv4Addr::is_private`: 10.0.0.0/8, 172.16.0.0/12, 192.168.0.0/16.
abbrev pub is_private : ℕ → Bool
is_private ip =
    (octet0 ip == 10)
    || (((octet0 ip == 172) && (leb 16 (octet1 ip) && leb (octet1 ip) 31))
        || ((octet0 ip == 192) && (octet1 ip == 168)))

-- `segments()[0]`
abbrev pub segment0 : ℕ → ℕ
segment0 ip = ip / 5192296858534827628530496329220096

-- The loopback and link-local ranges are 127.0.0.0/8 and 169.254.0.0/16, and ::1.
unfoldable pub is_local : IpAddr → Bool
is_local (v4 ip) =
    is_private ip
    || ((octet0 ip == 127)
        || (((octet0 ip == 169) && (octet1 ip == 254)) || is_cgnat (octet0 ip) (octet1 ip)))
is_local (v6 ip) = (ip == 1) || ((segment0 ip / 512 == 0x7e) || (segment0 ip / 64 == 0x3fa))

abbrev pub direction_of : Bool → Bool → FlowDirection
direction_of true true = lateral
direction_of true false = outbound
direction_of false true = inbound
direction_of false false = lateral

unfoldable pub classify_direction : IpAddr → IpAddr → FlowDirection
classify_direction client server = direction_of (is_local client) (is_local server)

abbrev pub tcp_service : ℕ → Option ServiceName
tcp_service port =
    if port == 22
    then some ssh
    else if port == 25
    then some smtp
    else if port == 80
    then some http
    else if port == 143
    then some imap
    else if port == 443
    then some https
    else if port == 445
    then some smb
    else if port == 631
    then some ipp
    else if port == 3306
    then some mysql
    else if port == 5432
    then some postgres
    else if port == 8080
    then some http_alt
    else if port == 9100
    then some jetdirect
    else if port == 53
    then some dns_service
    else none

abbrev pub udp_service : ℕ → Option ServiceName
udp_service port =
    if port == 53
    then some dns_service
    else if (port == 67) || (port == 68)
    then some dhcp_service
    else if port == 123
    then some ntp
    else if port == 161
    then some snmp_service
    else if port == 1900
    then some ssdp
    else if port == 5353
    then some mdns_service
    else none

abbrev pub well_known_service : ℕ → TransportProtocol → Option ServiceName
well_known_service port tcp = tcp_service port
well_known_service port udp = udp_service port
well_known_service port icmp = none
well_known_service port other = none

unfoldable pub to_observation : FlowKey → FlowState → FlowObservation
to_observation key state = record {
  source_ip = key.client_ip;
  source_port = some key.client_port;
  dest_ip = key.server_ip;
  dest_port = some key.server_port;
  protocol = key.protocol;
  service = well_known_service key.server_port key.protocol;
  direction = classify_direction key.client_ip key.server_ip;
  bytes = state.bytes;
  packets = state.packets;
  duration_ms = state.last_seen - state.first_seen;
  first_seen = state.first_seen;
  last_seen = state.last_seen;
}

-- The other way round.
abbrev pub reversed : FlowDirection → FlowDirection
reversed inbound = outbound
reversed outbound = inbound
reversed lateral = lateral

-- Whether an address lies in a range of numbers.
abbrev pub within : ℕ → ℕ → ℕ → Bool
within low high ip = leb low ip && ltb ip high

-- The ranges 10.0.0.0/8, 172.16.0.0/12, 192.168.0.0/16, 127.0.0.0/8, 169.254.0.0/16, 100.64.0.0/10.
abbrev pub local_range : ℕ → Bool
local_range ip =
    (within 167772160 184549376 ip
      || (within 2886729728 2887778304 ip || within 3232235520 3232301056 ip))
    || (within 2130706432 2147483648 ip
        || (within 2851995648 2852061184 ip || within 1681915904 1686110208 ip))

range10 : (ip : ℕ) → (octet0 ip == 10) ≡ within 167772160 184549376 ip
range10 ip = ground arith

range172 :
    (ip : ℕ)
    → ((octet0 ip == 172) && (leb 16 (octet1 ip) && leb (octet1 ip) 31))
      ≡ within 2886729728 2887778304 ip
range172 ip = ground arith

range192 : (ip : ℕ) → ((octet0 ip == 192) && (octet1 ip == 168)) ≡ within 3232235520 3232301056 ip
range192 ip = ground arith

range127 : (ip : ℕ) → (octet0 ip == 127) ≡ within 2130706432 2147483648 ip
range127 ip = ground arith

range169 : (ip : ℕ) → ((octet0 ip == 169) && (octet1 ip == 254)) ≡ within 2851995648 2852061184 ip
range169 ip = ground arith

range100 : (ip : ℕ) → is_cgnat (octet0 ip) (octet1 ip) ≡ within 1681915904 1686110208 ip
range100 ip = ground arith

-- An IPv4 address is local exactly when its number lies in one of the six local ranges.
pub is_local-local_range : (ip : ℕ) → is_local (v4 ip) ≡ local_range ip
unfolding is_local
is_local-local_range ip =
    rw (range10 ip, range172 ip, range192 ip, range127 ip, range169 ip, range100 ip) refl

direction_reversed : (a b : Bool) → direction_of b a ≡ reversed (direction_of a b)
direction_reversed true true = refl
direction_reversed true false = refl
direction_reversed false true = refl
direction_reversed false false = refl

-- The direction seen from the other end is the reversed one.
pub classify_direction-reversed :
    (a b : IpAddr) → classify_direction b a ≡ reversed (classify_direction a b)
unfolding classify_direction
classify_direction-reversed a b = direction_reversed (is_local a) (is_local b)
