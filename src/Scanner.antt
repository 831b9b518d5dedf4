-- ===== src/Scanner.antt =====
-- `Scanner` of crates/sensor-active/src/scanner.rs: a sweep over the addresses that the policy
-- allows. What the network answers, and when the daemon is asked to stop, is given as a function.
-- The rate limiter only waits, and is left out.
pub mod Consent
mod Tests
use trapd_sensor.Prelude.{
  ℕ, ◌+◌, Option, none, some, List, [], ◌∷◌, ◌++◌, Bytes, Bool, true, false, not, length,
  if◌then◌else◌,
}
use trapd_sensor.Flow.{IpAddr, ip_gt, ip_eq, TransportProtocol, tcp, udp}
use trapd_sensor.Flow.Observation.{snmp_service}
use trapd_sensor.Snmp.Client.{SnmpResult}
use trapd_sensor.Config.Cidr.{Cidr, hosts}
use trapd_sensor.Config.Policy.{EffectiveActivePolicy, EffectivePolicy, may_probe}
use trapd_sensor.Observed.{
  by_icmp_probe, by_tcp_connect, by_banner, by_snmp, Report, asset, service,
}
use trapd_sensor.Text.Writing.{sanitize_banner}

pub record SweepStats : Type 0 where
  pub hosts_considered : ℕ
  pub hosts_probed : ℕ
  pub hosts_responding : ℕ
  pub ports_probed : ℕ
  pub ports_open : ℕ
  pub snmp_responding : ℕ
  pub probes_total : ℕ
  pub probe_errors : ℕ
  pub snmp_queries : ℕ
  pub snmp_errors : ℕ
  pub hosts_skipped : ℕ

abbrev pub no_stats : SweepStats
no_stats = record {
  hosts_considered = 0;
  hosts_probed = 0;
  hosts_responding = 0;
  ports_probed = 0;
  ports_open = 0;
  snmp_responding = 0;
  probes_total = 0;
  probe_errors = 0;
  snmp_queries = 0;
  snmp_errors = 0;
  hosts_skipped = 0;
}

pub data PortState : Type 0 where
  open_port : PortState
  closed_port : PortState
  filtered_port : PortState

-- What goes out on the network. A TCP probe may read the banner.
pub data Probe : Type 0 where
  echo : IpAddr → Probe
  query : IpAddr → Bytes → Probe
  connect : IpAddr → ℕ → Bool → Probe

-- The answers to `icmp_echo`, `get_system`, `tcp_connect` and `tcp_banner`; `none` is an error.
pub record Network : Type 0 where
  pub icmp_echo : IpAddr → Option Bool
  pub get_system : IpAddr → Bytes → Option (Option SnmpResult)
  pub tcp_probe : IpAddr → ℕ → Bool → PortState × Option Bytes

-- The statistics, what was probed and what was reported so far, whether the present host has
-- responded, and how often the shutdown flag was read.
pub record Sweep : Type 0 where
  pub stats : SweepStats
  pub probes : List Probe
  pub events : List Report
  pub responded : Bool
  pub reads : ℕ

abbrev pub count : (SweepStats → SweepStats) → Sweep → Sweep
count f s = record s { stats = f s.stats }

abbrev pub send : Report → Sweep → Sweep
send event s = record s { events = s.events ++ (event ∷ []) }

abbrev pub read_flag : Sweep → Sweep
read_flag s = record s { reads = s.reads + 1 }

abbrev pub probed : Probe → Sweep → Sweep
probed p s = record s {
  probes = s.probes ++ (p ∷ []);
  stats = record s.stats { probes_total = s.stats.probes_total + 1 };
}

-- `if !host_responded { host_responded = true; stats.hosts_responding += 1; }`
abbrev pub respond : Sweep → Sweep
respond s = if s.responded then s else record s {
  responded = true;
  stats = record s.stats { hosts_responding = s.stats.hosts_responding + 1 };
}

-- `Vec::sort` and `dedup` of addresses.
unfoldable pub insert_address : IpAddr → List IpAddr → List IpAddr
insert_address ip [] = ip ∷ []
insert_address ip (x ∷ xs) =
    let later = x ∷ insert_address ip xs in
    if ip_gt x ip then ip ∷ x ∷ xs else if ip_eq x ip then x ∷ xs else later

unfoldable pub sorted_addresses : List IpAddr → List IpAddr
sorted_addresses [] = []
sorted_addresses (ip ∷ ips) = insert_address ip (sorted_addresses ips)

abbrev pub permitted : EffectivePolicy → List IpAddr → List IpAddr
permitted policy [] = []
permitted policy (ip ∷ ips) =
    let rest = permitted policy ips in if may_probe policy ip then ip ∷ rest else rest

-- A network that is too large has no hosts.
unfoldable pub hosts_within : EffectivePolicy → List Cidr → List IpAddr
hosts_within policy [] = []
hosts_within policy (c ∷ cs) = permitted policy (hosts c) ++ hosts_within policy cs

abbrev pub targets_by : EffectivePolicy → Option EffectiveActivePolicy → List IpAddr
targets_by policy none = []
targets_by policy (some active) = sorted_addresses (hosts_within policy active.targets)

unfoldable pub targets : EffectivePolicy → List IpAddr
targets policy = targets_by policy policy.active

abbrev pub echo_asset : IpAddr → Report
echo_asset ip = asset (record {
  ip = some ip;
  mac = none;
  hostname = none;
  vlan_id = none;
  method = by_icmp_probe;
  interface = none;
})

abbrev pub closed_asset : IpAddr → Report
closed_asset ip = asset (record {
  ip = some ip;
  mac = none;
  hostname = none;
  vlan_id = none;
  method = by_tcp_connect;
  interface = none;
})

abbrev pub snmp_asset : IpAddr → SnmpResult → Report
snmp_asset ip r = asset (record {
  ip = some ip;
  mac = none;
  hostname = r.sys_name;
  vlan_id = none;
  method = by_snmp;
  interface = none;
})

abbrev pub banner_of : Option Bytes → Option Bytes
banner_of none = none
banner_of (some text) = sanitize_banner text

abbrev pub snmp_report : IpAddr → SnmpResult → Report
snmp_report ip r = service (record {
  ip = ip;
  port = 161;
  protocol = udp;
  service = some snmp_service;
  banner = banner_of r.sys_descr;
  method = by_snmp;
})

abbrev pub port_report : IpAddr → ℕ → Bool → Option Bytes → Report
port_report ip port grab banner = service (record {
  ip = ip;
  port = port;
  protocol = tcp;
  service = none;
  banner = banner;
  method = if grab then by_banner else by_tcp_connect;
})

-- Behind the `match` on the answer to an echo request.
abbrev pub echoed : IpAddr → Option Bool → Sweep → Sweep
echoed ip (some true) s = send (echo_asset ip) (record s {
  responded = true;
  stats = record s.stats { hosts_responding = s.stats.hosts_responding + 1 };
})
echoed ip (some false) s = s
echoed ip none s = count (λ n. record n { probe_errors = n.probe_errors + 1 }) s

abbrev pub queried : IpAddr → SnmpResult → Sweep → Sweep
queried ip r s = send (snmp_report ip r) (
    send (snmp_asset ip r)
      (respond (count (λ n. record n { snmp_responding = n.snmp_responding + 1 }) s)))

abbrev pub query_failed : Sweep → Sweep
query_failed s =
    count (λ n. record n { probe_errors = n.probe_errors + 1; snmp_errors = n.snmp_errors + 1 }) s

-- The `match` on the state of a port.
abbrev pub port_found : IpAddr → ℕ → Bool → PortState × Option Bytes → Sweep → Sweep
port_found ip port grab (open_port, banner) s =
    send (port_report ip port grab banner)
      (respond (count (λ n. record n { ports_open = n.ports_open + 1 }) s))
port_found ip port grab (closed_port, banner) s =
    if s.responded then s else send (closed_asset ip) (respond s)
port_found ip port grab (filtered_port, banner) s = s

module _ (net : Network) (stop : ℕ → Bool) where
  -- The first community that answers ends the loop.
  unfoldable pub query_loop : IpAddr → List Bytes → Sweep → Sweep
  query_loop ip [] s = s
  query_loop ip (community ∷ communities) s = elim (stop s.reads) [
    | true ↦ read_flag s
    | false ↦
        let asked =
          count (λ n. record n { snmp_queries = n.snmp_queries + 1 })
            (probed (query ip community) (read_flag s)) in
        elim (net.get_system ip community) [
          | some (some r) ↦ queried ip r asked
          | some none ↦ query_loop ip communities asked
          | none ↦ query_loop ip communities (query_failed asked)
        ]
  ]

  unfoldable pub port_loop : IpAddr → Bool → List ℕ → Sweep → Sweep
  port_loop ip grab [] s = s
  port_loop ip grab (port ∷ ports) s = elim (stop s.reads) [
    | true ↦ read_flag s
    | false ↦ port_loop ip grab ports (
        port_found ip port grab (net.tcp_probe ip port grab) (
          count (λ n. record n { ports_probed = n.ports_probed + 1 })
            (probed (connect ip port grab) (read_flag s))))
  ]

  abbrev pub echo_host : EffectiveActivePolicy → IpAddr → Sweep → Sweep
  echo_host active ip s =
      if active.icmp
      then echoed ip (net.icmp_echo ip)
          (count (λ n. record n { hosts_probed = n.hosts_probed + 1 }) (probed (echo ip) s))
      else s

  abbrev pub connect_host : EffectiveActivePolicy → IpAddr → Sweep → Sweep
  connect_host active ip s =
      if active.tcp_connect then port_loop ip active.banner_grab active.ports s else s

  unfoldable pub probe_host : EffectivePolicy → EffectiveActivePolicy → IpAddr → Sweep → Sweep
  probe_host policy active ip s =
      if not (may_probe policy ip)
      then count (λ n. record n { hosts_skipped = n.hosts_skipped + 1 }) s
      else connect_host active ip (
          query_loop ip active.snmp_communities
            (echo_host active ip (record s { responded = false })))

  unfoldable pub host_loop : EffectivePolicy → EffectiveActivePolicy → List IpAddr → Sweep → Sweep
  host_loop policy active [] s = s
  host_loop policy active (ip ∷ ips) s = elim (stop s.reads) [
    | true ↦ read_flag s
    | false ↦ host_loop policy active ips (probe_host policy active ip (read_flag s))
  ]

  abbrev pub start : ℕ → Sweep
  start considered = record {
    stats = record no_stats { hosts_considered = considered };
    probes = [];
    events = [];
    responded = false;
    reads = 0;
  }

  abbrev pub sweep_by : EffectivePolicy → Option EffectiveActivePolicy → Sweep
  sweep_by policy none = start 0
  sweep_by policy (some active) =
      host_loop policy active (targets policy) (start (length (targets policy)))

  unfoldable pub sweep : EffectivePolicy → Sweep
  sweep policy = sweep_by policy policy.active
