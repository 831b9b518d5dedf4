-- ===== src/Flow.antt =====
-- The flow table of crates/sensor-passive/src/flow.rs: packets are counted for each pair of
-- endpoints, up to a fixed number of flows. A time is its milliseconds; the `HashMap` is an
-- association list, so that the order of what is given out means nothing.
pub mod Observation
pub mod Bounds
mod Tests
use trapd_sensor.Prelude.{
  ℕ, suc, ◌+◌, ◌-◌, ◌*◌, ◌/◌, max, Option, none, some, List, [], ◌∷◌, Bool, true, false, ◌&&◌, ◌||◌,
  not, length, ltb, leb, ◌==◌, if◌then◌else◌,
}

-- `IpAddr`, with the address as one number: 32 bits or 128.
pub data IpAddr : Type 0 where
  v4 : ℕ → IpAddr
  v6 : ℕ → IpAddr

-- `src_ip > dst_ip`: every IPv4 address stands before every IPv6 address.
abbrev pub ip_gt : IpAddr → IpAddr → Bool
ip_gt (v4 a) (v4 b) = ltb b a
ip_gt (v4 a) (v6 b) = false
ip_gt (v6 a) (v4 b) = true
ip_gt (v6 a) (v6 b) = ltb b a

abbrev pub ip_eq : IpAddr → IpAddr → Bool
ip_eq (v4 a) (v4 b) = a == b
ip_eq (v4 a) (v6 b) = false
ip_eq (v6 a) (v4 b) = false
ip_eq (v6 a) (v6 b) = a == b

pub data TransportProtocol : Type 0 where
  tcp : TransportProtocol
  udp : TransportProtocol
  icmp : TransportProtocol
  other : TransportProtocol

abbrev protocol_code : TransportProtocol → ℕ
protocol_code tcp = 0
protocol_code udp = 1
protocol_code icmp = 2
protocol_code other = 3

abbrev pub protocol_eq : TransportProtocol → TransportProtocol → Bool
protocol_eq a b = protocol_code a == protocol_code b

pub record FlowKey : Type 0 where
  pub client_ip : IpAddr
  pub client_port : ℕ
  pub server_ip : IpAddr
  pub server_port : ℕ
  pub protocol : TransportProtocol

abbrev pub key_eq : FlowKey → FlowKey → Bool
key_eq a b =
    ip_eq a.client_ip b.client_ip
    && ((a.client_port == b.client_port)
        && (ip_eq a.server_ip b.server_ip
            && ((a.server_port == b.server_port) && protocol_eq a.protocol b.protocol)))

-- The greater port is the client's; equal ports are told apart by the address.
abbrev pub src_is_client : IpAddr → ℕ → IpAddr → ℕ → Bool
src_is_client src_ip src_port dst_ip dst_port =
    if ltb dst_port src_port
    then true
    else if ltb src_port dst_port
    then false
    else ip_gt src_ip dst_ip

unfoldable pub normalized : IpAddr → ℕ → IpAddr → ℕ → TransportProtocol → FlowKey
normalized src_ip src_port dst_ip dst_port protocol =
    if src_is_client src_ip src_port dst_ip dst_port
    then record {
      client_ip = src_ip;
      client_port = src_port;
      server_ip = dst_ip;
      server_port = dst_port;
      protocol = protocol;
    }
    else record {
      client_ip = dst_ip;
      client_port = dst_port;
      server_ip = src_ip;
      server_port = src_port;
      protocol = protocol;
    }

pub record FlowState : Type 0 where
  pub bytes : ℕ
  pub packets : ℕ
  pub first_seen : ℕ
  pub last_seen : ℕ

pub record FlowAggregator : Type 0 where
  pub flows : List (FlowKey × FlowState)
  pub window_secs : ℕ
  pub max_flows : ℕ
  pub skipped : ℕ

abbrev pub new_aggregator : ℕ → ℕ → FlowAggregator
new_aggregator window_secs max_flows = record {
  flows = [];
  window_secs = max window_secs 1;
  max_flows = max max_flows 1;
  skipped = 0;
}

-- `self.flows.get_mut(&key)` with what `observe` does to the state it finds.
unfoldable pub update :
    FlowKey → ℕ → ℕ → List (FlowKey × FlowState) → Option (List (FlowKey × FlowState))
update key bytes now [] = none
update key bytes now ((k, state) ∷ flows) =
    let rest = update key bytes now flows in
    let counted : FlowState = record state {
      bytes = state.bytes + bytes;
      packets = state.packets + 1;
      last_seen = now;
    } in
    if key_eq k key
    then some ((k, counted) ∷ flows)
    else elim rest [ none ↦ none | some flows' ↦ some ((k, state) ∷ flows') ]

unfoldable pub observe : FlowAggregator → FlowKey → ℕ → ℕ → FlowAggregator
observe table key bytes now = elim (update key bytes now table.flows) [
  | some flows ↦ record table { flows = flows }
  | none ↦
      if leb table.max_flows (length table.flows)
      then record table { skipped = table.skipped + 1 }
      else record table {
        flows =
            (key, record { bytes = bytes; packets = 1; first_seen = now; last_seen = now })
            ∷ table.flows;
      }
]

abbrev pub is_over : ℕ → ℕ → FlowState → Bool
is_over window now state = leb window ((now - state.last_seen) / 1000)

-- `retain`: what goes, and what stays.
unfoldable pub expire_loop :
    ℕ → ℕ → List (FlowKey × FlowState) → List (FlowKey × FlowState) × List (FlowKey × FlowState)
expire_loop window now [] = ([], [])
expire_loop window now ((k, state) ∷ flows) =
    let (expired, left) = expire_loop window now flows in
    if is_over window now state then ((k, state) ∷ expired, left) else (expired, (k, state) ∷ left)

-- The flows whose window is over; each becomes an observation.
unfoldable pub expire : FlowAggregator → ℕ → List (FlowKey × FlowState) × FlowAggregator
expire table now =
    let (expired, left) = expire_loop table.window_secs now table.flows in
    (expired, record table { flows = left })

abbrev pub drain_all : FlowAggregator → List (FlowKey × FlowState) × FlowAggregator
drain_all table = (table.flows, record table { flows = [] })

-- 100.64.0.0/10
abbrev pub is_cgnat : ℕ → ℕ → Bool
is_cgnat o0 o1 = (o0 == 100) && (leb 64 o1 && ltb o1 128)
