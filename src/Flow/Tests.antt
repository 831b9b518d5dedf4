-- ===== src/Flow/Tests.antt =====
-- The flow table's theorems at a table that is full.
use trapd_sensor.Prelude.{not, ◌≡◌, [], ◌∷◌, arith}
use trapd_sensor.Flow.{v4, tcp, udp, FlowKey, FlowAggregator, normalized, observe, expire}
use trapd_sensor.Flow.Observation.{is_local, local_range, is_local-local_range}
use trapd_sensor.Flow.Bounds.{
  Counts, those, quiet, normalized_symmetric, observe-Counts, expire-quiet,
}

abbrev web : FlowKey
web = record {
  client_ip = v4 167772161;
  client_port = 50000;
  server_ip = v4 167772162;
  server_port = 443;
  protocol = tcp;
}

abbrev mdns : FlowKey
mdns = record web { client_port = 5353; server_port = 5353; protocol = udp }

abbrev one_flow : FlowAggregator
one_flow = record {
  flows = (web, record { bytes = 100; packets = 2; first_seen = 1000; last_seen = 4000 }) ∷ [];
  window_secs = 60;
  max_flows = 1;
  skipped = 0;
}

symmetric_example :
    normalized (v4 167772161) 50000 (v4 167772162) 443 tcp
    ≡ normalized (v4 167772162) 443 (v4 167772161) 50000 tcp
symmetric_example = normalized_symmetric (v4 167772161) 50000 (v4 167772162) 443 tcp

observe_example : Counts one_flow mdns 40 5000 (observe one_flow mdns 40 5000)
observe_example = observe-Counts one_flow mdns 40 5000 (omega arith)

expire_example : expire one_flow 70000 ≡ (
  those (quiet 60 70000) one_flow.flows,
  record one_flow { flows = those (λ s. not (quiet 60 70000 s)) one_flow.flows },
)
expire_example = expire-quiet one_flow 70000

-- 172.31.255.255 and the address behind it.
range_example : is_local (v4 2887778303) ≡ local_range 2887778303
range_example = is_local-local_range 2887778303
