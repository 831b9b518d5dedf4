-- ===== src/Scanner/Tests.antt =====
-- A sweep by a sensor in the balanced mode, whose backend asks for banners and for more ports.
use trapd_sensor.Prelude.{◌≡◌, refl, Option, none, some, List, [], ◌∷◌, true, false, All}
use trapd_sensor.Flow.{v4}
use trapd_sensor.Config.{balanced, SensorConfig, ActiveDiscoveryConfig}
use trapd_sensor.Config.Cidr.{
  parse, parse_all, any_contains, hosts, host_range, v4_hosts, mask, contains,
}
use trapd_sensor.Config.Tests.{four_text, example_passive, example_privacy}
use trapd_sensor.Config.Policy.{derive, derive_active, may_probe, insert_port, sorted_ports}
use trapd_sensor.Config.Remote.{RemoteConfig, ActiveOverride, Polled, apply, poll, poll_all}
use trapd_sensor.Text.{
  codes, is_whitespace, trim, trim_start, trim_end, split_once, digits, parse_u8,
}
use trapd_sensor.Scanner.{
  Network, closed_port, connect, insert_address, sorted_addresses, hosts_within, targets,
  query_loop, port_loop, probe_host, host_loop, sweep,
}
use trapd_sensor.Scanner.Consent.{Consented, sweep-Consented}

abbrev example_active : ActiveDiscoveryConfig
example_active = record {
  enabled = true;
  acknowledged = true;
  targets = (0x41 ∷ 0x42 ∷ 0x43 ∷ 0x44 ∷ codes "/30") ∷ [];
  exclude = [];
  rate_limit_per_sec = 5;
  icmp = false;
  tcp_connect = true;
  ports = 80 ∷ [];
  banner_grab = false;
  sweep_interval_secs = 3600;
  snmp = record { enabled = false; communities = [] };
}

abbrev example_config : SensorConfig
example_config = record {
  mode = balanced;
  capture = record {
    interfaces = [];
    promiscuous = true;
    snaplen = 512;
    flow_window_secs = 60;
    max_tracked_flows = 50000;
  };
  passive = example_passive;
  active = example_active;
  privacy = example_privacy;
  update = record { auto_update = false; channel = []; check_interval_secs = 21600 };
}

abbrev example_override : ActiveOverride
example_override = record {
  enabled = none;
  targets = none;
  exclude = none;
  rate_limit_per_sec = none;
  icmp = none;
  tcp_connect = none;
  ports = some (502 ∷ 443 ∷ 80 ∷ []);
  banner_grab = some true;
  sweep_interval_secs = none;
  snmp_enabled = some true;
  snmp_communities = some ([] ∷ []);
}

abbrev example_answers : List (Option RemoteConfig)
example_answers =
    some (record {
      config_version = 1;
      enabled = none;
      passive = none;
      active = some example_override;
      privacy = none;
      update = none;
      capture = none;
    })
    ∷ []

abbrev silent_network : Network
silent_network = record {
  icmp_echo = λ ip. some false;
  get_system = λ ip community. some none;
  tcp_probe = λ ip port grab. (closed_port, none);
}

abbrev example_state : Polled
example_state = record { config = example_config; version = 0; enabled = true }

-- What the answers make of the configuration.
abbrev asked_config : SensorConfig
asked_config = (poll_all example_answers example_state).config

sweep_probes :
    (sweep silent_network
      (λ n. false)
      (derive (poll_all example_answers example_state).config)).probes
    ≡ connect (v4 0x41424345) 80 false
      ∷ connect (v4 0x41424345) 443 false
      ∷ connect (v4 0x41424346) 80 false
      ∷ connect (v4 0x41424346) 443 false
      ∷ []
unfolding sweep derive derive_active poll_all poll apply parse_all parse split_once trim trim_end
    trim_start is_whitespace parse_u8 digits host_loop targets sorted_addresses hosts_within
    any_contains contains host_range hosts mask v4_hosts insert_port may_probe sorted_ports
    insert_address port_loop probe_host query_loop
sweep_probes = refl

sweep-Consented_example :
    All (Consented asked_config) (sweep silent_network (λ n. false) (derive asked_config)).probes
sweep-Consented_example = sweep-Consented silent_network (λ n. false) asked_config
