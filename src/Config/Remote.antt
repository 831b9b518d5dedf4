-- ===== src/Config/Remote.antt =====
-- crates/sensor-transport/src/remote_config.rs, and the part of `run_config_poll` in
-- crates/sensor-daemon/src/runtime.rs that applies what the backend answers.
use trapd_sensor.Prelude.{
  ℕ, Option, none, some, List, [], ◌∷◌, Bytes, Bool, true, false, leb, if◌then◌else◌,
}
use trapd_sensor.Config.{
  PassiveDiscoveryConfig, ActiveDiscoveryConfig, PrivacyConfig, UpdateConfig, CaptureConfig,
  SensorConfig,
}

pub record PassiveOverride : Type 0 where
  pub arp : Option Bool
  pub dhcp : Option Bool
  pub mdns : Option Bool
  pub ssdp : Option Bool
  pub dns : Option Bool
  pub flows : Option Bool

pub record ActiveOverride : Type 0 where
  pub enabled : Option Bool
  pub targets : Option (List Bytes)
  pub exclude : Option (List Bytes)
  pub rate_limit_per_sec : Option ℕ
  pub icmp : Option Bool
  pub tcp_connect : Option Bool
  pub ports : Option (List ℕ)
  pub banner_grab : Option Bool
  pub sweep_interval_secs : Option ℕ
  pub snmp_enabled : Option Bool
  pub snmp_communities : Option (List Bytes)

pub record PrivacyOverride : Type 0 where
  pub dns_observation : Option Bool
  pub dns_exclude_domains : Option (List Bytes)
  pub exclude_clients : Option (List Bytes)
  pub store_dns_answers : Option Bool
  pub hash_dns_names : Option Bool

pub record UpdateOverride : Type 0 where
  pub auto_update : Option Bool
  pub channel : Option Bytes
  pub check_interval_secs : Option ℕ

pub record CaptureOverride : Type 0 where
  pub interfaces : Option (List Bytes)
  pub flow_window_secs : Option ℕ
  pub max_tracked_flows : Option ℕ

pub record RemoteConfig : Type 0 where
  pub config_version : ℕ
  pub enabled : Option Bool
  pub passive : Option PassiveOverride
  pub active : Option ActiveOverride
  pub privacy : Option PrivacyOverride
  pub update : Option UpdateOverride
  pub capture : Option CaptureOverride

pub record ApplyOutcome : Type 0 where
  pub applied : Bool
  pub enabled : Bool

abbrev pub apply_opt {ℓ} : {A : Type ℓ} → A → Option A → A
apply_opt target none = target
apply_opt target (some v) = v

abbrev pub apply_passive : PassiveDiscoveryConfig → Option PassiveOverride → PassiveDiscoveryConfig
apply_passive cfg none = cfg
apply_passive cfg (some p) = record {
  arp = apply_opt cfg.arp p.arp;
  dhcp = apply_opt cfg.dhcp p.dhcp;
  mdns = apply_opt cfg.mdns p.mdns;
  ssdp = apply_opt cfg.ssdp p.ssdp;
  dns = apply_opt cfg.dns p.dns;
  flows = apply_opt cfg.flows p.flows;
}

-- `acknowledged` is never set here.
abbrev pub apply_active : ActiveDiscoveryConfig → Option ActiveOverride → ActiveDiscoveryConfig
apply_active cfg none = cfg
apply_active cfg (some a) = record cfg {
  enabled = apply_opt cfg.enabled a.enabled;
  targets = apply_opt cfg.targets a.targets;
  exclude = apply_opt cfg.exclude a.exclude;
  rate_limit_per_sec = apply_opt cfg.rate_limit_per_sec a.rate_limit_per_sec;
  icmp = apply_opt cfg.icmp a.icmp;
  tcp_connect = apply_opt cfg.tcp_connect a.tcp_connect;
  ports = apply_opt cfg.ports a.ports;
  banner_grab = apply_opt cfg.banner_grab a.banner_grab;
  sweep_interval_secs = apply_opt cfg.sweep_interval_secs a.sweep_interval_secs;
  snmp = record {
    enabled = apply_opt cfg.snmp.enabled a.snmp_enabled;
    communities = apply_opt cfg.snmp.communities a.snmp_communities;
  };
}

abbrev pub apply_privacy : PrivacyConfig → Option PrivacyOverride → PrivacyConfig
apply_privacy cfg none = cfg
apply_privacy cfg (some p) = record {
  dns_observation = apply_opt cfg.dns_observation p.dns_observation;
  dns_exclude_domains = apply_opt cfg.dns_exclude_domains p.dns_exclude_domains;
  exclude_clients = apply_opt cfg.exclude_clients p.exclude_clients;
  store_dns_answers = apply_opt cfg.store_dns_answers p.store_dns_answers;
  hash_dns_names = apply_opt cfg.hash_dns_names p.hash_dns_names;
}

abbrev pub apply_update : UpdateConfig → Option UpdateOverride → UpdateConfig
apply_update cfg none = cfg
apply_update cfg (some u) = record {
  auto_update = apply_opt cfg.auto_update u.auto_update;
  channel = apply_opt cfg.channel u.channel;
  check_interval_secs = apply_opt cfg.check_interval_secs u.check_interval_secs;
}

abbrev pub apply_capture : CaptureConfig → Option CaptureOverride → CaptureConfig
apply_capture cfg none = cfg
apply_capture cfg (some c) = record cfg {
  interfaces = apply_opt cfg.interfaces c.interfaces;
  flow_window_secs = apply_opt cfg.flow_window_secs c.flow_window_secs;
  max_tracked_flows = apply_opt cfg.max_tracked_flows c.max_tracked_flows;
}

unfoldable pub apply : RemoteConfig → SensorConfig → ℕ → ApplyOutcome × SensorConfig
apply remote cfg current_version =
    let enabled = apply_opt true remote.enabled in
    if leb remote.config_version current_version
    then (record { applied = false; enabled = enabled }, cfg)
    else (
      record { applied = true; enabled = enabled },
      record cfg {
        passive = apply_passive cfg.passive remote.passive;
        active = apply_active cfg.active remote.active;
        privacy = apply_privacy cfg.privacy remote.privacy;
        update = apply_update cfg.update remote.update;
        capture = apply_capture cfg.capture remote.capture;
      },
    )

-- The variables of the poll loop: the configuration, and of the state the version and whether the
-- sensor runs.
pub record Polled : Type 0 where
  pub config : SensorConfig
  pub version : ℕ
  pub enabled : Bool

abbrev pub after_apply : RemoteConfig → Polled → ApplyOutcome × SensorConfig → Polled
after_apply remote s (outcome, config) = record {
  config = config;
  version = if outcome.applied then remote.config_version else s.version;
  enabled = outcome.enabled;
}

-- One round: what the backend answered, if it could be reached.
unfoldable pub poll : Option RemoteConfig → Polled → Polled
poll none s = s
poll (some remote) s = after_apply remote s (apply remote s.config s.version)

unfoldable pub poll_all : List (Option RemoteConfig) → Polled → Polled
poll_all [] s = s
poll_all (answer ∷ answers) s = poll_all answers (poll answer s)
