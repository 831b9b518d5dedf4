-- ===== src/Config.antt =====
-- The configuration of crates/sensor-core/src/config.rs, as far as the modelled code reads it: the
-- sections `deployment`, `backend`, `buffer` and `admin` are left out, and so are the texts that
-- explain a decision. A text is the list of its characters' codes.
pub mod Cidr
pub mod Hosts
pub mod Policy
pub mod Remote
pub mod Restraint
pub mod Tests
use trapd_sensor.Prelude.{ℕ, List, [], ◌∷◌, Bytes, Bool, true, false}

pub data SensorMode : Type 0 where
  passive_only : SensorMode
  balanced : SensorMode
  active_mode : SensorMode

-- `self >= Self::Balanced`
abbrev pub allows_active : SensorMode → Bool
allows_active passive_only = false
allows_active balanced = true
allows_active active_mode = true

abbrev pub allows_extended_active : SensorMode → Bool
allows_extended_active passive_only = false
allows_extended_active balanced = false
allows_extended_active active_mode = true

pub record PassiveDiscoveryConfig : Type 0 where
  pub arp : Bool
  pub dhcp : Bool
  pub mdns : Bool
  pub ssdp : Bool
  pub dns : Bool
  pub flows : Bool

pub record SnmpConfig : Type 0 where
  pub enabled : Bool
  pub communities : List Bytes

pub record ActiveDiscoveryConfig : Type 0 where
  pub enabled : Bool
  pub acknowledged : Bool
  pub targets : List Bytes
  pub exclude : List Bytes
  pub rate_limit_per_sec : ℕ
  pub icmp : Bool
  pub tcp_connect : Bool
  pub ports : List ℕ
  pub banner_grab : Bool
  pub sweep_interval_secs : ℕ
  pub snmp : SnmpConfig

pub record PrivacyConfig : Type 0 where
  pub dns_observation : Bool
  pub dns_exclude_domains : List Bytes
  pub exclude_clients : List Bytes
  pub store_dns_answers : Bool
  pub hash_dns_names : Bool

pub record UpdateConfig : Type 0 where
  pub auto_update : Bool
  pub channel : Bytes
  pub check_interval_secs : ℕ

pub record CaptureConfig : Type 0 where
  pub interfaces : List Bytes
  pub promiscuous : Bool
  pub snaplen : ℕ
  pub flow_window_secs : ℕ
  pub max_tracked_flows : ℕ

-- `mode` is that of the section `sensor`.
pub record SensorConfig : Type 0 where
  pub mode : SensorMode
  pub capture : CaptureConfig
  pub passive : PassiveDiscoveryConfig
  pub active : ActiveDiscoveryConfig
  pub privacy : PrivacyConfig
  pub update : UpdateConfig

abbrev pub balanced_port_allowlist : List ℕ
balanced_port_allowlist = 22 ∷ 53 ∷ 80 ∷ 139 ∷ 443 ∷ 445 ∷ 515 ∷ 631 ∷ 8080 ∷ 8443 ∷ 9100 ∷ []
