-- ===== src/Config/Policy.antt =====
-- `EffectivePolicy` of crates/sensor-core/src/config.rs: what the sensor may do.
use trapd_sensor.Prelude.{
  ℕ, max, Option, none, some, List, [], ◌∷◌, Bytes, Bool, true, false, not, ◌&&◌, ◌||◌, ltb, ◌==◌,
  if◌then◌else◌,
}
use trapd_sensor.Flow.{IpAddr}
use trapd_sensor.Config.{
  SensorMode, allows_active, allows_extended_active, PassiveDiscoveryConfig, ActiveDiscoveryConfig,
  PrivacyConfig, SensorConfig, balanced_port_allowlist,
}
use trapd_sensor.Config.Cidr.{AddressText, Cidr, parse_all, any_contains}

pub record EffectiveActivePolicy : Type 0 where
  pub targets : List Cidr
  pub exclude : List Cidr
  pub rate_limit_per_sec : ℕ
  pub icmp : Bool
  pub tcp_connect : Bool
  pub ports : List ℕ
  pub banner_grab : Bool
  pub sweep_interval_secs : ℕ
  pub snmp_communities : List Bytes

pub record EffectivePolicy : Type 0 where
  pub mode : SensorMode
  pub passive : PassiveDiscoveryConfig
  pub active : Option EffectiveActivePolicy
  pub privacy : PrivacyConfig

-- `BTreeSet::contains`
abbrev pub is_member : ℕ → List ℕ → Bool
is_member p [] = false
is_member p (q ∷ qs) = (p == q) || is_member p qs

abbrev pub allowed_ports : List ℕ → List ℕ
allowed_ports [] = []
allowed_ports (p ∷ ps) =
    let rest = allowed_ports ps in if is_member p balanced_port_allowlist then p ∷ rest else rest

-- `sort_unstable` and `dedup`: a sorted list without what is there already.
unfoldable pub insert_port : ℕ → List ℕ → List ℕ
insert_port p [] = p ∷ []
insert_port p (q ∷ qs) =
    let later = q ∷ insert_port p qs in
    if ltb p q then p ∷ q ∷ qs else if p == q then q ∷ qs else later

unfoldable pub sorted_ports : List ℕ → List ℕ
sorted_ports [] = []
sorted_ports (p ∷ ps) = insert_port p (sorted_ports ps)

abbrev pub is_nil {ℓ} : {A : Type ℓ} → List A → Bool
is_nil [] = true
is_nil (x ∷ xs) = false

abbrev pub port_catalogue : Bool → List ℕ → List ℕ
port_catalogue extended ports = sorted_ports (if extended then ports else allowed_ports ports)

abbrev pub communities_of : Bool → ActiveDiscoveryConfig → List Bytes
communities_of extended a = if extended && a.snmp.enabled then a.snmp.communities else []

abbrev pub active_policy :
    Bool → ActiveDiscoveryConfig → List Cidr → List Cidr → EffectiveActivePolicy
active_policy extended a targets exclude = record {
  targets = targets;
  exclude = exclude;
  rate_limit_per_sec = max a.rate_limit_per_sec 1;
  icmp = a.icmp;
  tcp_connect = a.tcp_connect && not (is_nil (port_catalogue extended a.ports));
  ports = port_catalogue extended a.ports;
  banner_grab = a.banner_grab && extended;
  sweep_interval_secs = max a.sweep_interval_secs 60;
  snmp_communities = communities_of extended a;
}

-- `if !privacy.dns_observation { passive.dns = false; }`
abbrev pub without_dns : PrivacyConfig → PassiveDiscoveryConfig → PassiveDiscoveryConfig
without_dns privacy passive =
    if privacy.dns_observation then passive else record passive { dns = false }

abbrev pub without_observation : PassiveDiscoveryConfig → PrivacyConfig → PrivacyConfig
without_observation passive privacy =
    if passive.dns then privacy else record privacy { dns_observation = false }

module _ ⦃t : AddressText⦄ where
  unfoldable pub derive_active : SensorConfig → SensorMode → Option EffectiveActivePolicy
  derive_active cfg mode =
      if not (allows_active mode)
      then none
      else if not cfg.active.enabled
      then none
      else if not cfg.active.acknowledged
      then none
      else if is_nil (parse_all cfg.active.targets)
      then none
      else some (
          active_policy (allows_extended_active mode) cfg.active (parse_all cfg.active.targets)
            (parse_all cfg.active.exclude))

  unfoldable pub derive : SensorConfig → EffectivePolicy
  derive cfg =
      let passive = without_dns cfg.privacy cfg.passive in
      record {
        mode = cfg.mode;
        passive = passive;
        active = derive_active cfg cfg.mode;
        privacy = without_observation passive cfg.privacy;
      }

abbrev pub probe_allowed : EffectiveActivePolicy → IpAddr → Bool
probe_allowed a ip = if any_contains a.exclude ip then false else any_contains a.targets ip

abbrev pub may_probe_by : Option EffectiveActivePolicy → IpAddr → Bool
may_probe_by none ip = false
may_probe_by (some a) ip = probe_allowed a ip

unfoldable pub may_probe : EffectivePolicy → IpAddr → Bool
may_probe policy ip = may_probe_by policy.active ip
