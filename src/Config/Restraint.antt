-- ===== src/Config/Restraint.antt =====
-- What no remote configuration changes, and what an active policy takes from a configuration.
use trapd_sensor.Prelude.{
  ◌≡◌, ◌⊎◌, refl, ◌∙◌, arith, inl, inr, ℕ, ◌<◌, Option, none, some, List, [], ◌∷◌, true, ltb, leb,
  ◌==◌, All, Bool-cases,
}
use trapd_sensor.Packet.{some_injective}
use trapd_sensor.Config.{
  SensorMode, allows_active, allows_extended_active, ActiveDiscoveryConfig, CaptureConfig,
  SensorConfig, balanced_port_allowlist,
}
use trapd_sensor.Config.Cidr.{AddressText, parse_all}
use trapd_sensor.Config.Policy.{
  EffectiveActivePolicy, is_member, allowed_ports, insert_port, sorted_ports, is_nil, active_policy,
  derive_active,
}
use trapd_sensor.Config.Remote.{
  RemoteConfig, ActiveOverride, CaptureOverride, apply_active, apply_capture, apply, Polled, poll,
  poll_all,
}

-- What only the file on the host sets.
pub record SameConsent (file : SensorConfig) (cfg : SensorConfig) : Type 0 where
  pub mode_eq : cfg.mode ≡ file.mode
  pub acknowledged_eq : cfg.active.acknowledged ≡ file.active.acknowledged
  pub promiscuous_eq : cfg.capture.promiscuous ≡ file.capture.promiscuous
  pub snaplen_eq : cfg.capture.snaplen ≡ file.capture.snaplen

-- Nothing is applied, or something of a greater version.
abbrev pub Newer : Polled → Polled → Type 0
Newer before after =
    ((after.config ≡ before.config) × (after.version ≡ before.version))
    ⊎ (before.version < after.version)

pub record Advanced (before after : Polled) : Type 0 where
  pub consent : SameConsent before.config after.config
  pub newer : Newer before after

apply_active-acknowledged :
    (cfg : ActiveDiscoveryConfig) (a : Option ActiveOverride)
    → (apply_active cfg a).acknowledged ≡ cfg.acknowledged
apply_active-acknowledged cfg none = refl
apply_active-acknowledged cfg (some a) = refl

apply_capture-kept :
    (cfg : CaptureConfig) (c : Option CaptureOverride)
    → ((apply_capture cfg c).promiscuous ≡ cfg.promiscuous)
      × ((apply_capture cfg c).snaplen ≡ cfg.snaplen)
apply_capture-kept cfg none = (refl, refl)
apply_capture-kept cfg (some c) = (refl, refl)

unchanged : (s : Polled) → Advanced s s
unchanged s = record {
  consent = record {
    mode_eq = refl;
    acknowledged_eq = refl;
    promiscuous_eq = refl;
    snaplen_eq = refl;
  };
  newer = inl (refl, refl);
}

poll-Advanced : (answer : Option RemoteConfig) (s : Polled) → Advanced s (poll answer s)
unfolding poll apply
poll-Advanced none s = unchanged s
poll-Advanced (some remote) s = elim (Bool-cases (leb remote.config_version s.version)) [
  | inl old ↦ rw old (record { consent = (unchanged s).consent; newer = inl (refl, refl) })
  | inr newer ↦ rw newer (record {
    consent = record {
      mode_eq = refl;
      acknowledged_eq = apply_active-acknowledged s.config.active remote.active;
      promiscuous_eq = (apply_capture-kept s.config.capture remote.capture).0;
      snaplen_eq = (apply_capture-kept s.config.capture remote.capture).1;
    };
    newer = inr (ground arith);
  })
]

Newer-trans : (a b c : Polled) → Newer a b → Newer b c → Newer a c
Newer-trans a b c (inl (e, v)) (inl (e', v')) = inl (e' ∙ e, v' ∙ v)
Newer-trans a b c (inl (e, v)) (inr l) = inr (omega arith)
Newer-trans a b c (inr l) (inl (e, v)) = inr (omega arith)
Newer-trans a b c (inr l) (inr l') = inr (omega arith)

-- Whatever the backend answers, in whatever order, the mode, the acknowledgement of active
-- discovery, promiscuous capture and the snapshot length stay what they were, and the configuration
-- stays altogether unless the version has grown.
pub poll_all-Advanced :
    (answers : List (Option RemoteConfig)) (s : Polled) → Advanced s (poll_all answers s)
unfolding poll_all
poll_all-Advanced [] s = unchanged s
poll_all-Advanced (answer ∷ answers) s =
    let first = poll-Advanced answer s in
    let later = poll_all-Advanced answers (poll answer s) in
    record {
      consent = record {
        mode_eq = later.consent.mode_eq ∙ first.consent.mode_eq;
        acknowledged_eq = later.consent.acknowledged_eq ∙ first.consent.acknowledged_eq;
        promiscuous_eq = later.consent.promiscuous_eq ∙ first.consent.promiscuous_eq;
        snaplen_eq = later.consent.snaplen_eq ∙ first.consent.snaplen_eq;
      };
      newer =
          Newer-trans s (poll answer s) (poll_all answers (poll answer s)) first.newer later.newer;
    }

abbrev pub InAllowlist : ℕ → Type 0
InAllowlist port = is_member port balanced_port_allowlist ≡ true

module _ (P : ℕ → Type 0) where
  All-insert_port : (p : ℕ) (ps : List ℕ) → P p → All P ps → All P (insert_port p ps)
  unfolding insert_port
  All-insert_port p [] h hs = (h, tt)
  All-insert_port p (q ∷ qs) h hs = elim (Bool-cases (ltb p q)) [
    | inl less ↦ rw less (h, hs)
    | inr more ↦ elim (Bool-cases (p == q)) [
      | inl same ↦ rw (more, same) hs
      | inr other ↦ rw (more, other) (hs.0, All-insert_port p qs h hs.1)
    ]
  ]

  pub All-sorted_ports : (ps : List ℕ) → All P ps → All P (sorted_ports ps)
  unfolding sorted_ports
  All-sorted_ports [] h = tt
  All-sorted_ports (p ∷ ps) h = All-insert_port p (sorted_ports ps) h.0 (All-sorted_ports ps h.1)

  -- Of the ports that are let through, each is one of the list and in the allowlist.
  pub All-allowed_ports :
      (ps : List ℕ) → All P ps → All (λ p. P p × InAllowlist p) (allowed_ports ps)
  All-allowed_ports [] h = tt
  All-allowed_ports (p ∷ ps) h = elim (Bool-cases (is_member p balanced_port_allowlist)) [
    | inl known ↦ rw known ((h.0, known), All-allowed_ports ps h.1)
    | inr unknown ↦ rw unknown (All-allowed_ports ps h.1)
  ]

module _ ⦃t : AddressText⦄ where
  abbrev pub policy_of : SensorConfig → SensorMode → EffectiveActivePolicy
  policy_of cfg mode =
      active_policy (allows_extended_active mode) cfg.active (parse_all cfg.active.targets)
        (parse_all cfg.active.exclude)

  pub record Consent (cfg : SensorConfig) (mode : SensorMode) (a : EffectiveActivePolicy)
      : Type 0 where
    pub allowed : allows_active mode ≡ true
    pub enabled : cfg.active.enabled ≡ true
    pub acknowledged : cfg.active.acknowledged ≡ true
    pub made : policy_of cfg mode ≡ a

  -- Active discovery needs a mode that allows it, its section enabled, and the acknowledgement.
  pub derive_active-Consent :
      (cfg : SensorConfig) (mode : SensorMode) (a : EffectiveActivePolicy)
      → derive_active cfg mode ≡ some a
      → Consent cfg mode a
  unfolding derive_active
  derive_active-Consent cfg mode a h = elim (Bool-cases (allows_active mode)) [
    | inr never ↦ let e : none ≡ some a = rw never at h in cc
    | inl may ↦ elim (Bool-cases cfg.active.enabled) [
      | inr off ↦ let e : none ≡ some a = rw (may, off) at h in cc
      | inl on ↦ elim (Bool-cases cfg.active.acknowledged) [
        | inr silent ↦ let e : none ≡ some a = rw (may, on, silent) at h in cc
        | inl consent ↦ elim (Bool-cases (is_nil (parse_all cfg.active.targets))) [
          | inl nowhere ↦ let e : none ≡ some a = rw (may, on, consent, nowhere) at h in cc
          | inr somewhere ↦
              let made : some (policy_of cfg mode) ≡ some a =
                rw (may, on, consent, somewhere) at h in
              record {
                allowed = may;
                enabled = on;
                acknowledged = consent;
                made = some_injective (policy_of cfg mode) a made;
              }
        ]
      ]
    ]
  ]
