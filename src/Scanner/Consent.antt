-- ===== src/Scanner/Consent.antt =====
-- What a sweep may send, by the configuration that its policy comes from.
use trapd_sensor.Prelude.{
  ◌≡◌, ◌⊎◌, refl, sym, ap, ◌∙◌, subst, inl, inr, ℕ, ◌+◌, Option, none, some, List, [], ◌∷◌, Bytes,
  Bool, true, false, ◌&&◌, All, All-append, Bool-cases, Option-cases,
}
use trapd_sensor.Flow.{IpAddr}
use trapd_sensor.Snmp.Client.{SnmpResult}
use trapd_sensor.Config.{allows_active, allows_extended_active, ActiveDiscoveryConfig, SensorConfig}
use trapd_sensor.Config.Cidr.{AddressText, any_contains, parse_all}
use trapd_sensor.Config.Policy.{
  EffectiveActivePolicy, EffectivePolicy, allowed_ports, port_catalogue, communities_of,
  probe_allowed, may_probe, derive_active, derive,
}
use trapd_sensor.Config.Restraint.{
  InAllowlist, All-sorted_ports, All-allowed_ports, policy_of, derive_active-Consent,
}
use trapd_sensor.Scanner.{
  Probe, echo, query, connect, PortState, open_port, closed_port, filtered_port, Network, Sweep,
  count, respond, echoed, queried, port_found, query_loop, port_loop, echo_host, connect_host,
  probe_host, host_loop, targets, sweep_by, sweep, read_flag,
}

abbrev pub Listed : {A : Type 0} → A → List A → Type 0
Listed x [] = ⊥
Listed x (y ∷ ys) = (x ≡ y) ⊎ Listed x ys

-- What the configuration says to each kind of probe.
abbrev pub Agreed : SensorConfig → Probe → Type 0
Agreed cfg (echo ip) = cfg.active.icmp ≡ true
Agreed cfg (query ip community) =
    (allows_extended_active cfg.mode ≡ true)
    × ((cfg.active.snmp.enabled ≡ true) × Listed community cfg.active.snmp.communities)
Agreed cfg (connect ip port banner) =
    ((cfg.active.tcp_connect ≡ true) × Listed port cfg.active.ports)
    × (((allows_extended_active cfg.mode ≡ true) ⊎ InAllowlist port)
        × (banner ≡ (cfg.active.banner_grab && allows_extended_active cfg.mode)))

abbrev pub address_of : Probe → IpAddr
address_of (echo ip) = ip
address_of (query ip community) = ip
address_of (connect ip port banner) = ip

pub record Permitted ⦃t : AddressText⦄ (cfg : SensorConfig) (ip : IpAddr) : Type 0 where
  pub targeted : any_contains (parse_all cfg.active.targets) ip ≡ true
  pub not_excluded : any_contains (parse_all cfg.active.exclude) ip ≡ false
  pub mode_allows : allows_active cfg.mode ≡ true
  pub enabled : cfg.active.enabled ≡ true
  pub acknowledged : cfg.active.acknowledged ≡ true

-- A probe that the configuration permits.
abbrev pub Consented : ⦃t : AddressText⦄ → SensorConfig → Probe → Type 0
Consented cfg probe = Permitted cfg (address_of probe) × Agreed cfg probe

respond-probes : (s : Sweep) → (respond s).probes ≡ s.probes
respond-probes s = elim (Bool-cases s.responded) [ inl yet ↦ rw yet refl | inr new ↦ rw new refl ]

echoed-probes : (ip : IpAddr) (o : Option Bool) (s : Sweep) → (echoed ip o s).probes ≡ s.probes
echoed-probes ip none s = refl
echoed-probes ip (some true) s = refl
echoed-probes ip (some false) s = refl

port_found-probes :
    (ip : IpAddr) (port : ℕ) (grab : Bool) (a : PortState × Option Bytes) (s : Sweep)
    → (port_found ip port grab a s).probes ≡ s.probes
port_found-probes ip port grab (open_port, banner) s =
    respond-probes (count (λ n. record n { ports_open = n.ports_open + 1 }) s)
port_found-probes ip port grab (closed_port, banner) s = elim (Bool-cases s.responded) [
  | inl yet ↦ rw yet refl
  | inr new ↦ rw new refl
]
port_found-probes ip port grab (filtered_port, banner) s = refl

queried-probes : (ip : IpAddr) (r : SnmpResult) (s : Sweep) → (queried ip r s).probes ≡ s.probes
queried-probes ip r s =
    respond-probes (count (λ n. record n { snmp_responding = n.snmp_responding + 1 }) s)

-- What has to be known of each kind of probe to an address.
record Kinds (P : Probe → Type 0) (active : EffectiveActivePolicy) (ip : IpAddr) : Type 0 where
  echoes : active.icmp ≡ true → P (echo ip)
  queries : All (λ community. P (query ip community)) active.snmp_communities
  connects :
      active.tcp_connect ≡ true → All (λ port. P (connect ip port active.banner_grab)) active.ports

module _ (P : Probe → Type 0) (net : Network) (stop : ℕ → Bool) where
  query_loop-Sound :
      (ip : IpAddr) (communities : List Bytes) (s : Sweep)
      → All (λ community. P (query ip community)) communities
      → All P s.probes
      → All P (query_loop net stop ip communities s).probes
  unfolding query_loop
  query_loop-Sound ip [] s h hs = hs
  query_loop-Sound ip (community ∷ communities) s (h, later) hs =
      let more = All-append P s.probes (query ip community ∷ []) hs (h, tt) in
      elim (Bool-cases (stop s.reads)) [
        | inl stopped ↦ rw (stopped, query_loop) hs
        | inr on ↦ elim (Option-cases (net.get_system ip community)) [
          | inl failed ↦
              rw (on, query_loop)
                (rw (failed, query_loop) (query_loop-Sound ip communities _ later more))
          | inr (answer, e) ↦ elim (Option-cases answer) [
            | inl silent ↦
                let e' = e ∙ ap some silent in
                rw (on, query_loop)
                  (rw (e', query_loop) (query_loop-Sound ip communities _ later more))
            | inr (r, found) ↦
                let e' = e ∙ ap some found in
                rw (on, query_loop)
                  (rw (e', query_loop) (subst (All P) (sym (queried-probes ip r _)) more))
          ]
        ]
      ]

  port_loop-Sound :
      (ip : IpAddr) (grab : Bool) (ports : List ℕ) (s : Sweep)
      → All (λ port. P (connect ip port grab)) ports
      → All P s.probes
      → All P (port_loop net stop ip grab ports s).probes
  unfolding port_loop
  port_loop-Sound ip grab [] s h hs = hs
  port_loop-Sound ip grab (port ∷ ports) s (h, later) hs =
      let more = All-append P s.probes (connect ip port grab ∷ []) hs (h, tt) in
      elim (Bool-cases (stop s.reads)) [
        | inl stopped ↦ rw (stopped, port_loop) hs
        | inr on ↦
            rw (on, port_loop)
              (port_loop-Sound ip grab ports _ later
                (subst (All P) (sym (port_found-probes ip port grab _ _)) more))
      ]

  echo_host-Sound :
      (active : EffectiveActivePolicy) (ip : IpAddr) (s : Sweep)
      → (active.icmp ≡ true → P (echo ip))
      → All P s.probes
      → All P (echo_host net stop active ip s).probes
  echo_host-Sound active ip s h hs = elim (Bool-cases active.icmp) [
    | inl on ↦ rw on (
        subst (All P) (sym (echoed-probes ip _ _))
          (All-append P s.probes (echo ip ∷ []) hs (h on, tt)))
    | inr off ↦ rw off hs
  ]

  connect_host-Sound :
      (active : EffectiveActivePolicy) (ip : IpAddr) (s : Sweep)
      → (active.tcp_connect ≡ true
          → All (λ port. P (connect ip port active.banner_grab)) active.ports)
      → All P s.probes
      → All P (connect_host net stop active ip s).probes
  connect_host-Sound active ip s h hs = elim (Bool-cases active.tcp_connect) [
    | inl on ↦ rw on (port_loop-Sound ip active.banner_grab active.ports s (h on) hs)
    | inr off ↦ rw off hs
  ]

  probe_host-Sound :
      (policy : EffectivePolicy) (active : EffectiveActivePolicy) (ip : IpAddr) (s : Sweep)
      → (may_probe policy ip ≡ true → Kinds P active ip)
      → All P s.probes
      → All P (probe_host net stop policy active ip s).probes
  unfolding probe_host
  probe_host-Sound policy active ip s known hs = elim (Bool-cases (may_probe policy ip)) [
    | inr refused ↦ rw refused hs
    | inl allowed ↦
        let k = known allowed in
        rw allowed (
          connect_host-Sound active ip _ k.connects (
            query_loop-Sound ip active.snmp_communities _ k.queries
              (echo_host-Sound active ip (record s { responded = false }) k.echoes hs)))
  ]

  host_loop-Sound :
      (policy : EffectivePolicy) (active : EffectiveActivePolicy) (ips : List IpAddr) (s : Sweep)
      → ((ip : IpAddr) → may_probe policy ip ≡ true → Kinds P active ip)
      → All P s.probes
      → All P (host_loop net stop policy active ips s).probes
  unfolding host_loop
  host_loop-Sound policy active [] s known hs = hs
  host_loop-Sound policy active (ip ∷ ips) s known hs = elim (Bool-cases (stop s.reads)) [
    | inl stopped ↦ rw (stopped, host_loop) hs
    | inr on ↦
        rw (on, host_loop)
          (host_loop-Sound policy active ips _ known
            (probe_host-Sound policy active ip (read_flag s) (known ip) hs))
  ]

All-to {ℓ κ μ} :
    {A : Type ℓ} (P : A → Type κ) (Q : A → Type μ) (xs : List A)
    → ((x : A) → P x → Q x)
    → All P xs
    → All Q xs
All-to P Q [] f h = tt
All-to P Q (x ∷ xs) f h = (f x h.0, All-to P Q xs f h.1)

All-Listed : {A : Type 0} (xs : List A) → All (λ x. Listed x xs) xs
All-Listed [] = tt
All-Listed (x ∷ xs) =
    (inl refl, All-to (λ y. Listed y xs) (λ y. Listed y (x ∷ xs)) xs (λ y h. inr h) (All-Listed xs))

Listed-ports :
    (extended : Bool) (ports : List ℕ)
    → All
        (λ p. Listed p ports × ((extended ≡ true) ⊎ InAllowlist p))
        (port_catalogue extended ports)
Listed-ports true ports =
    All-sorted_ports (λ p. Listed p ports × ((true ≡ true) ⊎ InAllowlist p)) ports
      (All-to (λ p. Listed p ports) _ ports (λ p h. (h, inl refl)) (All-Listed ports))
Listed-ports false ports =
    All-sorted_ports (λ p. Listed p ports × ((false ≡ true) ⊎ InAllowlist p)) (allowed_ports ports)
      (All-to (λ p. Listed p ports × InAllowlist p) _ (allowed_ports ports) (λ p h. (h.0, inr h.1))
        (All-allowed_ports (λ p. Listed p ports) ports (All-Listed ports)))

Listed-communities :
    (extended : Bool) (a : ActiveDiscoveryConfig)
    → All
        (λ community.
          (extended ≡ true) × ((a.snmp.enabled ≡ true) × Listed community a.snmp.communities))
        (communities_of extended a)
Listed-communities false a = tt
Listed-communities true a = elim (Bool-cases a.snmp.enabled) [
  | inl on ↦ rw on (
      All-to (λ community. Listed community a.snmp.communities) _ a.snmp.communities
        (λ community h. (refl, (refl, h))) (All-Listed a.snmp.communities))
  | inr off ↦ rw off tt
]

first_true : (a b : Bool) → (a && b) ≡ true → a ≡ true
first_true true b h = refl
first_true false b h = cc

permitted_by :
    (a : EffectiveActivePolicy) (ip : IpAddr)
    → probe_allowed a ip ≡ true
    → (any_contains a.targets ip ≡ true) × (any_contains a.exclude ip ≡ false)
permitted_by a ip h = elim (Bool-cases (any_contains a.exclude ip)) [
  | inl excluded ↦ let e : false ≡ true = rw excluded at h in cc
  | inr free ↦ (rw free at h, free)
]

module _ ⦃t : AddressText⦄ where
  Kinds-from :
      (cfg : SensorConfig) (ip : IpAddr)
      → Permitted cfg ip
      → Kinds (Consented cfg) (policy_of cfg cfg.mode) ip
  Kinds-from cfg ip may =
      let extended = allows_extended_active cfg.mode in
      record {
        echoes = λ on. (may, on);
        queries =
            All-to _ _ (communities_of extended cfg.active) (λ community h. (may, h))
              (Listed-communities extended cfg.active);
        connects = λ on.
            All-to _ _ (port_catalogue extended cfg.active.ports)
              (λ port h. (may, ((first_true cfg.active.tcp_connect _ on, h.0), (h.1, refl))))
              (Listed-ports extended cfg.active.ports);
      }

module _ ⦃t : AddressText⦄ (net : Network) (stop : ℕ → Bool) where
  sweep_by-Consented :
      (cfg : SensorConfig) (policy : EffectivePolicy) (a : Option EffectiveActivePolicy)
      → policy.active ≡ a
      → derive_active cfg cfg.mode ≡ a
      → All (Consented cfg) (sweep_by net stop policy a).probes
  unfolding may_probe
  sweep_by-Consented cfg policy none known e = tt
  sweep_by-Consented cfg policy (some active) known e =
      let c = derive_active-Consent cfg cfg.mode active e in
      host_loop-Sound (Consented cfg) net stop policy active (targets policy) _
        (λ ip may.
          let allowed : probe_allowed active ip ≡ true = rw (known, may_probe) at may in
          let inside =
            permitted_by (policy_of cfg cfg.mode) ip
              (subst (λ a. probe_allowed a ip ≡ true) (sym c.made) allowed) in
          subst (λ a. Kinds (Consented cfg) a ip) c.made
            (Kinds-from cfg ip (record {
              targeted = inside.0;
              not_excluded = inside.1;
              mode_allows = c.allowed;
              enabled = c.enabled;
              acknowledged = c.acknowledged;
            })))
        tt

  -- With the policy of any configuration, a sweep sends nothing unless the mode allows active
  -- discovery, the section is enabled and the operator has acknowledged it, and each probe goes to
  -- an address in a target network and in no excluded one. An echo request needs `icmp`. An SNMP
  -- query needs the active mode and SNMP enabled, and has one of the configured communities. A
  -- connection needs `tcp_connect` and goes to a configured port, which is one of the balanced
  -- allowlist unless the mode is the active one; it reads a banner exactly if that is configured and
  -- the mode is the active one.
  pub sweep-Consented :
      (cfg : SensorConfig) → All (Consented cfg) (sweep net stop (derive cfg)).probes
  unfolding sweep derive
  sweep-Consented cfg = sweep_by-Consented cfg (derive cfg) (derive_active cfg cfg.mode) refl refl
