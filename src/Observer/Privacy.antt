-- ===== src/Observer/Privacy.antt =====
-- What the observer keeps to itself: the clients and the domains that the policy excludes.
use trapd_sensor.Prelude.{
  ◌≡◌, ◌⊎◌, subst, inl, inr, arith, ℕ, ◌+◌, ◌≤◌, Option, none, some, List, [], ◌∷◌, Bytes, Bool,
  true, false, All, All-append, Bool-cases, Option-cases, length, leb, if◌then◌else◌,
}
use trapd_sensor.Flow.{
  IpAddr, FlowKey, FlowState, FlowAggregator, TransportProtocol, key_eq, src_is_client, normalized,
  update, observe, is_over, expire_loop,
}
use trapd_sensor.Config.Cidr.{AddressText}
use trapd_sensor.Config.Policy.{EffectivePolicy}
use trapd_sensor.Observed.{
  by_dhcp, dhcp_served_by, DnsObservation, Report, asset, service, flow, dns, dhcp, relationship,
}
use trapd_sensor.Observer.{
  Suppressor, insert_seen, allow, retain_recent, max_suppression_entries, PassiveObserver,
  allow_key, is_excluded_client, is_excluded_domain, pseudonymize,
}
use trapd_sensor.Observer.Handlers.{behind_reports}
use trapd_sensor.Observer.Parts.{Handled, if_allowed}

insert_seen-length :
    (key : Bytes) (now : ℕ) (seen : List (Bytes × ℕ))
    → length (insert_seen key now seen) ≤ length seen + 1
unfolding insert_seen
insert_seen-length key now [] = omega arith
insert_seen-length key now ((k, time) ∷ rest) = ground (arith, insert_seen-length key now rest)

allow-bounded :
    (key : Bytes) (now : ℕ) (s : Suppressor)
    → length s.seen ≤ max_suppression_entries
    → length (allow key now s).1.seen ≤ max_suppression_entries
unfolding allow
allow-bounded key now s h =
    ground (arith, insert_seen-length key now s.seen, insert_seen-length key now [])

pub retain_recent-length :
    (ttl now : ℕ) (seen : List (Bytes × ℕ)) → length (retain_recent ttl now seen) ≤ length seen
unfolding retain_recent
retain_recent-length ttl now [] = omega arith
retain_recent-length ttl now ((k, time) ∷ rest) = ground (arith, retain_recent-length ttl now rest)

-- The keys of the flow table.
module _ (Q : FlowKey → Type 0) where
  abbrev pub KeysOf : List (FlowKey × FlowState) → Type 0
  KeysOf flows = All (λ entry. Q entry.0) flows

  abbrev KeysIn : Option (List (FlowKey × FlowState)) → Type 0
  KeysIn none = Unit {0}
  KeysIn (some flows) = KeysOf flows

  update-keys :
      (key : FlowKey) (bytes now : ℕ) (flows : List (FlowKey × FlowState))
      → KeysOf flows
      → KeysIn (update key bytes now flows)
  unfolding update
  update-keys key bytes now [] h = tt
  update-keys key bytes now ((k, state) ∷ flows) (h, hs) =
      let ih = update-keys key bytes now flows hs in
      elim (Bool-cases (key_eq k key)) [
        | inl same ↦ rw (same, update) (h, hs)
        | inr other ↦ elim (Option-cases (update key bytes now flows)) [
          | inl missing ↦ rw (other, update) (rw (missing, update) tt)
          | inr (found, e) ↦ rw (other, update) (rw (e, update) (h, subst KeysIn e ih))
        ]
      ]

  observe-keys :
      (table : FlowAggregator) (key : FlowKey) (bytes now : ℕ)
      → Q key
      → KeysOf table.flows
      → KeysOf (observe table key bytes now).flows
  unfolding observe
  observe-keys table key bytes now h hs =
      let kept = update-keys key bytes now table.flows hs in
      elim (Option-cases (update key bytes now table.flows)) [
        | inr (found, e) ↦ rw (e, observe) (subst KeysIn e kept)
        | inl missing ↦ elim (Bool-cases (leb table.max_flows (length table.flows))) [
          | inl full ↦ rw (missing, observe) (rw (full, observe) hs)
          | inr room ↦ rw (missing, observe) (rw (room, observe) (h, hs))
        ]
      ]

  pub expire_loop-keys :
      (window now : ℕ) (flows : List (FlowKey × FlowState))
      → KeysOf flows
      → KeysOf (expire_loop window now flows).0 × KeysOf (expire_loop window now flows).1
  unfolding expire_loop
  expire_loop-keys window now [] h = (tt, tt)
  expire_loop-keys window now ((k, state) ∷ flows) (h, hs) =
      let ih = expire_loop-keys window now flows hs in
      elim (Bool-cases (is_over window now state)) [
        | inl over ↦ rw (over, expire_loop) ((h, ih.0), ih.1)
        | inr live ↦ rw (live, expire_loop) (ih.0, (h, ih.1))
      ]

module _ ⦃t : AddressText⦄ where
  abbrev pub Allowed : EffectivePolicy → IpAddr → Type 0
  Allowed policy ip = is_excluded_client ip policy.privacy ≡ false

  abbrev pub AllowedIf : EffectivePolicy → Option IpAddr → Type 0
  AllowedIf policy none = Unit {0}
  AllowedIf policy (some ip) = Allowed policy ip

  abbrev pub AllowedKey : EffectivePolicy → FlowKey → Type 0
  AllowedKey policy key = Allowed policy key.client_ip × Allowed policy key.server_ip

  -- A query by an allowed client to an allowed server, for a domain that is not excluded, with its
  -- name and its answers only as far as the policy says.
  pub record QueryIsPrivate (policy : EffectivePolicy) (d : DnsObservation) : Type 0 where
    pub observed : policy.passive.dns ≡ true
    pub client : AllowedIf policy d.client_ip
    pub server : AllowedIf policy d.server_ip
    pub name : Bytes
    pub not_excluded : is_excluded_domain name policy.privacy.dns_exclude_domains ≡ false
    pub name_eq : d.query_name ≡ (if policy.privacy.hash_dns_names then pseudonymize name else name)
    pub marked : d.query_name_hashed ≡ policy.privacy.hash_dns_names
    pub answers : (policy.privacy.store_dns_answers ≡ true) ⊎ (d.resolved_ips ≡ [])

  -- What a report may say of the clients. Those of a lease are the exception.
  abbrev pub IsPrivate : EffectivePolicy → Report → Type 0
  IsPrivate policy (asset a) = (a.method ≡ by_dhcp) ⊎ AllowedIf policy a.ip
  IsPrivate policy (service s) = Allowed policy s.ip
  IsPrivate policy (flow f) = Allowed policy f.source_ip × Allowed policy f.dest_ip
  IsPrivate policy (dns d) = QueryIsPrivate policy d
  IsPrivate policy (dhcp d) = policy.passive.dhcp ≡ true
  IsPrivate policy (relationship r) =
      (r.edge_type ≡ dhcp_served_by) ⊎ (AllowedIf policy r.source_ip × AllowedIf policy r.dest_ip)

  -- The observer's state: flows of allowed clients alone, and a bounded cache.
  pub record KeepsPrivate (policy : EffectivePolicy) (o : PassiveObserver) : Type 0 where
    pub same_policy : o.policy ≡ policy
    pub tracked : All (λ entry. AllowedKey policy entry.0) o.flows.flows
    pub bounded : length o.suppression.seen ≤ max_suppression_entries

  -- What a handler gives.
  pub record Handles (policy : EffectivePolicy) (h : Handled) : Type 0 where
    pub reports : All (IsPrivate policy) h.0
    pub keeps : KeepsPrivate policy h.1

  pub nothing-Handles :
      {policy : EffectivePolicy} {o : PassiveObserver}
      → KeepsPrivate policy o
      → Handles policy ([], o)
  nothing-Handles k = record { reports = tt; keeps = k }

  pub allow_key-Keeps :
      {policy : EffectivePolicy} (key : Bytes) (now : ℕ) {o : PassiveObserver}
      → KeepsPrivate policy o
      → KeepsPrivate policy (allow_key key now o).1
  allow_key-Keeps key now {o} k = record {
    same_policy = k.same_policy;
    tracked = k.tracked;
    bounded = allow-bounded key now o.suppression k.bounded;
  }

  pub if_allowed-Handles :
      {policy : EffectivePolicy} (reports : List Report) (a : Bool × PassiveObserver)
      → All (IsPrivate policy) reports
      → KeepsPrivate policy a.1
      → Handles policy (if_allowed reports a)
  if_allowed-Handles reports (true, o) h k = record { reports = h; keeps = k }
  if_allowed-Handles reports (false, o) h k = nothing-Handles k

  pub behind_reports-Handles :
      {policy : EffectivePolicy} (before : List Report) (h : Handled)
      → All (IsPrivate policy) before
      → Handles policy h
      → Handles policy (behind_reports before h)
  behind_reports-Handles {policy} before (out, o) b r = record {
    reports = All-append (IsPrivate policy) before out b r.reports;
    keeps = r.keeps;
  }

  pub normalized-Allowed :
      (policy : EffectivePolicy) (src : IpAddr) (src_port : ℕ) (dst : IpAddr) (dst_port : ℕ)
      (protocol : TransportProtocol)
      → Allowed policy src
      → Allowed policy dst
      → AllowedKey policy (normalized src src_port dst dst_port protocol)
  unfolding normalized
  normalized-Allowed policy src src_port dst dst_port protocol s d =
      elim (Bool-cases (src_is_client src src_port dst dst_port)) [
        | inl is_client ↦ rw is_client (s, d)
        | inr is_server ↦ rw is_server (d, s)
      ]

  pub observe-Keeps :
      {policy : EffectivePolicy} {o : PassiveObserver} (key : FlowKey) (bytes now : ℕ)
      → AllowedKey policy key
      → KeepsPrivate policy o
      → KeepsPrivate policy (record o { flows = observe o.flows key bytes now })
  observe-Keeps {policy} {o} key bytes now h k = record {
    same_policy = k.same_policy;
    tracked = observe-keys (AllowedKey policy) o.flows key bytes now h k.tracked;
    bounded = k.bounded;
  }
