-- ===== src/Flow/Bounds.antt =====
-- What the flow table makes of a packet and of the time that passes; both directions of a
-- connection are one flow.
use trapd_sensor.Prelude.{
  subst, ℕ, suc, ◌+◌, ◌-◌, ◌*◌, ◌≤◌, ◌≡◌, refl, sym, ap, arith, Option, none, some, List, [], ◌∷◌,
  length, Bool, true, false, not, ◌&&◌, leb, ◌==◌, ==_refl, Bool-cases, Option-cases, inl, inr,
  if◌then◌else◌,
}
use trapd_sensor.Flow.{
  TransportProtocol, tcp, udp, icmp, other, IpAddr, v4, v6, ip_eq, protocol_eq, normalized, FlowKey,
  FlowState, FlowAggregator, update, observe, key_eq, expire_loop, expire, is_over,
}

-- Both directions of a connection have the same key.
pub normalized_symmetric :
    (a : IpAddr) (a_port : ℕ) (b : IpAddr) (b_port : ℕ) (protocol : TransportProtocol)
    → normalized a a_port b b_port protocol ≡ normalized b b_port a a_port protocol
unfolding normalized
normalized_symmetric (v4 a) a_port (v4 b) b_port protocol = ground arith
normalized_symmetric (v4 a) a_port (v6 b) b_port protocol = ground arith
normalized_symmetric (v6 a) a_port (v4 b) b_port protocol = ground arith
normalized_symmetric (v6 a) a_port (v6 b) b_port protocol = ground arith

some_same {ℓ} : {A : Type ℓ} (a b : A) → some a ≡ some b → a ≡ b
some_same a b h = cc

ip_eq→eq : (a b : IpAddr) → ip_eq a b ≡ true → a ≡ b
ip_eq→eq (v4 a) (v4 b) h = let e : a ≡ b = ground arith in ap v4 e
ip_eq→eq (v4 a) (v6 b) h = cc
ip_eq→eq (v6 a) (v4 b) h = cc
ip_eq→eq (v6 a) (v6 b) h = let e : a ≡ b = ground arith in ap v6 e

ip_eq_refl : (a : IpAddr) → ip_eq a a ≡ true
ip_eq_refl (v4 a) = ==_refl a
ip_eq_refl (v6 a) = ==_refl a

protocol_eq_refl : (p : TransportProtocol) → protocol_eq p p ≡ true
protocol_eq_refl tcp = refl
protocol_eq_refl udp = refl
protocol_eq_refl icmp = refl
protocol_eq_refl other = refl

protocol_eq→eq : (p q : TransportProtocol) → protocol_eq p q ≡ true → p ≡ q
protocol_eq→eq tcp tcp h = refl
protocol_eq→eq tcp udp h = cc
protocol_eq→eq tcp icmp h = cc
protocol_eq→eq tcp other h = cc
protocol_eq→eq udp tcp h = cc
protocol_eq→eq udp udp h = refl
protocol_eq→eq udp icmp h = cc
protocol_eq→eq udp other h = cc
protocol_eq→eq icmp tcp h = cc
protocol_eq→eq icmp udp h = cc
protocol_eq→eq icmp icmp h = refl
protocol_eq→eq icmp other h = cc
protocol_eq→eq other tcp h = cc
protocol_eq→eq other udp h = cc
protocol_eq→eq other icmp h = cc
protocol_eq→eq other other h = refl

key_eq_refl : (a : FlowKey) → key_eq a a ≡ true
key_eq_refl a =
    rw
      (ip_eq_refl a.client_ip, ==_refl a.client_port, ip_eq_refl a.server_ip, ==_refl a.server_port)
      (protocol_eq_refl a.protocol)

split_and : (a b : Bool) → (a && b) ≡ true → (a ≡ true) × (b ≡ true)
split_and true b h = (refl, h)
split_and false b h = cc

same_port : (a b : ℕ) → (a == b) ≡ true → a ≡ b
same_port a b h = ground arith

key_eq→eq : (a b : FlowKey) → key_eq a b ≡ true → a ≡ b
key_eq→eq a b h =
    let (client, h1) = split_and (ip_eq a.client_ip b.client_ip) _ h in
    let (client_port, h2) = split_and (a.client_port == b.client_port) _ h1 in
    let (server, h3) = split_and (ip_eq a.server_ip b.server_ip) _ h2 in
    let (server_port, h4) = split_and (a.server_port == b.server_port) _ h3 in
    λ i. record {
      client_ip = ip_eq→eq a.client_ip b.client_ip client i;
      client_port = same_port _ _ client_port i;
      server_ip = ip_eq→eq a.server_ip b.server_ip server i;
      server_port = same_port _ _ server_port i;
      protocol = protocol_eq→eq _ _ h4 i;
    }

-- The state of a flow in the table.
abbrev pub find : FlowKey → List (FlowKey × FlowState) → Option FlowState
find key [] = none
find key ((k, state) ∷ flows) = if key_eq k key then some state else find key flows

-- One more packet of a flow.
abbrev pub one_more : ℕ → ℕ → FlowState → FlowState
one_more bytes now state = record {
  bytes = state.bytes + bytes;
  packets = state.packets + 1;
  first_seen = state.first_seen;
  last_seen = now;
}

abbrev pub first_packet : ℕ → ℕ → FlowState
first_packet bytes now = record { bytes = bytes; packets = 1; first_seen = now; last_seen = now }

apart :
    (k key third : FlowKey)
    → key_eq k key ≡ true
    → key_eq key third ≡ false
    → key_eq k third ≡ false
apart k key third same differs =
    subst (λ x. key_eq x third ≡ false) (sym (key_eq→eq k key same)) differs

update-missing :
    (key : FlowKey) (bytes now : ℕ) (flows : List (FlowKey × FlowState))
    → find key flows ≡ none
    → update key bytes now flows ≡ none
unfolding update
update-missing key bytes now [] h = refl
update-missing key bytes now ((k, state) ∷ flows) h = elim (Bool-cases (key_eq k key)) [
  | inl same ↦ let e : some state ≡ none = rw same at h in cc
  | inr differs ↦
      rw (differs, update) (rw (update-missing key bytes now flows (rw differs at h)) refl)
]

-- A flow that is in the table is the only one that changes.
record Updated (key : FlowKey) (new : FlowState) (flows flows' : List (FlowKey × FlowState))
    : Type 0 where
  same_length : length flows' ≡ length flows
  changed : find key flows' ≡ some new
  others : (k : FlowKey) → key_eq key k ≡ false → find k flows' ≡ find k flows

update-found :
    (key : FlowKey) (bytes now : ℕ) (flows : List (FlowKey × FlowState)) (old : FlowState)
    → find key flows ≡ some old
    → (flows' : List (FlowKey × FlowState)) × ((update key bytes now flows ≡ some flows')
        × Updated key (one_more bytes now old) flows flows')
unfolding update
update-found key bytes now [] old h = absurd cc
update-found key bytes now ((k, state) ∷ flows) old h = elim (Bool-cases (key_eq k key)) [
  | inl same ↦
      let e : some state ≡ some old = rw same at h in
      let here = some_same state old e in
      (
        (k, one_more bytes now state) ∷ flows,
        (
          rw (same, update) refl,
          record {
            same_length = refl;
            changed = rw same (ap (λ x. some (one_more bytes now x)) here);
            others = λ third differs. rw (apart k key third same differs) refl;
          },
        ),
      )
  | inr differs ↦
      let (rest, (found, u)) = update-found key bytes now flows old (rw differs at h) in
      (
        (k, state) ∷ rest,
        (
          rw (differs, update) (rw found refl),
          record {
            same_length = ap suc u.same_length;
            changed = rw differs u.changed;
            others = λ third later.
                ap (λ (o : Option FlowState). if key_eq k third then some state else o)
                  (u.others third later);
          },
        ),
      )
]

-- What one more packet makes of the table: its flow counts it, or it starts a flow where there is
-- room, or it is skipped.
abbrev pub found_after : ℕ → ℕ → Option FlowState → Bool → Option FlowState
found_after bytes now (some old) full = some (one_more bytes now old)
found_after bytes now none true = none
found_after bytes now none false = some (first_packet bytes now)

abbrev pub skipped_after : ℕ → Option FlowState → Bool → ℕ
skipped_after skipped (some old) full = skipped
skipped_after skipped none true = skipped + 1
skipped_after skipped none false = skipped

pub record Counts (table : FlowAggregator) (key : FlowKey) (bytes now : ℕ) (after : FlowAggregator)
    : Type 0 where
  pub within : length after.flows ≤ table.max_flows
  pub counted :
      find key after.flows
      ≡ found_after bytes now (find key table.flows) (leb table.max_flows (length table.flows))
  pub skipped_eq :
      after.skipped
      ≡ skipped_after table.skipped
          (find key table.flows)
          (leb table.max_flows (length table.flows))
  pub others : (k : FlowKey) → key_eq key k ≡ false → find k after.flows ≡ find k table.flows
  pub same_limits : (after.max_flows ≡ table.max_flows) × (after.window_secs ≡ table.window_secs)

-- A table within its limit stays so. A packet of a flow in the table adds its bytes and one packet
-- to that flow, which keeps its first time and gets this one as its last; a packet of another flow
-- starts it with its bytes, one packet and this time if the table is below its limit, and is
-- otherwise counted as skipped, with no flow of its key. Every other flow stays as it was.
pub observe-Counts :
    (table : FlowAggregator) (key : FlowKey) (bytes now : ℕ)
    → length table.flows ≤ table.max_flows
    → Counts table key bytes now (observe table key bytes now)
unfolding observe
observe-Counts table key bytes now h = elim (Option-cases (find key table.flows)) [
  | inr (old, there) ↦
      let (flows, (found, u)) = update-found key bytes now table.flows old there in
      let e : observe table key bytes now ≡ record table { flows = flows } =
        rw (found, observe) refl in
      subst (Counts table key bytes now) (sym e) (record {
        within = omega (arith, u.same_length);
        counted = rw there u.changed;
        skipped_eq = rw there refl;
        others = u.others;
        same_limits = (refl, refl);
      })
  | inl fresh ↦
      let missing = update-missing key bytes now table.flows fresh in
      elim (Bool-cases (leb table.max_flows (length table.flows))) [
        | inl full ↦
            let e : observe table key bytes now ≡ record table { skipped = table.skipped + 1 } =
              rw (missing, observe) (rw full refl) in
            subst (Counts table key bytes now) (sym e) (record {
              within = h;
              counted = rw (fresh, full) refl;
              skipped_eq = rw (fresh, full) refl;
              others = λ k differs. refl;
              same_limits = (refl, refl);
            })
        | inr room ↦
            let e : observe table key bytes now
                ≡ record table { flows = (key, first_packet bytes now) ∷ table.flows } =
              rw (missing, observe) (rw room refl) in
            subst (Counts table key bytes now) (sym e) (record {
              within = ground arith;
              counted = rw (fresh, room, key_eq_refl key) refl;
              skipped_eq = rw (fresh, room) refl;
              others = λ k differs. rw differs refl;
              same_limits = (refl, refl);
            })
      ]
]

-- The flows of a table that a test holds for, in their order.
abbrev pub those : (FlowState → Bool) → List (FlowKey × FlowState) → List (FlowKey × FlowState)
those test [] = []
those test ((k, state) ∷ flows) =
    let rest = those test flows in if test state then (k, state) ∷ rest else rest

-- No packet for as many seconds as the window has.
abbrev pub quiet : ℕ → ℕ → FlowState → Bool
quiet window now state = leb (window * 1000) (now - state.last_seen)

is_over-quiet :
    (window now : ℕ) (state : FlowState) → is_over window now state ≡ quiet window now state
is_over-quiet window now state = ground arith

expire_loop-those :
    (window now : ℕ) (flows : List (FlowKey × FlowState))
    → expire_loop window now flows
      ≡ (those (quiet window now) flows, those (λ s. not (quiet window now s)) flows)
unfolding expire_loop
expire_loop-those window now [] = refl
expire_loop-those window now ((k, state) ∷ flows) =
    rw (expire_loop-those window now flows, is_over-quiet window now state)
      (elim (Bool-cases (quiet window now state)) [
        | inl old ↦ rw old refl
        | inr young ↦ rw young refl
      ])

-- What goes is every flow whose last packet is at least the window's seconds ago, and what stays
-- is every other one, each as it was.
pub expire-quiet :
    (table : FlowAggregator) (now : ℕ)
    → expire table now ≡ (
      those (quiet table.window_secs now) table.flows,
      record table { flows = those (λ s. not (quiet table.window_secs now s)) table.flows },
    )
unfolding expire
expire-quiet table now = rw (expire_loop-those table.window_secs now table.flows) refl
