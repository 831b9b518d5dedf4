-- ===== src/Config/Hosts.antt =====
-- The addresses of a network in crates/sensor-core/src/config.rs, and the network itself.
use native.Mathlib.Nat.{mul-add-div_right, div-eq_of_lt, one-le-pow, mod-lt, mod-add-div}
use trapd_sensor.Prelude.{
  ◌≡◌, refl, ◌∙◌, subst, inl, inr, arith, ℕ, zero, suc, ◌+◌, ◌-◌, ◌*◌, ◌/◌, ◌%◌, ◌^◌, ◌≤◌, ◌<◌,
  Option, none, some, List, [], ◌∷◌, Bytes, Bool, true, false, ◌&&◌, ◌||◌, ltb, leb, ◌==◌,
  Bool-cases, Option-cases,
}
use trapd_sensor.Packet.{some_injective}
use trapd_sensor.Flow.{IpAddr, v4, v6, ip_eq}
use trapd_sensor.Text.{trim, split_once}
use trapd_sensor.Config.Cidr.{
  AddressText, Cidr, width, mask, contains, cidr_from, address_part, cidr_of, prefix_or, host_range,
  v4_hosts, hosts_of, host_count, hosts, parse,
}

abbrev pub among : IpAddr → List IpAddr → Bool
among ip [] = false
among ip (x ∷ xs) = ip_eq ip x || among ip xs

abbrev pub size : ℕ → ℕ
size p = 2 ^ (32 - p)

-- What a host of a network is: an address of version 4 in it, but neither its first nor its last
-- where it has more than two; networks of more than 2^20 addresses and of version 6 have no hosts.
abbrev pub host_at : IpAddr → Cidr → IpAddr → Bool
host_at (v4 base) c (v4 x) =
    leb 12 c.prefix
    && (contains c (v4 x)
        && (leb (size c.prefix) 2 || (ltb base x && ltb (x + 1) (base + size c.prefix))))
host_at (v4 base) c (v6 x) = false
host_at (v6 base) c ip = false

abbrev pub is_host : Cidr → IpAddr → Bool
is_host c ip = host_at c.network c ip

-- An address keeps its block when it moves within it.
block_start : (q k i : ℕ) → i < k → (q * k + i) / k * k ≡ q * k
block_start q k i h =
    let quotient : (q * k + i) / k ≡ q =
      mul-add-div_right {m = k} (omega arith) q i ∙ rw (div-eq_of_lt h) (omega arith) in
    rw quotient refl

within : ℕ → ℕ → ℕ → Bool
within s k x = leb s x && ltb x (s + k)

same_start :
    (b s k x : ℕ) → b ≤ x → x < b + k → (within s k x ≡ true → b ≡ s) → (b == s) ≡ within s k x
unfolding within
same_start b s k x l u h = elim (Bool-cases (within s k x)) [
  | inl inside ↦ let e = h inside in ground arith
  | inr outside ↦ ground arith
]

block_bounds : (k x : ℕ) → 0 < k → (x / k * k ≤ x) × (x < x / k * k + k)
block_bounds k x h =
    let e : x % k + k * (x / k) ≡ x = mod-add-div x k in
    let l : x % k < k = mod-lt x h in (omega arith, omega arith)

block_test : (q k x : ℕ) → 0 < k → (x / k * k == q * k) ≡ within (q * k) k x
unfolding within
block_test q k x h =
    let bounds = block_bounds k x h in
    same_start (x / k * k) (q * k) k x bounds.0 bounds.1 (λ inside.
      let l : q * k ≤ x = ground arith in
      let u : x < q * k + k = ground arith in
      let e : q * k + (x - q * k) ≡ x = omega arith in
      subst (λ y. y / k * k ≡ q * k) e (block_start q k (x - q * k) (omega arith)))

among-host_range : (n start x : ℕ) → among (v4 x) (host_range n start) ≡ within start n x
unfolding host_range within
among-host_range zero start x = ground arith
among-host_range (suc n) start x = rw (among-host_range n (start + 1) x) (ground arith)

-- With the first and the last address left out of more than two.
inner : ℕ → ℕ → ℕ → Bool
inner s k x = leb k 2 || (ltb s x && ltb (x + 1) (s + k))

among-v4_hosts : (s k x : ℕ) → among (v4 x) (v4_hosts s (some k)) ≡ (within s k x && inner s k x)
unfolding v4_hosts within inner
among-v4_hosts s k x = elim (Bool-cases (leb k 2)) [
  | inl few ↦ rw (few, among-host_range k s x) (ground arith)
  | inr many ↦ rw (many, among-host_range (k - 2) (s + 1) x) (ground arith)
]

-- A network of version 4, by the number of its block.
abbrev block : ℕ → ℕ → Cidr
block q p = record { network = v4 (q * size p); prefix = p }

contains-block :
    (q p x : ℕ) → (p == 0) ≡ false → contains (block q p) (v4 x) ≡ within (q * size p) (size p) x
unfolding contains mask
contains-block q p x h = rw h (block_test q (size p) x (one-le-pow (32 - p) 2 (omega arith)))

hosts-block :
    (q p x : ℕ) → (p == 0) ≡ false → among (v4 x) (hosts (block q p)) ≡ is_host (block q p) (v4 x)
unfolding hosts v4_hosts inner
hosts-block q p x h = elim (Bool-cases (leb 12 p)) [
  | inl small ↦
      let walked : ltb 20 (32 - p) ≡ false = ground arith in
      rw (walked, small, contains-block q p x h) (among-v4_hosts (q * size p) (size p) x)
  | inr large ↦ let refused : ltb 20 (32 - p) ≡ true = ground arith in rw (refused, large) refl
]

hosts-mask :
    (addr : IpAddr) (p x : ℕ)
    → among (v4 x) (hosts (record { network = mask addr p; prefix = p }))
      ≡ is_host (record { network = mask addr p; prefix = p }) (v4 x)
unfolding mask hosts v4_hosts
hosts-mask (v6 a) p x = refl
hosts-mask (v4 a) zero x = refl
hosts-mask (v4 a) (suc p) x =
    let some_bits : (suc p == 0) ≡ false = ground arith in
    rw some_bits (hosts-block (a / size (suc p)) (suc p) x some_bits)

cidr_of-hosts :
    (addr : IpAddr) (prefix : Option ℕ) (c : Cidr) (x : ℕ)
    → cidr_of addr prefix ≡ some c
    → among (v4 x) (hosts c) ≡ is_host c (v4 x)
cidr_of-hosts addr none c x h = let e : none ≡ some c = h in cc
cidr_of-hosts addr (some p) c x h = elim (Bool-cases (ltb (width addr) p)) [
  | inl long ↦ let e : none ≡ some c = rw long at h in cc
  | inr fits ↦
      let e : some (record { network = mask addr p; prefix = p }) ≡ some c = rw fits at h in
      subst (λ y. among (v4 x) (hosts y) ≡ is_host y (v4 x)) (some_injective _ _ e)
        (hosts-mask addr p x)
]

among_v6-host_range : (n start x : ℕ) → among (v6 x) (host_range n start) ≡ false
unfolding host_range
among_v6-host_range zero start x = refl
among_v6-host_range (suc n) start x = among_v6-host_range n (start + 1) x

among_v6-v4_hosts :
    (base : ℕ) (count : Option ℕ) (x : ℕ) → among (v6 x) (v4_hosts base count) ≡ false
unfolding v4_hosts
among_v6-v4_hosts base none x = refl
among_v6-v4_hosts base (some n) x = elim (Bool-cases (leb n 2)) [
  | inl few ↦ rw few (among_v6-host_range n base x)
  | inr many ↦ rw many (among_v6-host_range (n - 2) (base + 1) x)
]

-- No network lists an address of version 6.
unlisted :
    (network : IpAddr) (c : Cidr) (count : Option ℕ) (x : ℕ)
    → among (v6 x) (hosts_of network count) ≡ host_at network c (v6 x)
unlisted (v4 base) c count x = among_v6-v4_hosts base count x
unlisted (v6 base) c count x = refl

among_v6-hosts : (c : Cidr) (x : ℕ) → among (v6 x) (hosts c) ≡ is_host c (v6 x)
unfolding hosts
among_v6-hosts c x = unlisted c.network c (host_count c) x

module _ ⦃t : AddressText⦄ where
  cidr_from-hosts :
      (s : Bytes) (parts : Option (Bytes × Bytes)) (c : Cidr) (x : ℕ)
      → cidr_from s parts ≡ some c
      → among (v4 x) (hosts c) ≡ is_host c (v4 x)
  cidr_from-hosts s parts c x h = elim (Option-cases (t.parse_address (address_part s parts))) [
    | inl bad ↦ let e : none ≡ some c = rw (bad, cidr_from) at h in cc
    | inr (addr, good) ↦
        cidr_of-hosts addr (prefix_or (width addr) parts) c x (rw (good, cidr_from) at h)
  ]

  -- An address is listed among the hosts of a network that was read exactly if both are of version
  -- 4, the network has a prefix of at least 12 bits and contains the address, and the address is
  -- neither its first nor its last one where it has more than two.
  pub parse-hosts :
      (s : Bytes) (c : Cidr) (ip : IpAddr) → parse s ≡ some c → among ip (hosts c) ≡ is_host c ip
  unfolding parse
  parse-hosts s c (v4 x) h = cidr_from-hosts (trim s) (split_once 0x2f (trim s)) c x h
  parse-hosts s c (v6 x) h = among_v6-hosts c x
