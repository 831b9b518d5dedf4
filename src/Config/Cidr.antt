-- ===== src/Config/Cidr.antt =====
-- `Cidr` of crates/sensor-core/src/config.rs. The standard library reads an address, which is the
-- parameter `AddressText`.
use trapd_sensor.Prelude.{
  ℕ, zero, suc, ◌+◌, ◌-◌, ◌*◌, ◌/◌, ◌^◌, Option, none, some, List, [], ◌∷◌, Bytes, Bool, true,
  false, ltb, leb, ◌==◌, if◌then◌else◌,
}
use trapd_sensor.Flow.{IpAddr, v4, v6, ip_eq}
use trapd_sensor.Text.{trim, split_once, parse_u8}

-- `IpAddr::from_str` and `IpAddr::to_string`.
pub record AddressText : Type 0 where
  pub parse_address : Bytes → Option IpAddr
  pub address_text : IpAddr → Bytes

pub record Cidr : Type 0 where
  pub network : IpAddr
  pub prefix : ℕ

abbrev pub width : IpAddr → ℕ
width (v4 a) = 32
width (v6 a) = 128

-- `bits & (MAX << (width - prefix))`
abbrev pub cleared : ℕ → ℕ → ℕ → ℕ
cleared bits prefix a = if prefix == 0 then 0 else a / 2 ^ (bits - prefix) * 2 ^ (bits - prefix)

unfoldable pub mask : IpAddr → ℕ → IpAddr
mask (v4 a) prefix = v4 (cleared 32 prefix a)
mask (v6 a) prefix = v6 (cleared 128 prefix a)

abbrev pub same_family : IpAddr → IpAddr → Bool
same_family (v4 a) (v4 b) = true
same_family (v4 a) (v6 b) = false
same_family (v6 a) (v4 b) = false
same_family (v6 a) (v6 b) = true

unfoldable pub contains : Cidr → IpAddr → Bool
contains c ip = if same_family c.network ip then ip_eq (mask ip c.prefix) c.network else false

-- Behind the two parts.
abbrev pub cidr_of : IpAddr → Option ℕ → Option Cidr
cidr_of addr none = none
cidr_of addr (some prefix) =
    if ltb (width addr) prefix
    then none
    else some (record { network = mask addr prefix; prefix = prefix })

abbrev pub prefix_or : ℕ → Option (Bytes × Bytes) → Option ℕ
prefix_or max none = some max
prefix_or max (some parts) = parse_u8 parts.1

abbrev pub address_part : Bytes → Option (Bytes × Bytes) → Bytes
address_part whole none = whole
address_part whole (some parts) = parts.0

abbrev pub host_count : Cidr → Option ℕ
host_count c =
    if ltb 20 (width c.network - c.prefix) then none else some (2 ^ (width c.network - c.prefix))

-- `(start..end).map(|i| base + i)`, for a number of addresses.
unfoldable pub host_range : ℕ → ℕ → List IpAddr
host_range zero next = []
host_range (suc n) next = v4 next ∷ host_range n (next + 1)

unfoldable pub v4_hosts : ℕ → Option ℕ → List IpAddr
v4_hosts base none = []
v4_hosts base (some count) =
    if leb count 2 then host_range count base else host_range (count - 2) (base + 1)

abbrev pub hosts_of : IpAddr → Option ℕ → List IpAddr
hosts_of (v4 base) count = v4_hosts base count
hosts_of (v6 base) count = []

unfoldable pub hosts : Cidr → List IpAddr
hosts c = hosts_of c.network (host_count c)

module _ ⦃t : AddressText⦄ where
  abbrev pub cidr_from : Bytes → Option (Bytes × Bytes) → Option Cidr
  cidr_from s parts = elim (t.parse_address (address_part s parts)) [
    | none ↦ none
    | some addr ↦ cidr_of addr (prefix_or (width addr) parts)
  ]

  unfoldable pub parse : Bytes → Option Cidr
  parse s = cidr_from (trim s) (split_once 0x2f (trim s))

  -- `filter_map(|c| Cidr::parse(c).ok())`
  unfoldable pub parse_all : List Bytes → List Cidr
  parse_all [] = []
  parse_all (s ∷ ss) = elim (parse s) [ none ↦ parse_all ss | some c ↦ c ∷ parse_all ss ]

-- `iter().any(|c| c.contains(ip))`
unfoldable pub any_contains : List Cidr → IpAddr → Bool
any_contains [] ip = false
any_contains (c ∷ cs) ip = if contains c ip then true else any_contains cs ip
