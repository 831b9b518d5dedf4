-- ===== src/Observer.antt =====
-- `PassiveObserver` of crates/sensor-passive/src/observer.rs: from a frame to what is reported. A
-- time is its milliseconds, a text the list of its characters' codes. A handler gives what it
-- pushes onto `out`, and the observer.
pub mod Parts
pub mod Handlers
pub mod Frames
pub mod Privacy
pub mod Handling
pub mod Watching
mod Tests
use Prim.Native.Nat.{bit_xor}
use trapd_sensor.Prelude.{
  ℕ, zero, suc, ◌+◌, ◌-◌, ◌*◌, ◌/◌, ◌%◌, ◌^◌, Option, none, some, List, [], ◌∷◌, ◌++◌, map, Bytes,
  Bool, true, false, not, ◌&&◌, ◌||◌, length, from_be, bytes_eq, ltb, leb, ◌==◌, if◌then◌else◌,
}
use trapd_sensor.Flow.{IpAddr, v4, v6, FlowAggregator, new_aggregator}
use trapd_sensor.Config.{PrivacyConfig}
use trapd_sensor.Config.Cidr.{AddressText, parse_all, any_contains}
use trapd_sensor.Config.Policy.{EffectivePolicy}
use trapd_sensor.Text.{codes, is_empty, ends_with, to_ascii_lowercase, trim_start_matches}
use trapd_sensor.Text.Writing.{hex_digit}

abbrev pub default_suppression_secs : ℕ
default_suppression_secs = 300

abbrev pub max_suppression_entries : ℕ
max_suppression_entries = 20000

-- Which statement was reported last at what time. The `HashMap` is an association list.
pub record Suppressor : Type 0 where
  pub seen : List (Bytes × ℕ)
  pub ttl_secs : ℕ

abbrev pub last_of : Bytes → List (Bytes × ℕ) → Option ℕ
last_of key [] = none
last_of key ((k, time) ∷ rest) = if bytes_eq k key then some time else last_of key rest

-- `HashMap::insert`
unfoldable pub insert_seen : Bytes → ℕ → List (Bytes × ℕ) → List (Bytes × ℕ)
insert_seen key now [] = (key, now) ∷ []
insert_seen key now ((k, time) ∷ rest) =
    let later = (k, time) ∷ insert_seen key now rest in
    if bytes_eq k key then (key, now) ∷ rest else later

abbrev pub is_recent : ℕ → ℕ → ℕ → Bool
is_recent ttl now last = ltb ((now - last) / 1000) ttl

abbrev pub recently : ℕ → ℕ → Option ℕ → Bool
recently ttl now none = false
recently ttl now (some last) = is_recent ttl now last

-- A full cache is cleared rather than grown.
abbrev pub room_in : List (Bytes × ℕ) → List (Bytes × ℕ)
room_in seen = if leb max_suppression_entries (length seen) then [] else seen

unfoldable pub allow : Bytes → ℕ → Suppressor → Bool × Suppressor
allow key now s =
    if recently s.ttl_secs now (last_of key s.seen)
    then (false, s)
    else (true, record s { seen = insert_seen key now (room_in s.seen) })

unfoldable pub retain_recent : ℕ → ℕ → List (Bytes × ℕ) → List (Bytes × ℕ)
retain_recent ttl now [] = []
retain_recent ttl now ((k, time) ∷ rest) =
    let later = retain_recent ttl now rest in
    if is_recent ttl now time then (k, time) ∷ later else later

unfoldable pub prune : ℕ → Suppressor → Suppressor
prune now s = record s { seen = retain_recent s.ttl_secs now s.seen }

pub record PassiveObserver : Type 0 where
  pub interface : Bytes
  pub policy : EffectivePolicy
  pub flows : FlowAggregator
  pub suppression : Suppressor
  pub packets_seen : ℕ
  pub packets_parsed : ℕ

abbrev pub new_observer : Bytes → EffectivePolicy → ℕ → ℕ → PassiveObserver
new_observer interface policy flow_window_secs max_flows = record {
  interface = interface;
  policy = policy;
  flows = new_aggregator flow_window_secs max_flows;
  suppression = record { seen = []; ttl_secs = default_suppression_secs };
  packets_seen = 0;
  packets_parsed = 0;
}

abbrev pub parser_errors : PassiveObserver → ℕ
parser_errors o = o.packets_seen - o.packets_parsed

-- `self.suppression.allow(&key, now)`
abbrev pub allow_key : Bytes → ℕ → PassiveObserver → Bool × PassiveObserver
allow_key key now o =
    let (allowed, s) = allow key now o.suppression in (allowed, record o { suppression = s })

-- An address of four bytes or of sixteen.
abbrev pub ip_addr : Bytes → IpAddr
ip_addr bytes = if length bytes == 4 then v4 (from_be bytes) else v6 (from_be bytes)

abbrev pub is_unspecified : IpAddr → Bool
is_unspecified (v4 a) = a == 0
is_unspecified (v6 a) = a == 0

-- 224.0.0.0/4 and ff00::/8
abbrev pub is_multicast : IpAddr → Bool
is_multicast (v4 a) = a / 2 ^ 28 == 14
is_multicast (v6 a) = a / 2 ^ 120 == 255

abbrev pub suffix_matches : Bytes → Bytes → Bool
suffix_matches name suffix =
    not (is_empty suffix) && (bytes_eq name suffix || ends_with (0x2e ∷ suffix) name)

abbrev pub any_suffix : Bytes → List Bytes → Bool
any_suffix name [] = false
any_suffix name (suffix ∷ suffixes) =
    suffix_matches name (to_ascii_lowercase (trim_start_matches 0x2e suffix))
    || any_suffix name suffixes

unfoldable pub is_excluded_domain : Bytes → List Bytes → Bool
is_excluded_domain name excluded = any_suffix (to_ascii_lowercase name) excluded

-- FNV-1a, of 64 bits.
unfoldable pub fnv_loop : ℕ → Bytes → ℕ
fnv_loop hash [] = hash
fnv_loop hash (b ∷ bs) = fnv_loop (bit_xor hash b * 0x100000001b3 % 2 ^ 64) bs

-- `{:016x}`, by the number of digits.
unfoldable pub hex_digits : ℕ → ℕ → Bytes
hex_digits zero n = []
hex_digits (suc k) n = hex_digit (n / 16 ^ k % 16) ∷ hex_digits k n

unfoldable pub pseudonymize : Bytes → Bytes
pseudonymize name = codes "h:" ++ hex_digits 16 (fnv_loop 0xcbf29ce484222325 name)

abbrev pub qtype_name : ℕ → Bytes
qtype_name qtype =
    if qtype == 1
    then codes "A"
    else if qtype == 2
    then codes "NS"
    else if qtype == 5
    then codes "CNAME"
    else if qtype == 12
    then codes "PTR"
    else if qtype == 15
    then codes "MX"
    else if qtype == 16
    then codes "TXT"
    else if qtype == 28
    then codes "AAAA"
    else if qtype == 33
    then codes "SRV"
    else if qtype == 65
    then codes "HTTPS"
    else if qtype == 255
    then codes "ANY"
    else codes "OTHER"

abbrev pub response_code_name : ℕ → Bytes
response_code_name code =
    if code == 0
    then codes "NOERROR"
    else if code == 1
    then codes "FORMERR"
    else if code == 2
    then codes "SERVFAIL"
    else if code == 3
    then codes "NXDOMAIN"
    else if code == 4
    then codes "NOTIMP"
    else if code == 5
    then codes "REFUSED"
    else codes "OTHER"

module _ ⦃t : AddressText⦄ where
  unfoldable pub is_excluded_client : IpAddr → PrivacyConfig → Bool
  is_excluded_client ip privacy = any_contains (parse_all privacy.exclude_clients) ip

  abbrev pub is_excluded : IpAddr → PassiveObserver → Bool
  is_excluded ip o = is_excluded_client ip o.policy.privacy
