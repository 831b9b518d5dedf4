-- ===== src/Packet/Dhcp.antt =====
-- crates/sensor-passive/src/dhcp.rs. The `BTreeMap` of the options is an association list, a string
-- the list of its characters' codes, an address the list of its bytes.
pub mod Options
pub mod Texts
pub mod Clean
mod Tests
use trapd_sensor.Prelude.{
  ℕ, zero, suc, ◌+◌, ◌*◌, ◌/◌, ◌%◌, Option, none, some, List, [], ◌∷◌, ◌++◌, map, Bytes, Bool, true,
  false, not, ◌&&◌, length, take, drop, slice, slice_from, ltb, leb, ◌==◌, if◌then◌else◌,
}
use trapd_sensor.Packet.{be32, ◌>>=◌, ◌>>◌, guard}
use trapd_sensor.Packet.Dns.{is_printable}

abbrev pub magic_cookie : ℕ
magic_cookie = 0x63825363

abbrev pub option_pad : ℕ
option_pad = 0

abbrev pub option_end : ℕ
option_end = 255

abbrev pub opt_message_type : ℕ
opt_message_type = 53

abbrev pub opt_hostname : ℕ
opt_hostname = 12

abbrev pub opt_vendor_class : ℕ
opt_vendor_class = 60

abbrev pub opt_param_request_list : ℕ
opt_param_request_list = 55

abbrev pub opt_lease_time : ℕ
opt_lease_time = 51

abbrev pub opt_server_id : ℕ
opt_server_id = 54

abbrev pub opt_requested_ip : ℕ
opt_requested_ip = 50

abbrev pub max_options : ℕ
max_options = 64

pub data DhcpMessageType : Type 0 where
  discover : DhcpMessageType
  offer : DhcpMessageType
  request : DhcpMessageType
  decline : DhcpMessageType
  ack : DhcpMessageType
  nak : DhcpMessageType
  release : DhcpMessageType
  inform : DhcpMessageType
  other_type : ℕ → DhcpMessageType

pub record DhcpMessage : Type 0 where
  pub message_type : DhcpMessageType
  pub client_mac : Bytes
  pub your_ip : Option Bytes
  pub requested_ip : Option Bytes
  pub server_ip : Option Bytes
  pub hostname : Option Bytes
  pub vendor_class : Option Bytes
  pub param_request_list : Option Bytes
  pub lease_seconds : Option ℕ

unfoldable pub from_code : ℕ → DhcpMessageType
from_code code =
    if code == 1
    then discover
    else if code == 2
    then offer
    else if code == 3
    then request
    else if code == 4
    then decline
    else if code == 5
    then ack
    else if code == 6
    then nak
    else if code == 7
    then release
    else if code == 8
    then inform
    else other_type code

abbrev pub confirms_lease : DhcpMessageType → Bool
confirms_lease ack = true
confirms_lease discover = false
confirms_lease offer = false
confirms_lease request = false
confirms_lease decline = false
confirms_lease nak = false
confirms_lease release = false
confirms_lease inform = false
confirms_lease (other_type code) = false

-- `Ipv4Addr::is_unspecified`
abbrev pub is_unspecified : Bytes → Bool
is_unspecified [] = true
is_unspecified (b ∷ bs) = (b == 0) && is_unspecified bs

-- `Option::filter(|ip| !ip.is_unspecified())`
abbrev pub specified : Option Bytes → Option Bytes
specified none = none
specified (some ip) = if is_unspecified ip then none else some ip

-- `Option::or`
abbrev pub or_else {ℓ} : {A : Type ℓ} → Option A → Option A → Option A
or_else none y = y
or_else (some x) y = some x

abbrev pub effective_ip : DhcpMessage → Option Bytes
effective_ip m = or_else (specified m.your_ip) m.requested_ip

abbrev pub OptionMap : Type 0
OptionMap = List (ℕ × Bytes)

abbrev pub get : OptionMap → ℕ → Option Bytes
get [] code = none
get ((c, value) ∷ rest) code = if code == c then some value else get rest code

-- `out.entry(code).or_insert_with(…)`
abbrev pub insert_vacant : Option Bytes → OptionMap → ℕ → Bytes → OptionMap
insert_vacant (some old) options code value = options
insert_vacant none options code value = options ++ ((code, value) ∷ [])

abbrev pub or_insert : OptionMap → ℕ → Bytes → OptionMap
or_insert options code value = insert_vacant (get options code) options code value

-- What stands at the front: the end of the options, a byte of padding, or an option.
pub data OptionStep : Type 0 where
  stop : OptionStep
  pad : Bytes → OptionStep
  option : ℕ → Bytes → Bytes → OptionStep

abbrev pub option_value : ℕ → Bytes → OptionStep
option_value code [] = stop
option_value code (len ∷ rest) =
    if leb len (length rest) then option code (take len rest) (drop len rest) else stop

unfoldable pub option_step : ℕ → Bytes → OptionStep
option_step seen [] = stop
option_step seen (code ∷ rest) =
    if code == option_end
    then stop
    else if code == option_pad
    then pad rest
    else if ltb max_options (seen + 1)
    then stop
    else option_value code rest

-- The loop of `parse_options`. Each round takes a byte at least.
unfoldable pub option_loop : ℕ → ℕ → OptionMap → Bytes → OptionMap
option_loop zero seen out bytes = out
option_loop (suc fuel) seen out bytes = elim (option_step seen bytes) [
  | stop ↦ out
  | pad rest ↦ option_loop fuel seen out rest
  | option code value rest ↦ option_loop fuel (seen + 1) (or_insert out code value) rest
]

unfoldable pub parse_options : Bytes → OptionMap
parse_options bytes = option_loop (length bytes) 0 [] bytes

abbrev pub to_ipv4 : Bytes → Option Bytes
to_ipv4 value = slice value 0 4

-- `take_while(|b| b != 0)`, and then the printable ones.
abbrev pub text_of : Bytes → Bytes
text_of [] = []
text_of (b ∷ bs) =
    let rest = text_of bs in if b == 0 then [] else if is_printable b then b ∷ rest else rest

abbrev pub trim_start : Bytes → Bytes
trim_start [] = []
trim_start (b ∷ bs) = if b == 0x20 then trim_start bs else b ∷ bs

abbrev pub cons_trimmed : ℕ → Bytes → Bytes
cons_trimmed b [] = if b == 0x20 then [] else b ∷ []
cons_trimmed b (c ∷ cs) = b ∷ c ∷ cs

abbrev pub trim_end : Bytes → Bytes
trim_end [] = []
trim_end (b ∷ bs) = cons_trimmed b (trim_end bs)

-- The space is the only printable character that `trim` takes away.
abbrev pub trim : Bytes → Bytes
trim bs = trim_end (trim_start bs)

abbrev pub non_empty : Bytes → Option Bytes
non_empty [] = none
non_empty (b ∷ bs) = some (b ∷ bs)

unfoldable pub to_text : Bytes → Option Bytes
to_text value = non_empty (trim (text_of value))

-- `b.to_string()` of a byte.
abbrev pub decimal : ℕ → Bytes
decimal b =
    if ltb b 10
    then (0x30 + b) ∷ []
    else if ltb b 100
    then (0x30 + b / 10) ∷ (0x30 + b % 10) ∷ []
    else (0x30 + b / 100) ∷ (0x30 + b / 10 % 10) ∷ (0x30 + b % 10) ∷ []

-- `join(",")` of the numbers of a list.
abbrev pub comma_list : Bytes → Bytes
comma_list [] = []
comma_list (b ∷ []) = decimal b
comma_list (b ∷ c ∷ cs) = decimal b ++ (0x2c ∷ comma_list (c ∷ cs))

abbrev pub first : Bytes → Option ℕ
first [] = none
first (b ∷ bs) = some b

abbrev pub lease_of : Bytes → Option ℕ
lease_of value = if leb 4 (length value) then some (be32 value) else none

unfoldable pub parse_dhcp : Bytes → Option DhcpMessage
parse_dhcp bytes = slice bytes 28 34 >>= λ client_mac. slice bytes 16 20 >>= λ your_ip.
    slice bytes 236 240 >>= λ cookie.
    guard (be32 cookie == magic_cookie)
    >> (slice_from bytes 240 >>= λ rest. get (parse_options rest) opt_message_type >>= λ kind.
        first kind >>= λ code. some (record {
          message_type = from_code code;
          client_mac = client_mac;
          your_ip = specified (some your_ip);
          requested_ip = get (parse_options rest) opt_requested_ip >>= to_ipv4;
          server_ip = get (parse_options rest) opt_server_id >>= to_ipv4;
          hostname = get (parse_options rest) opt_hostname >>= to_text;
          vendor_class = get (parse_options rest) opt_vendor_class >>= to_text;
          param_request_list =
              get (parse_options rest) opt_param_request_list >>= λ v. some (comma_list v);
          lease_seconds = get (parse_options rest) opt_lease_time >>= lease_of;
        }))
