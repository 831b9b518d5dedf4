-- ===== src/Packet/Dns/Services.antt =====
-- `advertised_services` of crates/sensor-passive/src/dns.rs.
use trapd_sensor.Prelude.{List, [], ◌∷◌, Bytes, Bool, true, false, bytes_eq, ltb, if◌then◌else◌}
use trapd_sensor.Packet.Dns.Message.{DnsRecord, DnsMessage, a, aaaa, ptr, txt, srv, other}

-- The order of strings, by their bytes.
unfoldable pub text_lt : Bytes → Bytes → Bool
text_lt [] [] = false
text_lt [] (b ∷ bs) = true
text_lt (x ∷ xs) [] = false
text_lt (x ∷ xs) (b ∷ bs) =
    let later = text_lt xs bs in if ltb x b then true else if ltb b x then false else later

-- `sort` and `dedup`.
unfoldable pub insert_name : Bytes → List Bytes → List Bytes
insert_name name [] = name ∷ []
insert_name name (n ∷ ns) =
    let later = n ∷ insert_name name ns in
    if text_lt name n then name ∷ n ∷ ns else if bytes_eq name n then n ∷ ns else later

unfoldable pub services_of : List DnsRecord → List Bytes
services_of [] = []
services_of (r ∷ rs) = elim r.content [
  | ptr name ↦ insert_name name (services_of rs)
  | srv port target ↦ insert_name target (services_of rs)
  | a ip ↦ services_of rs
  | aaaa ip ↦ services_of rs
  | txt texts ↦ services_of rs
  | other ↦ services_of rs
]

unfoldable pub advertised_services : DnsMessage → List Bytes
advertised_services m = services_of m.answers
