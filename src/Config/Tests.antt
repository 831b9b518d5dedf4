-- ===== src/Config/Tests.antt =====
-- Configurations for the tests, and an `AddressText` to run them with.
use trapd_sensor.Prelude.{◌≡◌, refl, ◌+◌, ◌*◌, Option, none, some, [], ◌∷◌, Bytes, true, false}
use trapd_sensor.Flow.{IpAddr, v4}
use trapd_sensor.Config.{PassiveDiscoveryConfig, PrivacyConfig}
use trapd_sensor.Text.{split_once, trim, trim_end, trim_start, is_whitespace, parse_u8, digits}
use trapd_sensor.Config.Cidr.{AddressText, Cidr, mask, parse, hosts, v4_hosts, host_range}
use trapd_sensor.Config.Hosts.{among, is_host, parse-hosts}

-- An address as a text of four characters, which are its bytes.
abbrev pub four : Bytes → Option IpAddr
four (a ∷ b ∷ c ∷ d ∷ []) = some (v4 (((a * 256 + b) * 256 + c) * 256 + d))
four _ = none

instance abbrev pub four_text : AddressText
four_text = record { parse_address = four; address_text = λ ip. [] }

abbrev pub example_passive : PassiveDiscoveryConfig
example_passive = record {
  arp = true;
  dhcp = true;
  mdns = true;
  ssdp = true;
  dns = true;
  flows = true;
}

abbrev pub example_privacy : PrivacyConfig
example_privacy = record {
  dns_observation = true;
  dns_exclude_domains = [];
  exclude_clients = [];
  store_dns_answers = true;
  hash_dns_names = false;
}

-- "ABCF/30": the network of 0x41424344, with four addresses.
abbrev small_text : Bytes
small_text = 65 ∷ 66 ∷ 67 ∷ 70 ∷ 47 ∷ 51 ∷ 48 ∷ []

abbrev small : Cidr
small = record { network = v4 0x41424344; prefix = 30 }

parse-small : parse small_text ≡ some small
unfolding parse split_once trim trim_end trim_start is_whitespace parse_u8 digits mask
parse-small = refl

small-hosts : hosts small ≡ v4 0x41424345 ∷ v4 0x41424346 ∷ []
unfolding hosts v4_hosts host_range
small-hosts = refl

parse-hosts_example : among (v4 0x41424346) (hosts small) ≡ is_host small (v4 0x41424346)
parse-hosts_example = parse-hosts small_text small (v4 0x41424346) parse-small
