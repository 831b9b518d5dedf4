-- ===== src/Packet/Ssdp/Tests.antt =====
-- A message of SSDP for the tests.
use trapd_sensor.Prelude.{◌≡◌, refl, some, [], ◌∷◌, ◌++◌, Bytes}
use trapd_sensor.Text.{codes, trim, trim_start, trim_end, is_whitespace, starts_with, split_once}
use trapd_sensor.Text.Utf8.{from_utf8, char_loop, next_char}
use trapd_sensor.Packet.Ssdp.{
  SsdpMessage, notify, split_lines, header_loop, kind_of, clean_value, parse_ssdp,
}
use trapd_sensor.Packet.Ssdp.Clean.{CleanHeaders, parse_ssdp-Clean}

abbrev line_end : Bytes
line_end = 13 ∷ 10 ∷ []

-- Two notification types, the second of which is ignored, and a line without a value.
abbrev announcement : Bytes
announcement =
    codes "NOTIFY * HTTP/1.1"
    ++ (line_end ++ (codes "nt: a" ++ (line_end ++ (codes "NT: b" ++ (line_end ++ codes "USN:")))))

abbrev announced : SsdpMessage
announced = record { kind = notify; headers = (codes "NT", codes "a") ∷ [] }

parse_announcement : parse_ssdp announcement ≡ some announced
unfolding parse_ssdp from_utf8 char_loop next_char split_lines header_loop kind_of clean_value trim
    trim_start trim_end is_whitespace starts_with split_once
parse_announcement = refl

parse_ssdp-Clean_example : CleanHeaders announced.headers
parse_ssdp-Clean_example = parse_ssdp-Clean announcement announced parse_announcement
