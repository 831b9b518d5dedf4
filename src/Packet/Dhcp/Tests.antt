-- ===== src/Packet/Dhcp/Tests.antt =====
-- A message of a client, which meets the hypotheses of the theorems on DHCP.
use trapd_sensor.Prelude.{◌≡◌, refl, arith, ℕ, zero, suc, none, some, [], ◌∷◌, ◌++◌, Bytes}
use trapd_sensor.Packet.Dhcp.{
  DhcpMessage, ack, OptionMap, get, parse_options, option_loop, option_step, parse_dhcp, to_text,
  from_code, option_end,
}
use trapd_sensor.Packet.Dhcp.Options.{write_options, get-parse_options}
use trapd_sensor.Packet.Dhcp.Clean.{CleanDhcp, parse_dhcp-CleanDhcp}

abbrev zeros : ℕ → Bytes
zeros zero = []
zeros (suc n) = 0 ∷ zeros n

-- The name `nas`, and two message types: the first counts.
abbrev example_options : OptionMap
example_options =
    (53, 5 ∷ [])
    ∷ (12, 0x20 ∷ 0x6e ∷ 0x61 ∷ 0x73 ∷ 0x20 ∷ [])
    ∷ (53, 1 ∷ [])
    ∷ (55, 1 ∷ 121 ∷ [])
    ∷ []

abbrev example_tail : Bytes
example_tail = write_options example_options (option_end ∷ 7 ∷ [])

abbrev example_mac : Bytes
example_mac = 2 ∷ 0 ∷ 0 ∷ 0 ∷ 0 ∷ 9 ∷ []

abbrev example_message : Bytes
example_message =
    zeros 16
    ++ (192 ∷ 168 ∷ 1 ∷ 5 ∷ zeros 8)
    ++ (example_mac ++ (zeros 202 ++ (0x63 ∷ 0x82 ∷ 0x53 ∷ 0x63 ∷ example_tail)))

abbrev example_parsed : DhcpMessage
example_parsed = record {
  message_type = ack;
  client_mac = example_mac;
  your_ip = some (192 ∷ 168 ∷ 1 ∷ 5 ∷ []);
  requested_ip = none;
  server_ip = none;
  hostname = some (0x6e ∷ 0x61 ∷ 0x73 ∷ []);
  vendor_class = none;
  param_request_list = some (0x31 ∷ 0x2c ∷ 0x31 ∷ 0x32 ∷ 0x31 ∷ []);
  lease_seconds = none;
}

example_message-parsed : parse_dhcp example_message ≡ some example_parsed
unfolding parse_dhcp parse_options option_loop option_step to_text from_code
example_message-parsed = refl

parse_dhcp-CleanDhcp_example : CleanDhcp example_parsed
parse_dhcp-CleanDhcp_example =
    parse_dhcp-CleanDhcp example_message example_parsed example_message-parsed

get-parse_options_example : get (parse_options example_tail) 53 ≡ some (5 ∷ [])
get-parse_options_example =
    get-parse_options example_options (7 ∷ []) 53
      (
        (omega arith, (omega arith, omega arith)),
        (
          (omega arith, (omega arith, omega arith)),
          (
            (omega arith, (omega arith, omega arith)),
            ((omega arith, (omega arith, omega arith)), tt),
          ),
        ),
      )
      (omega arith)
