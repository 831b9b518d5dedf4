-- ===== src/Packet/Dns/Tests.antt =====
-- An answer with a compressed name, which meets the hypotheses of the theorems on DNS.
use trapd_sensor.Prelude.{◌+◌, ◌≤◌, ◌<◌, ◌≡◌, ◌≢◌, ◌↔◌, refl, some, [], ◌∷◌, Bytes, true}
use trapd_sensor.Packet.Dns.{
  again, name_step, name_loop, pointer_step, label_step, read_name, start_state, max_rounds,
  sanitize_byte, to_ascii_lowercase,
}
use trapd_sensor.Packet.Dns.Names.{name_loop_terminates}
use trapd_sensor.Packet.Dns.Described.{Named, read_name-Named}
use trapd_sensor.Packet.Dns.Message.{
  DnsRecord, a, DnsMessage, parse_dns, read_record, record_data, question_loop, answer_loop,
}
use trapd_sensor.Packet.Dns.Bounds.{
  CleanMessage, parse_dns-CleanMessage, read_record-CleanRecord, CleanRecord,
}

abbrev example_message : Bytes
example_message =
    0x12 ∷ 0x34 ∷ 0x81 ∷ 0x80 ∷ 0 ∷ 1 ∷ 0 ∷ 1 ∷ 0 ∷ 0 ∷ 0 ∷ 0 ∷ 2 ∷ 0x41 ∷ 0x62 ∷ 0 ∷ 0 ∷ 1 ∷ 0 ∷ 1
    ∷ 0xc0 ∷ 12 ∷ 0 ∷ 1 ∷ 0 ∷ 1 ∷ 0 ∷ 0 ∷ 0 ∷ 60 ∷ 0 ∷ 4 ∷ 1 ∷ 2 ∷ 3 ∷ 4 ∷ []

abbrev example_name : Bytes
example_name = 0x61 ∷ 0x62 ∷ []

abbrev example_answer : DnsRecord
example_answer = record {
  name = example_name;
  rtype = 1;
  ttl = 60;
  content = a (1 ∷ 2 ∷ 3 ∷ 4 ∷ []);
}

abbrev example_parsed : DnsMessage
example_parsed = record {
  id = 0x1234;
  is_response = true;
  response_code = 0;
  questions = record { name = example_name; qtype = 1 } ∷ [];
  answers = example_answer ∷ [];
  answer_count = 1;
}

example_message-parsed : parse_dns example_message ≡ some example_parsed
unfolding parse_dns read_record record_data question_loop answer_loop read_name name_loop name_step
    pointer_step label_step sanitize_byte to_ascii_lowercase
example_message-parsed = refl

example_answer-read : read_record example_message 20 ≡ some (example_answer, 36)
unfolding read_record record_data read_name name_loop name_step pointer_step label_step
    sanitize_byte to_ascii_lowercase
example_answer-read = refl

read_name-Named_example :
    (read_name example_message 20 ≡ some (example_name, 22))
    ↔ Named example_message 20 example_name 22
read_name-Named_example = read_name-Named example_message 20 example_name 22

parse_dns-CleanMessage_example : CleanMessage example_parsed
parse_dns-CleanMessage_example =
    parse_dns-CleanMessage example_message example_parsed example_message-parsed

read_record-CleanRecord_example : CleanRecord example_answer × ((20 + 10 < 36) × (36 ≤ 36))
read_record-CleanRecord_example =
    read_record-CleanRecord example_message 20 example_answer 36 example_answer-read

name_loop_terminates_example :
    name_loop max_rounds example_message (start_state 20) ≢ again (start_state 20)
name_loop_terminates_example = name_loop_terminates example_message 20 (start_state 20)
