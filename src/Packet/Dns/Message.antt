-- ===== src/Packet/Dns/Message.antt =====
-- crates/sensor-passive/src/dns.rs: messages and their records.
use trapd_sensor.Prelude.{
  ℕ, zero, suc, ◌+◌, ◌/◌, ◌%◌, min, Option, none, some, List, [], ◌∷◌, ◌++◌, Bytes, Bool, true,
  false, not, length, get_elem?, slice, ltb, leb, ◌==◌, if◌then◌else◌,
}
use trapd_sensor.Packet.{be16, be32, ◌>>=◌, ◌>>◌, guard}
use trapd_sensor.Packet.Dns.{read_name, max_labels, is_printable}

abbrev pub rtype_a : ℕ
rtype_a = 1

abbrev pub rtype_ptr : ℕ
rtype_ptr = 12

abbrev pub rtype_txt : ℕ
rtype_txt = 16

abbrev pub rtype_aaaa : ℕ
rtype_aaaa = 28

abbrev pub rtype_srv : ℕ
rtype_srv = 33

abbrev pub max_records_per_section : ℕ
max_records_per_section = 32

pub data DnsRecordData : Type 0 where
  a : Bytes → DnsRecordData
  aaaa : Bytes → DnsRecordData
  ptr : Bytes → DnsRecordData
  txt : List Bytes → DnsRecordData
  srv : ℕ → Bytes → DnsRecordData
  other : DnsRecordData

pub record DnsQuestion : Type 0 where
  pub name : Bytes
  pub qtype : ℕ

pub record DnsRecord : Type 0 where
  pub name : Bytes
  pub rtype : ℕ
  pub ttl : ℕ
  pub content : DnsRecordData

pub record DnsMessage : Type 0 where
  pub id : ℕ
  pub is_response : Bool
  pub response_code : ℕ
  pub questions : List DnsQuestion
  pub answers : List DnsRecord
  pub answer_count : ℕ

abbrev pub is_nxdomain : DnsMessage → Bool
is_nxdomain m = m.response_code == 3

-- The addresses in a list of records.
abbrev pub addresses : List DnsRecord → List Bytes
addresses [] = []
addresses (r ∷ rs) = elim r.content [
  | a ip ↦ ip ∷ addresses rs
  | aaaa ip ↦ ip ∷ addresses rs
  | ptr _ ↦ addresses rs
  | txt _ ↦ addresses rs
  | srv _ _ ↦ addresses rs
  | other ↦ addresses rs
]

abbrev pub resolved_addresses : DnsMessage → List Bytes
resolved_addresses m = addresses m.answers

abbrev pub printables : Bytes → Bytes
printables [] = []
printables (b ∷ bs) = let rest = printables bs in if is_printable b then b ∷ rest else rest

abbrev pub push_text : List Bytes → Bytes → List Bytes
push_text out [] = out
push_text out (b ∷ bs) = out ++ ((b ∷ bs) ∷ [])

-- The loop of `read_txt_strings`. Each round takes a byte at least.
unfoldable pub txt_loop : ℕ → Bytes → ℕ → List Bytes → List Bytes
txt_loop zero rdata pos out = out
txt_loop (suc fuel) rdata pos out = elim (get_elem? rdata pos) [
  | none ↦ out
  | some len ↦ elim (slice rdata (pos + 1) (pos + 1 + len)) [
    | none ↦ out
    | some chunk ↦ elim (leb max_labels (length (push_text out (printables chunk)))) [
      | true ↦ push_text out (printables chunk)
      | false ↦ txt_loop fuel rdata (pos + 1 + len) (push_text out (printables chunk))
    ]
  ]
]

abbrev pub read_txt_strings : Bytes → List Bytes
read_txt_strings rdata = txt_loop (suc (length rdata)) rdata 0 []

abbrev pub ptr_or_other : Option (Bytes × ℕ) → DnsRecordData
ptr_or_other none = other
ptr_or_other (some found) = ptr found.0

-- `unwrap_or_default` of the name alone.
abbrev pub name_or_default : Option (Bytes × ℕ) → Bytes
name_or_default none = []
name_or_default (some found) = found.0

unfoldable pub record_data : Bytes → ℕ → Bytes → ℕ → Option DnsRecordData
record_data bytes rtype rdata rdata_start =
    if rtype == rtype_a
    then some (if length rdata == 4 then a rdata else other)
    else if rtype == rtype_aaaa
    then some (if length rdata == 16 then aaaa rdata else other)
    else if rtype == rtype_ptr
    then some (ptr_or_other (read_name bytes rdata_start))
    else if rtype == rtype_srv
    then (slice rdata 4 6 >>= λ port.
        some (srv (be16 port) (name_or_default (read_name bytes (rdata_start + 6)))))
    else if rtype == rtype_txt
    then some (txt (read_txt_strings rdata))
    else some other

unfoldable pub read_record : Bytes → ℕ → Option (DnsRecord × ℕ)
read_record bytes pos = read_name bytes pos >>= λ named.
    slice bytes named.1 (named.1 + 2) >>= λ rtype.
    slice bytes (named.1 + 4) (named.1 + 8) >>= λ ttl.
    slice bytes (named.1 + 8) (named.1 + 10) >>= λ rdlength.
    slice bytes (named.1 + 10) (named.1 + 10 + be16 rdlength) >>= λ rdata.
    record_data bytes (be16 rtype) rdata (named.1 + 10) >>= λ parsed. some (
      record { name = named.0; rtype = be16 rtype; ttl = be32 ttl; content = parsed },
      named.1 + 10 + be16 rdlength,
    )

-- The loop over the questions, for a number of rounds.
unfoldable pub question_loop : ℕ → Bytes → ℕ → List DnsQuestion → Option (List DnsQuestion × ℕ)
question_loop zero bytes pos questions = some (questions, pos)
question_loop (suc n) bytes pos questions = read_name bytes pos >>= λ named.
    slice bytes named.1 (named.1 + 2) >>= λ qtype.
    question_loop n bytes (named.1 + 4)
      (questions ++ (record { name = named.0; qtype = be16 qtype } ∷ []))

-- The loop over the answers, which stops at the first that cannot be read.
unfoldable pub answer_loop : ℕ → Bytes → ℕ → List DnsRecord → List DnsRecord
answer_loop zero bytes pos answers = answers
answer_loop (suc n) bytes pos answers = elim (read_record bytes pos) [
  | none ↦ answers
  | some found ↦ answer_loop n bytes found.1 (answers ++ (found.0 ∷ []))
]

unfoldable pub parse_dns : Bytes → Option DnsMessage
parse_dns bytes =
    guard (not (ltb (length bytes) 12))
    >> (slice bytes 0 2 >>= λ id. slice bytes 2 4 >>= λ flags. slice bytes 4 6 >>= λ qdcount.
        slice bytes 6 8 >>= λ ancount.
        question_loop (min (be16 qdcount) max_records_per_section) bytes 12 [] >>= λ asked.
        some (record {
          id = be16 id;
          is_response = not (be16 flags / 0x8000 % 2 == 0);
          response_code = be16 flags % 16;
          questions = asked.0;
          answers = answer_loop (min (be16 ancount) max_records_per_section) bytes asked.1 [];
          answer_count = be16 ancount;
        }))
