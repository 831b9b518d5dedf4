-- ===== src/Packet/Dns/Bounds.antt =====
-- crates/sensor-passive/src/dns.rs: where the parsers stop, and what they let through.
use trapd_sensor.Prelude.{
  ◌/◌, ◌%◌, ◌≡◌, inl, inr, sym, subst, ap, arith, ℕ, ◌≤◌, ◌<◌, ◌+◌, zero, suc, min, some, List, [],
  ◌∷◌, ◌++◌, Bytes, length, length-append, All, All-append, slice, ltb, ◌==◌, Option-cases, not,
}
use trapd_sensor.Packet.{be16, be32, guard, bind_inversion, some_injective}
use trapd_sensor.Packet.Dns.{read_name}
use trapd_sensor.Packet.Dns.Message.{
  DnsQuestion, DnsRecord, DnsMessage, read_record, record_data, question_loop, answer_loop,
  parse_dns, max_records_per_section,
}
use trapd_sensor.Packet.Dns.Clean.{
  CleanName, CleanContent, Cleans, record_data-Cleans, slice_inside, read_name-inside,
  read_name-CleanName,
}

pub record CleanRecord (r : DnsRecord) : Type 0 where
  pub clean_name : CleanName r.name
  pub clean_content : CleanContent r.content

-- A record that is read has a clean name and clean content, is ten bytes and more, and ends inside
-- the packet.
pub read_record-CleanRecord :
    (bytes : Bytes) (pos : ℕ) (r : DnsRecord) (next : ℕ)
    → read_record bytes pos ≡ some (r, next)
    → CleanRecord r × ((pos + 10 < next) × (next ≤ length bytes))
unfolding read_record
read_record-CleanRecord bytes pos r next e =
    let (named, (was, e1)) = bind_inversion (read_name bytes pos) _ _ e in
    let (rtype, (_, e2)) = bind_inversion (slice bytes named.1 (named.1 + 2)) _ _ e1 in
    let (ttl, (_, e3)) = bind_inversion (slice bytes (named.1 + 4) (named.1 + 8)) _ _ e2 in
    let (rdlength, (_, e4)) = bind_inversion (slice bytes (named.1 + 8) (named.1 + 10)) _ _ e3 in
    let (rdata, (body, e5)) =
      bind_inversion (slice bytes (named.1 + 10) (named.1 + 10 + be16 rdlength)) _ _ e4 in
    let (parsed, (content, e6)) =
      bind_inversion (record_data bytes (be16 rtype) rdata (named.1 + 10)) _ _ e5 in
    let (after, _) = read_name-inside bytes pos named.0 named.1 was in
    let within = slice_inside bytes (named.1 + 10) (named.1 + 10 + be16 rdlength) rdata body in
    let made : DnsRecord = record {
      name = named.0;
      rtype = be16 rtype;
      ttl = be32 ttl;
      content = parsed;
    } in
    let result = some_injective (made, named.1 + 10 + be16 rdlength) (r, next) e6 in
    let same : made ≡ r = ap (λ (o : DnsRecord × ℕ). o.0) result in
    let same_next : named.1 + 10 + be16 rdlength ≡ next = ap (λ (o : DnsRecord × ℕ). o.1) result in
    let clean : CleanRecord made = record {
      clean_name = read_name-CleanName bytes pos named.0 named.1 was;
      clean_content =
          subst Cleans content (record_data-Cleans bytes (be16 rtype) rdata (named.1 + 10));
    } in
    (subst CleanRecord same clean, (omega arith, omega arith))

question_loop-Clean :
    (n : ℕ) (bytes : Bytes) (pos : ℕ) (before out : List DnsQuestion) (next : ℕ)
    → All (λ (q : DnsQuestion). CleanName q.name) before
    → question_loop n bytes pos before ≡ some (out, next)
    → All (λ (q : DnsQuestion). CleanName q.name) out × (length out ≡ length before + n)
unfolding question_loop
question_loop-Clean zero bytes pos before out next clean e =
    let same : before ≡ out = cc in
    (subst (All (λ (q : DnsQuestion). CleanName q.name)) same clean, rw (sym same) (omega arith))
question_loop-Clean (suc n) bytes pos before out next clean e =
    let (named, (was, e1)) = bind_inversion (read_name bytes pos) _ _ e in
    let (qtype, (_, e2)) = bind_inversion (slice bytes named.1 (named.1 + 2)) _ _ e1 in
    let q : DnsQuestion = record { name = named.0; qtype = be16 qtype } in
    let (all, size) =
      question_loop-Clean n bytes (named.1 + 4) (before ++ (q ∷ [])) out next
        (All-append (λ (q : DnsQuestion). CleanName q.name) before (q ∷ []) clean
          (read_name-CleanName bytes pos named.0 named.1 was, tt))
        e2 in
    let longer = length-append before (q ∷ []) in (all, omega arith)

answer_loop-Clean :
    (n : ℕ) (bytes : Bytes) (pos : ℕ) (before : List DnsRecord)
    → All CleanRecord before
    → All CleanRecord (answer_loop n bytes pos before)
      × (length (answer_loop n bytes pos before) ≤ length before + n)
unfolding answer_loop
answer_loop-Clean zero bytes pos before clean = (clean, omega arith)
answer_loop-Clean (suc n) bytes pos before clean = elim (Option-cases (read_record bytes pos)) [
  | inl e ↦ rw (e, answer_loop) (clean, omega arith)
  | inr (found, e) ↦
      let (good, _) = read_record-CleanRecord bytes pos found.0 found.1 e in
      let (all, size) =
        answer_loop-Clean n bytes found.1 (before ++ (found.0 ∷ []))
          (All-append CleanRecord before (found.0 ∷ []) clean (good, tt)) in
      let longer = length-append before (found.0 ∷ []) in rw (e, answer_loop) (all, omega arith)
]

pub record CleanMessage (m : DnsMessage) : Type 0 where
  pub questions_clean : All (λ (q : DnsQuestion). CleanName q.name) m.questions
  pub answers_clean : All CleanRecord m.answers
  pub questions_few : length m.questions ≤ max_records_per_section
  pub answers_few : length m.answers ≤ max_records_per_section
  pub answers_counted : length m.answers ≤ m.answer_count

-- A message that is accepted has at most 32 questions and at most 32 answers, no more answers than
-- its header counts, names of printable characters without capital letters, texts of printable
-- characters, and addresses of four or sixteen bytes.
pub parse_dns-CleanMessage :
    (bytes : Bytes) (m : DnsMessage) → parse_dns bytes ≡ some m → CleanMessage m
unfolding parse_dns
parse_dns-CleanMessage bytes m e =
    let (_, (_, e0)) = bind_inversion (guard (not (ltb (length bytes) 12))) _ _ e in
    let (id, (_, e1)) = bind_inversion (slice bytes 0 2) _ _ e0 in
    let (flags, (_, e2)) = bind_inversion (slice bytes 2 4) _ _ e1 in
    let (qdcount, (_, e3)) = bind_inversion (slice bytes 4 6) _ _ e2 in
    let (ancount, (_, e4)) = bind_inversion (slice bytes 6 8) _ _ e3 in
    let rounds = min (be16 qdcount) max_records_per_section in
    let (asked, (read, e5)) = bind_inversion (question_loop rounds bytes 12 []) _ _ e4 in
    let (clean, count) = question_loop-Clean rounds bytes 12 [] asked.0 asked.1 tt read in
    let (all, few) =
      answer_loop-Clean (min (be16 ancount) max_records_per_section) bytes asked.1 [] tt in
    let made : DnsMessage = record {
      id = be16 id;
      is_response = not (be16 flags / 0x8000 % 2 == 0);
      response_code = be16 flags % 16;
      questions = asked.0;
      answers = answer_loop (min (be16 ancount) max_records_per_section) bytes asked.1 [];
      answer_count = be16 ancount;
    } in
    let same : made ≡ m = some_injective made m e5 in
    subst CleanMessage same (record {
      questions_clean = clean;
      answers_clean = all;
      questions_few = omega arith;
      answers_few = omega arith;
      answers_counted = omega arith;
    })
