-- ===== src/Packet/Dns/Clean.antt =====
-- crates/sensor-passive/src/dns.rs: the characters that names and texts have, and where names stop.
use trapd_sensor.Prelude.{
  Bool, ◌≡◌, ◌⊎◌, inl, inr, arith, ℕ, ◌≤◌, ◌<◌, ◌+◌, zero, suc, Option, none, some, List, [], ◌∷◌,
  map, Bytes, length, All, All-append, get_elem?, slice, leb, ◌==◌, Bool-cases, Option-cases,
  leb→le, true, false, if◌then◌else◌,
}
use trapd_sensor.Packet.{◌>>=◌}
use trapd_sensor.Packet.Dns.{
  read_name, sanitize_byte, sanitize_label, to_ascii_lowercase, join_labels, is_printable,
  max_labels,
}
use trapd_sensor.Packet.Dns.Names.{NameAt, root, label, pointer}
use trapd_sensor.Packet.Dns.Described.{read_name-Named}
use trapd_sensor.Packet.Dns.Message.{
  DnsRecordData, a, aaaa, ptr, txt, srv, other, record_data, txt_loop, push_text, printables,
  ptr_or_other, name_or_default, rtype_a, rtype_aaaa, rtype_ptr, rtype_srv, rtype_txt,
}

-- A position that is read lies inside.
pub get_elem?_inside : (xs : Bytes) (k x : ℕ) → get_elem? xs k ≡ some x → k < length xs
get_elem?_inside [] k x h = absurd cc
get_elem?_inside (y ∷ xs) zero x h = omega arith
get_elem?_inside (y ∷ xs) (suc k) x h = let inside = get_elem?_inside xs k x h in omega arith

pub slice_inside : (xs : Bytes) (i j : ℕ) (ys : Bytes) → slice xs i j ≡ some ys → j ≤ length xs
slice_inside xs i j ys h = elim (Bool-cases (leb j (length xs))) [
  | inl inside ↦ leb→le _ _ inside
  | inr outside ↦ absurd (ground arith)
]

NameAt-behind :
    (bytes : Bytes) (pos : ℕ) (ls : List Bytes) (j stop : ℕ)
    → NameAt bytes pos ls j stop
    → (pos < stop) × (stop ≤ length bytes)
NameAt-behind bytes pos _ _ _ (root e) =
    let inside = get_elem?_inside bytes pos 0 e in (omega arith, omega arith)
NameAt-behind bytes pos _ j stop (label {len} {text} {labels} e small positive inside more) =
    let (after, within) = NameAt-behind bytes (pos + 1 + len) labels j stop more in
    (omega arith, within)
NameAt-behind bytes pos ls _ _ (pointer {low} e large next back more) =
    let inside = get_elem?_inside bytes (pos + 1) low next in (omega arith, omega arith)

-- The position behind a name is behind its start, and no further than the packet's end.
pub read_name-inside :
    (bytes : Bytes) (start : ℕ) (name : Bytes) (next : ℕ)
    → read_name bytes start ≡ some (name, next)
    → (start < next) × (next ≤ length bytes)
read_name-inside bytes start name next e =
    let n = (read_name-Named bytes start name next).0 e in
    NameAt-behind bytes start n.labels n.jumps next n.at

-- A character that a name may have: printable ASCII, and no capital letter.
abbrev pub CleanByte : ℕ → Type 0
CleanByte b = (0x20 ≤ b) × ((b < 0x7f) × ((b < 0x41) ⊎ (0x5a < b)))

abbrev pub CleanName : Bytes → Type 0
CleanName = All CleanByte

sanitize_byte-CleanByte : (b : ℕ) → CleanByte (sanitize_byte b)
unfolding sanitize_byte to_ascii_lowercase
sanitize_byte-CleanByte b = (ground arith, (ground arith, ground arith))

sanitize_label-CleanName : (bs : Bytes) → CleanName (sanitize_label bs)
sanitize_label-CleanName [] = tt
sanitize_label-CleanName (b ∷ bs) = (sanitize_byte-CleanByte b, sanitize_label-CleanName bs)

join_labels-CleanName : (ls : List Bytes) → CleanName (join_labels (map sanitize_label ls))
join_labels-CleanName [] = tt
join_labels-CleanName (l ∷ []) = sanitize_label-CleanName l
join_labels-CleanName (l ∷ m ∷ ls) =
    All-append CleanByte (sanitize_label l) (0x2e ∷ join_labels (map sanitize_label (m ∷ ls)))
      (sanitize_label-CleanName l)
      ((omega arith, (omega arith, inl (omega arith))), join_labels-CleanName (m ∷ ls))

pub read_name-CleanName :
    (bytes : Bytes) (start : ℕ) (name : Bytes) (next : ℕ)
    → read_name bytes start ≡ some (name, next)
    → CleanName name
read_name-CleanName bytes start name next e =
    let n = (read_name-Named bytes start name next).0 e in
    rw n.name_is (join_labels-CleanName n.labels)

abbrev pub PrintableByte : ℕ → Type 0
PrintableByte b = (0x20 ≤ b) × (b < 0x7f)

-- What a record may carry: addresses of their length, clean names, printable texts.
abbrev pub CleanContent : DnsRecordData → Type 0
CleanContent (a ip) = length ip ≡ 4
CleanContent (aaaa ip) = length ip ≡ 16
CleanContent (ptr name) = CleanName name
CleanContent (txt texts) = All (All PrintableByte) texts
CleanContent (srv port target) = CleanName target
CleanContent other = Unit {0}

printables-Printable : (bs : Bytes) → All PrintableByte (printables bs)
printables-Printable [] = tt
printables-Printable (b ∷ bs) = elim (Bool-cases (is_printable b)) [
  | inl good ↦ rw good ((ground arith, ground arith), printables-Printable bs)
  | inr bad ↦ rw bad (printables-Printable bs)
]

push_text-Printable :
    (out : List Bytes) (text : Bytes)
    → All (All PrintableByte) out
    → All PrintableByte text
    → All (All PrintableByte) (push_text out text)
push_text-Printable out [] clean good = clean
push_text-Printable out (b ∷ bs) clean good =
    All-append (All PrintableByte) out ((b ∷ bs) ∷ []) clean (good, tt)

txt_loop-Printable :
    (fuel : ℕ) (rdata : Bytes) (pos : ℕ) (out : List Bytes)
    → All (All PrintableByte) out
    → All (All PrintableByte) (txt_loop fuel rdata pos out)
unfolding txt_loop
txt_loop-Printable zero rdata pos out clean = clean
txt_loop-Printable (suc fuel) rdata pos out clean = elim (Option-cases (get_elem? rdata pos)) [
  | inl e ↦ rw (e, txt_loop) clean
  | inr (len, e) ↦
      rw (e, txt_loop)
        (elim (Option-cases (slice rdata (pos + 1) (pos + 1 + len))) [
          | inl e' ↦ rw e' clean
          | inr (chunk, e') ↦
              let pushed =
                push_text-Printable out (printables chunk) clean (printables-Printable chunk) in
              rw e'
                (elim (Bool-cases (leb max_labels (length (push_text out (printables chunk))))) [
                  | inl full ↦ rw full pushed
                  | inr more ↦ rw more (
                      txt_loop-Printable fuel rdata (pos + 1 + len)
                        (push_text out (printables chunk)) pushed)
                ])
        ])
]

ptr_or_other-CleanContent :
    (bytes : Bytes) (start : ℕ) → CleanContent (ptr_or_other (read_name bytes start))
ptr_or_other-CleanContent bytes start = elim (Option-cases (read_name bytes start)) [
  | inl e ↦ rw e tt
  | inr (found, e) ↦ rw e (read_name-CleanName bytes start found.0 found.1 e)
]

name_or_default-CleanName :
    (bytes : Bytes) (start : ℕ) → CleanName (name_or_default (read_name bytes start))
name_or_default-CleanName bytes start = elim (Option-cases (read_name bytes start)) [
  | inl e ↦ rw e tt
  | inr (found, e) ↦ rw e (read_name-CleanName bytes start found.0 found.1 e)
]

address-CleanContent :
    (n : ℕ) (make : Bytes → DnsRecordData) (rdata : Bytes)
    → (length rdata ≡ n → CleanContent (make rdata))
    → CleanContent (if length rdata == n then make rdata else other)
address-CleanContent n make rdata good = elim (Bool-cases (length rdata == n)) [
  | inl fits ↦ rw fits (good (ground arith))
  | inr odd ↦ rw odd tt
]

-- What an optional content guarantees when it is there.
abbrev pub Cleans : Option DnsRecordData → Type 0
Cleans none = Unit {0}
Cleans (some d) = CleanContent d

if-Cleans :
    (t : Bool) (x y : Option DnsRecordData) → Cleans x → Cleans y → Cleans (if t then x else y)
if-Cleans true x y cx cy = cx
if-Cleans false x y cx cy = cy

bind-Cleans :
    (o : Option Bytes) (f : Bytes → DnsRecordData)
    → ((p : Bytes) → CleanContent (f p))
    → Cleans (o >>= λ p. some (f p))
bind-Cleans none f clean = tt
bind-Cleans (some p) f clean = clean p

pub record_data-Cleans :
    (bytes : Bytes) (rtype : ℕ) (rdata : Bytes) (start : ℕ)
    → Cleans (record_data bytes rtype rdata start)
unfolding record_data
record_data-Cleans bytes rtype rdata start =
    if-Cleans (rtype == rtype_a) _ _ (address-CleanContent 4 a rdata (λ e. e)) (
      if-Cleans (rtype == rtype_aaaa) _ _ (address-CleanContent 16 aaaa rdata (λ e. e)) (
        if-Cleans (rtype == rtype_ptr) _ _ (ptr_or_other-CleanContent bytes start) (
          if-Cleans (rtype == rtype_srv) _ _
            (bind-Cleans (slice rdata 4 6) _ (λ _. name_or_default-CleanName bytes (start + 6)))
            (if-Cleans (rtype == rtype_txt) _ _
              (txt_loop-Printable (suc (length rdata)) rdata 0 [] tt) tt))))
