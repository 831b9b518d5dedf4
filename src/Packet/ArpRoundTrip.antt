-- ===== src/Packet/ArpRoundTrip.antt =====
-- crates/sensor-passive/src/arp.rs: a packet that is written is read back.
use trapd_sensor.Prelude.{
  drop_behind, ◌≡◌, refl, sym, ap, ◌∙◌, arith, ℕ, ◌≤◌, ◌<◌, ◌+◌, ◌-◌, ◌*◌, ◌/◌, ◌%◌, some, [], ◌∷◌,
  ◌++◌, Bytes, slice, le→leb, length, length-append, length-drop, drop, take-append_length,
}
use trapd_sensor.Packet.Arp.{ArpPacket, parse_arp}

-- A slice of what stands at its start.
slice_behind :
    (bytes x rest : Bytes) (i j : ℕ)
    → drop i bytes ≡ x ++ rest
    → 1 ≤ length x
    → j ≡ i + length x
    → slice bytes i j ≡ some x
slice_behind bytes x rest i j at some_there end =
    let sizes : length bytes - i ≡ length x + length rest =
      sym (length-drop i bytes) ∙ (ap length at ∙ length-append x rest) in
    let width : j - i ≡ length x = omega arith in
    rw (le→leb i j (omega arith), le→leb j (length bytes) (omega arith), width, at)
      (ap some (take-append_length x rest))

-- An Ethernet and IPv4 packet, in front of other bytes.
abbrev pub write_arp : ArpPacket → Bytes → Bytes
write_arp p tail =
    0
    ∷ 1
    ∷ 8
    ∷ 0
    ∷ 6
    ∷ 4
    ∷ (p.operation / 256)
    ∷ (p.operation % 256)
    ∷ (p.sender_mac ++ (p.sender_ip ++ (p.target_mac ++ (p.target_ip ++ tail))))

pub record ArpSizes (p : ArpPacket) : Type 0 where
  pub operation_fits : p.operation < 65536
  pub sender_mac_len : length p.sender_mac ≡ 6
  pub sender_ip_len : length p.sender_ip ≡ 4
  pub target_mac_len : length p.target_mac ≡ 6
  pub target_ip_len : length p.target_ip ≡ 4

-- An ARP packet for Ethernet and IPv4, whose operation has 16 bits and whose addresses have their
-- lengths, is read back, whatever padding follows it.
pub parse_arp-write_arp :
    (p : ArpPacket) (tail : Bytes) → ArpSizes p → parse_arp (write_arp p tail) ≡ some p
unfolding parse_arp
parse_arp-write_arp p tail s =
    let all = write_arp p tail in
    let after_ip = p.target_mac ++ (p.target_ip ++ tail) in
    let after_mac = p.sender_ip ++ after_ip in
    let len1 = s.sender_mac_len in
    let len2 = s.sender_ip_len in
    let len3 = s.target_mac_len in
    let len4 = s.target_ip_len in
    let at_ip : drop 6 (p.sender_mac ++ after_mac) ≡ after_mac =
      drop_behind p.sender_mac after_mac 0 6 (omega arith) in
    let at_mac : drop 10 (p.sender_mac ++ after_mac) ≡ after_ip =
      drop_behind p.sender_mac after_mac 4 10 (omega arith)
      ∙ drop_behind p.sender_ip after_ip 0 4 (omega arith) in
    let at_target : drop 16 (p.sender_mac ++ after_mac) ≡ p.target_ip ++ tail =
      drop_behind p.sender_mac after_mac 10 16 (omega arith)
      ∙ (drop_behind p.sender_ip after_ip 6 10 (omega arith)
          ∙ drop_behind p.target_mac (p.target_ip ++ tail) 0 6 (omega arith)) in
    let op : p.operation / 256 * 256 + p.operation % 256 ≡ p.operation = omega arith in
    rw
      (
        slice_behind all (0 ∷ 1 ∷ []) (drop 2 all) 0 2 refl (omega arith) (omega arith),
        slice_behind all (8 ∷ 0 ∷ []) (drop 4 all) 2 4 refl (omega arith) (omega arith),
        slice_behind all (p.operation / 256 ∷ p.operation % 256 ∷ []) (drop 8 all) 6 8 refl
            (omega arith) (omega arith),
        slice_behind all p.sender_mac after_mac 8 14 refl (omega arith) (omega arith),
        slice_behind all p.sender_ip after_ip 14 18 at_ip (omega arith) (omega arith),
        slice_behind all p.target_mac (p.target_ip ++ tail) 18 24 at_mac (omega arith)
            (omega arith),
        slice_behind all p.target_ip tail 24 28 at_target (omega arith) (omega arith),
      )
      (λ i. some (record p { operation = op i }))
