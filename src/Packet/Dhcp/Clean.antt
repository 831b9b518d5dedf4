-- ===== src/Packet/Dhcp/Clean.antt =====
-- Packet/Dhcp.antt: what an accepted message lets through.
use trapd_sensor.Prelude.{
  ◌&&◌, ◌≡◌, inl, inr, refl, sym, subst, ap, arith, ℕ, ◌-◌, Option, none, some, Bytes, Bool, length,
  take, drop, length-drop, length-take, slice, slice_from, leb, ◌==◌, Bool-cases, Option-cases,
  leb→le, true, false, if◌then◌else◌,
}
use trapd_sensor.Packet.{be32, ◌>>=◌, guard, bind_inversion, some_injective}
use trapd_sensor.Packet.Dhcp.{
  DhcpMessage, get, parse_options, parse_dhcp, to_ipv4, specified, is_unspecified, effective_ip,
  or_else, first, magic_cookie, opt_message_type, opt_requested_ip, opt_server_id, opt_hostname,
  opt_vendor_class,
}
use trapd_sensor.Packet.Dhcp.Texts.{CleanText, IfSome, option-CleanText}

both : (a b : Bool) → a ≡ true → b ≡ true → (a && b) ≡ true
both true b ha hb = hb
both false b ha hb = absurd cc

slice-length : (xs : Bytes) (i j : ℕ) (ys : Bytes) → slice xs i j ≡ some ys → length ys ≡ j - i
slice-length xs i j ys h = elim (Bool-cases (leb i j)) [
  | inr crossed ↦ absurd (ground arith)
  | inl ordered ↦ elim (Bool-cases (leb j (length xs))) [
    | inr outside ↦ absurd (ground arith)
    | inl inside ↦
        let taken : some (take (j - i) (drop i xs)) ≡ some ys =
          subst (λ t. (if t then some (take (j - i) (drop i xs)) else none) ≡ some ys)
            (both (leb i j) (leb j (length xs)) ordered inside) h in
        let same = some_injective _ _ taken in
        let fits = leb→le _ _ inside in
        let order = leb→le _ _ ordered in
        rw (sym same, length-take (j - i) (drop i xs), length-drop i xs) (omega arith)
  ]
]

option-address : (o : Option Bytes) → IfSome (λ (ip : Bytes). length ip ≡ 4) (o >>= to_ipv4)
option-address none = tt
option-address (some value) = elim (Option-cases (to_ipv4 value)) [
  | inl e ↦ rw e tt
  | inr (ip, e) ↦ rw e (slice-length value 0 4 ip e)
]

-- An assigned address: four bytes, and not all of them zero.
abbrev pub Assigned : Bytes → Type 0
Assigned ip = (length ip ≡ 4) × (is_unspecified ip ≡ false)

specified-Assigned : (ip : Bytes) → length ip ≡ 4 → IfSome Assigned (specified (some ip))
specified-Assigned ip size = elim (Bool-cases (is_unspecified ip)) [
  | inl zero_address ↦ rw zero_address tt
  | inr set ↦ rw set (size, set)
]

pub record CleanDhcp (m : DhcpMessage) : Type 0 where
  pub mac_len : length m.client_mac ≡ 6
  pub your_ip_assigned : IfSome Assigned m.your_ip
  pub requested_ip_len : IfSome (λ (ip : Bytes). length ip ≡ 4) m.requested_ip
  pub server_ip_len : IfSome (λ (ip : Bytes). length ip ≡ 4) m.server_ip
  pub hostname_clean : IfSome CleanText m.hostname
  pub vendor_class_clean : IfSome CleanText m.vendor_class
  pub effective_ip_is : effective_ip m ≡ or_else m.your_ip m.requested_ip

specified_again : (o : Option Bytes) → IfSome Assigned o → specified o ≡ o
specified_again none good = refl
specified_again (some ip) (_, set) = rw set refl

-- A message that is accepted has a hardware address of six bytes and addresses of four, its own
-- address is not the unspecified one, so that the effective address is its own one where it has
-- one and the requested one otherwise, and its texts are not empty, have printable characters only
-- and no space at either end.
pub parse_dhcp-CleanDhcp :
    (bytes : Bytes) (m : DhcpMessage) → parse_dhcp bytes ≡ some m → CleanDhcp m
unfolding parse_dhcp
parse_dhcp-CleanDhcp bytes m e =
    let (client_mac, (mac, e1)) = bind_inversion (slice bytes 28 34) _ _ e in
    let (your_ip, (yours, e2)) = bind_inversion (slice bytes 16 20) _ _ e1 in
    let (cookie, (_, e3)) = bind_inversion (slice bytes 236 240) _ _ e2 in
    let (_, (_, e4)) = bind_inversion (guard (be32 cookie == magic_cookie)) _ _ e3 in
    let (rest, (_, e5)) = bind_inversion (slice_from bytes 240) _ _ e4 in
    let (kind, (_, e6)) = bind_inversion (get (parse_options rest) opt_message_type) _ _ e5 in
    let (code, (_, e7)) = bind_inversion (first kind) _ _ e6 in
    let options = parse_options rest in
    let assigned = specified-Assigned your_ip (slice-length bytes 16 20 your_ip yours) in
    let requested = get options opt_requested_ip >>= to_ipv4 in
    let same = some_injective _ m e7 in
    subst CleanDhcp same (record {
      mac_len = slice-length bytes 28 34 client_mac mac;
      your_ip_assigned = assigned;
      requested_ip_len = option-address (get options opt_requested_ip);
      server_ip_len = option-address (get options opt_server_id);
      hostname_clean = option-CleanText (get options opt_hostname);
      vendor_class_clean = option-CleanText (get options opt_vendor_class);
      effective_ip_is =
          ap (λ o. or_else o requested) (specified_again (specified (some your_ip)) assigned);
    })
