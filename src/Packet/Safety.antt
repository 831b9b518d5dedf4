-- ===== src/Packet/Safety.antt =====
-- What a parsed Ethernet frame guarantees, whatever the bytes were.
use mathlib.Core.Logic.{◌≢◌}
use trapd_sensor.Prelude.{
  ◌==◌, ℕ, zero, suc, ◌+◌, ◌*◌, ◌%◌, ◌≤◌, ◌≡◌, ◌⊎◌, refl, sym, ap, subst, ◌∙◌, arith, Option, none,
  some, Bytes, true, false, Bool-cases, inl, inr, length, drop, slice, slice_from,
}
use trapd_sensor.Packet.{be16, ◌>>=◌, bind_inversion, slice_from-some, some_injective}
use trapd_sensor.Packet.Frame.{
  EthernetFrame, Tags, is_tag, outer, vlan_loop, parse_ethernet, max_vlan_tags,
}

-- The two bytes at a position, as a big-endian number.
abbrev pub Word : Bytes → ℕ → ℕ → Type 0
Word packet at value =
    (bytes : Bytes) × ((slice packet at (at + 2) ≡ some bytes) × (be16 bytes ≡ value))

-- The types of a tag: 802.1Q and 802.1ad.
abbrev pub TagType : ℕ → Type 0
TagType ethertype = (ethertype ≡ 0x8100) ⊎ (ethertype ≡ 0x88a8)

-- A number of tags, each of four bytes, from a position on.
abbrev pub TagsAt : Bytes → ℕ → ℕ → Type 0
TagsAt packet zero at = Unit {0}
TagsAt packet (suc n) at =
    ((tag : ℕ) × (Word packet at tag × TagType tag)) × TagsAt packet n (at + 4)

-- The VLAN of the first of a number of tags.
abbrev pub OuterVlan : Bytes → ℕ → ℕ → Option ℕ → Type 0
OuterVlan packet zero at vlan_id = vlan_id ≡ none
OuterVlan packet (suc n) at vlan_id =
    (tci : ℕ) × (Word packet (at + 2) tci × (vlan_id ≡ some (tci % 4096)))

-- The same, where a VLAN may be known already.
abbrev VlanFrom : Bytes → ℕ → ℕ → Option ℕ → Option ℕ → Type 0
VlanFrom packet zero at known vlan_id = vlan_id ≡ known
VlanFrom packet (suc n) at known vlan_id =
    (tci : ℕ) × (Word packet (at + 2) tci × (vlan_id ≡ outer known tci))

record Untagged (packet : Bytes) (limit at : ℕ) (known : Option ℕ) (found : Tags) : Type 0 where
  tags : ℕ
  few : tags ≤ limit
  tagged : TagsAt packet tags at
  ethertype_at : Word packet (at + 4 * tags) found.ethertype
  inner : is_tag found.ethertype ≡ false
  offset_eq : found.offset ≡ at + 2 + 4 * tags
  vlan : VlanFrom packet tags at known found.vlan_id

tag_type : (ethertype : ℕ) → is_tag ethertype ≡ true → TagType ethertype
tag_type ethertype h = elim (Bool-cases (ethertype == 0x8100)) [
  | inl vlan ↦ inl (ground arith)
  | inr other ↦ inr (ground arith)
]

plain_tags : (ethertype offset : ℕ) (vlan_id : Option ℕ) → Tags
plain_tags ethertype offset vlan_id = record {
  vlan_id = vlan_id;
  ethertype = ethertype;
  offset = offset;
}

plain-Untagged :
    (packet : Bytes) (limit ethertype at : ℕ) (known : Option ℕ) (found : Tags)
    → Word packet at ethertype
    → is_tag ethertype ≡ false
    → some (plain_tags ethertype (at + 2) known) ≡ some found
    → Untagged packet limit at known found
unfolding plain_tags
plain-Untagged packet limit ethertype at known found word plain h =
    subst (Untagged packet limit at known)
      (some_injective (plain_tags ethertype (at + 2) known) found h)
      (record {
        tags = 0;
        few = omega arith;
        tagged = tt;
        ethertype_at =
            let start : at ≡ at + 4 * 0 = omega arith in
            subst (λ a. Word packet a ethertype) start word;
        inner = plain;
        offset_eq = omega arith;
        vlan = refl;
      })

outer-outer : (known : Option ℕ) (tci tci' : ℕ) → outer (outer known tci) tci' ≡ outer known tci
outer-outer none tci tci' = refl
outer-outer (some id) tci tci' = refl

VlanFrom-known :
    (packet : Bytes) (n at : ℕ) (known vlan_id : Option ℕ) (tci : ℕ)
    → VlanFrom packet n at (outer known tci) vlan_id
    → vlan_id ≡ outer known tci
VlanFrom-known packet zero at known vlan_id tci h = h
VlanFrom-known packet (suc n) at known vlan_id tci (tci', (_, e)) = e ∙ outer-outer known tci tci'

tag-Untagged :
    (packet : Bytes) (limit ethertype at : ℕ) (tci : Bytes) (known : Option ℕ) (found : Tags)
    → Word packet at ethertype
    → is_tag ethertype ≡ true
    → slice packet (at + 2) (at + 2 + 2) ≡ some tci
    → Untagged packet limit (at + 4) (outer known (be16 tci)) found
    → Untagged packet (suc limit) at known found
tag-Untagged packet limit ethertype at tci known found word tag cut u = record {
  tags = suc u.tags;
  few = omega (arith, u.few);
  tagged = ((ethertype, (word, tag_type ethertype tag)), u.tagged);
  ethertype_at =
      let same : at + 4 + 4 * u.tags ≡ at + 4 * suc u.tags = omega arith in
      subst (λ a. Word packet a found.ethertype) same u.ethertype_at;
  inner = u.inner;
  offset_eq = omega (arith, u.offset_eq);
  vlan = (
    be16 tci,
    (
      (tci, (cut, refl)),
      VlanFrom-known packet u.tags (at + 4) known found.vlan_id (be16 tci) u.vlan,
    ),
  );
}

vlan_loop-Untagged :
    (limit : ℕ) (packet : Bytes) (ethertype at : ℕ) (known : Option ℕ) (found : Tags)
    → Word packet at ethertype
    → vlan_loop limit packet ethertype (at + 2) known ≡ some found
    → Untagged packet limit at known found
unfolding vlan_loop plain_tags
vlan_loop-Untagged zero packet ethertype at known found word h =
    elim (Bool-cases (is_tag ethertype)) [
      | inl tag ↦ absurd (ground arith)
      | inr plain ↦
          let e : vlan_loop zero packet ethertype (at + 2) known
              ≡ some (plain_tags ethertype (at + 2) known) =
            rw (plain, vlan_loop) refl in
          plain-Untagged packet 0 ethertype at known found word plain (sym e ∙ h)
    ]
vlan_loop-Untagged (suc limit) packet ethertype at known found word h =
    elim (Bool-cases (is_tag ethertype)) [
      | inl tag ↦
          let e : vlan_loop (suc limit) packet ethertype (at + 2) known ≡ (
              slice packet (at + 2) (at + 2 + 2) >>= λ tci.
              slice packet (at + 2 + 2) (at + 2 + 4) >>= λ next.
              vlan_loop limit packet (be16 next) (at + 2 + 4) (outer known (be16 tci))) =
            rw (tag, vlan_loop) refl in
          let (tci, (cut, h1)) =
            bind_inversion (slice packet (at + 2) (at + 2 + 2)) _ found (sym e ∙ h) in
          let (next, (cut', h2)) =
            bind_inversion (slice packet (at + 2 + 2) (at + 2 + 4)) _ found h1 in
          let start : at + 2 + 2 ≡ at + 4 = omega arith in
          let end : at + 2 + 4 ≡ at + 4 + 2 = omega arith in
          let there : slice packet (at + 4) (at + 4 + 2) ≡ some next =
            (λ i. slice packet (sym start i) (sym end i)) ∙ cut' in
          let later : vlan_loop limit packet (be16 next) (at + 4 + 2) (outer known (be16 tci))
              ≡ some found =
            (λ i. vlan_loop limit packet (be16 next) (sym end i) (outer known (be16 tci))) ∙ h2 in
          tag-Untagged packet limit ethertype at tci known found word tag cut (
            vlan_loop-Untagged limit packet (be16 next) (at + 4) (outer known (be16 tci)) found
              (next, (there, refl)) later)
      | inr plain ↦
          let e : vlan_loop (suc limit) packet ethertype (at + 2) known
              ≡ some (plain_tags ethertype (at + 2) known) =
            rw (plain, vlan_loop) refl in
          plain-Untagged packet (suc limit) ethertype at known found word plain (sym e ∙ h)
    ]

-- A frame as its packet has it.
pub record Unwrapped (packet : Bytes) (frame : EthernetFrame) : Type 0 where
  pub tags : ℕ
  pub few : tags ≤ 2
  pub dst_mac_at : slice packet 0 6 ≡ some frame.dst_mac
  pub src_mac_at : slice packet 6 12 ≡ some frame.src_mac
  pub tagged : TagsAt packet tags 12
  pub ethertype_at : Word packet (12 + 4 * tags) frame.ethertype
  pub inner : (frame.ethertype ≢ 0x8100) × (frame.ethertype ≢ 0x88a8)
  pub vlan : OuterVlan packet tags 12 frame.vlan_id
  pub payload_eq : frame.payload ≡ drop (14 + 4 * tags) packet
  pub inside : 14 + 4 * tags ≤ length packet

no_tag : (ethertype : ℕ) → is_tag ethertype ≡ false → (ethertype ≢ 0x8100) × (ethertype ≢ 0x88a8)
no_tag ethertype h = (λ e. ground arith, λ e. ground arith)

OuterVlan-from :
    (packet : Bytes) (n at : ℕ) (vlan_id : Option ℕ)
    → VlanFrom packet n at none vlan_id
    → OuterVlan packet n at vlan_id
OuterVlan-from packet zero at vlan_id h = h
OuterVlan-from packet (suc n) at vlan_id h = h

-- An accepted frame has at most two tags behind its two hardware addresses: from byte 12 on, each
-- of four bytes, starting with one of the two tag types. Its ethertype is the word behind them,
-- which is no tag type; its VLAN is the lower twelve bits behind the first tag's type, and none
-- without a tag; and its payload is what follows the ethertype in the packet.
pub parse_ethernet-Unwrapped :
    (packet : Bytes) (frame : EthernetFrame)
    → parse_ethernet packet ≡ some frame
    → Unwrapped packet frame
unfolding parse_ethernet
parse_ethernet-Unwrapped packet frame h =
    let (dst, (to, h1)) = bind_inversion (slice packet 0 6) _ frame h in
    let (src, (from, h2)) = bind_inversion (slice packet 6 12) _ frame h1 in
    let (ethertype, (word, h3)) = bind_inversion (slice packet 12 14) _ frame h2 in
    let (found, (looped, h4)) =
      bind_inversion (vlan_loop max_vlan_tags packet (be16 ethertype) 14 none) _ frame h3 in
    let (payload, (cut, h5)) = bind_inversion (slice_from packet found.offset) _ frame h4 in
    let u =
      vlan_loop-Untagged max_vlan_tags packet (be16 ethertype) 12 none found
        (ethertype, (word, refl)) looped in
    let (p, within) = slice_from-some packet found.offset payload cut in
    subst (Unwrapped packet) (some_injective _ frame h5) (record {
      tags = u.tags;
      few = u.few;
      dst_mac_at = to;
      src_mac_at = from;
      tagged = u.tagged;
      ethertype_at = u.ethertype_at;
      inner = no_tag found.ethertype u.inner;
      vlan = OuterVlan-from packet u.tags 12 found.vlan_id u.vlan;
      payload_eq = p ∙ ap (λ n. drop n packet) (u.offset_eq ∙ omega arith);
      inside = omega (arith, u.offset_eq);
    })
