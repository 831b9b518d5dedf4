-- ===== src/Packet/Chains.antt =====
-- The extension headers of an IPv6 packet in crates/sensor-passive/src/frame.rs.
use mathlib.Core.Logic.{◌≢◌}
use trapd_sensor.Prelude.{
  get_elem?, min, ◌/◌, ℕ, zero, suc, ◌+◌, ◌*◌, ◌≤◌, ◌≡◌, ◌⊎◌, some, Bytes, length, slice,
}
use trapd_sensor.Packet.{be16}
use trapd_sensor.Packet.Frame.{Chain6, IpPacket}

-- Hop-by-hop options, a routing header or destination options: eight bytes for each unit of its
-- length and one more.
abbrev pub OptionsAt : Bytes → ℕ → ℕ → ℕ → Type 0
OptionsAt packet kind at behind =
    ((kind ≡ 0) ⊎ ((kind ≡ 43) ⊎ (kind ≡ 60)))
    × ((len : ℕ) × ((get_elem? packet (at + 1) ≡ some len) × (behind ≡ at + (len + 1) * 8)))

-- The header of a first fragment: eight bytes, with a fragment offset of zero.
abbrev pub FragmentAt : Bytes → ℕ → ℕ → ℕ → Type 0
FragmentAt packet kind at behind =
    (kind ≡ 44)
    × ((word : Bytes) × ((slice packet (at + 2) (at + 4) ≡ some word)
          × ((be16 word / 8 ≡ 0) × (behind ≡ at + 8))))

-- An authentication header: four bytes for each unit of its length and two more.
abbrev pub AuthenticationAt : Bytes → ℕ → ℕ → ℕ → Type 0
AuthenticationAt packet kind at behind =
    (kind ≡ 51)
    × ((len : ℕ) × ((get_elem? packet (at + 1) ≡ some len) × (behind ≡ at + (len + 2) * 4)))

-- A header of some kind, whose first byte is the kind of what follows.
abbrev pub ExtensionAt : Bytes → ℕ → ℕ → ℕ → ℕ → Type 0
ExtensionAt packet kind at next behind =
    (get_elem? packet at ≡ some next)
    × (OptionsAt packet kind at behind
        ⊎ (FragmentAt packet kind at behind ⊎ AuthenticationAt packet kind at behind))

-- A number of headers one behind another, none of which reaches over the end.
abbrev pub ChainedAt : Bytes → ℕ → ℕ → ℕ → ℕ → ℕ → ℕ → Type 0
ChainedAt packet end zero kind at last behind = (last ≡ kind) × (behind ≡ at)
ChainedAt packet end (suc n) kind at last behind =
    (next : ℕ) × ((middle : ℕ) × (ExtensionAt packet kind at next middle
        × ((middle ≤ end) × ChainedAt packet end n next middle last behind)))

-- Where the payload starts: behind the headers, or at the end if nothing follows them.
abbrev pub StartsAt : ℕ → ℕ → ℕ → ℕ → Type 0
StartsAt end last behind start = (start ≡ behind) ⊎ ((last ≡ 59) × (start ≡ end))

record Found (packet : Bytes) (end limit : ℕ) (from to : Chain6) : Type 0 where
  headers : ℕ
  few : headers ≤ limit
  behind : ℕ
  chained : ChainedAt packet end headers from.next_header from.offset to.next_header behind
  start : StartsAt end to.next_header behind to.offset

-- An IPv6 packet as its bytes have it.
pub record Chained (packet : Bytes) (ip : IpPacket) : Type 0 where
  pub payload_len : Bytes
  pub first : ℕ
  pub headers : ℕ
  pub behind : ℕ
  pub start : ℕ
  pub payload_len_at : slice packet 4 6 ≡ some payload_len
  pub first_at : get_elem? packet 6 ≡ some first
  pub ttl_at : get_elem? packet 7 ≡ some ip.ttl
  pub src_at : slice packet 8 24 ≡ some ip.src
  pub dst_at : slice packet 24 40 ≡ some ip.dst
  pub few : headers ≤ 8
  pub chained :
      ChainedAt packet
        (min (40 + be16 payload_len) (length packet))
        headers
        first
        40
        ip.protocol
        behind
  pub starts : StartsAt (min (40 + be16 payload_len) (length packet)) ip.protocol behind start
  pub payload_at :
      slice packet start (min (40 + be16 payload_len) (length packet)) ≡ some ip.payload
  pub no_extension :
      (ip.protocol ≢ 0)
      × ((ip.protocol ≢ 43) × ((ip.protocol ≢ 60) × ((ip.protocol ≢ 44) × (ip.protocol ≢ 51))))
