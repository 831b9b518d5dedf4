-- ===== src/Packet/Ndp.antt =====
-- crates/sensor-passive/src/icmpv6.rs: neighbor discovery.
use trapd_sensor.Prelude.{
  ℕ, zero, suc, ◌*◌, Option, none, some, [], ◌∷◌, Bytes, Bool, true, false, not, get_elem?, slice,
  slice_from, ◌==◌, if◌then◌else◌,
}
use trapd_sensor.Packet.{◌>>=◌, guard}

abbrev pub max_options : ℕ
max_options = 32

pub data NeighborDiscovery : Type 0 where
  router_advertisement : Option Bytes → NeighborDiscovery
  neighbor_solicitation : Bytes → Option Bytes → NeighborDiscovery
  neighbor_advertisement : Bytes → Option Bytes → NeighborDiscovery

abbrev pub is_nil : Bytes → Bool
is_nil [] = true
is_nil (b ∷ bs) = false

-- `some none` is a valid list without the wanted option; `fuel` counts the options still allowed.
unfoldable pub option_loop : ℕ → Bytes → ℕ → Option (Option Bytes)
option_loop zero options wanted = if is_nil options then some none else none
option_loop (suc fuel) options wanted =
    let next =
      (get_elem? options 0 >>= λ kind. get_elem? options 1 >>= λ units.
      guard (not (units == 0)) >>= λ _. slice options 0 (units * 8) >>= λ option.
      (let later = (slice_from options (units * 8) >>= λ rest. option_loop fuel rest wanted) in
        if kind == wanted then (slice option 2 8 >>= λ mac. some (some mac)) else later)) in
    if is_nil options then some none else next

unfoldable pub link_layer_option : Bytes → ℕ → Option (Option Bytes)
link_layer_option options wanted = option_loop max_options options wanted

unfoldable pub parse_neighbor_discovery : Bytes → Option NeighborDiscovery
parse_neighbor_discovery packet = get_elem? packet 0 >>= λ kind. get_elem? packet 1 >>= λ code.
    guard (code == 0) >>= λ _.
    (if kind == 134
      then (slice_from packet 16 >>= λ options.
          link_layer_option options 1 >>= λ mac. some (router_advertisement mac))
      else if kind == 135
      then (slice packet 8 24 >>= λ target. slice_from packet 24 >>= λ options.
          link_layer_option options 1 >>= λ mac. some (neighbor_solicitation target mac))
      else if kind == 136
      then (slice packet 8 24 >>= λ target. slice_from packet 24 >>= λ options.
          link_layer_option options 2 >>= λ mac. some (neighbor_advertisement target mac))
      else none)
