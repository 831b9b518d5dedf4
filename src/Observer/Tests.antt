-- ===== src/Observer/Tests.antt =====
-- An observer whose policy excludes one network.
use trapd_sensor.Prelude.{◌≡◌, refl, none, some, List, [], ◌∷◌, ◌++◌, Bytes}
use trapd_sensor.Flow.{v4, expire, expire_loop}
use trapd_sensor.Config.{passive_only}
use trapd_sensor.Config.Cidr.{parse, parse_all, any_contains, contains, mask}
use trapd_sensor.Config.Policy.{EffectivePolicy}
use trapd_sensor.Config.Tests.{four_text, example_passive, example_privacy}
use trapd_sensor.Text.{
  codes, is_whitespace, trim, trim_start, trim_end, split_once, digits, parse_u8,
}
use trapd_sensor.Text.Writing.{normalize_mac}
use trapd_sensor.Packet.Frame.{parse_ethernet, vlan_loop}
use trapd_sensor.Packet.Arp.{parse_arp}
use trapd_sensor.Observed.{by_arp, asset}
use trapd_sensor.Observer.{new_observer, allow, insert_seen, is_excluded_client}
use trapd_sensor.Observer.Handlers.{handle_arp}
use trapd_sensor.Observer.Frames.{handle_payload, handle_frame, expire_flows, drain}
use trapd_sensor.Observer.Privacy.{Handles}
use trapd_sensor.Observer.Watching.{Occasion, frame, expiry, shutdown, watch, watch-Handles}

-- The network 1.2.0.0/16.
abbrev excluded_network : Bytes
excluded_network = 1 ∷ 2 ∷ 0 ∷ 0 ∷ codes "/16"

abbrev example_policy : EffectivePolicy
example_policy = record {
  mode = passive_only;
  passive = example_passive;
  active = none;
  privacy = record example_privacy { exclude_clients = excluded_network ∷ [] };
}

-- An ARP reply in an Ethernet frame, from an address.
abbrev arp_frame_from : Bytes → Bytes
arp_frame_from ip =
    (255 ∷ 255 ∷ 255 ∷ 255 ∷ 255 ∷ 255 ∷ 2 ∷ 0 ∷ 0 ∷ 0 ∷ 0 ∷ 1 ∷ 8 ∷ 6 ∷ [])
    ++ ((0 ∷ 1 ∷ 8 ∷ 0 ∷ 6 ∷ 4 ∷ 0 ∷ 2 ∷ 2 ∷ 0 ∷ 0 ∷ 0 ∷ 0 ∷ 1 ∷ [])
        ++ (ip ++ (2 ∷ 0 ∷ 0 ∷ 0 ∷ 0 ∷ 2 ∷ 9 ∷ 9 ∷ 9 ∷ 9 ∷ [])))

abbrev occasions : List Occasion
occasions =
    frame (arp_frame_from (7 ∷ 2 ∷ 3 ∷ 4 ∷ [])) 1000
    ∷ frame (arp_frame_from (7 ∷ 2 ∷ 3 ∷ 4 ∷ [])) 2000
    ∷ frame (arp_frame_from (1 ∷ 2 ∷ 3 ∷ 4 ∷ [])) 3000
    ∷ expiry 90000
    ∷ shutdown
    ∷ []

-- The address outside the network is reported once, the other one never.
watch_reports :
    (watch occasions (new_observer (codes "eth0") example_policy 60 100)).0
    ≡ asset (record {
      ip = some (v4 0x07020304);
      mac = some (codes "02:00:00:00:00:01");
      hostname = none;
      vlan_id = none;
      method = by_arp;
      interface = some (codes "eth0");
    })
      ∷ []
unfolding watch handle_frame parse_ethernet vlan_loop handle_payload handle_arp parse_arp
    is_excluded_client parse_all parse trim trim_start trim_end is_whitespace split_once parse_u8
    digits any_contains contains mask normalize_mac allow insert_seen expire expire_loop
    expire_flows drain
watch_reports = refl

watch-Handles_example :
    Handles example_policy (watch occasions (new_observer (codes "eth0") example_policy 60 100))
watch-Handles_example = watch-Handles example_policy (codes "eth0") 60 100 occasions
