-- ===== src/Server/Tests.antt =====
-- Runs of the control server at concrete inputs, and its theorems there.
mod Plans
mod Lives
mod Tokens
mod Link
mod Orders
mod Throttle
use gluk_vpn.Common.{
  ℕ, String, Bool, true, false, Option, none, some, List, any, [], ◌∷◌, map, ◌≡◌, ◌≢◌, ◌≤◌, ◌<◌,
  ◌↔◌, refl, count, get_elem?, length, All, Text, codes, ◌+◌, ◌-◌, arith,
}
use Prim.Native.Nat.{max}
use mathlib.Core.List.{Memᴰ}
use mathlib.Core.List.Memᴰ
use gluk_vpn.Server.Ip.{
  Cidr, ip_to_int, int_to_ip, parse_cidr, usable_host_ips, gateway_ip, addresses_from, show_octet,
  read_parts, read_octet,
}
use gluk_vpn.Server.Ip.Print.{ip_to_int-int_to_ip}
use gluk_vpn.Server.Ip.Pool.{IsClientAddress, IsRising, usable_host_ips_lem}
use gluk_vpn.Server.Routes.{
  Block, split_tunnel_routes, ranges_of, parse_range, sort_ranges, merge_from, merge_ranges,
  routes_from, range_to_cidrs, alignment_loop, alignment_at, halve_to_fit, max_routes, last_ipv4,
  tunnel_allowed_ips, parse_bypass_list,
}
use gluk_vpn.Server.Routes.Blocks.{covers}
use gluk_vpn.Server.Routes.Holes.{in_range}
use gluk_vpn.Server.Routes.Named.{split_tunnel_routes_lem}
use gluk_vpn.Server.Routes.Read.{Exclusion, exclusion_text}
use mathlib.Core.List.{Memᴰ}
use gluk_vpn.Server.Speed.{
  ShapedGatewayTier, pick_speed, pick_tier, parse_speed_tiers, speeds_of, sort_speeds, read_entry,
  speed_gateway_sni,
}
use gluk_vpn.Server.Speed.Choice.{IsChoice, speed_of, pick_speed-IsChoice, pick_tier-pick_speed}
use gluk_vpn.Server.Speed.Tiers.{parse_speed_tiers-IsRising}

printed : ip_to_int (codes " 10.8.0.3") ≡ some 168296451
unfolding ip_to_int read_parts read_octet
printed = refl

ip_to_int-int_to_ip_example : ip_to_int (int_to_ip 168296451) ≡ some 168296451
ip_to_int-int_to_ip_example = ip_to_int-int_to_ip 168296451 (omega arith)

abbrev subnet : Cidr
subnet = record { network = 167772160; prefix = 29; size = 8 }

abbrev sold : List ℕ
sold = 100 ∷ 30 ∷ 250 ∷ []

tiers_read : parse_speed_tiers (codes "250, 30=2053,x,100,30") ≡ 30 ∷ 100 ∷ 250 ∷ []
unfolding parse_speed_tiers speeds_of sort_speeds read_entry
tiers_read = refl

sni_made :
    speed_gateway_sni (some 120) (30 ∷ 100 ∷ 250 ∷ []) (codes "De-01.Gluk.tech.") (codes "speed")
    ≡ some (codes "speed100.de-01.gluk.tech")
unfolding speed_gateway_sni pick_speed
sni_made = refl

abbrev ports : List ShapedGatewayTier
ports = record { mbps = 30; port = 2053 } ∷ record { mbps = 100; port = 2083 } ∷ []

half_routes :
    tunnel_allowed_ips (codes " 128.0.0.0/1,, x") ≡ record { address = 0; exponent = 31 } ∷ []
unfolding tunnel_allowed_ips parse_bypass_list split_tunnel_routes ranges_of parse_range sort_ranges
    merge_from merge_ranges routes_from range_to_cidrs alignment_loop alignment_at halve_to_fit
half_routes = refl

-- 10.0.0.0/8 and an exclusion of everything, which is left out.
abbrev blocks : List Exclusion
blocks = record { address = 167772160; bits = 8 } ∷ record { address = 0; bits = 0 } ∷ []

split_tunnel_routes_lem_example :
    covers (split_tunnel_routes (map exclusion_text blocks)) 167772161 ≡ false
unfolding ranges_of parse_range sort_ranges merge_ranges merge_from routes_from range_to_cidrs
    alignment_at alignment_loop halve_to_fit int_to_ip show_octet
split_tunnel_routes_lem_example =
    (split_tunnel_routes_lem blocks 167772161
        ((omega arith, omega arith), ((omega arith, omega arith), tt)) (omega arith)).1
      (omega arith) (omega arith) (record { address = 167772160; bits = 8 }) (Memᴰ.head refl)
      (record { partial = omega arith; from = omega arith; below = omega arith })
