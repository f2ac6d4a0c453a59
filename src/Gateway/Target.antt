-- ===== src/Gateway/Target.antt =====
-- Which addresses the gateway may dial: `isBlockedAddress` and `resolveTarget` of server.js. `net.isIP` and `dns.lookup` are
-- parameters, as is `Number` on a text.
use gluk_vpn.Common.{
  ℕ, Bool, true, false, ◌&&◌, ◌||◌, Option, none, some, List, [], ◌∷◌, ◌++◌, leb, if◌then◌else◌,
  ◌≡◌, Text, codes, text_eq, text_starts_with, contains_code, to_lower, any, refl, arith, map,
}
use gluk_vpn.Gateway.Config.{Config}

-- `none` stands for NaN, for a lookup that throws, and for the null address of an empty name.
pub record Net : Type 0 where
  pub is_ip : Text → Bool
  pub dns_lookup : Text → Option Text
  pub to_number : Text → Option ℕ

-- One place of a pattern: the least and the greatest code point that fit.
abbrev Place : Type 0
Place = ℕ × ℕ

abbrev exactly : Text → List Place
exactly = map (λ c. (c, c))

abbrev dot : List Place
dot = exactly (codes ".")

abbrev fits : List Place → Text → Bool
fits [] cs = true
fits (p ∷ ps) [] = false
fits ((lo, hi) ∷ ps) (c ∷ cs) = (leb lo c && leb c hi) && fits ps cs

-- The alternatives of `PRIVATE_V4`; `\d` is the place from `0` to `9`.
abbrev private_v4 : List (List Place)
private_v4 =
    exactly (codes "0.")
    ∷ exactly (codes "10.")
    ∷ exactly (codes "127.")
    ∷ exactly (codes "169.254.")
    ∷ (exactly (codes "172.1") ++ (b'6', b'9') ∷ dot)
    ∷ (exactly (codes "172.2") ++ (b'0', b'9') ∷ dot)
    ∷ (exactly (codes "172.3") ++ (b'0', b'1') ∷ dot)
    ∷ exactly (codes "192.168.")
    ∷ exactly (codes "192.0.2.")
    ∷ (exactly (codes "198.1") ++ (b'8', b'9') ∷ dot)
    ∷ (exactly (codes "100.6") ++ (b'4', b'9') ∷ dot)
    ∷ (exactly (codes "100.") ++ (b'7', b'9') ∷ (b'0', b'9') ∷ dot)
    ∷ (exactly (codes "100.1") ++ (b'0', b'1') ∷ (b'0', b'9') ∷ dot)
    ∷ (exactly (codes "100.12") ++ (b'0', b'7') ∷ dot)
    ∷ []

unfoldable pub is_private_v4 : Text → Bool
is_private_v4 address = any (λ alternative. fits alternative address) private_v4

unfoldable pub is_blocked_address : Config → Option Text → Bool
unfolding is_private_v4
is_blocked_address cfg none = true
is_blocked_address cfg (some []) = true
is_blocked_address cfg (some (c ∷ cs)) =
    let address = c ∷ cs in
    let lower = to_lower address in
    if cfg.allow_test_loopback_target && text_starts_with address (codes "127.")
    then false
    else if contains_code b':' address
    then text_eq lower (codes "::1")
      || text_starts_with lower (codes "fc")
      || text_starts_with lower (codes "fd")
      || text_starts_with lower (codes "fe80")
    else is_private_v4 address

-- `none` is the exception.
unfoldable pub resolve_target : Config → Net → Text → Option Text
resolve_target cfg net hostname =
    if net.is_ip hostname
    then if is_blocked_address cfg (some hostname) then none else some hostname
    else if is_blocked_address cfg (net.dns_lookup hostname)
    then none
    else net.dns_lookup hostname

-- Every address that is handed on has passed the block list, whether it was written as an address
-- or looked up.
pub resolve_target-allowed :
    (cfg : Config) (net : Net) (hostname address : Text)
    → resolve_target cfg net hostname ≡ some address
    → is_blocked_address cfg (some address) ≡ false
unfolding resolve_target
resolve_target-allowed cfg net hostname address h = ground arith

-- An IPv4 address inside an IPv6 one passes, whatever it is: the block list looks at none of them.
pub mapped_v4_passes :
    (cfg : Config) (net : Net) (v4 : Text)
    → net.is_ip (codes "::ffff:" ++ v4) ≡ true
    → resolve_target cfg net (codes "::ffff:" ++ v4) ≡ some (codes "::ffff:" ++ v4)
unfolding resolve_target is_blocked_address
mapped_v4_passes cfg net v4 h = ground arith

blocked_tests : List Bool
unfolding is_blocked_address
blocked_tests =
    map (λ s. is_private_v4 (codes s))
      ("10.1.2.3" ∷ "172.15.0.1" ∷ "172.16.0.1" ∷ "172.31.9.9" ∷ "172.32.0.1" ∷ "100.63.0.1"
        ∷ "100.64.0.1" ∷ "100.127.1.1" ∷ "100.128.0.1" ∷ "8.8.8.8" ∷ "100.99.1.1" ∷ [])

blocked_lem :
    blocked_tests
    ≡ true ∷ false ∷ true ∷ true ∷ false ∷ false ∷ true ∷ true ∷ false ∷ false ∷ true ∷ []
unfolding blocked_tests is_private_v4
blocked_lem = refl
