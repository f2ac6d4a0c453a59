-- ===== src/Server/Routes.antt =====
-- The routes that a client sends through the tunnel: control-server/src/services/tunnelRoutes.ts.
-- An address is a number below 2 ^ 32; a list of routes holds blocks, printed as `address/prefix`.
pub mod Blocks
pub mod Holes
pub mod Read
pub mod Excluded
pub mod Named
use Prim.Native.Nat.{min, max}
use gluk_vpn.Common.{
  ℕ, zero, suc, Bool, true, false, not, ◌&&◌, ◌||◌, Option, none, some, List, [], ◌∷◌, ◌++◌, map,
  ◌+◌, ◌-◌, ◌*◌, ◌/◌, ◌%◌, ◌^◌, leb, ltb, ◌==◌, if◌then◌else◌, all, any, filter, length, Text,
  split, before, from, drop_first, is_empty_text, contains_code,
}
use gluk_vpn.Extension.Pac.{trim}
use gluk_vpn.Server.Ip.{is_digit, read_digits}

abbrev pub last_ipv4 : ℕ
last_ipv4 = 2 ^ 32 - 1

abbrev pub max_routes : ℕ
max_routes = 96

-- The first and the last address.
pub record Range : Type 0 where
  pub start : ℕ
  pub end : ℕ

abbrev pub is_short_number : ℕ → Text → Bool
is_short_number digits t = all is_digit t && (leb 1 (length t) && leb (length t) digits)

abbrev pub read_octets : ℕ → List Text → Option ℕ
read_octets value [] = some value
read_octets value (o ∷ os) =
    if is_short_number 3 o && leb (read_digits 0 o) 255
    then read_octets (value * 256 + read_digits 0 o) os
    else none

abbrev pub snapped : ℕ → Option ℕ → Option Range
snapped bits none = none
snapped bits (some value) =
    let size = 2 ^ (32 - bits) in
    some (record { start = value / size * size; end = value / size * size + size - 1 })

abbrev pub is_slash : ℕ → Bool
is_slash c = c == b'/'

-- `parseCidr`; with no slash the prefix is 32.
abbrev pub bits_text : Text → Text
bits_text text =
    if contains_code b'/' text then drop_first b'/' (from is_slash text) else 51 ∷ 50 ∷ []

unfoldable pub parse_range : Text → Option Range
parse_range raw =
    let text = trim raw in
    let bits = read_digits 0 (bits_text text) in
    let octets = split b'.' (before is_slash text) in
    if is_empty_text text || (not (is_short_number 2 (bits_text text)) || ltb 32 bits)
    then none
    else if not (length octets == 4)
    then none
    else snapped bits (read_octets 0 octets)

-- A block of 2 ^ `exponent` addresses.
pub record Block : Type 0 where
  pub address : ℕ
  pub exponent : ℕ

-- The loop of `alignmentAt`, as the exponent of its result; `value` is not zero.
unfoldable pub alignment_loop : ℕ → ℕ → ℕ → ℕ
alignment_loop zero value k = k
alignment_loop (suc fuel) value k =
    let more = alignment_loop fuel value (k + 1) in if value % 2 ^ (k + 1) == 0 then more else k

unfoldable pub alignment_at : ℕ → ℕ
unfolding alignment_loop
alignment_at value = if value == 0 then 32 else alignment_loop 32 value 0

-- The loop that halves a block until it ends within the range.
unfoldable pub halve_to_fit : ℕ → ℕ → ℕ → ℕ
halve_to_fit cursor end zero = zero
halve_to_fit cursor end (suc k) =
    let smaller = halve_to_fit cursor end k in
    if ltb end (cursor + 2 ^ suc k - 1) then smaller else suc k

-- `rangeToCidrs`, on fuel.
unfoldable pub range_to_cidrs : ℕ → ℕ → ℕ → List Block
unfolding alignment_at halve_to_fit
range_to_cidrs zero cursor end = []
range_to_cidrs (suc fuel) cursor end = elim (leb cursor end) [
  | false ↦ []
  | true ↦
      let k = halve_to_fit cursor end (alignment_at cursor) in
      record { address = cursor; exponent = k } ∷ range_to_cidrs fuel (cursor + 2 ^ k) end
]

-- `parseBypassList`
unfoldable pub parse_bypass_list : Text → List Text
parse_bypass_list raw = filter (λ t. not (is_empty_text t)) (map trim (split b',' raw))

abbrev pub is_whole : Range → Bool
is_whole r = r.start == 0 && r.end == last_ipv4

abbrev pub push_range : Option Range → List Range → List Range
push_range none rs = rs
push_range (some r) rs = if is_whole r then rs else r ∷ rs

unfoldable pub ranges_of : List Text → List Range
unfolding parse_range
ranges_of [] = []
ranges_of (t ∷ ts) = push_range (parse_range t) (ranges_of ts)

-- `sort((a, b) => a.start - b.start)`
abbrev pub insert_range : Range → List Range → List Range
insert_range r [] = r ∷ []
insert_range r (s ∷ ss) =
    let rest = insert_range r ss in if leb r.start s.start then r ∷ s ∷ ss else s ∷ rest

unfoldable pub sort_ranges : List Range → List Range
sort_ranges [] = []
sort_ranges (r ∷ rs) = insert_range r (sort_ranges rs)

-- The loop that merges; `last` is the end of the list so far.
unfoldable pub merge_from : Range → List Range → List Range
merge_from last [] = last ∷ []
merge_from last (r ∷ rs) =
    let joined = merge_from (record last { end = max last.end r.end }) rs in
    let apart = merge_from r rs in if leb r.start (last.end + 1) then joined else last ∷ apart

unfoldable pub merge_ranges : List Range → List Range
unfolding merge_from
merge_ranges [] = []
merge_ranges (r ∷ rs) = merge_from r rs

-- The fuel of a range: one block per address at most.
abbrev pub blocks_between : ℕ → ℕ → List Block
blocks_between start end = range_to_cidrs (suc end - start) start end

-- The loop over the holes, and what follows the last of them.
unfoldable pub routes_from : ℕ → List Range → List Block
unfolding range_to_cidrs
routes_from cursor [] = if leb cursor last_ipv4 then blocks_between cursor last_ipv4 else []
routes_from cursor (hole ∷ holes) =
    let rest = routes_from (hole.end + 1) holes in
    if ltb cursor hole.start then blocks_between cursor (hole.start - 1) ++ rest else rest

abbrev pub everything : List Block
everything = record { address = 0; exponent = 32 } ∷ []

abbrev pub within_limit : List Block → List Block
within_limit bs = if length bs == 0 || ltb max_routes (length bs) then everything else bs

abbrev pub routes_around : List Range → List Block
routes_around [] = everything
routes_around (r ∷ rs) = within_limit (routes_from 0 (merge_ranges (sort_ranges (r ∷ rs))))

-- `splitTunnelRoutes`
unfoldable pub split_tunnel_routes : List Text → List Block
unfolding ranges_of sort_ranges merge_ranges routes_from
split_tunnel_routes exclusions = routes_around (ranges_of exclusions)

-- `tunnelAllowedIps`
unfoldable pub tunnel_allowed_ips : Text → List Block
unfolding parse_bypass_list split_tunnel_routes
tunnel_allowed_ips raw = split_tunnel_routes (parse_bypass_list raw)
