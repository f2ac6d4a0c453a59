-- ===== src/Server/Speed.antt =====
-- Which gateway a client is sent to, so that its link has the speed of its plan:
-- control-server/src/services/sessions.ts. The texts of the configuration and of a node's row are
-- lists of code points; a speed or a port is read from decimal digits.
pub mod Tiers
pub mod Choice
use gluk_vpn.Common.{
  ℕ, zero, suc, Bool, true, false, not, ◌&&◌, ◌||◌, Option, none, some, List, [], ◌∷◌, ◌++◌, map,
  ◌+◌, ◌-◌, ◌/◌, ◌%◌, leb, ltb, ◌==◌, if◌then◌else◌, all, any, length, Text, codes, to_lower,
  contains_code, split, drop_last, before, from, is_empty_text,
}
use gluk_vpn.Extension.Pac.{trim, not_space}
use gluk_vpn.Server.Ip.{is_digit, read_digits}

pub record ShapedGatewayTier : Type 0 where
  pub mbps : ℕ
  pub port : ℕ

abbrev pub is_number : ℕ → Text → Bool
is_number digits t = all is_digit t && (leb 1 (length t) && leb (length t) digits)

abbrev pub not_digit : ℕ → Bool
not_digit c = not (is_digit c)

-- `\s*=\s*(\d{1,5})$`
abbrev pub read_port : Text → Option ℕ
read_port [] = none
read_port (c ∷ cs) =
    let digits = from not_space cs in
    if c == b'=' && is_number 5 digits then some (read_digits 0 digits) else none

-- An entry of the list that matches, with its port, if it has one.
abbrev pub with_port : ℕ → Option ℕ → Option (ℕ × Option ℕ)
with_port mbps none = none
with_port mbps (some port) = some (mbps, some port)

unfoldable pub read_entry : Text → Option (ℕ × Option ℕ)
read_entry entry =
    let digits = before not_digit entry in
    let rest = from not_digit entry in
    if is_number 6 digits
    then (if is_empty_text rest
        then some (read_digits 0 digits, none)
        else with_port (read_digits 0 digits) (read_port (from not_space rest)))
    else none

-- The loop of `parseSpeedTiers` over the entries: a malformed or repeated one is passed over.
abbrev pub push_speed : List ℕ → Option (ℕ × Option ℕ) → List ℕ
push_speed speeds none = speeds
push_speed speeds (some (mbps, port)) =
    if leb mbps 0 || any (λ s. s == mbps) speeds then speeds else speeds ++ mbps ∷ []

unfoldable pub speeds_of : List ℕ → List Text → List ℕ
unfolding read_entry
speeds_of speeds [] = speeds
speeds_of speeds (raw ∷ rest) = speeds_of (push_speed speeds (read_entry (trim raw))) rest

-- `sort((a, b) => a - b)`
abbrev pub insert_speed : ℕ → List ℕ → List ℕ
insert_speed s [] = s ∷ []
insert_speed s (t ∷ ts) = let rest = insert_speed s ts in if leb s t then s ∷ t ∷ ts else t ∷ rest

unfoldable pub sort_speeds : List ℕ → List ℕ
sort_speeds [] = []
sort_speeds (s ∷ ss) = insert_speed s (sort_speeds ss)

-- `parseSpeedTiers`
unfoldable pub parse_speed_tiers : Text → List ℕ
unfolding speeds_of sort_speeds
parse_speed_tiers spec = sort_speeds (speeds_of [] (split b',' spec))

-- The loop of `parseShapedGatewayPorts`.
abbrev pub push_tier : List ShapedGatewayTier → Option (ℕ × Option ℕ) → List ShapedGatewayTier
push_tier tiers none = tiers
push_tier tiers (some (mbps, none)) = tiers
push_tier tiers (some (mbps, some port)) =
    if leb mbps 0
      || (ltb port 1 || (ltb 65535 port || any (λ (t : ShapedGatewayTier). t.mbps == mbps) tiers))
    then tiers
    else tiers ++ record { mbps = mbps; port = port } ∷ []

unfoldable pub tiers_of : List ShapedGatewayTier → List Text → List ShapedGatewayTier
unfolding read_entry
tiers_of tiers [] = tiers
tiers_of tiers (raw ∷ rest) = tiers_of (push_tier tiers (read_entry (trim raw))) rest

abbrev pub insert_tier : ShapedGatewayTier → List ShapedGatewayTier → List ShapedGatewayTier
insert_tier s [] = s ∷ []
insert_tier s (t ∷ ts) =
    let rest = insert_tier s ts in if leb s.mbps t.mbps then s ∷ t ∷ ts else t ∷ rest

unfoldable pub sort_tiers : List ShapedGatewayTier → List ShapedGatewayTier
sort_tiers [] = []
sort_tiers (s ∷ ss) = insert_tier s (sort_tiers ss)

unfoldable pub parse_shaped_gateway_ports : Text → List ShapedGatewayTier
unfolding tiers_of sort_tiers
parse_shaped_gateway_ports spec = sort_tiers (tiers_of [] (split b',' spec))

-- The two variables of the loop that chooses a speed, `withinCap` and `slowest`.
abbrev pub slower : Option ℕ → ℕ → Option ℕ
slower none t = some t
slower (some s) t = if ltb t s then some t else some s

abbrev pub faster : ℕ → Option ℕ → ℕ → Option ℕ
faster cap none t = if leb t cap then some t else none
faster cap (some w) t = if leb t cap && ltb w t then some t else some w

abbrev pub or_else {ℓ} : {A : Type ℓ} → Option A → Option A → Option A
or_else none b = b
or_else (some a) b = some a

unfoldable pub pick_speed : ℕ → Option ℕ → Option ℕ → List ℕ → Option ℕ
pick_speed cap within slowest [] = or_else within slowest
pick_speed cap within slowest (t ∷ ts) = pick_speed cap (faster cap within t) (slower slowest t) ts

abbrev pub slower_tier : Option ShapedGatewayTier → ShapedGatewayTier → Option ShapedGatewayTier
slower_tier none t = some t
slower_tier (some s) t = if ltb t.mbps s.mbps then some t else some s

abbrev pub faster_tier : ℕ → Option ShapedGatewayTier → ShapedGatewayTier → Option ShapedGatewayTier
faster_tier cap none t = if leb t.mbps cap then some t else none
faster_tier cap (some w) t = if leb t.mbps cap && ltb w.mbps t.mbps then some t else some w

unfoldable pub pick_tier :
    ℕ
    → Option ShapedGatewayTier
    → Option ShapedGatewayTier
    → List ShapedGatewayTier
    → Option ShapedGatewayTier
pick_tier cap within slowest [] = or_else within slowest
pick_tier cap within slowest (t ∷ ts) =
    pick_tier cap (faster_tier cap within t) (slower_tier slowest t) ts

abbrev pub port_of : Option ShapedGatewayTier → Option ℕ
port_of none = none
port_of (some t) = some t.port

-- `shapedGatewayPort`
unfoldable pub shaped_gateway_port : Option ℕ → List ShapedGatewayTier → Option ℕ
unfolding pick_tier
shaped_gateway_port none tiers = none
shaped_gateway_port (some cap) tiers =
    if leb cap 0 then none else port_of (pick_tier cap none none tiers)

abbrev is_host_char : ℕ → Bool
is_host_char c = leb b'a' c && leb c b'z' || (is_digit c || (c == b'.' || c == b'-'))

abbrev is_label_char : ℕ → Bool
is_label_char c = leb b'a' c && leb c b'z' || (is_digit c || c == b'-')

abbrev is_address_char : ℕ → Bool
is_address_char c = is_digit c || c == b'.'

abbrev or_text : Text → Text → Text
or_text [] t = t
or_text (c ∷ cs) t = c ∷ cs

-- A number in decimal, with more fuel than it has digits.
abbrev show_number : ℕ → ℕ → Text
show_number zero n = []
show_number (suc fuel) n =
    let higher = show_number fuel (n / 10) in
    if ltb n 10 then (48 + n) ∷ [] else higher ++ (48 + n % 10) ∷ []

abbrev speed_name : Text → Option ℕ → Text → Option Text
speed_name label none host = none
speed_name label (some picked) host =
    if all is_label_char label
    then some (label ++ show_number (suc picked) picked ++ b'.' ∷ host)
    else none

-- `speedGatewaySni`
unfoldable pub speed_gateway_sni : Option ℕ → List ℕ → Text → Text → Option Text
unfolding pick_speed
speed_gateway_sni none tiers base prefix = none
speed_gateway_sni (some cap) tiers base prefix =
    let host = drop_last b'.' (to_lower (trim base)) in
    if leb cap 0 || length tiers == 0
    then none
    else if not (contains_code b'.' host)
    then none
    else if contains_code b':' host || all is_address_char host
    then none
    else if not (all is_host_char host)
    then none
    else speed_name (or_text (to_lower (trim prefix)) (codes "speed"))
        (pick_speed cap none none tiers) host

-- The fields of the configuration that `gatewayFor` reads.
pub record VlessConfig : Type 0 where
  pub uuid : Text
  pub host : Text
  pub port : ℕ
  pub sni : Text
  pub flow : Text
  pub shaped_ports : Text
  pub speed_tiers : Text
  pub speed_sni_prefix : Text

-- The fields of the node's row; `own_host` is what `nodeHost` makes of it.
pub record NodeGateway : Type 0 where
  pub host : Option Text
  pub port : Option ℕ
  pub sni : Option Text
  pub flow : Option Text
  pub own_host : Text

pub record ClientGateway : Type 0 where
  pub host : Text
  pub port : ℕ
  pub uuid : Text
  pub sni : Option Text
  pub flow : Option Text

abbrev given {ℓ} : {A : Type ℓ} → Option A → A → A
given none d = d
given (some a) d = a

abbrev non_empty : Text → Option Text
non_empty [] = none
non_empty (c ∷ cs) = some (c ∷ cs)

abbrev is_shaped : Option Text → Bool
is_shaped none = false
is_shaped (some t) = true

-- A gateway with the name of its speed, or with the port of its speed.
abbrev gateway_of : Option Text → Text → ℕ → Option ℕ → Text → Option Text → Text → ClientGateway
gateway_of shaped host port legacy uuid sni flow = record {
  host = given shaped host;
  port = if is_shaped shaped then port else given legacy port;
  uuid = uuid;
  sni = or_else shaped sni;
  flow = non_empty (trim flow);
}

-- The node reports its own gateway.
abbrev node_gateway : NodeGateway → Option (Text × ℕ)
node_gateway n = elim n.host [
  | none ↦ none
  | some h ↦ elim n.port [
    | none ↦ none
    | some p ↦ if is_empty_text h || p == 0 then none else some (h, p)
  ]
]

-- `gatewayFor`
unfoldable pub gateway_for :
    VlessConfig → NodeGateway → Option Text → Option ℕ → Option ClientGateway
unfolding parse_speed_tiers parse_shaped_gateway_ports shaped_gateway_port speed_gateway_sni
gateway_for cfg n device_uuid limit =
    let uuid = trim (given device_uuid cfg.uuid) in
    let tiers = parse_speed_tiers cfg.speed_tiers in
    let legacy = shaped_gateway_port limit (parse_shaped_gateway_ports cfg.shaped_ports) in
    let host = or_text (trim cfg.host) n.own_host in
    let sni = trim cfg.sni in
    if is_empty_text uuid then none else (elim (node_gateway n) [
      | some (h, p) ↦ some (
          gateway_of (speed_gateway_sni limit tiers (given n.sni h) cfg.speed_sni_prefix) h p legacy
            uuid n.sni (given n.flow cfg.flow))
      | none ↦
          if is_empty_text (trim cfg.uuid)
          then none
          else some (
              gateway_of (speed_gateway_sni limit tiers (or_text sni host) cfg.speed_sni_prefix)
                host cfg.port legacy uuid (non_empty sni) cfg.flow)
    ])
