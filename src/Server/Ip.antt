-- ===== src/Server/Ip.antt =====
-- Addresses of a node's subnet: control-server/src/lib/ip.ts. An address is the unsigned 32-bit
-- number of the code; `x << 8` keeps 32 bits, and a mask of `p` ones drops what is left of the
-- division by 2 ^ (32 - p). `Number` is read on texts of decimal digits, any other text counts as
-- not a number.
pub mod Print
pub mod Pool
use gluk_vpn.Common.{
  ℕ, zero, suc, Bool, true, false, not, ◌&&◌, ◌||◌, Option, none, some, List, [], ◌∷◌, ◌++◌, ◌+◌,
  ◌-◌, ◌*◌, ◌/◌, ◌%◌, ◌^◌, leb, ltb, ◌==◌, if◌then◌else◌, all, length, Text, split, is_empty_text,
}
use gluk_vpn.Extension.Pac.{trim}

abbrev pub is_digit : ℕ → Bool
is_digit c = leb 48 c && leb c 57

-- The number that a text of digits stands for, behind `n`.
abbrev pub read_digits : ℕ → Text → ℕ
read_digits n [] = n
read_digits n (c ∷ cs) = read_digits (n * 10 + (c - 48)) cs

-- `/^\d{1,3}$/`
abbrev is_octet_text : Text → Bool
is_octet_text t = all is_digit t && (leb 1 (length t) && leb (length t) 3)

unfoldable pub read_octet : Text → Option ℕ
read_octet t = if is_octet_text t && leb (read_digits 0 t) 255 then some (read_digits 0 t) else none

-- `(value << 8) | octet`
abbrev pub shift_in : ℕ → ℕ → ℕ
shift_in value octet = (value * 256) % 2 ^ 32 + octet

unfoldable pub read_parts : ℕ → List Text → Option ℕ
unfolding read_octet
read_parts value [] = some value
read_parts value (p ∷ ps) = elim (read_octet p) [
  | none ↦ none
  | some o ↦ read_parts (shift_in value o) ps
]

-- `ipToInt`; none is the exception.
unfoldable pub ip_to_int : Text → Option ℕ
unfolding read_parts
ip_to_int ip =
    let parts = split b'.' (trim ip) in if length parts == 4 then read_parts 0 parts else none

-- A number below 1000 in decimal.
unfoldable pub show_octet : ℕ → Text
show_octet n =
    if ltb n 10
    then (48 + n) ∷ []
    else if ltb n 100
    then (48 + n / 10) ∷ (48 + n % 10) ∷ []
    else (48 + n / 100) ∷ (48 + n / 10 % 10) ∷ (48 + n % 10) ∷ []

-- Two parts of a `join(".")`.
abbrev pub dotted : Text → Text → Text
dotted s t = s ++ b'.' ∷ t

-- `intToIp`
unfoldable pub int_to_ip : ℕ → Text
unfolding show_octet
int_to_ip value = dotted (show_octet (value / 2 ^ 24 % 256)) (
    dotted (show_octet (value / 2 ^ 16 % 256))
      (dotted (show_octet (value / 2 ^ 8 % 256)) (show_octet (value % 256))))

pub record Cidr : Type 0 where
  pub network : ℕ
  pub prefix : ℕ
  pub size : ℕ

abbrev read_number : Text → Option ℕ
read_number t = if all is_digit t && not (is_empty_text t) then some (read_digits 0 t) else none

abbrev cidr_of : Option ℕ → Option ℕ → Option Cidr
cidr_of (some prefix) (some ip) =
    if leb 16 prefix && leb prefix 30
    then some (record {
      network = ip / 2 ^ (32 - prefix) * 2 ^ (32 - prefix);
      prefix = prefix;
      size = 2 ^ (32 - prefix);
    })
    else none
cidr_of _ _ = none

-- The first two parts of the split; neither may be empty.
abbrev cidr_parts : List Text → Option Cidr
cidr_parts ((c ∷ cs) ∷ (d ∷ ds) ∷ rest) = cidr_of (read_number (d ∷ ds)) (ip_to_int (c ∷ cs))
cidr_parts _ = none

unfoldable pub parse_cidr : Text → Option Cidr
unfolding ip_to_int
parse_cidr cidr = cidr_parts (split b'/' (trim cidr))

-- `gatewayIp`, as a number.
unfoldable pub gateway_ip : Cidr → ℕ
gateway_ip c = c.network + 1

-- The addresses from `first` on, `n` of them.
unfoldable pub addresses_from : ℕ → ℕ → List ℕ
addresses_from first zero = []
addresses_from first (suc n) = first ∷ addresses_from (first + 1) n

-- `usableHostIps`
unfoldable pub usable_host_ips : Cidr → ℕ → List ℕ
unfolding addresses_from
usable_host_ips c reserved =
    addresses_from (c.network + (1 + reserved)) (c.size - 1 - (1 + reserved))

-- `isIpInCidr`, for an address that is a number.
unfoldable pub is_ip_in_cidr : ℕ → Cidr → Bool
is_ip_in_cidr ip c = ip / 2 ^ (32 - c.prefix) * 2 ^ (32 - c.prefix) == c.network
