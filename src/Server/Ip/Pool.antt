-- ===== src/Server/Ip/Pool.antt =====
-- The pool of client addresses of a subnet.
use gluk_vpn.Common.{
  ℕ, zero, suc, true, Option, none, some, List, [], ◌∷◌, ◌+◌, ◌-◌, ◌*◌, ◌/◌, ◌^◌, ◌<◌, ◌≤◌, ◌≡◌,
  ◌≢◌, refl, ◌∙◌, ap, subst, arith, leb, All, All-imp, length, Text, split, Bool-cases, inl, inr,
}
use native.Mathlib.Nat.{mul-add-div_right, div-eq_of_lt}
use gluk_vpn.Extension.Pac.{trim}
use gluk_vpn.Server.Ip.{
  Cidr, parse_cidr, cidr_of, cidr_parts, read_number, ip_to_int, gateway_ip, addresses_from,
  usable_host_ips, is_ip_in_cidr,
}

-- A subnet as `parseCidr` gives it.
pub record IsCidr (c : Cidr) : Type 0 where
  pub narrow : 16 ≤ c.prefix
  pub wide : c.prefix ≤ 30
  pub sized : c.size ≡ 2 ^ (32 - c.prefix)
  pub block : ℕ
  pub aligned : c.network ≡ block * 2 ^ (32 - c.prefix)

cidr_of-IsCidr : (p ip : Option ℕ) (c : Cidr) → cidr_of p ip ≡ some c → IsCidr c
cidr_of-IsCidr none ip c e = cc
cidr_of-IsCidr (some p) none c e = cc
cidr_of-IsCidr (some p) (some ip) c e = elim (Bool-cases (leb 16 p)) [
  | inl a ↦ elim (Bool-cases (leb p 30)) [
    | inl b ↦
        let given : some made ≡ some c = rw (a, b) at e in
        let same : made ≡ c = cc in
        subst IsCidr same (record {
          narrow = ground arith;
          wide = ground arith;
          sized = refl;
          block = ip / 2 ^ (32 - p);
          aligned = refl;
        })
    | inr b ↦ ground arith
  ]
  | inr a ↦ ground arith
]
  where
    made : Cidr
    made = record { network = ip / 2 ^ (32 - p) * 2 ^ (32 - p); prefix = p; size = 2 ^ (32 - p) }

cidr_parts-IsCidr : (ts : List Text) (c : Cidr) → cidr_parts ts ≡ some c → IsCidr c
cidr_parts-IsCidr [] c e = cc
cidr_parts-IsCidr ([] ∷ ts) c e = cc
cidr_parts-IsCidr ((x ∷ xs) ∷ []) c e = cc
cidr_parts-IsCidr ((x ∷ xs) ∷ [] ∷ ts) c e = cc
cidr_parts-IsCidr ((x ∷ xs) ∷ (d ∷ ds) ∷ ts) c e =
    cidr_of-IsCidr (read_number (d ∷ ds)) (ip_to_int (x ∷ xs)) c e

pub parse_cidr-IsCidr : (t : Text) (c : Cidr) → parse_cidr t ≡ some c → IsCidr c
unfolding parse_cidr
parse_cidr-IsCidr t c e = cidr_parts-IsCidr (split b'/' (trim t)) c e

-- The list runs upwards from `first`.
addresses_between :
    (first n : ℕ) → All (λ ip. (first ≤ ip) × (ip < first + n)) (addresses_from first n)
unfolding addresses_from
addresses_between first zero = tt
addresses_between first (suc n) = (
  (omega arith, omega arith),
  All-imp (λ ip. (first + 1 ≤ ip) × (ip < first + 1 + n))
      (λ ip. (first ≤ ip) × (ip < first + suc n)) (addresses_from (first + 1) n)
      (λ ip h. (omega arith, omega arith)) (addresses_between (first + 1) n),
)

pub length-addresses_from : (first n : ℕ) → length (addresses_from first n) ≡ n
unfolding addresses_from
length-addresses_from first zero = refl
length-addresses_from first (suc n) = ground (arith, length-addresses_from (first + 1) n)

-- Numbers that differ from each other.
abbrev pub IsRising : List ℕ → Type 0
IsRising [] = Unit
IsRising (x ∷ xs) = All (λ y. x < y) xs × IsRising xs

pub addresses_from-IsRising : (first n : ℕ) → IsRising (addresses_from first n)
unfolding addresses_from
addresses_from-IsRising first zero = tt
addresses_from-IsRising first (suc n) = (
  All-imp (λ ip. (first + 1 ≤ ip) × (ip < first + 1 + n)) (λ ip. first < ip)
      (addresses_from (first + 1) n) (λ ip h. omega arith) (addresses_between (first + 1) n),
  addresses_from-IsRising (first + 1) n,
)

in_block : (k m r : ℕ) → r < m → (k * m + r) / m * m ≡ k * m
in_block k m r h =
    ap (λ q. q * m)
      (mul-add-div_right {m = m} (omega arith) k r ∙ ap (λ q. k + q) (div-eq_of_lt h) ∙ omega arith)

inside :
    (c : Cidr) (ip : ℕ)
    → IsCidr c
    → c.network ≤ ip
    → ip < c.network + c.size
    → is_ip_in_cidr ip c ≡ true
unfolding is_ip_in_cidr
inside c ip h low high =
    let m = 2 ^ (32 - c.prefix) in
    let r = ip - c.network in
    let at : ip ≡ h.block * m + r = omega (arith, h.aligned) in
    let e : ip / m * m ≡ h.block * m =
      ap (λ x. x / m * m) at ∙ in_block h.block m r (omega (arith, h.sized)) in
    ground (arith, e, h.aligned)

-- What a client may be given of a subnet.
pub record IsClientAddress (c : Cidr) (ip : ℕ) : Type 0 where
  pub within : is_ip_in_cidr ip c ≡ true
  pub not_network : ip ≢ c.network
  pub not_gateway : ip ≢ gateway_ip c
  pub not_broadcast : ip ≢ c.network + c.size - 1

-- The pool of a subnet that parses: every address of it lies in the subnet and is neither the
-- network, the node nor the broadcast address, none is there twice, and there are three fewer than
-- the subnet has.
pub usable_host_ips_lem :
    (t : Text) (c : Cidr)
    → parse_cidr t ≡ some c
    → All (IsClientAddress c) (usable_host_ips c 1)
      × IsRising (usable_host_ips c 1)
      × (length (usable_host_ips c 1) ≡ c.size - 3)
unfolding usable_host_ips gateway_ip
usable_host_ips_lem t c e =
    let h = parse_cidr-IsCidr t c e in
    (
      All-imp
          (λ ip. (c.network + (1 + 1) ≤ ip) × (ip < c.network + (1 + 1) + (c.size - 1 - (1 + 1))))
          (IsClientAddress c) (addresses_from (c.network + (1 + 1)) (c.size - 1 - (1 + 1)))
          (λ ip b. record {
            within = inside c ip h (omega arith) (omega arith);
            not_network = λ x. omega arith;
            not_gateway = λ x. omega arith;
            not_broadcast = λ x. omega arith;
          })
          (addresses_between (c.network + (1 + 1)) (c.size - 1 - (1 + 1))),
      addresses_from-IsRising (c.network + (1 + 1)) (c.size - 1 - (1 + 1)),
      length-addresses_from (c.network + (1 + 1)) (c.size - 1 - (1 + 1)) ∙ omega arith,
    )
