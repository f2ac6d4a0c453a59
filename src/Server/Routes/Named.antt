-- ===== src/Server/Routes/Named.antt =====
-- The exclusions of `splitTunnelRoutes` (control-server/src/services/tunnelRoutes.ts) as blocks of
-- addresses.
use mathlib.Core.List.{Memᴰ}
use mathlib.Core.List.Memᴰ
use native.Mathlib.Nat.{pow-le-pow_right}
use gluk_vpn.Common.{
  ℕ, Bool, true, false, ◌&&◌, ◌||◌, some, List, [], ◌∷◌, ◌⊎◌, inl, inr, map, ◌+◌, ◌-◌, ◌*◌, ◌/◌,
  ◌^◌, ◌≤◌, ◌<◌, ◌≡◌, refl, ap, subst, ◌∙◌, arith, leb, any, All, length, Text, Bool-cases,
}
use gluk_vpn.Server.Routes.{
  last_ipv4, max_routes, Range, push_range, is_whole, ranges_of, split_tunnel_routes,
}
use gluk_vpn.Server.Routes.Blocks.{covers, power-positive}
use gluk_vpn.Server.Routes.Holes.{in_range}
use gluk_vpn.Server.Routes.Read.{Exclusion, exclusion_text, parse_range-exclusion_text}
use gluk_vpn.Server.Routes.Excluded.{around, routes_of_ranges}

-- An address that an exclusion keeps out of the tunnel: one of its block, unless that is every address.
pub record Names (e : Exclusion) (x : ℕ) : Type 0 where
  pub partial : 1 ≤ e.bits
  pub from : e.address / 2 ^ (32 - e.bits) * 2 ^ (32 - e.bits) ≤ x
  pub below : x < e.address / 2 ^ (32 - e.bits) * 2 ^ (32 - e.bits) + 2 ^ (32 - e.bits)

-- An IPv4 address and a prefix.
abbrev pub IsIpv4 : Exclusion → Type 0
IsIpv4 e = (e.address < 2 ^ 32) × (e.bits ≤ 32)

block_of : Exclusion → Range
block_of e = record {
  start = e.address / 2 ^ (32 - e.bits) * 2 ^ (32 - e.bits);
  end = e.address / 2 ^ (32 - e.bits) * 2 ^ (32 - e.bits) + 2 ^ (32 - e.bits) - 1;
}

ranges_of-cons :
    (e : Exclusion) (ts : List Text)
    → IsIpv4 e
    → ranges_of (exclusion_text e ∷ ts) ≡ push_range (some (block_of e)) (ranges_of ts)
unfolding ranges_of block_of
ranges_of-cons e ts h = rw (parse_range-exclusion_text e h.0 h.1) refl

power_half : (b : ℕ) → 1 ≤ b → 2 * 2 ^ (32 - b) ≤ 2 ^ 32
power_half b h =
    let small : 2 ^ (32 - b) ≤ 2 ^ 31 =
      pow-le-pow_right {n = 2} (omega arith) {j = 31} (omega arith) in
    omega (arith, small)

partial_range : (e : Exclusion) → 1 ≤ e.bits → is_whole (block_of e) ≡ false
unfolding block_of
partial_range e h = ground (arith, power_half e.bits h, power-positive (32 - e.bits))

whole_range : (e : Exclusion) → IsIpv4 e → e.bits ≡ 0 → is_whole (block_of e) ≡ true
unfolding block_of
whole_range e h z = rw z (ground (arith, h.0))

in_range-Names :
    (e : Exclusion) (x : ℕ)
    → 1 ≤ e.bits
    → (in_range x (block_of e) ≡ true → Names e x) × (Names e x → in_range x (block_of e) ≡ true)
unfolding block_of
in_range-Names e x h =
    let some_one = power-positive (32 - e.bits) in
    (
      (λ k. record { partial = h; from = ground (arith, k); below = ground (arith, k, some_one) }),
      (λ n. ground (arith, n.from, n.below)),
    )

-- What one exclusion adds.
any-cons :
    (e : Exclusion) (ts : List Text) (x : ℕ)
    → IsIpv4 e
    → any (in_range x) (ranges_of (exclusion_text e ∷ ts))
      ≡ (leb 1 e.bits && in_range x (block_of e) || any (in_range x) (ranges_of ts))
any-cons e ts x h =
    ap (any (in_range x)) (ranges_of-cons e ts h) ∙ elim (Bool-cases (leb 1 e.bits)) [
      | inl some_bits ↦ rw (partial_range e (ground arith), some_bits) refl
      | inr no_bits ↦ rw (whole_range e h (ground arith), no_bits) refl
    ]

none_named :
    (es : List Exclusion) (x : ℕ)
    → All IsIpv4 es
    → ((e : Exclusion) → Memᴰ e es → ¬ Names e x)
    → any (in_range x) (ranges_of (map exclusion_text es)) ≡ false
unfolding ranges_of
none_named [] x h off = refl
none_named (e ∷ es) x h off =
    any-cons e (map exclusion_text es) x h.0
    ∙ both (leb 1 e.bits) (in_range x (block_of e))
        (any (in_range x) (ranges_of (map exclusion_text es)))
        (λ bits inside.
          off e (Memᴰ.head refl) ((in_range-Names e x (ground (arith, bits))).0 inside))
        (none_named es x h.1 (λ f m. off f (Memᴰ.tail m)))
  where
    both : (a b c : Bool) → (a ≡ true → b ≡ true → ⊥) → c ≡ false → (a && b || c) ≡ false
    both true true c k l = absurd (k refl refl)
    both true false c k l = l
    both false b c k l = l

one_named :
    (es : List Exclusion) (x : ℕ) (e : Exclusion)
    → All IsIpv4 es
    → Memᴰ e es
    → Names e x
    → any (in_range x) (ranges_of (map exclusion_text es)) ≡ true
one_named [] x e h m n = absurd (Memᴰ.not-nil m)
one_named (f ∷ es) x e h m n =
    any-cons f (map exclusion_text es) x h.0
    ∙ found (Memᴰ.cases_cons m) (λ later. one_named es x e h.1 later n)
  where
    either : (a b c : Bool) → a ≡ true → b ≡ true → (a && b || c) ≡ true
    either a b c k l = ground (arith, k, l)

    found :
        (e ≡ f) ⊎ Memᴰ e es
        → (Memᴰ e es → any (in_range x) (ranges_of (map exclusion_text es)) ≡ true)
        → (leb 1 f.bits && in_range x (block_of f)
            || any (in_range x) (ranges_of (map exclusion_text es)))
          ≡ true
    found (inl same) rest =
        let g : Names f x = subst (λ y. Names y x) same n in
        either (leb 1 f.bits) (in_range x (block_of f)) _ (ground (arith, g.partial))
          ((in_range-Names f x g.partial).1 g)
    found (inr later) rest = ground (arith, rest later)

-- For exclusions that are given as addresses with a prefix: every address that is in the block of none
-- of them goes through the tunnel; and where the routes around them are at least one and not too
-- many, an address in the block of one does not. An exclusion of every address, with the prefix 0,
-- counts for nothing.
pub split_tunnel_routes_lem :
    (es : List Exclusion) (x : ℕ)
    → All IsIpv4 es
    → x ≤ last_ipv4
    → (((e : Exclusion) → Memᴰ e es → ¬ Names e x)
        → covers (split_tunnel_routes (map exclusion_text es)) x ≡ true)
      × (1 ≤ length (around (ranges_of (map exclusion_text es)))
          → length (around (ranges_of (map exclusion_text es))) ≤ max_routes
          → (e : Exclusion) → Memᴰ e es
          → Names e x
          → covers (split_tunnel_routes (map exclusion_text es)) x ≡ false)
split_tunnel_routes_lem es x h top =
    let (open_one, shut) = routes_of_ranges (map exclusion_text es) x top in
    (
      (λ off. open_one (none_named es x h off)),
      (λ low high e m n. shut low high (one_named es x e h m n)),
    )
