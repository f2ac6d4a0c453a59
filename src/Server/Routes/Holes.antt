-- ===== src/Server/Routes/Holes.antt =====
-- The routes around the excluded addresses: `splitTunnelRoutes`.

use gluk_vpn.Common.{
  ℕ, suc, Bool, true, not, ◌&&◌, ◌||◌, List, [], ◌∷◌, ◌++◌, ◌+◌, ◌-◌, ◌≤◌, ◌≡◌, refl, ◌∙◌, arith,
  leb, ltb, any, Bool-cases, inl, inr,
}
use gluk_vpn.Server.Routes.{last_ipv4, Range, Block, blocks_between, routes_from}
use gluk_vpn.Server.Routes.Blocks.{covers, range_covers}

abbrev pub in_range : ℕ → Range → Bool
in_range x r = leb r.start x && leb x r.end

abbrev pub IsRange : Range → Type 0
IsRange r = r.start ≤ r.end

any-append : (x : ℕ) (bs cs : List Block) → covers (bs ++ cs) x ≡ (covers bs x || covers cs x)
any-append x [] cs = refl
any-append x (b ∷ bs) cs = ground (arith, any-append x bs cs)

-- Holes from `cursor` on, in order, with room between them.
unfoldable pub Spaced : ℕ → List Range → Type 0
Spaced cursor [] = Unit
Spaced cursor (h ∷ hs) = (cursor ≤ h.start) × (h.start ≤ h.end) × Spaced (h.end + 1) hs

later :
    (x cursor : ℕ) (hs : List Range) → Spaced cursor hs → any (in_range x) hs ≡ true → cursor ≤ x
unfolding Spaced
later x cursor [] s e = cc
later x cursor (h ∷ hs) (low, valid, s) e = elim (Bool-cases (in_range x h)) [
  | inl here ↦ ground arith
  | inr off ↦ let rest = later x (h.end + 1) hs s (ground arith) in omega arith
]

between_covers :
    (cursor end x : ℕ) → covers (blocks_between cursor end) x ≡ (leb cursor x && leb x end)
between_covers cursor end x = range_covers (suc end - cursor) cursor end x (omega arith)

pub routes_cover :
    (cursor : ℕ) (hs : List Range) (x : ℕ)
    → x ≤ last_ipv4
    → Spaced cursor hs
    → covers (routes_from cursor hs) x ≡ (leb cursor x && not (any (in_range x) hs))
unfolding routes_from Spaced
routes_cover cursor [] x top s = elim (Bool-cases (leb cursor last_ipv4)) [
  | inl e ↦ rw (routes_from, e) (between_covers cursor last_ipv4 x ∙ ground arith)
  | inr e ↦ rw (routes_from, e) (ground arith)
]
routes_cover cursor (h ∷ hs) x top (low, valid, s) =
    let rest = routes_cover (h.end + 1) hs x top s in
    let after = later x (h.end + 1) hs s in
    elim (Bool-cases (ltb cursor h.start)) [
      | inl e ↦
          let piece = between_covers cursor (h.start - 1) x in
          rw (routes_from, e)
            (any-append x (blocks_between cursor (h.start - 1)) (routes_from (h.end + 1) hs)
              ∙ ground (arith, piece, rest, after))
      | inr e ↦ rw (routes_from, e) (rest ∙ ground (arith, after))
    ]
