-- ===== src/Server/Speed/Choice.antt =====
-- The speed that `speedGatewaySni` and `shapedGatewayPort` choose for a cap.
use gluk_vpn.Common.{
  ℕ, ◌&&◌, Option, none, some, List, [], ◌∷◌, ◌++◌, map, ◌≤◌, ◌<◌, ◌≡◌, inl, inr, refl, sym, ap,
  subst, ◌∙◌, arith, leb, ltb, All, All-append, All-imp, Bool-cases,
}
use mathlib.Core.List.{Memᴰ, append-nil, append_assoc}
use mathlib.Core.List.Memᴰ
use gluk_vpn.Server.Speed.{
  ShapedGatewayTier, faster, slower, faster_tier, slower_tier, or_else, pick_speed, pick_tier,
}

-- The fastest of the speeds within the cap, or the slowest where none is.
pub data IsChoice (cap : ℕ) (ts : List ℕ) : Option ℕ → Type 0 where
  no_tiers : ts ≡ [] → IsChoice cap ts none
  within_cap :
      (r : ℕ) → Memᴰ r ts → r ≤ cap → All (λ u. u ≤ cap → u ≤ r) ts → IsChoice cap ts (some r)
  slowest_one :
      (r : ℕ) → Memᴰ r ts → All (λ u. cap < u) ts → All (λ u. r ≤ u) ts → IsChoice cap ts (some r)

IsWithin : ℕ → List ℕ → Option ℕ → Type 0
IsWithin cap seen none = All (λ u. cap < u) seen
IsWithin cap seen (some w) = Memᴰ w seen × (w ≤ cap) × All (λ u. u ≤ cap → u ≤ w) seen

IsSlowest : List ℕ → Option ℕ → Type 0
IsSlowest seen none = seen ≡ []
IsSlowest seen (some s) = Memᴰ s seen × All (λ u. s ≤ u) seen

last_in : (seen : List ℕ) (t : ℕ) → Memᴰ t (seen ++ t ∷ [])
last_in seen t = Memᴰ.append_right seen (Memᴰ.head refl)

faster-IsWithin :
    (cap : ℕ) (seen : List ℕ) (w : Option ℕ) (t : ℕ)
    → IsWithin cap seen w
    → IsWithin cap (seen ++ t ∷ []) (faster cap w t)
unfolding IsWithin
faster-IsWithin cap seen none t h = elim (Bool-cases (leb t cap)) [
  | inl a ↦ rw a (
    last_in seen t,
    ground arith,
    All-append _ seen (t ∷ []) (All-imp _ (λ u. u ≤ cap → u ≤ t) seen (λ u over k. omega arith) h)
        ((λ k. omega arith), tt),
  )
  | inr a ↦ rw a (All-append (λ u. cap < u) seen (t ∷ []) h (ground arith, tt))
]
faster-IsWithin cap seen (some w) t (m, fits, best) = elim (Bool-cases (leb t cap && ltb w t)) [
  | inl a ↦
      let t_fits : t ≤ cap = ground arith in
      let above : w < t = ground arith in
      rw a (
        last_in seen t,
        t_fits,
        All-append _ seen (t ∷ [])
            (All-imp _ (λ u. u ≤ cap → u ≤ t) seen (λ u b k. omega (arith, b k)) best)
            ((λ k. omega arith), tt),
      )
  | inr a ↦
      rw a (
        Memᴰ.append_left (t ∷ []) m,
        fits,
        All-append _ seen (t ∷ []) best ((λ k. ground arith), tt),
      )
]

slower-IsSlowest :
    (seen : List ℕ) (s : Option ℕ) (t : ℕ)
    → IsSlowest seen s
    → IsSlowest (seen ++ t ∷ []) (slower s t)
unfolding IsSlowest
slower-IsSlowest seen none t h =
    (last_in seen t, subst (λ x. All (λ u. t ≤ u) (x ++ t ∷ [])) (sym h) (omega arith, tt))
slower-IsSlowest seen (some s) t (m, least) = elim (Bool-cases (ltb t s)) [
  | inl a ↦
      let below : t < s = ground arith in
      rw a (
        last_in seen t,
        All-append _ seen (t ∷ []) (All-imp _ (λ u. t ≤ u) seen (λ u b. omega arith) least)
            (omega arith, tt),
      )
  | inr a ↦ rw a (Memᴰ.append_left (t ∷ []) m, All-append _ seen (t ∷ []) least (ground arith, tt))
]

chosen :
    (cap : ℕ) (seen : List ℕ) (w s : Option ℕ)
    → IsWithin cap seen w
    → IsSlowest seen s
    → IsChoice cap seen (or_else w s)
unfolding IsWithin IsSlowest
chosen cap seen (some w) s (m, fits, best) h = within_cap w m fits best
chosen cap seen none none over h = no_tiers h
chosen cap seen none (some s) over (m, least) = slowest_one s m over least

pick_speed-from :
    (cap : ℕ) (seen ts : List ℕ) (w s : Option ℕ)
    → IsWithin cap seen w
    → IsSlowest seen s
    → IsChoice cap (seen ++ ts) (pick_speed cap w s ts)
unfolding pick_speed
pick_speed-from cap seen [] w s h k =
    subst (λ x. IsChoice cap x (or_else w s)) (sym (append-nil seen)) (chosen cap seen w s h k)
pick_speed-from cap seen (t ∷ ts) w s h k =
    subst (λ x. IsChoice cap x (pick_speed cap (faster cap w t) (slower s t) ts))
      (append_assoc seen (t ∷ []) ts)
      (pick_speed-from cap (seen ++ t ∷ []) ts (faster cap w t) (slower s t)
        (faster-IsWithin cap seen w t h) (slower-IsSlowest seen s t k))

-- Whatever the order of the tiers: the speed chosen is the fastest within the cap; where every tier
-- is above the cap it is the slowest; and there is none only where there are no tiers.
pub pick_speed-IsChoice : (cap : ℕ) (ts : List ℕ) → IsChoice cap ts (pick_speed cap none none ts)
unfolding IsWithin IsSlowest
pick_speed-IsChoice cap ts = pick_speed-from cap [] ts none none tt refl

abbrev pub speed_of : Option ShapedGatewayTier → Option ℕ
speed_of none = none
speed_of (some t) = some t.mbps

faster-agrees :
    (cap : ℕ) (w : Option ShapedGatewayTier) (t : ShapedGatewayTier)
    → speed_of (faster_tier cap w t) ≡ faster cap (speed_of w) t.mbps
faster-agrees cap none t = ground arith
faster-agrees cap (some w) t = ground arith

slower-agrees :
    (s : Option ShapedGatewayTier) (t : ShapedGatewayTier)
    → speed_of (slower_tier s t) ≡ slower (speed_of s) t.mbps
slower-agrees none t = refl
slower-agrees (some s) t = ground arith

or_else-agrees :
    (w s : Option ShapedGatewayTier) → speed_of (or_else w s) ≡ or_else (speed_of w) (speed_of s)
or_else-agrees none s = refl
or_else-agrees (some w) s = refl

pick-agrees :
    (cap : ℕ) (w s : Option ShapedGatewayTier) (ts : List ShapedGatewayTier)
    → speed_of (pick_tier cap w s ts)
      ≡ pick_speed cap (speed_of w) (speed_of s) (map (λ (t : ShapedGatewayTier). t.mbps) ts)
unfolding pick_speed pick_tier
pick-agrees cap w s [] = or_else-agrees w s
pick-agrees cap w s (t ∷ ts) =
    pick-agrees cap (faster_tier cap w t) (slower_tier s t) ts
    ∙ ap
        (λ a.
          pick_speed cap a (speed_of (slower_tier s t))
            (map (λ (u : ShapedGatewayTier). u.mbps) ts))
        (faster-agrees cap w t)
    ∙ ap
        (λ b.
          pick_speed cap (faster cap (speed_of w) t.mbps) b
            (map (λ (u : ShapedGatewayTier). u.mbps) ts))
        (slower-agrees s t)

-- The rule of the ports and the rule of the names choose the same speed.
pub pick_tier-pick_speed :
    (cap : ℕ) (ts : List ShapedGatewayTier)
    → speed_of (pick_tier cap none none ts)
      ≡ pick_speed cap none none (map (λ (t : ShapedGatewayTier). t.mbps) ts)
pick_tier-pick_speed cap ts = pick-agrees cap none none ts
