-- ===== src/Server/Orders/Charged.antt =====
-- The amount and the currency of an order: `resolvePlanPrice` of
-- control-server/src/services/pricing.ts and `createOrder` of control-server/src/services/billing.ts.

use gluk_vpn.Common.{ℕ, true, false, none, some, List, ◌+◌, ◌≡◌, ◌⊎◌, Text, text_eq, is_empty_text}
use mathlib.Core.List.{Memᴰ}
use gluk_vpn.Extension.Pac.{trim}
use gluk_vpn.Server.Promo.{Promos, PromoApplication}
use gluk_vpn.Server.Promo.Discount.{IsGranted, IsTyped}
use gluk_vpn.Server.Orders.{Plan}
use gluk_vpn.Server.Orders.Events.{upper}
use gluk_vpn.Server.Orders.Pricing.{Provider, settlement_currency, minimum_charge_minor, Charge}

-- A price of the plan with its currency: nothing for a plan that costs nothing, the plan's own, or one
-- that it lists for that currency.
pub IsListed : Plan → ℕ → Text → Type 0
IsListed plan minor currency =
    ((minor ≡ 0) × (plan.price_minor ≡ 0))
    ⊎ (((minor ≡ plan.price_minor) × (currency ≡ plan.currency))
        ⊎ ((c : Text) × Memᴰ (c, minor) plan.prices × (upper c ≡ currency)))

-- A charge, the price that it was made from, and who it is for.
pub record IsCharge (gateway : Provider) (promos : Promos) (plan : Plan) (user : ℕ) (code : Text)
    (now : ℕ) (c : Charge) : Type 0 where
  pub price : ℕ
  pub listed : IsListed plan price c.currency
  pub sum : c.amount_minor + c.discount_minor ≡ price
  -- Where no code is typed the price is charged; where one is, what it grants to that user.
  pub granted :
      ((is_empty_text (trim code) ≡ true) × (c.promo_code ≡ none) × (c.discount_minor ≡ 0))
      ⊎ ((a : PromoApplication) × (is_empty_text (trim code) ≡ false)
          × IsTyped promos code plan.code a.promo
          × IsGranted promos (some user) price (minimum_charge_minor gateway) now a
          × (c.promo_code ≡ some a.promo.code)
          × (c.amount_minor ≡ a.amount_minor)
          × (c.discount_minor ≡ a.discount_minor))
  pub settles :
      (s : Text) → settlement_currency gateway ≡ some s → text_eq (upper c.currency) s ≡ true
