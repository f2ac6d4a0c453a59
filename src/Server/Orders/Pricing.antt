-- ===== src/Server/Orders/Pricing.antt =====
-- What an order charges: `resolvePlanPrice` of control-server/src/services/pricing.ts and the first half
-- of `createOrder` of control-server/src/services/billing.ts.
use gluk_vpn.Common.{
  ℕ, not, Option, none, some, List, [], ◌∷◌, ◌==◌, if◌then◌else◌, any, Text, text_eq, codes,
  is_empty_text,
}
use gluk_vpn.Extension.Pac.{trim}
use gluk_vpn.Server.Promo.{Promos, PromoRefusal, PromoApplication, applied, refused, apply_promo}
use gluk_vpn.Server.Orders.{Plan}
use gluk_vpn.Server.Orders.Events.{upper}

pub record Price : Type 0 where
  pub price_minor : ℕ
  pub currency : Text

-- `normalizeCurrency`; a currency that is not given is the empty text.
unfoldable pub normalize_currency : Text → Option Text
normalize_currency raw =
    let u = upper (trim raw) in
    if any (text_eq u) (codes "KZT" ∷ codes "RUB" ∷ codes "USD" ∷ []) then some u else none

abbrev pub price_in : Text → List (Text × ℕ) → Option ℕ
price_in wanted [] = none
price_in wanted (p ∷ ps) =
    let rest = price_in wanted ps in if text_eq (upper p.0) wanted then some p.1 else rest

abbrev pub own_price : Plan → Price
own_price plan = record { price_minor = plan.price_minor; currency = plan.currency }

-- `resolvePlanPrice`
unfoldable pub resolve_plan_price : Plan → Text → Price
unfolding normalize_currency
resolve_plan_price plan currency =
    if plan.price_minor == 0
    then record {
      price_minor = 0;
      currency = if is_empty_text currency then plan.currency else currency;
    }
    else elim (normalize_currency currency) [
      | none ↦ own_price plan
      | some wanted ↦
          if text_eq wanted (upper plan.currency)
          then own_price plan
          else elim (price_in wanted plan.prices) [
            | none ↦ own_price plan
            | some minor ↦ record { price_minor = minor; currency = wanted }
          ]
    ]

pub data Provider : Type 0 where
  manual stripe tabpay : Provider

abbrev pub name_of : Provider → Text
name_of manual = codes "manual"
name_of stripe = codes "stripe"
name_of tabpay = codes "tabpay"

-- `settlementCurrency`
abbrev pub settlement_currency : Provider → Option Text
settlement_currency tabpay = some (codes "RUB")
settlement_currency _ = none

-- `minimumChargeMinor`
abbrev pub minimum_charge_minor : Provider → ℕ
minimum_charge_minor tabpay = 100
minimum_charge_minor _ = 1

pub data OrderRefusal : Type 0 where
  billing_is_off plan_not_found plan_is_free not_priced checkout_failed lookup_failed : OrderRefusal
  promo_refused : PromoRefusal → OrderRefusal

-- What an order will charge.
pub record Charge : Type 0 where
  pub amount_minor : ℕ
  pub currency : Text
  pub promo_code : Option Text
  pub discount_minor : ℕ

pub data ChargeAnswer : Type 0 where
  charged : Charge → ChargeAnswer
  not_charged : OrderRefusal → ChargeAnswer

abbrev pub full_charge : Price → Charge
full_charge p = record {
  amount_minor = p.price_minor;
  currency = p.currency;
  promo_code = none;
  discount_minor = 0;
}

abbrev pub reduced : Price → PromoApplication → Charge
reduced p a = record {
  amount_minor = a.amount_minor;
  currency = p.currency;
  promo_code = some a.promo.code;
  discount_minor = a.discount_minor;
}

-- The code that the visitor typed, on the price.
unfoldable pub apply_code : Provider → Promos → Plan → ℕ → Text → ℕ → Price → ChargeAnswer
unfolding apply_promo
apply_code gateway promos plan user code now p =
    if is_empty_text (trim code)
    then charged (full_charge p)
    else elim (apply_promo promos code (some user) plan.code p.price_minor
        (minimum_charge_minor gateway) now) [
          | refused r ↦ not_charged (promo_refused r)
          | applied a ↦ charged (reduced p a)
        ]

-- The currency of a gateway that settles in one wins over the one that was quoted.
unfoldable pub charge_of : Provider → Promos → Plan → ℕ → Text → Text → ℕ → ChargeAnswer
unfolding resolve_plan_price apply_code
charge_of gateway promos plan user currency code now = elim (settlement_currency gateway) [
  | none ↦ apply_code gateway promos plan user code now (resolve_plan_price plan currency)
  | some settle ↦
      if not (text_eq (upper (resolve_plan_price plan settle).currency) settle)
      then not_charged not_priced
      else apply_code gateway promos plan user code now (resolve_plan_price plan settle)
]
