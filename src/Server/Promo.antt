-- ===== src/Server/Promo.antt =====
-- Promo codes: control-server/src/services/promo.ts. Amounts are minor units; a code that is not in
-- the table has no row here, and the rows of the plan codes are read as `promoPlanCodes` leaves them.
pub mod Discount
pub mod Redeemed
use Prim.Native.Nat.{min, max}
use gluk_vpn.Common.{
  ℕ, zero, suc, Bool, true, false, not, ◌&&◌, ◌||◌, Option, none, some, List, [], ◌∷◌, ◌++◌, map,
  ◌+◌, ◌-◌, ◌*◌, ◌/◌, leb, ltb, ◌==◌, if◌then◌else◌, any, count, Text, text_eq, to_lower,
  is_empty_text, length,
}
use gluk_vpn.Extension.Pac.{trim}

pub record PromoCode : Type 0 where
  pub id : ℕ
  pub code : Text
  pub percent_off : ℕ
  pub active : Bool
  pub starts_at : Option ℕ
  pub ends_at : Option ℕ
  pub max_redemptions : Option ℕ
  pub per_user_limit : ℕ
  pub plan_codes : List Text
  pub redeemed_count : ℕ

pub record Redemption : Type 0 where
  pub promo : ℕ
  pub user : ℕ
  pub order : ℕ
  pub discount : ℕ

pub record Promos : Type 0 where
  pub codes : List PromoCode
  pub redemptions : List Redemption

abbrev pub upper_code : ℕ → ℕ
upper_code c = if leb b'a' c && leb c b'z' then c - 32 else c

abbrev pub take_text : ℕ → Text → Text
take_text zero t = []
take_text (suc n) [] = []
take_text (suc n) (c ∷ cs) = c ∷ take_text n cs

-- `normalizePromoCode`
unfoldable pub normalize_promo_code : Text → Text
normalize_promo_code raw = take_text 32 (map upper_code (trim raw))

abbrev pub with_code : Text → List PromoCode → Option PromoCode
with_code c [] = none
with_code c (p ∷ ps) = let rest = with_code c ps in if text_eq p.code c then some p else rest

-- `findPromo`
unfoldable pub find_promo : Text → Promos → Option PromoCode
unfolding normalize_promo_code
find_promo code db =
    let c = normalize_promo_code code in if is_empty_text c then none else with_code c db.codes

pub data PromoRefusal : Type 0 where
  promo_not_found promo_inactive promo_not_started promo_expired promo_plan_not_eligible
        promo_limit_reached promo_already_used promo_amount_too_small :
      PromoRefusal

pub record PromoApplication : Type 0 where
  pub promo : PromoCode
  pub discount_minor : ℕ
  pub amount_minor : ℕ

pub data Applied : Type 0 where
  applied : PromoApplication → Applied
  refused : PromoRefusal → Applied

abbrev not_yet : Option ℕ → ℕ → Bool
not_yet none at = false
not_yet (some t) at = ltb at t

abbrev over : Option ℕ → ℕ → Bool
over none at = false
over (some t) at = leb t at

abbrev used_up : Option ℕ → ℕ → Bool
used_up none n = false
used_up (some limit) n = leb limit n

-- The limit of an account, for a payer who is known.
abbrev used_already : Promos → PromoCode → Option ℕ → Bool
used_already db p none = false
used_already db p (some user) =
    ltb 0 p.per_user_limit
    && leb p.per_user_limit
        (count (λ (r : Redemption). r.promo == p.id && r.user == user) db.redemptions)

-- `Math.round` of a hundredth.
abbrev pub percent_of : ℕ → ℕ → ℕ
percent_of percent amount = (amount * percent + 50) / 100

-- The refusals of `applyPromo` that look at the code and the payer.
unfoldable pub promo_refusal : Promos → PromoCode → Option ℕ → Text → ℕ → Option PromoRefusal
promo_refusal db p user plan at =
    if not p.active
    then some promo_inactive
    else if not_yet p.starts_at at
    then some promo_not_started
    else if over p.ends_at at
    then some promo_expired
    else if ltb 0 (length p.plan_codes)
        && not (any (λ c. text_eq c (to_lower (trim plan))) p.plan_codes)
    then some promo_plan_not_eligible
    else if used_up p.max_redemptions p.redeemed_count
    then some promo_limit_reached
    else if used_already db p user
    then some promo_already_used
    else none

-- The amounts.
unfoldable pub discount : PromoCode → ℕ → ℕ → Applied
discount p amount minimum =
    let off = min (percent_of p.percent_off amount) (amount - max 1 minimum) in
    if leb off 0
    then refused promo_amount_too_small
    else applied (record { promo = p; discount_minor = off; amount_minor = amount - off })

-- `applyPromo`
unfoldable pub apply_promo : Promos → Text → Option ℕ → Text → ℕ → ℕ → ℕ → Applied
unfolding find_promo promo_refusal discount
apply_promo db code user plan amount minimum at = elim (find_promo code db) [
  | none ↦ refused promo_not_found
  | some p ↦ elim (promo_refusal db p user plan at) [
    | some r ↦ refused r
    | none ↦ discount p amount minimum
  ]
]

abbrev pub counted_up : ℕ → PromoCode → PromoCode
counted_up id p = if p.id == id then record p { redeemed_count = p.redeemed_count + 1 } else p

-- `redeemPromo`
unfoldable pub redeem_promo : Text → ℕ → ℕ → ℕ → Promos → Promos × Bool
unfolding find_promo
redeem_promo code user order discount_minor db = elim (find_promo code db) [
  | none ↦ (db, false)
  | some p ↦ if any (λ (r : Redemption). r.order == order) db.redemptions then (db, false) else (
    record db {
      codes = map (counted_up p.id) db.codes;
      redemptions =
          record { promo = p.id; user = user; order = order; discount = discount_minor }
          ∷ db.redemptions;
    },
    true,
  )
]
