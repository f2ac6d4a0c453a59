-- ===== src/Server/Orders/Sent.antt =====
-- What a visitor is sent to pay: `createOrder` of control-server/src/services/billing.ts.
use gluk_vpn.Common.{
  ℕ, Bool, Option, none, some, List, ◌≡◌, inl, inr, refl, subst, ap, ◌∙◌, ◌==◌, get_elem?, Text,
  Bool-cases, Option-cases,
}
use gluk_vpn.Server.Orders.{Plan, Order, Billing}
use gluk_vpn.Server.Orders.Pricing.{
  Charge, ChargeAnswer, charged, not_charged, charge_of, OrderRefusal,
}
use gluk_vpn.Server.Orders.Create.{
  Gateway, CreateAnswer, not_created, find_plan, is_offered, place_order, create_order,
}
use gluk_vpn.Server.Orders.Placed.{IsFor, sent_to, place_order-Fits}

-- What the visitor is sent to pay, and what it was made from.
pub record IsSent (g : Gateway) (plans : List Plan) (user : ℕ) (plan_code currency code : Text)
    (hidden : Bool) (now : ℕ) (b after : Billing) (id : ℕ) : Type 0 where
  pub plan : Plan
  pub charge : Charge
  pub offered : find_plan (is_offered plan_code hidden) plans ≡ some plan
  pub priced : charge_of g.provider b.promos plan user currency code now ≡ charged charge
  pub order : Order
  pub stored : get_elem? after.orders id ≡ some order
  pub fits : IsFor user plan charge order

-- Whether an order is new or one that was open before, the one that a visitor is sent to pay is the
-- visitor's own, waits to be paid, and is for the plan that was asked for, with the amount and the
-- currency that are charged for it at that moment.
pub create_order-IsSent :
    (g : Gateway) (plans : List Plan) (user : ℕ) (plan_code currency code : Text) (hidden : Bool)
    (now : ℕ) (b after : Billing) (answer : CreateAnswer) (id : ℕ)
    → create_order g plans user plan_code currency code hidden now b ≡ (after, answer)
    → sent_to answer ≡ some id
    → IsSent g plans user plan_code currency code hidden now b after id
unfolding create_order
create_order-IsSent g plans user plan_code currency code hidden now b after answer id e sent =
    elim (Bool-cases g.enabled) [
      | inr off ↦ absurd (nobody (rw (create_order, off) at e))
      | inl on ↦ elim (Option-cases (find_plan (is_offered plan_code hidden) plans)) [
        | inl missing ↦ absurd (nobody (rw (create_order, on, missing) at e))
        | inr (plan, offered) ↦ elim (Bool-cases (plan.price_minor == 0)) [
          | inl free ↦ absurd (nobody (rw (create_order, on, offered, free) at e))
          | inr sold ↦
              priced plan offered (charge_of g.provider b.promos plan user currency code now) refl
                (rw (create_order, on, offered, sold) at e)
        ]
      ]
    ]
  where
    nobody :
        {r : OrderRefusal} → ◌≡◌ {A = Billing × CreateAnswer} (b, not_created r) (after, answer) → ⊥
    nobody h =
        let x : ◌≡◌ {A = Option ℕ} none (some id) =
          ap (λ (y : Billing × CreateAnswer). sent_to y.1) h ∙ sent in
        cc

    priced :
        (plan : Plan)
        → find_plan (is_offered plan_code hidden) plans ≡ some plan
        → (r : ChargeAnswer) → charge_of g.provider b.promos plan user currency code now ≡ r
        → elim r [
          | not_charged x ↦ (b, not_created x)
          | charged c ↦ place_order g user plan c now b
        ]
          ≡ (after, answer)
        → IsSent g plans user plan_code currency code hidden now b after id
    priced plan offered (not_charged x) f h = absurd (nobody h)
    priced plan offered (charged c) f h =
        let (o, stored, ok) =
          place_order-Fits user plan c g now b id
            (ap (λ (y : Billing × CreateAnswer). sent_to y.1) h ∙ sent) in
        record {
          plan = plan;
          charge = c;
          offered = offered;
          priced = f;
          order = o;
          stored =
              subst (λ (x : Billing). get_elem? x.orders id ≡ some o)
                (ap (λ (y : Billing × CreateAnswer). y.0) h) stored;
          fits = ok;
        }
