-- ===== src/Server/Orders/Placed.antt =====
-- The orders that `createOrder` opens or uses again: `createOrder` and `openOrderVerdict` of control-server/src/services/billing.ts.
use gluk_vpn.Common.{
  ℕ, suc, Bool, true, Option, none, some, List, [], ◌∷◌, ◌++◌, ◌≡◌, inl, inr, refl, sym, subst, ap,
  ◌∙◌, arith, length, get_elem?, get_elem?-append_self, text_eq_lem, Bool-cases, Option-cases,
}
use gluk_vpn.Server.Orders.{Plan, Order, pending, Billing}
use gluk_vpn.Server.Orders.Events.{OpenOrderVerdict, reuse, already_paid, dead, open_order_verdict}
use gluk_vpn.Server.Orders.Pricing.{Charge, checkout_failed, lookup_failed, name_of}
use gluk_vpn.Server.Orders.Verdicts.{open_order_verdict-reuse}
use gluk_vpn.Server.Orders.Create.{
  Gateway, CreateAnswer, opened, reused, settled_now, not_created, is_open_order, index_where,
  is_reusable, new_order, open_order, use_open_order, place_order,
}

-- An order that waits to be paid, of that user, plan and charge.
pub record IsFor (user : ℕ) (plan : Plan) (c : Charge) (o : Order) : Type 0 where
  pub owner : o.user ≡ user
  pub waiting : o.status ≡ pending
  pub plan_code : o.plan.code ≡ plan.code
  pub amount : o.amount_minor ≡ c.amount_minor
  pub currency : o.currency ≡ c.currency

-- The order that a visitor is sent to pay.
abbrev pub sent_to : CreateAnswer → Option ℕ
sent_to (opened id) = some id
sent_to (reused id) = some id
sent_to (settled_now id) = none
sent_to (not_created r) = none

module _ (user : ℕ) (plan : Plan) (c : Charge) where
  abbrev pub Fits : Billing × CreateAnswer → Type 0
  Fits out =
      (id : ℕ)
      → sent_to out.1 ≡ some id
      → (o : Order) × (get_elem? out.0.orders id ≡ some o) × IsFor user plan c o

  nowhere-Fits : (b : Billing) (r : CreateAnswer) → sent_to r ≡ none → Fits (b, r)
  nowhere-Fits b r h id e = absurd (differ (sym h ∙ e))
    where
      differ : ◌≡◌ {A = Option ℕ} none (some id) → ⊥
      differ x = cc

  at-Fits :
      (b : Billing) (r : CreateAnswer) (i : ℕ) (o : Order)
      → sent_to r ≡ some i
      → get_elem? b.orders i ≡ some o
      → IsFor user plan c o
      → Fits (b, r)
  at-Fits b r i o h stored ok id e =
      let same : i ≡ id = ap (λ (x : Option ℕ). elim x [ none ↦ i | some y ↦ y ]) (sym h ∙ e) in
      (o, subst (λ j. get_elem? b.orders j ≡ some o) same stored, ok)

  open_order-Fits : (g : Gateway) (now : ℕ) (b : Billing) → Fits (open_order g user plan c now b)
  unfolding open_order
  open_order-Fits g now b =
      elim (Option-cases (g.create_checkout (new_order g.provider user plan c now))) [
        | inl refused ↦
            let e : (open_order g user plan c now b).1 ≡ not_created checkout_failed =
              rw (open_order, refused) in
            nowhere-Fits (open_order g user plan c now b).0 (open_order g user plan c now b).1
              (ap sent_to e)
        | inr (k, answered) ↦
            let o : Order = record (new_order g.provider user plan c now) {
              payment_url = k.payment_url;
              provider_ref = k.provider_ref;
            } in
            let e : open_order g user plan c now b
                ≡ (record b { orders = b.orders ++ o ∷ [] }, opened (length b.orders)) =
              rw (open_order, answered) in
            subst Fits (sym e) (
              at-Fits (record b { orders = b.orders ++ o ∷ [] }) (opened (length b.orders))
                (length b.orders) o refl (get_elem?-append_self b.orders [] o)
                (record {
                  owner = refl;
                  waiting = refl;
                  plan_code = refl;
                  amount = refl;
                  currency = refl;
                }))
      ]

  found_open : (now : ℕ) (o : Order) → is_open_order user plan c now o ≡ true → IsFor user plan c o
  found_open now o h = record {
    owner = ground (arith, h);
    waiting = ground (arith, h);
    plan_code = (text_eq_lem o.plan.code plan.code).0 (ground (arith, h));
    amount = ground (arith, h);
    currency = (text_eq_lem o.currency c.currency).0 (ground (arith, h));
  }

index_where-found :
    (p : Order → Bool) (os : List Order) {i : ℕ} {o : Order}
    → index_where p os ≡ some i
    → get_elem? os i ≡ some o
    → p o ≡ true
index_where-found p [] e f = cc
index_where-found p (x ∷ os) {i} {o} e f = elim (Bool-cases (p x)) [
  | inl here ↦
      let at : 0 ≡ i = first (rw (index_where, here) at e) in
      subst (λ y. p y ≡ true) (read (subst (λ k. get_elem? (x ∷ os) k ≡ some o) (sym at) f)) here
  | inr off ↦ elim (Option-cases (index_where p os)) [
    | inl nothing ↦ absurd (missing (rw (index_where, off, nothing) at e))
    | inr (j, rest) ↦
        let at : suc j ≡ i = first (rw (index_where, off, rest) at e) in
        index_where-found p os rest (subst (λ k. get_elem? (x ∷ os) k ≡ some o) (sym at) f)
  ]
]
  where
    first : {k : ℕ} → ◌≡◌ {A = Option ℕ} (some k) (some i) → k ≡ i
    first {k} h = ap (λ (y : Option ℕ). elim y [ none ↦ k | some m ↦ m ]) h

    read : ◌≡◌ {A = Option Order} (some x) (some o) → x ≡ o
    read h = ap (λ (y : Option Order). elim y [ none ↦ x | some m ↦ m ]) h

    missing : ◌≡◌ {A = Option ℕ} none (some i) → ⊥
    missing h = cc

module _ (user : ℕ) (plan : Plan) (c : Charge) (g : Gateway) (now : ℕ) (b : Billing) where
  abbrev verdict_answer : ℕ → Billing → Option OpenOrderVerdict → Billing × CreateAnswer
  verdict_answer id after verdict = elim verdict [
    | none ↦ (after, not_created lookup_failed)
    | some already_paid ↦ (after, settled_now id)
    | some reuse ↦ (after, reused id)
    | some dead ↦ open_order g user plan c now after
  ]

  verdict_answer-Fits :
      (id : ℕ) (after : Billing) (verdict : Option OpenOrderVerdict)
      → (verdict ≡ some reuse → after ≡ b)
      → ((o : Order) × (get_elem? b.orders id ≡ some o) × IsFor user plan c o)
      → Fits user plan c (verdict_answer id after verdict)
  verdict_answer-Fits id after none h found =
      nowhere-Fits user plan c after (not_created lookup_failed) refl
  verdict_answer-Fits id after (some already_paid) h found =
      nowhere-Fits user plan c after (settled_now id) refl
  verdict_answer-Fits id after (some reuse) h (o, stored, ok) =
      at-Fits user plan c after (reused id) id o refl
        (subst (λ x. get_elem? x.orders id ≡ some o) (sym (h refl)) stored) ok
  verdict_answer-Fits id after (some dead) h found = open_order-Fits user plan c g now after

  use_open_order-Fits :
      (id : ℕ) (o : Order)
      → get_elem? b.orders id ≡ some o
      → IsFor user plan c o
      → Fits user plan c (use_open_order g user plan c now id o b)
  unfolding use_open_order
  use_open_order-Fits id o stored ok =
      verdict_answer-Fits id
        (open_order_verdict g.order_of (g.uuid_of id) (name_of g.provider) (g.look_up o) now b).0
        (open_order_verdict g.order_of (g.uuid_of id) (name_of g.provider) (g.look_up o) now b).1
        (open_order_verdict-reuse g.order_of (g.uuid_of id) (name_of g.provider) (g.look_up o) now
          b)
        (o, stored, ok)

  anew :
      place_order g user plan c now b ≡ open_order g user plan c now b
      → Fits user plan c (place_order g user plan c now b)
  anew e = subst (Fits user plan c) (sym e) (open_order-Fits user plan c g now b)

  pub place_order-Fits : Fits user plan c (place_order g user plan c now b)
  unfolding place_order
  place_order-Fits = elim (Option-cases (index_where (is_open_order user plan c now) b.orders)) [
    | inl none_open ↦ anew (rw (place_order, none_open))
    | inr (id, found) ↦ elim (Option-cases (get_elem? b.orders id)) [
      | inl gone ↦ anew (rw (place_order, found, gone))
      | inr (o, stored) ↦ elim (Bool-cases (is_reusable g.provider o)) [
        | inr other ↦ anew (rw (place_order, found, stored, other))
        | inl same ↦
            let e : place_order g user plan c now b ≡ use_open_order g user plan c now id o b =
              rw (place_order, found, stored, same) in
            subst (Fits user plan c) (sym e) (
              use_open_order-Fits id o stored
                (found_open user plan c now o (index_where-found _ b.orders found stored)))
      ]
    ]
  ]
