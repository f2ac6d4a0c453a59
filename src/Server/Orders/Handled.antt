-- ===== src/Server/Orders/Handled.antt =====
-- A settlement in the world of interleaved statements: `markOrderPaid` of
-- control-server/src/services/billing.ts.
use gluk_vpn.Common.{
  ℕ, Bool, true, Option, none, some, List, ◌∷◌, ◌≡◌, ◌⊎◌, inl, inr, refl, sym, ap, ◌∙◌, arith,
  get_elem?, set, Text, Option-cases,
}
use mathlib.Core.List.{Memᴰ}
use gluk_vpn.Server.Orders.{
  Order, Billing, PaidAnswer, settle_order, paid_order, is_revivable, mark_order_paid,
  order_not_found,
}
use gluk_vpn.Server.Orders.Paid.{mark_order_paid-cases, is_payable}
use gluk_vpn.Server.Orders.Traces.{World, is_claimable, claim_order, read, claimed, Reach, later}

claim_order-won :
    (revive : Bool) (id : ℕ) (ref : Option Text) (now : ℕ) (w : World) (o : Order)
    (seen : List (ℕ × Order))
    → get_elem? w.billing.orders id ≡ some o
    → is_payable revive o.status ≡ true
    → claim_order (is_revivable revive o.status) id o ref now (record w { reads = seen }) ≡ record {
      billing =
          (settle_order id o now
            (record w.billing { orders = set w.billing.orders id (paid_order ref now o) })).0;
      reads = seen;
      grants = id ∷ w.grants;
      overwrites = w.overwrites;
    }
unfolding claim_order
claim_order-won revive id ref now w o seen found payable =
    let open_yet : is_claimable (is_revivable revive o.status) o.status ≡ true =
      ground (arith, payable) in
    rw (claim_order, found, open_yet)

missing :
    (id : ℕ) (ref : Option Text) (revive : Bool) (now : ℕ) (b : Billing)
    → get_elem? b.orders id ≡ none
    → mark_order_paid id ref revive now b ≡ (b, order_not_found)
unfolding mark_order_paid
missing id ref revive now b e = rw (mark_order_paid, e)

-- A call of `markOrderPaid` is a run of the interleaved statements: from a world that can be reached
-- it leads to one with the state that it returns, with one more grant if it claimed the order and
-- with none if it found nothing, a paid order, or one that cannot be paid any more.
pub mark_order_paid-Reach :
    (id : ℕ) (ref : Option Text) (revive : Bool) (now : ℕ) (w : World)
    → Reach w
    → (v : World) × Reach v
      × (v.billing ≡ (mark_order_paid id ref revive now w.billing).0)
      × ((v.grants ≡ id ∷ w.grants)
          ⊎ ((v.grants ≡ w.grants) × ((mark_order_paid id ref revive now w.billing).0 ≡ w.billing)))
mark_order_paid-Reach id ref revive now w r = elim (Option-cases (get_elem? w.billing.orders id)) [
  | inl nothing ↦
      let same =
        ap (λ (x : Billing × PaidAnswer). x.0) (missing id ref revive now w.billing nothing) in
      (w, r, sym same, inr (refl, same))
  | inr (o, found) ↦ elim (mark_order_paid-cases id ref revive now w.billing o found) [
    | inl (payable, same) ↦
        let won = claim_order-won revive id ref now w o ((id, o) ∷ w.reads) found payable in
        (
          claim_order (is_revivable revive o.status) id o ref now
              (record w { reads = (id, o) ∷ w.reads }),
          later (later r (read id o found)) (claimed id o ref revive now (Memᴰ.head refl) payable),
          ap (λ (x : World). x.billing) won ∙ sym (ap (λ (x : Billing × PaidAnswer). x.0) same),
          inl (ap (λ (x : World). x.grants) won),
        )
    | inr (_, same, why) ↦ (w, r, sym same, inr (refl, same))
  ]
]
