-- ===== src/Server/Orders/Running.antt =====
-- The plan that an account is on after a grant: `grantPlan` of
-- control-server/src/services/billing.ts, read by `resolveEntitlement` of
-- control-server/src/services/entitlements.ts.

use gluk_vpn.Common.{
  ℕ, true, false, Option, some, List, [], ◌∷◌, ◌++◌, map, ◌+◌, ◌*◌, ◌≡◌, ◌≤◌, ◌<◌, inl, inr, refl,
  sym, subst, arith, text_eq, text_eq_lem, Bool-cases, All,
}
use gluk_vpn.Server.Entitlements.{
  day_ms, free_plan_code, plan_key, Subscription, is_running, running_plan,
}
use gluk_vpn.Server.Orders.{
  Plan, Billing, Mode, extend, replace, is_superseded, ended_if, term_start, grant_plan,
}
use gluk_vpn.Server.Orders.Granted.{latest_end-le, granted_row, days_of, grant_plan-rows}

-- No row runs at a moment.
running_plan-none :
    (user at : ℕ) (ss : List Subscription) (s : Subscription)
    → All (λ t. is_running user at t ≡ false) ss
    → is_running user at s ≡ true
    → running_plan user at (ss ++ s ∷ []) ≡ some s
unfolding running_plan
running_plan-none user at [] s h on = rw (running_plan, on)
running_plan-none user at (t ∷ ss) s h on =
    rw (running_plan, h.0) (running_plan-none user at ss s h.1 on)

none_running :
    (mode : Mode) (user : ℕ) (plan : Plan) (now : ℕ) (ss : List Subscription)
    → All (λ s. is_running user now s ≡ true → is_superseded mode user plan now s ≡ true) ss
    → All
        (λ s. is_running user now s ≡ false)
        (map (ended_if (is_superseded mode user plan now)) ss)
none_running mode user plan now [] h = tt
none_running mode user plan now (s ∷ ss) h = (stopped, none_running mode user plan now ss h.1)
  where
    stopped : is_running user now (ended_if (is_superseded mode user plan now) s) ≡ false
    stopped = elim (Bool-cases (is_superseded mode user plan now s)) [
      | inl on ↦ rw on ground arith
      | inr off ↦ elim (Bool-cases (is_running user now s)) [
        | inl runs ↦ absurd (ground (arith, h.0 runs, off))
        | inr idle ↦ rw (off, idle)
      ]
    ]

term_start-le :
    (mode : Mode) (user : ℕ) (plan : Plan) (now : ℕ) (ss : List Subscription)
    → now ≤ term_start mode user plan now ss
term_start-le extend user plan now ss =
    (latest_end-le (is_superseded extend user plan now) now ss).0
term_start-le replace user plan now ss = omega arith

sold_code :
    (plan : Plan)
    → text_eq (plan_key plan.code) free_plan_code ≡ false
    → text_eq plan.code free_plan_code ≡ false
sold_code plan h = elim (Bool-cases (text_eq plan.code free_plan_code)) [
  | inr other ↦ other
  | inl free ↦
      let same : plan.code ≡ free_plan_code = (text_eq_lem plan.code free_plan_code).0 free in
      let wrong : true ≡ false = subst (λ c. text_eq (plan_key c) free_plan_code ≡ false) same h in
      cc
]

-- After a grant of at least a day the plan that the account is on is the granted one, to the
-- granted end, if the account had no running subscription of a higher tier, or if the grant replaces
-- what there was.
pub running_plan-grant_plan :
    (mode : Mode) (user : ℕ) (plan : Plan) (days : Option ℕ) (now : ℕ) (b after : Billing)
    (expires : ℕ)
    → grant_plan mode user plan days now b ≡ some (after, expires)
    → 1 ≤ days_of plan days
    → All
        (λ s. is_running user now s ≡ true → is_superseded mode user plan now s ≡ true)
        b.subscriptions
    → (s : Subscription) × (running_plan user now after.subscriptions ≡ some s)
      × (s.plan ≡ plan.code)
      × (s.expires_at ≡ expires)
running_plan-grant_plan mode user plan days now b after expires h long all =
    let (sold, rows, accounts, end) = grant_plan-rows mode user plan days now b after expires h in
    let s = granted_row mode user plan (days_of plan days) now b.subscriptions in
    (
      s,
      subst (λ ss. running_plan user now ss ≡ some s) (sym rows)
          (running_plan-none user now _ s (none_running mode user plan now b.subscriptions all)
            runs),
      refl,
      sym end,
    )
  where
    runs :
        is_running user now (granted_row mode user plan (days_of plan days) now b.subscriptions)
        ≡ true
    runs =
        let sold = (grant_plan-rows mode user plan days now b after expires h).0 in
        let starts = term_start-le mode user plan now b.subscriptions in
        let later : now
            < term_start mode user plan now b.subscriptions + days_of plan days * day_ms =
          omega (arith, starts, long) in
        ground (arith, sold_code plan sold, later)
