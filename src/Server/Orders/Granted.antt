-- ===== src/Server/Orders/Granted.antt =====
-- What a grant keeps and what it gives: `grantPlan` of control-server/src/services/billing.ts, read
-- by `resolveEntitlement` of control-server/src/services/entitlements.ts.

use gluk_vpn.Common.{
  ℕ, Bool, true, false, Option, none, some, List, [], ◌∷◌, ◌++◌, map, ◌+◌, ◌*◌, ◌≡◌, ◌≤◌, ◌<◌, inl,
  inr, ◌==◌, refl, sym, subst, ap, ◌∙◌, arith, get_elem?, text_eq, get_elem?-set, Bool-cases,
  Option-cases,
}
use mathlib.Core.List.{Memᴰ}
use mathlib.Core.List.Memᴰ
use gluk_vpn.Server.Entitlements.{day_ms, free_plan_code, plan_key, Subscription}
use gluk_vpn.Server.Orders.{
  Plan, Limits, Billing, Mode, extend, replace, is_superseded, latest_end, ended_if, raised,
  raise_limits, term_start, grant_plan,
}

pub latest_end-le :
    (p : Subscription → Bool) (now : ℕ) (ss : List Subscription)
    → (now ≤ latest_end p now ss)
      × ((s : Subscription) → Memᴰ s ss → p s ≡ true → s.expires_at ≤ latest_end p now ss)
latest_end-le p now [] = (omega arith, λ s m h. absurd (Memᴰ.not-nil m))
latest_end-le p now (x ∷ ss) =
    let (base, each) = latest_end-le p now ss in
    (
      ground (arith, base),
      λ s m h. elim (Memᴰ.cases_cons m) [
        | inl here ↦
            let on : p x ≡ true = subst (λ y. p y ≡ true) here h in rw (here, on) (omega arith)
        | inr there ↦ ground (arith, each s there h)
      ],
    )

-- The row that a grant adds.
abbrev pub granted_row : Mode → ℕ → Plan → ℕ → ℕ → List Subscription → Subscription
granted_row mode user plan days now ss = record {
  user = user;
  active = true;
  plan = plan.code;
  tier = plan.tier;
  created_at = now;
  expires_at = term_start mode user plan now ss + days * day_ms;
}

pub superseded_off :
    (mode : Mode) (user : ℕ) (plan : Plan) (now : ℕ) (s : Subscription)
    → is_superseded mode user plan now (ended_if (is_superseded mode user plan now) s) ≡ false
superseded_off mode user plan now s = elim (Bool-cases (is_superseded mode user plan now s)) [
  | inr off ↦ rw off off
  | inl on ↦ rw on (ended mode)
]
  where
    ended : (m : Mode) → is_superseded m user plan now (record s { active = false }) ≡ false
    ended extend = ground arith
    ended replace = ground arith

abbrev pub days_of : Plan → Option ℕ → ℕ
days_of plan none = plan.days
days_of plan (some d) = d

-- The rows and the end of a grant.
pub grant_plan-rows :
    (mode : Mode) (user : ℕ) (plan : Plan) (days : Option ℕ) (now : ℕ) (b after : Billing)
    (expires : ℕ)
    → grant_plan mode user plan days now b ≡ some (after, expires)
    → (text_eq (plan_key plan.code) free_plan_code ≡ false)
      × (after.subscriptions
          ≡ map (ended_if (is_superseded mode user plan now)) b.subscriptions
            ++ granted_row mode user plan (days_of plan days) now b.subscriptions ∷ [])
      × (after.accounts ≡ raise_limits user plan b.accounts)
      × (expires ≡ term_start mode user plan now b.subscriptions + days_of plan days * day_ms)
unfolding grant_plan
grant_plan-rows mode user plan days now b after expires h =
    elim (Bool-cases (text_eq (plan_key plan.code) free_plan_code)) [
      | inl free ↦ absurd (missing (rw (grant_plan, free) at h))
      | inr sold ↦
          let e = sym (
            ap (λ (o : Option (Billing × ℕ)). elim o [ none ↦ (after, expires) | some x ↦ x ])
              (rw (grant_plan, sold) at h)) in
          (
            sold,
            ap (λ (x : Billing × ℕ). x.0.subscriptions) e,
            ap (λ (x : Billing × ℕ). x.0.accounts) e,
            ap (λ (x : Billing × ℕ). x.1) e,
          )
    ]
  where
    missing : ◌≡◌ {A = Option (Billing × ℕ)} none (some (after, expires)) → ⊥
    missing x = cc

raise_limits-le :
    (user : ℕ) (plan : Plan) (ls : List Limits) (i : ℕ) (l : Limits)
    → get_elem? ls i ≡ some l
    → (m : Limits) × (get_elem? (raise_limits user plan ls) i ≡ some m)
      × (l.max_devices ≤ m.max_devices)
      × (l.max_sessions ≤ m.max_sessions)
raise_limits-le user plan ls i l e = elim (Option-cases (get_elem? ls user)) [
  | inl nobody ↦ rw (raise_limits, nobody) (l, e, omega arith, omega arith)
  | inr (u, found) ↦ elim (Bool-cases (user == i)) [
    | inl here ↦
        rw (raise_limits, found, get_elem?-set ls user i (raised plan u), e, here)
          let (d, n) = at_least (ground (arith, here)) found in (raised plan u, refl, d, n)
    | inr off ↦
        rw (raise_limits, found, get_elem?-set ls user i (raised plan u), e, off)
          (l, refl, omega arith, omega arith)
  ]
]
  where
    at_least :
        {u : Limits}
        → user ≡ i
        → get_elem? ls user ≡ some u
        → (l.max_devices ≤ (raised plan u).max_devices)
          × (l.max_sessions ≤ (raised plan u).max_sessions)
    at_least {u} same found =
        let own : l ≡ u =
          ap (λ (o : Option Limits). elim o [ none ↦ l | some x ↦ x ])
            (sym e ∙ ap (get_elem? ls) (sym same) ∙ found) in
        subst
          (λ (x : Limits).
            (l.max_devices ≤ (raised plan x).max_devices)
            × (l.max_sessions ≤ (raised plan x).max_sessions))
          own (omega arith, omega arith)

-- A subscription of the account that runs at that moment, of the same or a lower tier.
pub record IsTaken (user : ℕ) (plan : Plan) (now : ℕ) (s : Subscription) : Type 0 where
  pub own : s.user ≡ user
  pub active : s.active ≡ true
  pub unexpired : now < s.expires_at
  pub not_above : s.tier ≤ plan.tier

IsTaken-is_superseded :
    (user : ℕ) (plan : Plan) (now : ℕ) (s : Subscription)
    → IsTaken user plan now s
    → is_superseded extend user plan now s ≡ true
IsTaken-is_superseded user plan now s t = ground (arith, t.own, t.active, t.unexpired, t.not_above)

is_superseded-IsTaken :
    (user : ℕ) (plan : Plan) (now : ℕ) (s : Subscription)
    → is_superseded extend user plan now s ≡ true
    → IsTaken user plan now s
is_superseded-IsTaken user plan now s h = record {
  own = ground (arith, h);
  active = ground (arith, h);
  unexpired = ground (arith, h);
  not_above = ground (arith, h);
}

-- What a grant that extends leaves behind.
pub record IsExtension (user : ℕ) (plan : Plan) (days now : ℕ) (b after : Billing) (expires : ℕ)
    : Type 0 where
  pub full_term : now + days * day_ms ≤ expires
  -- The row of the grant.
  pub row :
      Memᴰ
        (record {
          user = user;
          active = true;
          plan = plan.code;
          tier = plan.tier;
          created_at = now;
          expires_at = expires;
        })
        after.subscriptions
  -- The days of the rows that it takes over come before the new term.
  pub stacked :
      (s : Subscription)
      → Memᴰ s b.subscriptions
      → IsTaken user plan now s
      → s.expires_at + days * day_ms ≤ expires
  pub kept :
      (s : Subscription)
      → Memᴰ s b.subscriptions
      → ¬ IsTaken user plan now s
      → Memᴰ s after.subscriptions
  pub single :
      (s : Subscription)
      → Memᴰ s after.subscriptions
      → IsTaken user plan now s
      → (s.plan ≡ plan.code) × (s.created_at ≡ now) × (s.expires_at ≡ expires)
  pub raised :
      (i : ℕ) (l : Limits)
      → get_elem? b.accounts i ≡ some l
      → (m : Limits) × (get_elem? after.accounts i ≡ some m)
        × (l.max_devices ≤ m.max_devices)
        × (l.max_sessions ≤ m.max_sessions)

-- A grant that extends adds a row of the plan that ends a full term after now and after the end of each
-- running subscription of the account with the same or a lower tier, and it ends those; every
-- other subscription stays as it was, no row of those tiers but the new one is left running, and
-- no limit of any account is lowered.
pub grant_plan-IsExtension :
    (user : ℕ) (plan : Plan) (days : Option ℕ) (now : ℕ) (b after : Billing) (expires : ℕ)
    → grant_plan extend user plan days now b ≡ some (after, expires)
    → IsExtension user plan (days_of plan days) now b after expires
grant_plan-IsExtension user plan days now b after expires h =
    let (sold, rows, accounts, end) = grant_plan-rows extend user plan days now b after expires h in
    let (base, each) = latest_end-le (is_superseded extend user plan now) now b.subscriptions in
    let p = is_superseded extend user plan now in
    let new = granted_row extend user plan (days_of plan days) now b.subscriptions in
    record {
      full_term = omega (arith, base, end);
      row =
          subst (λ ss. Memᴰ (granted_until expires) ss) (sym rows)
            (subst (λ x. Memᴰ (granted_until x) (map (ended_if p) b.subscriptions ++ new ∷ []))
              (sym end) (Memᴰ.append_right _ (Memᴰ.head refl)));
      stacked = λ s m t. omega (arith, each s m (IsTaken-is_superseded user plan now s t), end);
      kept = λ s m off. elim (Bool-cases (p s)) [
        | inl on ↦ absurd (off (is_superseded-IsTaken user plan now s on))
        | inr q ↦ subst (Memᴰ s) (sym rows) (
            Memᴰ.append_left _ (
              subst (λ x. Memᴰ x (map (ended_if p) b.subscriptions)) (unended s q)
                (Memᴰ.map (ended_if p) m)))
      ];
      single = λ s m t. elim (Memᴰ.append_cases _ (subst (Memᴰ s) rows m)) [
        | inl old ↦
            let (x, mx, same) = Memᴰ.of_map (ended_if p) b.subscriptions old in
            let off : p s ≡ false =
              subst (λ y. p y ≡ false) same (superseded_off extend user plan now x) in
            let on = IsTaken-is_superseded user plan now s t in cc
        | inr (Memᴰ.head e) ↦ (
          ap (λ (x : Subscription). x.plan) e,
          ap (λ (x : Subscription). x.created_at) e,
          ap (λ (x : Subscription). x.expires_at) e ∙ sym end,
        )
        | inr (Memᴰ.tail m') ↦ absurd (Memᴰ.not-nil m')
      ];
      raised = λ i l e.
          subst
            (λ ls.
              (m : Limits) × (get_elem? ls i ≡ some m)
              × (l.max_devices ≤ m.max_devices)
              × (l.max_sessions ≤ m.max_sessions))
            (sym accounts) (raise_limits-le user plan b.accounts i l e);
    }
  where
    granted_until : ℕ → Subscription
    granted_until x = record {
      user = user;
      active = true;
      plan = plan.code;
      tier = plan.tier;
      created_at = now;
      expires_at = x;
    }

    unended :
        (s : Subscription)
        → is_superseded extend user plan now s ≡ false
        → ended_if (is_superseded extend user plan now) s ≡ s
    unended s q = rw q
