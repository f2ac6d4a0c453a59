-- ===== src/Server/Quota/Enforced.antt =====
-- Who is over the quota: `quotaStatusFor` and `usersOverQuota`.
use gluk_vpn.Common.{
  ℕ, true, false, not, ◌&&◌, Option, none, some, List, [], ◌∷◌, ◌-◌, ◌≡◌, ◌↔◌, refl, sym, ap, ◌∙◌,
  arith, leb, ◌==◌, ==_iff, any, Bool-cases, inl, inr,
}
use mathlib.Core.List.{Memᴰ}
use mathlib.Core.List.Memᴰ
use gluk_vpn.Server.Store.{is_live_status, Session}
use gluk_vpn.Server.Entitlements.{Entitlement}
use gluk_vpn.Server.Quota.{
  Bucket, QuotaStatus, quota_status_for, used_bytes_in_period, OverQuota, live_users, over_row,
  cons_if, over_rows, users_over_quota,
}

-- With a limit, the quota is spent exactly when nothing of it remains; without one it never is.
pub quota_status_for_lem :
    (user : ℕ) (ent : Entitlement) (bs : List Bucket)
    → ((limit : ℕ)
        → ent.traffic_limit_bytes ≡ some limit
        → ((quota_status_for user ent bs).exceeded ≡ true)
          ↔ ((quota_status_for user ent bs).remaining_bytes ≡ some 0))
      × (ent.traffic_limit_bytes ≡ none → (quota_status_for user ent bs).exceeded ≡ false)
unfolding quota_status_for
quota_status_for_lem user ent bs =
    ((λ limit e. rw e (spent limit (used_bytes_in_period user ent.period bs))), λ e. rw e refl)
  where
    spent : (limit used : ℕ) → (leb limit used ≡ true) ↔ (some (limit - used) ≡ some 0)
    spent limit used =
        ((λ h. ap some (ground arith)), λ h. let e : limit - used ≡ 0 = cc in ground arith)

listed :
    (seen : List ℕ) (ss : List Session) (s : Session)
    → Memᴰ s ss
    → is_live_status s.status ≡ true
    → any (λ u. u == s.user) seen ≡ false
    → Memᴰ s.user (live_users seen ss)
unfolding live_users
listed seen [] s m live fresh = absurd (Memᴰ.not-nil m)
listed seen (t ∷ ss) s m live fresh = elim (Memᴰ.cases_cons m) [
  | inl here ↦
      let live' : is_live_status t.status ≡ true =
        ap (λ (x : Session). is_live_status x.status) (sym here) ∙ live in
      let fresh' : any (λ u. u == t.user) seen ≡ false =
        ap (λ (x : Session). any (λ u. u == x.user) seen) (sym here) ∙ fresh in
      rw (live_users, live', fresh') (Memᴰ.head (ap (λ (x : Session). x.user) here))
  | inr later ↦ elim (Bool-cases (is_live_status t.status && not (any (λ u. u == t.user) seen))) [
    | inr e ↦ rw (live_users, e) (listed seen ss s later live fresh)
    | inl e ↦ elim (Bool-cases (t.user == s.user)) [
      | inl same ↦ rw (live_users, e) (Memᴰ.head (sym ((==_iff t.user s.user).0 same)))
      | inr off ↦
          rw (live_users, e)
            (Memᴰ.tail (listed (t.user ∷ seen) ss s later live (rw (off, fresh) refl)))
    ]
  ]
]

reported :
    (status : ℕ → QuotaStatus) (us : List ℕ) (u : ℕ) (r : OverQuota)
    → Memᴰ u us
    → over_row u (status u) (status u).limit_bytes ≡ some r
    → Memᴰ r (over_rows status us)
unfolding over_rows
reported status [] u r m e = absurd (Memᴰ.not-nil m)
reported status (v ∷ us) u r m e = elim (Memᴰ.cases_cons m) [
  | inl here ↦
      let row : over_row v (status v) (status v).limit_bytes ≡ some r =
        ap (λ x. over_row x (status x) (status x).limit_bytes) (sym here) ∙ e in
      rw (over_rows, row) (Memᴰ.head refl)
  | inr later ↦ add (over_row v (status v) (status v).limit_bytes) (reported status us u r later e)
]
  where
    add :
        (o : Option OverQuota) {x : OverQuota} {rows : List OverQuota}
        → Memᴰ x rows
        → Memᴰ x (cons_if o rows)
    add none h = h
    add (some y) h = Memᴰ.tail h

-- Every user with a waiting or active session who has spent the quota is found, with the limit and
-- the bytes that the clients are shown and the end of the window.
pub users_over_quota_lem :
    (status : ℕ → QuotaStatus) (ss : List Session) (s : Session) (limit : ℕ)
    → Memᴰ s ss
    → is_live_status s.status ≡ true
    → (status s.user).exceeded ≡ true
    → (status s.user).limit_bytes ≡ some limit
    → Memᴰ
        (record {
          user = s.user;
          used = (status s.user).used_bytes;
          limit = limit;
          reset_at = (status s.user).period.end;
        })
        (users_over_quota status ss)
unfolding users_over_quota
users_over_quota_lem status ss s limit m live spent e =
    reported status (live_users [] ss) s.user _ (listed [] ss s m live refl) (rw (e, spent) refl)
