-- ===== src/Server/Monitor/Closed.antt =====
-- What a tick of the monitor leaves open.
use gluk_vpn.Common.{
  ℕ, zero, suc, Bool, true, false, not, ◌&&◌, ◌||◌, Option, none, some, List, [], ◌∷◌, ◌+◌, ◌≡◌,
  ◌≢◌, ◌≤◌, ◌⊎◌, refl, sym, ap, subst, ◌∙◌, arith, any, ltb, ◌==◌, if◌then◌else◌, All, set,
  get_elem?, get_elem?-set_cases, Bool-cases, Option-cases, inl, inr,
}
use mathlib.Core.List.{Memᴰ}
use mathlib.Core.List.Memᴰ
use gluk_vpn.Server.Store.{
  AccountStatus, account_active, account_disabled, account_blocked, account_deleted, User, Device,
  VpnNode, Session, CloseReason, Db, is_live_status,
}
use gluk_vpn.Server.Nodes.{find_node}
use gluk_vpn.Server.Admission.{is_account_active}
use gluk_vpn.Server.Sessions.{close_row, close_session, ids_where}
use gluk_vpn.Server.Monitor.{
  Tick, is_silent, monitor_reason, reason_of, reason_at, close_if, monitor_close, monitor_tick,
}

-- A session that is live after `i` was closed was so before, and is another one.
close_session-live :
    (now i j : ℕ) (r : CloseReason) (db : Db) (s : Session)
    → get_elem? (close_session now r i db).sessions j ≡ some s
    → is_live_status s.status ≡ true
    → (get_elem? db.sessions j ≡ some s) × (i ≢ j)
unfolding close_session
close_session-live now i j r db s e live = elim (Option-cases (get_elem? db.sessions i)) [
  | inl f ↦
      let old : get_elem? db.sessions j ≡ some s = rw (close_session, f) at e in
      (old, λ same. let bad : none ≡ some s = sym f ∙ ap (get_elem? db.sessions) same ∙ old in cc)
  | inr (t, f) ↦ elim (Bool-cases (is_live_status t.status)) [
    | inr over ↦
        let old : get_elem? db.sessions j ≡ some s = rw (close_session, f, over) at e in
        (
          old,
          λ same.
              let row : some t ≡ some s = sym f ∙ ap (get_elem? db.sessions) same ∙ old in
              let eq : t ≡ s = cc in cc,
        )
    | inl was ↦
        let written : get_elem? (set db.sessions i (close_row now r t)) j ≡ some s =
          rw (close_session, f, was) at e in
        elim (get_elem?-set_cases db.sessions i j (close_row now r t) written) [
          | inl (same, new) ↦
              let bad = ap (λ (x : Session). is_live_status x.status) new ∙ live in cc
          | inr (off, old) ↦ (old, off)
        ]
  ]
]

close_if-live :
    (now i j : ℕ) (o : Option CloseReason) (db : Db) (s : Session)
    → get_elem? (close_if now o i db).sessions j ≡ some s
    → is_live_status s.status ≡ true
    → (get_elem? db.sessions j ≡ some s) × (i ≡ j → o ≡ none)
close_if-live now i j none db s e live = (e, λ same. refl)
close_if-live now i j (some r) db s e live =
    let (old, off) = close_session-live now i j r db s e live in (old, λ same. absurd (off same))

monitor_close-live :
    (now j : ℕ) (t : Tick) (before : Db) (is : List ℕ) (db : Db) (s : Session)
    → get_elem? (monitor_close now t before is db).sessions j ≡ some s
    → is_live_status s.status ≡ true
    → (get_elem? db.sessions j ≡ some s) × All (λ i. i ≡ j → reason_at t before i ≡ none) is
unfolding monitor_close
monitor_close-live now j t before [] db s e live = (e, tt)
monitor_close-live now j t before (i ∷ is) db s e live =
    let (later, kept) =
      monitor_close-live now j t before is (close_if now (reason_at t before i) i db) s e live in
    let (old, here) = close_if-live now i j (reason_at t before i) db s later live in
    (old, (here, kept))

selected :
    (p : Session → Bool) (ss : List Session) (k j : ℕ) (s : Session)
    → get_elem? ss j ≡ some s
    → p s ≡ true
    → Memᴰ (k + j) (ids_where p k ss)
unfolding ids_where
selected p [] k j s e h = cc
selected p (t ∷ ss) k zero s e h =
    let same : t ≡ s = cc in
    let hit : p t ≡ true = ap p same ∙ h in rw (ids_where, hit) (Memᴰ.head (omega arith))
selected p (t ∷ ss) k (suc j) s e h =
    let later : Memᴰ (k + suc j) (ids_where p (suc k) ss) =
      Memᴰ.cast (omega arith) (selected p ss (suc k) j s e h) in
    elim (Bool-cases (p t)) [
      | inl f ↦ rw (ids_where, f) (Memᴰ.tail later)
      | inr f ↦ rw (ids_where, f) later
    ]

at_member : (P : ℕ → Type 0) (is : List ℕ) (i : ℕ) → All P is → Memᴰ i is → P i
at_member P [] i h m = absurd (Memᴰ.not-nil m)
at_member P (k ∷ is) i h m = elim (Memᴰ.cases_cons m) [
  | inl e ↦ subst P (sym e) h.0
  | inr later ↦ at_member P is i h.1 later
]

-- What a session that stays open rests on.
pub record IsAllowed (t : Tick) (db : Db) (s : Session) (u : User) (d : Device) (n : VpnNode)
    : Type 0 where
  pub running : (db.service_maintenance ≡ false) × (n.maintenance ≡ false)
  pub account : u.status ≡ account_active
  pub device : d.active ≡ true
  pub plan : (t.subscribed s.user ≡ true) ⊎ (n.tier ≡ 0)
  pub quota : ¬ Memᴰ s.user t.over_quota
  pub enabled : n.disabled ≡ false
  pub heard : (at : ℕ) × (n.last_heartbeat ≡ some at) × (t.hard_cutoff ≤ at)

passed :
    (b : Bool) (r : CloseReason) (rest : Option CloseReason)
    → (if b then some r else rest) ≡ none
    → (b ≡ false) × (rest ≡ none)
passed true r rest e = cc
passed false r rest e = (refl, e)

listed : (x : ℕ) (xs : List ℕ) → any (λ o. o == x) xs ≡ false → ¬ Memᴰ x xs
listed x [] h m = Memᴰ.not-nil m
listed x (y ∷ xs) h m = elim (Memᴰ.cases_cons m) [
  | inl e ↦ absurd (ground (arith, h, e))
  | inr later ↦ listed x xs (ground (arith, h)) later
]

active_of : (a : AccountStatus) → not (is_account_active a) ≡ false → a ≡ account_active
active_of account_active h = refl
active_of account_disabled h = cc
active_of account_blocked h = cc
active_of account_deleted h = cc

heard_of :
    (cutoff : ℕ) (o : Option ℕ)
    → is_silent cutoff o ≡ false
    → (at : ℕ) × (o ≡ some at) × (cutoff ≤ at)
heard_of cutoff none h = cc
heard_of cutoff (some at) h = (at, refl, ground (arith, h))

monitor_reason-none :
    (t : Tick) (db : Db) (s : Session) (u : User) (d : Device) (n : VpnNode)
    → monitor_reason t db.service_maintenance s.user u d n ≡ none
    → IsAllowed t db s u d n
unfolding monitor_reason
monitor_reason-none t db s u d n e =
    let (a, e1) = passed (db.service_maintenance || n.maintenance) _ _ e in
    let (b, e2) = passed (not (is_account_active u.status)) _ _ e1 in
    let (c, e3) = passed (not d.active) _ _ e2 in
    let (p, e4) = passed (not (t.subscribed s.user) && ltb 0 n.tier) _ _ e3 in
    let (q, e5) = passed (any (λ o. o == s.user) t.over_quota) _ _ e4 in
    let (f, e6) = passed n.disabled _ _ e5 in
    let (h, e7) = passed (is_silent t.hard_cutoff n.last_heartbeat) _ _ e6 in
    record {
      running = (ground (arith, a), ground (arith, a));
      account = active_of u.status b;
      device = ground (arith, c);
      plan = elim (Bool-cases (t.subscribed s.user)) [
        | inl on ↦ inl on
        | inr off ↦ inr (ground (arith, off, p))
      ];
      quota = listed s.user t.over_quota q;
      enabled = f;
      heard = heard_of t.hard_cutoff n.last_heartbeat h;
    }

-- After a tick of the monitor every session that is still waiting or active is a row that was so
-- before, unchanged; and where the rows of its account, device and node are there, neither the
-- service nor the node is in maintenance, the account and the device are active, the account has a
-- plan or the node is free, its quota is not used up, and the node is enabled and was heard of no
-- earlier than the limit.
pub monitor_tick-live :
    (now j : ℕ) (t : Tick) (db : Db) (s : Session) (u : User) (d : Device) (n : VpnNode)
    → get_elem? (monitor_tick now t db).sessions j ≡ some s
    → is_live_status s.status ≡ true
    → get_elem? db.users s.user ≡ some u
    → get_elem? db.devices s.device ≡ some d
    → find_node s.node db.nodes ≡ some n
    → (get_elem? db.sessions j ≡ some s) × IsAllowed t db s u d n
unfolding monitor_tick reason_of
monitor_tick-live now j t db s u d n e live eu ed en =
    let is = ids_where (λ x. is_live_status x.status) 0 db.sessions in
    let (old, all) = monitor_close-live now j t db is db s e live in
    let found = selected (λ x. is_live_status x.status) db.sessions 0 j s old live in
    let none_at : reason_at t db j ≡ none =
      at_member (λ i. i ≡ j → reason_at t db i ≡ none) is j all (Memᴰ.cast (omega arith) found)
        refl in
    let kept : reason_of t db s ≡ none = rw (reason_at, old) at none_at in
    (old, monitor_reason-none t db s u d n (rw (reason_of, eu, ed, en) at kept))
