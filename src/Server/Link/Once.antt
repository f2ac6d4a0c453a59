-- ===== src/Server/Link/Once.antt =====
-- A request yields tokens once, and to the account that approved it, whatever the interleaving:
-- `approveLink` and `pollLink` of control-server/src/services/linkAuth.ts.
use gluk_vpn.Common.{
  ℕ, Bool, ◌≡◌, ◌≤◌, count, All, arith, refl, Bool-cases, inl, inr, sym, subst, All-imp, ◌∙◌,
}
use mathlib.Core.List.{Memᴰ}
use gluk_vpn.Server.Link.{
  pending, expired, LinkRequest, settle_expiry, update_where, has_id, is_in, claim_denied,
  is_lapsed,
}
use gluk_vpn.Server.Link.Poll.{purge_link_requests, polled_at}
use gluk_vpn.Server.Link.Traces.{
  World, Step, started, read, approve, deny, settle, note_poll, collect, purge, Reach, start, later,
  with_rows,
}
use gluk_vpn.Server.Link.Yields.{is_open, logged_for, deny-yield, count-update_le, count-filter}
use gluk_vpn.Server.Link.Sound.{All-update_where, All-filter, All-Mem, IsSound}
use gluk_vpn.Server.Link.Kept.{IsSound-rows, IsSound-started, IsSound-approve, IsSound-collect}

-- Statements that leave ids and accounts as they are.
IsSound-update :
    (w : World) (p : LinkRequest → Bool) (f : LinkRequest → LinkRequest)
    → ((r : LinkRequest) → (f r).id ≡ r.id)
    → ((r : LinkRequest) → (f r).user ≡ r.user)
    → ((x : ℕ)
        → count (is_open x) (update_where p f w.links.requests)
          ≤ count (is_open x) w.links.requests)
    → IsSound w
    → IsSound (with_rows w (update_where p f w.links.requests))
IsSound-update w p f same_id same_user fewer s =
    IsSound-rows w _ s
      (All-update_where _ p f w.links.requests
        (λ r on k. record {
          below = omega (arith, k.below, same_id r);
          granted = λ u h.
              subst (λ i. Memᴰ (i, u) w.approvals) (sym (same_id r))
                (k.granted u (sym (same_user r) ∙ h));
        })
        s.rows)
      fewer

IsSound-settle :
    (w : World) (r : LinkRequest) (now : ℕ)
    → IsSound w
    → IsSound (with_rows w (settle_expiry r now w.links.requests))
unfolding settle_expiry
IsSound-settle w r now s = elim (Bool-cases (is_lapsed r now)) [
  | inl late ↦
      rw (settle_expiry, late)
        (IsSound-update w (has_id r.id) (λ x. record x { status = expired }) (λ x. refl) (λ x. refl)
          (λ x.
            count-update_le (has_id r.id) (is_open x) _ w.links.requests λ y h k. ground (arith, k))
          s)
  | inr early ↦ rw (settle_expiry, early) s
]

IsSound-Step : {w v : World} → IsSound w → Step w v → IsSound v
unfolding claim_denied purge_link_requests
IsSound-Step {w} s (started code hash now) = IsSound-started w s code hash now
IsSound-Step {w} s (read r m) = record {
  rows = s.rows;
  seen = (All-Mem _ w.links.requests s.rows m, s.seen);
  minted = s.minted;
  once = s.once;
}
IsSound-Step {w} s (approve r user via now m e) = IsSound-approve w s r.id user via now
IsSound-Step {w} s (deny r now m e) =
    IsSound-update w (is_in r.id pending) _ (λ x. refl) (λ x. refl)
      (λ x. deny-yield w.links.requests x r.id) s
IsSound-Step {w} s (settle r now m) = IsSound-settle w r now s
IsSound-Step {w} s (note_poll r now m) =
    IsSound-update w (has_id r.id) (polled_at now) (λ x. refl) (λ x. refl)
      (λ x. count-update_le (has_id r.id) (is_open x) (polled_at now) w.links.requests λ y h k. k) s
IsSound-Step {w} s (collect r user now m e own) = IsSound-collect w s r user now m own
IsSound-Step {w} s (purge now) =
    IsSound-rows w _ s (All-filter _ _ w.links.requests s.rows)
      (λ x. count-filter _ (is_open x) w.links.requests)

pub Reach-IsSound : {w : World} → Reach w → IsSound w
Reach-IsSound start = record { rows = tt; seen = tt; minted = tt; once = λ id. omega arith }
Reach-IsSound (later r step) = IsSound-Step (Reach-IsSound r) step

-- Tokens are minted at most once for a request, whatever the order in which the handlers read and
-- write, and only for an account that approved that request.
pub Reach-minted :
    {w : World}
    → Reach w
    → ((id : ℕ) → count (logged_for id) w.mints ≤ 1) × All (λ e. Memᴰ e w.approvals) w.mints
Reach-minted {w} r =
    let s = Reach-IsSound r in
    (λ id. omega (arith, s.once id), All-imp _ _ w.mints (λ e k. k.1) s.minted)
