-- ===== src/Server/Link/Kept.antt =====
-- What the creation of a request, an approval and a collection keep: `startLink`, `approveLink` and
-- `pollLink` of control-server/src/services/linkAuth.ts.
use gluk_vpn.Common.{
  ℕ, true, false, Option, none, some, List, [], ◌∷◌, ◌++◌, ◌+◌, ◌≡◌, ◌≤◌, ◌==◌, Text, count, All,
  arith, count-append, Bool-cases, inl, inr, sym, subst, All-append, All-imp,
}
use mathlib.Core.List.{Memᴰ}
use gluk_vpn.Server.Link.{
  RequestStatus, pending, approved, LinkRequest, Via, is_in, add_request, claim_approved,
  claim_used, new_request,
}
use gluk_vpn.Server.Link.Traces.{World, with_rows, after_approval, after_collection}
use gluk_vpn.Server.Link.Yields.{is_open, logged_for, approve-yield, collect-yield, collect-spends}
use gluk_vpn.Server.Link.Sound.{
  IsKnown, IsKnown-grown, All-update_where, All-Mem, update_where-none, count-imp, fresh_yield,
  fresh_log, IsSound,
}

-- A statement that changes the rows only.
pub IsSound-rows :
    (w : World) (rows : List LinkRequest)
    → IsSound w
    → All (IsKnown w.links.next_id w.approvals) rows
    → ((id : ℕ) → count (is_open id) rows ≤ count (is_open id) w.links.requests)
    → IsSound (with_rows w rows)
IsSound-rows w rows s k fewer = record {
  rows = k;
  seen = s.seen;
  minted = s.minted;
  once = λ id. omega (arith, fewer id, s.once id);
}

module _ (w : World) (s : IsSound w) where
  pub IsSound-started :
      (code : Text) (hash now : ℕ)
      → IsSound (record w { links = add_request code hash now w.links })
  IsSound-started code hash now = record {
    rows =
        All-append _ w.links.requests _
          (All-imp _ _ w.links.requests
            (λ r. IsKnown-grown n (n + 1) w.approvals w.approvals r (omega arith) (λ e m. m))
            s.rows)
          (record { below = omega arith; granted = λ u h. absurd (nobody u h) }, tt);
    seen =
        All-imp _ _ w.reads
          (λ r. IsKnown-grown n (n + 1) w.approvals w.approvals r (omega arith) (λ e m. m)) s.seen;
    minted = All-imp _ _ w.mints (λ e k. (omega (arith, k.0), k.1)) s.minted;
    once = λ id. elim (Bool-cases (n == id)) [
      | inl here ↦
          let same : n ≡ id = ground (arith, here) in
          subst
            (λ x.
              count (is_open x) (w.links.requests ++ new_request n code hash now ∷ [])
                + count (logged_for x) w.mints
              ≤ 1)
            same new
      | inr off ↦ ground (
        arith,
        off,
        s.once id,
        count-append (is_open id) w.links.requests (new_request n code hash now ∷ []),
      )
    ];
  }
    where
      n : ℕ
      n = w.links.next_id

      nobody : (u : ℕ) → ◌≡◌ {A = Option ℕ} none (some u) → ⊥
      nobody u h = cc

      new :
          count (is_open n) (w.links.requests ++ new_request n code hash now ∷ [])
            + count (logged_for n) w.mints
          ≤ 1
      new = ground (
        arith,
        count-append (is_open n) w.links.requests (new_request n code hash now ∷ []),
        fresh_yield n w.approvals w.links.requests s.rows,
        fresh_log n w.approvals w.mints s.minted,
      )

  -- A claim that did not win wrote nothing.
  unclaimed :
      (id : ℕ) (st : RequestStatus)
      → ((r : LinkRequest) → is_in id st r ≡ true → is_open id r ≡ true)
      → count (is_in id st) w.links.requests == 1 ≡ false
      → count (is_in id st) w.links.requests ≡ 0
  unclaimed id st sub lost =
      let le = count-imp (is_in id st) (is_open id) w.links.requests sub in
      let one = s.once id in ground (arith, le, one, lost)

  pub IsSound-approve :
      (id user : ℕ) (via : Via) (now : ℕ) → IsSound (after_approval w id user via now)
  unfolding after_approval claim_approved
  IsSound-approve id user via now =
      elim (Bool-cases (count (is_in id pending) w.links.requests == 1)) [
        | inl won ↦
            rw (after_approval, claim_approved, won)
              (record {
                rows =
                    All-update_where _ _ _ w.links.requests
                      (λ r on k. record {
                        below = k.below;
                        granted = λ u h. Memᴰ.head (pair r u (ground (arith, on)) h);
                      })
                      (All-imp _ _ w.links.requests grown s.rows);
                seen = All-imp _ _ w.reads grown s.seen;
                minted = All-imp _ _ w.mints (λ e k. (k.0, Memᴰ.tail k.1)) s.minted;
                once =
                    λ x. omega (arith, approve-yield w.links.requests x id user via now, s.once x);
              })
        | inr lost ↦
            rw (after_approval, claim_approved, lost)
              (IsSound-rows w _ s
                (subst (All (IsKnown w.links.next_id w.approvals))
                  (sym (
                    update_where-none _ _ w.links.requests
                      (unclaimed id pending (λ r h. ground (arith, h)) lost)))
                  s.rows)
                (λ x. omega (arith, approve-yield w.links.requests x id user via now)))
      ]
    where
      grown :
          (r : LinkRequest)
          → IsKnown w.links.next_id w.approvals r
          → IsKnown w.links.next_id ((id, user) ∷ w.approvals) r
      grown r =
          IsKnown-grown w.links.next_id w.links.next_id w.approvals _ r (omega arith)
            (λ e m. Memᴰ.tail m)

      pair :
          (r : LinkRequest) (u : ℕ)
          → r.id ≡ id
          → some user ≡ some u
          → ◌≡◌ {A = ℕ × ℕ} (r.id, u) (id, user)
      pair r u same h = cc

  pub IsSound-collect :
      (r : LinkRequest) (user now : ℕ)
      → Memᴰ r w.reads
      → r.user ≡ some user
      → IsSound (after_collection w r.id user now)
  unfolding after_collection claim_used
  IsSound-collect r user now seen own =
      elim (Bool-cases (count (is_in r.id approved) w.links.requests == 1)) [
        | inl won ↦
            rw (after_collection, claim_used, won)
              (record {
                rows =
                    All-update_where _ _ _ w.links.requests
                      (λ x on k. record { below = k.below; granted = k.granted }) s.rows;
                seen = s.seen;
                minted = ((known.below, known.granted user own), s.minted);
                once = λ x. elim (Bool-cases (r.id == x)) [
                  | inl here ↦ ground (arith, here, spent won x (ground (arith, here)), s.once x)
                  | inr off ↦
                      ground (arith, off, collect-yield w.links.requests x r.id now, s.once x)
                ];
              })
        | inr lost ↦
            rw (after_collection, claim_used, lost)
              (IsSound-rows w _ s
                (All-update_where _ _ _ w.links.requests
                  (λ x on k. record { below = k.below; granted = k.granted }) s.rows)
                (λ x. collect-yield w.links.requests x r.id now))
      ]
    where
      known : IsKnown w.links.next_id w.approvals r
      known = All-Mem _ w.reads s.seen seen

      spent :
          (count (is_in r.id approved) w.links.requests == 1) ≡ true
          → (x : ℕ) → r.id ≡ x
          → count (is_open x) (claim_used r.id now w.links.requests).0 + 1
            ≡ count (is_open x) w.links.requests
      spent one x same =
          subst
            (λ y.
              count (is_open y) (claim_used r.id now w.links.requests).0 + 1
              ≡ count (is_open y) w.links.requests)
            same (ground (arith, collect-spends w.links.requests r.id now, one))
