-- ===== src/Server/Link/Written.antt =====
-- The row that an approval writes: `approveLink` of control-server/src/services/linkAuth.ts.
use gluk_vpn.Common.{
  ℕ, true, false, some, List, [], ◌∷◌, ◌≡◌, inl, inr, ◌≤◌, refl, arith, count, Bool-cases,
}
use gluk_vpn.Server.Link.{
  RequestStatus, pending, approved, LinkRequest, Via, has_id, is_in, is_status, find_where,
  update_where,
}
use gluk_vpn.Server.Link.Sound.{count-imp, update_where-none}

abbrev pub granted_to : ℕ → Via → ℕ → LinkRequest → LinkRequest
granted_to user via now r = record r {
  status = approved;
  user = some user;
  approved_via = some via;
  approved_at = some now;
}

module _ (id user : ℕ) (via : Via) (now : ℕ) where
  skip_e1 :
      (x : LinkRequest) (rows : List LinkRequest) {r : LinkRequest}
      → has_id id x ≡ false
      → find_where (has_id id) rows ≡ some r
      → find_where (has_id id) (x ∷ rows) ≡ some r
  skip_e1 x rows off e = rw off e

  skip_e2 :
      (x : LinkRequest) (rows : List LinkRequest) {r : LinkRequest}
      → has_id id x ≡ false
      → find_where (has_id id) (update_where (is_in id pending) (granted_to user via now) rows)
        ≡ some r
      → find_where
          (has_id id)
          (update_where (is_in id pending) (granted_to user via now) (x ∷ rows))
        ≡ some r
  skip_e2 x rows off e =
      let same : is_in id pending x ≡ false = ground (arith, off) in rw (same, off) e

  -- The one row of an id is the one that the approval writes.
  pub found_granted :
      (rows : List LinkRequest)
      → count (has_id id) rows ≤ 1
      → count (is_in id pending) rows ≡ 1
      → (r : LinkRequest) × (find_where (has_id id) rows ≡ some r)
        × (find_where (has_id id) (update_where (is_in id pending) (granted_to user via now) rows)
            ≡ some (granted_to user via now r))
  found_granted [] one h = absurd (omega (arith, h))
  found_granted (x ∷ rows) one h = elim (Bool-cases (has_id id x)) [
    | inr off ↦
        let (r, e1, e2) = found_granted rows (ground (arith, off, one)) (ground (arith, off, h)) in
        (r, skip_e1 x rows off e1, skip_e2 x rows off e2)
    | inl on ↦ elim (Bool-cases (is_status x.status pending)) [
      | inl wait ↦ (x, rw on refl, rw (on, wait, on) refl)
      | inr not_wait ↦ absurd (
          ground (
            arith,
            on,
            not_wait,
            one,
            h,
            count-imp (is_in id pending) (has_id id) rows (λ r k. ground (arith, k)),
          ))
    ]
  ]

  others :
      (rows : List LinkRequest)
      → count (has_id id) rows ≡ 0
      → count (is_in id approved) (update_where (is_in id pending) (granted_to user via now) rows)
        ≡ 0
  others rows none_left =
      rw
        (update_where-none (is_in id pending) (granted_to user via now) rows
          (nobody pending (λ r k. ground (arith, k))))
        (nobody approved (λ r k. ground (arith, k)))
    where
      nobody :
          (st : RequestStatus)
          → ((r : LinkRequest) → is_in id st r ≡ true → has_id id r ≡ true)
          → count (is_in id st) rows ≡ 0
      nobody st sub = omega (arith, none_left, count-imp (is_in id st) (has_id id) rows sub)

  pub counted_granted :
      (rows : List LinkRequest)
      → count (has_id id) rows ≤ 1
      → count (is_in id pending) rows ≡ 1
      → count (is_in id approved) (update_where (is_in id pending) (granted_to user via now) rows)
        ≡ 1
  counted_granted [] one h = absurd (omega (arith, h))
  counted_granted (x ∷ rows) one h = elim (Bool-cases (has_id id x)) [
    | inr off ↦
        ground
          (arith, off, counted_granted rows (ground (arith, off, one)) (ground (arith, off, h)))
    | inl on ↦ elim (Bool-cases (is_status x.status pending)) [
      | inl wait ↦ ground (arith, on, wait, others rows (ground (arith, on, one)))
      | inr not_wait ↦ absurd (
          ground (
            arith,
            on,
            not_wait,
            one,
            h,
            count-imp (is_in id pending) (has_id id) rows (λ r k. ground (arith, k)),
          ))
    ]
  ]
