-- ===== src/Server/Link/Yields.antt =====
-- What the statements do to the number of requests that may still yield tokens: `approveLink` and `pollLink` of
-- control-server/src/services/linkAuth.ts.
use gluk_vpn.Common.{
  ℕ, Bool, true, false, ◌&&◌, ◌||◌, List, [], ◌∷◌, ◌+◌, ◌≡◌, ◌≤◌, ◌==◌, count, filter, arith, refl,
  Bool-cases, inl, inr,
}
use gluk_vpn.Server.Link.{
  pending, approved, LinkRequest, Via, update_where, is_in, is_status, claim_approved, claim_denied,
  claim_used,
}

-- A request that may still be approved, and one that may still yield tokens.
abbrev pub is_open : ℕ → LinkRequest → Bool
is_open id r = r.id == id && (is_status r.status pending || is_status r.status approved)

abbrev pub logged_for : ℕ → ℕ × ℕ → Bool
logged_for id e = e.0 == id

-- An update of rows that are counted as they were.
pub count-update_where :
    (p q : LinkRequest → Bool) (f : LinkRequest → LinkRequest) (rows : List LinkRequest)
    → ((r : LinkRequest) → p r ≡ true → q (f r) ≡ q r)
    → count q (update_where p f rows) ≡ count q rows
count-update_where p q f [] h = refl
count-update_where p q f (r ∷ rows) h = elim (Bool-cases (p r)) [
  | inl on ↦ ground (arith, on, h r on, count-update_where p q f rows h)
  | inr off ↦ ground (arith, off, count-update_where p q f rows h)
]

-- An update that takes rows out of a count.
count-update_out :
    (p q : LinkRequest → Bool) (f : LinkRequest → LinkRequest) (rows : List LinkRequest)
    → ((r : LinkRequest) → p r ≡ true → (q (f r) ≡ false) × (q r ≡ true))
    → count q (update_where p f rows) + count p rows ≡ count q rows
count-update_out p q f [] h = refl
count-update_out p q f (r ∷ rows) h = elim (Bool-cases (p r)) [
  | inl on ↦ ground (arith, on, h r on, count-update_out p q f rows h)
  | inr off ↦ ground (arith, off, count-update_out p q f rows h)
]

pub count-update_le :
    (p q : LinkRequest → Bool) (f : LinkRequest → LinkRequest) (rows : List LinkRequest)
    → ((r : LinkRequest) → p r ≡ true → q (f r) ≡ true → q r ≡ true)
    → count q (update_where p f rows) ≤ count q rows
count-update_le p q f [] h = omega arith
count-update_le p q f (r ∷ rows) h = elim (Bool-cases (p r)) [
  | inl on ↦ ground (arith, on, h r on, count-update_le p q f rows h)
  | inr off ↦ ground (arith, off, count-update_le p q f rows h)
]

pub count-filter :
    (p q : LinkRequest → Bool) (rows : List LinkRequest) → count q (filter p rows) ≤ count q rows
count-filter p q [] = omega arith
count-filter p q (r ∷ rows) = ground (arith, count-filter p q rows)

pub approve-yield :
    (rows : List LinkRequest) (x id user : ℕ) (via : Via) (now : ℕ)
    → count (is_open x) (claim_approved id user via now rows).0 ≡ count (is_open x) rows
unfolding claim_approved
approve-yield rows x id user via now =
    count-update_where (is_in id pending) (is_open x) _ rows λ r h. ground (arith, h)

pub deny-yield :
    (rows : List LinkRequest) (x id : ℕ)
    → count (is_open x) (claim_denied id rows).0 ≤ count (is_open x) rows
unfolding claim_denied
deny-yield rows x id =
    count-update_le (is_in id pending) (is_open x) _ rows λ r h k. ground (arith, h, k)

pub collect-yield :
    (rows : List LinkRequest) (x id now : ℕ)
    → count (is_open x) (claim_used id now rows).0 ≤ count (is_open x) rows
unfolding claim_used
collect-yield rows x id now =
    count-update_le (is_in id approved) (is_open x) _ rows λ r h k. ground (arith, h, k)

pub collect-spends :
    (rows : List LinkRequest) (id now : ℕ)
    → count (is_open id) (claim_used id now rows).0 + (claim_used id now rows).1
      ≡ count (is_open id) rows
unfolding claim_used
collect-spends rows id now =
    count-update_out (is_in id approved) (is_open id) _ rows
      λ r h. (ground (arith, h), ground (arith, h))
