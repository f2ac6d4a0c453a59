-- ===== src/Server/Link/Sound.antt =====
-- What is known of the requests, the reads and the mints of the sign-in by link:
-- control-server/src/services/linkAuth.ts.
use gluk_vpn.Common.{
  ℕ, Bool, true, false, some, List, [], ◌∷◌, ◌+◌, ◌≡◌, ◌≤◌, ◌<◌, count, filter, All, arith, refl,
  Bool-cases, inl, inr, sym, subst,
}
use mathlib.Core.List.{Memᴰ}
use mathlib.Core.List.Memᴰ
use gluk_vpn.Server.Link.{LinkRequest, update_where}
use gluk_vpn.Server.Link.Traces.{World}
use gluk_vpn.Server.Link.Yields.{is_open, logged_for}

-- A row of a known id, whose account is the one that approved it.
pub record IsKnown (n : ℕ) (log : List (ℕ × ℕ)) (r : LinkRequest) : Type 0 where
  pub below : r.id < n
  pub granted : (u : ℕ) → r.user ≡ some u → Memᴰ (r.id, u) log

pub IsKnown-grown :
    (n m : ℕ) (log more : List (ℕ × ℕ)) (r : LinkRequest)
    → n ≤ m
    → ((e : ℕ × ℕ) → Memᴰ e log → Memᴰ e more)
    → IsKnown n log r
    → IsKnown m more r
IsKnown-grown n m log more r le sub k = record {
  below = omega (arith, le, k.below);
  granted = λ u h. sub (r.id, u) (k.granted u h);
}

pub All-update_where :
    (P : LinkRequest → Type 0) (p : LinkRequest → Bool) (f : LinkRequest → LinkRequest)
    (rows : List LinkRequest)
    → ((r : LinkRequest) → p r ≡ true → P r → P (f r))
    → All P rows
    → All P (update_where p f rows)
All-update_where P p f [] h k = tt
All-update_where P p f (r ∷ rows) h k = (
  elim (Bool-cases (p r)) [ inl on ↦ rw on (h r on k.0) | inr off ↦ rw off k.0 ],
  All-update_where P p f rows h k.1,
)

pub All-filter :
    (P : LinkRequest → Type 0) (p : LinkRequest → Bool) (rows : List LinkRequest)
    → All P rows
    → All P (filter p rows)
All-filter P p [] k = tt
All-filter P p (r ∷ rows) k =
    elim (p r) as (λ b. All P (elim b [ true ↦ r ∷ filter p rows | false ↦ filter p rows ])) [
      | true ↦ (k.0, All-filter P p rows k.1)
      | false ↦ All-filter P p rows k.1
    ]

pub All-Mem : {A : Type 0} (P : A → Type 0) (xs : List A) {x : A} → All P xs → Memᴰ x xs → P x
All-Mem P [] k m = absurd (Memᴰ.not-nil m)
All-Mem P (y ∷ xs) k m = elim (Memᴰ.cases_cons m) [
  | inl here ↦ subst P (sym here) k.0
  | inr there ↦ All-Mem P xs k.1 there
]

pub update_where-none :
    (p : LinkRequest → Bool) (f : LinkRequest → LinkRequest) (rows : List LinkRequest)
    → count p rows ≡ 0
    → update_where p f rows ≡ rows
update_where-none p f [] h = refl
update_where-none p f (r ∷ rows) h = elim (Bool-cases (p r)) [
  | inl on ↦ absurd (ground (arith, on, h))
  | inr off ↦ rw (off, update_where-none p f rows (ground (arith, off, h)))
]

pub count-imp :
    (p q : LinkRequest → Bool) (rows : List LinkRequest)
    → ((r : LinkRequest) → p r ≡ true → q r ≡ true)
    → count p rows ≤ count q rows
count-imp p q [] h = omega arith
count-imp p q (r ∷ rows) h = elim (Bool-cases (p r)) [
  | inl on ↦ ground (arith, on, h r on, count-imp p q rows h)
  | inr off ↦ ground (arith, off, count-imp p q rows h)
]

-- A row that is not known yet does not yield.
pub fresh_yield :
    (n : ℕ) (log : List (ℕ × ℕ)) (rows : List LinkRequest)
    → All (IsKnown n log) rows
    → count (is_open n) rows ≡ 0
fresh_yield n log [] k = refl
fresh_yield n log (r ∷ rows) k = ground (arith, k.0.below, fresh_yield n log rows k.1)

pub fresh_log :
    (n : ℕ) (log mints : List (ℕ × ℕ))
    → All (λ (e : ℕ × ℕ). (e.0 < n) × Memᴰ e log) mints
    → count (logged_for n) mints ≡ 0
fresh_log n log [] k = refl
fresh_log n log (e ∷ mints) k =
    let below = k.0.0 in ground (arith, below, fresh_log n log mints k.1)

-- What holds of the requests, the reads, the approvals and the mints.
pub record IsSound (w : World) : Type 0 where
  pub rows : All (IsKnown w.links.next_id w.approvals) w.links.requests
  pub seen : All (IsKnown w.links.next_id w.approvals) w.reads
  pub minted : All (λ (e : ℕ × ℕ). (e.0 < w.links.next_id) × Memᴰ e w.approvals) w.mints
  pub once : (id : ℕ) → count (is_open id) w.links.requests + count (logged_for id) w.mints ≤ 1
