-- ===== src/Server/Entitlements/Window.antt =====
-- The traffic window: `quotaPeriod` and `chainStart`.
use gluk_vpn.Common.{
  ℕ, zero, suc, true, List, [], ◌∷◌, ◌+◌, ◌*◌, ◌≤◌, ◌<◌, ◌≡◌, refl, arith, leb, ltb, filter, Text,
  text_eq, text_eq_lem, All, Bool-cases, inl, inr,
}
use mathlib.Core.List.{Memᴰ}
use gluk_vpn.Server.Entitlements.{
  quota_period_ms, day_ms, quota_period, Subscription, is_earlier, newest_first, insert_newest,
  take, walk_back, chain_start,
}

-- The window of a moment from the anchor on holds that moment, lasts 30 days, and is the only step
-- of 30 days from the anchor that does.
pub quota_period_lem :
    (anchor at : ℕ)
    → anchor ≤ at
    → ((quota_period anchor at).start ≤ at)
      × (at < (quota_period anchor at).end)
      × ((quota_period anchor at).end ≡ (quota_period anchor at).start + quota_period_ms)
      × ((k : ℕ)
          → anchor + k * quota_period_ms ≤ at
          → at < anchor + k * quota_period_ms + quota_period_ms
          → k ≡ (quota_period anchor at).index)
unfolding quota_period
quota_period_lem anchor at h = elim (Bool-cases (leb at anchor)) [
  | inl e ↦ rw e (ground arith, ground arith, refl, λ k low high. ground arith)
  | inr e ↦ rw e (omega arith, omega arith, refl, λ k low high. omega arith)
]

-- Rows of one plan of one user, each still valid, with a day of grace, when the one after it began.
pub data Chain (subs : List Subscription) (user : ℕ) (plan : Text) (first : ℕ) : ℕ → Type 0 where
  begins : Chain subs user plan first first
  renewed :
      {anchor : ℕ} (s : Subscription)
      → Memᴰ s subs
      → s.user ≡ user
      → s.plan ≡ plan
      → anchor ≤ s.expires_at + day_ms
      → Chain subs user plan first s.created_at
      → Chain subs user plan first anchor

IsEarlierRow : List Subscription → ℕ → Text → ℕ → Subscription → Type 0
IsEarlierRow subs user plan created s =
    Memᴰ s subs × (s.user ≡ user) × (s.plan ≡ plan) × (s.created_at < created)

All-newest :
    (P : Subscription → Type 0) (s : Subscription) (ss : List Subscription)
    → P s
    → All P ss
    → All P (insert_newest s ss)
All-newest P s [] p h = (p, tt)
All-newest P s (t ∷ ts) p h = elim (Bool-cases (leb t.created_at s.created_at)) [
  | inl e ↦ rw (insert_newest, e) (p, h)
  | inr e ↦ rw (insert_newest, e) (h.0, All-newest P s ts p h.1)
]

All-newest_first :
    (P : Subscription → Type 0) (ss : List Subscription) → All P ss → All P (newest_first ss)
All-newest_first P [] h = tt
All-newest_first P (s ∷ ss) h = All-newest P s (newest_first ss) h.0 (All-newest_first P ss h.1)

All-take :
    (P : Subscription → Type 0) (n : ℕ) (ss : List Subscription) → All P ss → All P (take n ss)
All-take P zero ss h = tt
All-take P (suc n) [] h = tt
All-take P (suc n) (s ∷ ss) h = (h.0, All-take P n ss h.1)

earlier_rows :
    (subs ss : List Subscription) (user : ℕ) (plan : Text) (created : ℕ)
    → ((s : Subscription) → Memᴰ s ss → Memᴰ s subs)
    → All (IsEarlierRow subs user plan created) (filter (is_earlier user plan created) ss)
unfolding IsEarlierRow
earlier_rows subs [] user plan created sub = tt
earlier_rows subs (s ∷ ss) user plan created sub =
    let later = earlier_rows subs ss user plan created (λ t m. sub t (Memᴰ.tail m)) in
    elim (Bool-cases (is_earlier user plan created s)) [
      | inr e ↦ rw (filter, e) later
      | inl e ↦
          let same_plan : text_eq s.plan plan ≡ true = ground arith in
          let row : IsEarlierRow subs user plan created s = (
            sub s (Memᴰ.head refl),
            ground arith,
            (text_eq_lem s.plan plan).0 same_plan,
            ground arith,
          ) in
          rw (filter, e) (row, later)
    ]

walk_back-Chain :
    (subs : List Subscription) (user : ℕ) (plan : Text) (created anchor : ℕ)
    (ss : List Subscription)
    → anchor ≤ created
    → All (IsEarlierRow subs user plan created) ss
    → Chain subs user plan (walk_back anchor ss) anchor × (walk_back anchor ss ≤ created)
unfolding walk_back IsEarlierRow
walk_back-Chain subs user plan created anchor [] low h = (begins, low)
walk_back-Chain subs user plan created anchor (s ∷ ss) low ((m, u, p, c), h) =
    elim (Bool-cases (ltb (s.expires_at + day_ms) anchor)) [
      | inl e ↦ rw (walk_back, e) (begins, low)
      | inr e ↦
          let (chain, below) =
            walk_back-Chain subs user plan created s.created_at ss (omega arith) h in
          rw (walk_back, e) (renewed s m u p (ground arith) chain, below)
    ]

-- The start that a renewed plan's windows count from is reached from its own start through rows of
-- the same plan and user, each not more than a day expired when the next began; it is never later
-- than the plan's own start.
pub chain_start-Chain :
    (subs : List Subscription) (user : ℕ) (plan : Text) (created : ℕ)
    → Chain subs user plan (chain_start subs user plan created) created
      × (chain_start subs user plan created ≤ created)
unfolding chain_start
chain_start-Chain subs user plan created =
    let rows = filter (is_earlier user plan created) subs in
    walk_back-Chain subs user plan created created (take 36 (newest_first rows)) (omega arith) (
      All-take _ 36 (newest_first rows)
        (All-newest_first _ rows (earlier_rows subs subs user plan created (λ s m. m))))
