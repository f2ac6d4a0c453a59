-- ===== src/Server/Link/Poll.antt =====
-- The client's side of the sign-in by link: `pollLink` and `purgeLinkRequests` of
-- control-server/src/services/linkAuth.ts.
use gluk_vpn.Common.{
  ℕ, Bool, not, ◌&&◌, ◌||◌, Option, none, some, List, ◌+◌, ◌-◌, ◌*◌, ◌/◌, ltb, ◌==◌, if◌then◌else◌,
  filter, count,
}
use gluk_vpn.Server.Link.{
  pending, approved, denied, expired, used, LinkRequest, to_status, settle_expiry, is_status,
  update_where, has_id, find_where, claim_used, ttl_ms, poll_interval_sec,
}

pub data PollOutcome (A : Type 0) : Type 0 where
  still_pending : ℕ → PollOutcome A
  was_denied was_expired unknown slow_down : PollOutcome A
  handed : A → PollOutcome A

abbrev pub last_poll : LinkRequest → ℕ
last_poll r = elim r.last_poll_at [ none ↦ 0 | some t ↦ t ]

abbrev pub polled_at : ℕ → LinkRequest → LinkRequest
polled_at now r = record r { last_poll_at = some now }

abbrev pub poll_pending :
    {A : Type 0} → LinkRequest → ℕ → List LinkRequest → List LinkRequest × PollOutcome A
poll_pending r now rows =
    if ltb (now - last_poll r) (poll_interval_sec * 1000 / 2)
    then (rows, slow_down)
    else (update_where (has_id r.id) (polled_at now) rows, still_pending poll_interval_sec)

-- What the winner of the conditional update is given; `mint` is the caller's.
abbrev pub collect :
    {A : Type 0} → (ℕ → Option A) → ℕ → List LinkRequest × ℕ → List LinkRequest × PollOutcome A
collect mint user (rows, n) =
    if not (n == 1)
    then (rows, was_expired)
    else (rows, elim (mint user) [ none ↦ was_denied | some tokens ↦ handed tokens ])

-- The answers of `pollLink` once the secret is right, of the row that was read.
unfoldable pub poll_status :
    {A : Type 0}
    → (ℕ → Option A)
    → LinkRequest
    → ℕ
    → List LinkRequest
    → List LinkRequest × PollOutcome A
unfolding to_status settle_expiry claim_used
poll_status mint r now rows = elim (to_status r now) [
  | pending ↦ poll_pending r now rows
  | approved ↦ elim r.user [
    | none ↦ (rows, was_expired)
    | some user ↦ collect mint user (claim_used r.id now rows)
  ]
  | expired ↦ (settle_expiry r now rows, was_expired)
  | used ↦ (rows, was_expired)
  | denied ↦ (rows, was_denied)
]

-- `pollLink`, of the digest of the secret that is offered.
unfoldable pub poll_link :
    {A : Type 0} → (ℕ → Option A) → ℕ → ℕ → ℕ → List LinkRequest → List LinkRequest × PollOutcome A
unfolding poll_status
poll_link mint id digest now rows = elim (find_where (has_id id) rows) [
  | none ↦ (rows, unknown)
  | some r ↦
      if not (r.poll_secret_hash == digest) then (rows, unknown) else poll_status mint r now rows
]

abbrev pub is_finished : LinkRequest → Bool
is_finished r = is_status r.status used || (is_status r.status denied || is_status r.status expired)

-- `expiresAt: { lt: … }`
abbrev pub is_worthless : ℕ → LinkRequest → Bool
is_worthless now r =
    is_finished r && ltb (r.expires_at + ttl_ms) now
    || not (is_finished r) && ltb (r.expires_at + 2 * ttl_ms) now

-- `purgeLinkRequests`
unfoldable pub purge_link_requests : ℕ → List LinkRequest → List LinkRequest × ℕ
purge_link_requests now rows =
    (filter (λ r. not (is_worthless now r)) rows, count (is_worthless now) rows)
