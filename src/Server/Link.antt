-- ===== src/Server/Link.antt =====
-- Sign-in by link: control-server/src/services/linkAuth.ts. The rows of `link_requests` have their
-- ids in the order of their creation; the digest of a poll secret (`sha256Hex`) and the minting of the
-- tokens are arguments, as are the random codes. What only describes the client is left out.
pub mod Poll
pub mod Traces
pub mod Yields
pub mod Sound
pub mod Kept
pub mod Once
pub mod Handed
pub mod Written
pub mod Granted
pub mod Purged
use gluk_vpn.Common.{
  ℕ, zero, suc, Bool, true, false, not, ◌&&◌, ◌||◌, Option, none, some, List, [], ◌∷◌, ◌++◌, map,
  ◌+◌, ◌-◌, ◌*◌, ◌/◌, leb, ltb, ◌==◌, if◌then◌else◌, length, filter, any, count, Text, text_eq,
}
use gluk_vpn.Extension.Pac.{trim}
use gluk_vpn.Server.Promo.{upper_code, take_text}

pub data RequestStatus : Type 0 where
  pending approved denied expired used : RequestStatus

pub data Via : Type 0 where
  web telegram : Via

pub record LinkRequest : Type 0 where
  pub id : ℕ
  pub user_code : Text
  pub poll_secret_hash : ℕ
  pub status : RequestStatus
  pub user : Option ℕ
  pub approved_via : Option Via
  pub expires_at : ℕ
  pub last_poll_at : Option ℕ
  pub approved_at : Option ℕ
  pub used_at : Option ℕ

pub record Links : Type 0 where
  pub next_id : ℕ
  pub requests : List LinkRequest

abbrev pub ttl_ms : ℕ
ttl_ms = 5 * 60 * 1000

abbrev pub poll_interval_sec : ℕ
poll_interval_sec = 2

abbrev is_code_char : ℕ → Bool
is_code_char c = leb b'A' c && leb c b'Z' || leb b'0' c && leb c b'9'

abbrev drop_text : ℕ → Text → Text
drop_text zero t = t
drop_text (suc n) [] = []
drop_text (suc n) (c ∷ cs) = drop_text n cs

-- `normalizeCode`, with `toUpperCase` on ASCII.
unfoldable pub normalize_code : Text → Text
normalize_code raw =
    let clean = filter is_code_char (map upper_code (trim raw)) in
    if length clean == 8 then take_text 4 clean ++ b'-' ∷ drop_text 4 clean else clean

abbrev pub is_status : RequestStatus → RequestStatus → Bool
is_status pending pending = true
is_status approved approved = true
is_status denied denied = true
is_status expired expired = true
is_status used used = true
is_status _ _ = false

abbrev pub is_lapsed : LinkRequest → ℕ → Bool
is_lapsed r now = is_status r.status pending && leb r.expires_at now

-- `toStatus`
unfoldable pub to_status : LinkRequest → ℕ → RequestStatus
to_status r now = if is_lapsed r now then expired else r.status

abbrev pub update_where :
    (LinkRequest → Bool) → (LinkRequest → LinkRequest) → List LinkRequest → List LinkRequest
update_where p f [] = []
update_where p f (r ∷ rs) = (if p r then f r else r) ∷ update_where p f rs

abbrev pub has_id : ℕ → LinkRequest → Bool
has_id id r = r.id == id

abbrev pub is_in : ℕ → RequestStatus → LinkRequest → Bool
is_in id s r = r.id == id && is_status r.status s

abbrev pub find_where : (LinkRequest → Bool) → List LinkRequest → Option LinkRequest
find_where p [] = none
find_where p (r ∷ rs) = let rest = find_where p rs in if p r then some r else rest

abbrev pub with_code : Text → LinkRequest → Bool
with_code c r = text_eq r.user_code c

-- `settleExpiry`, of a row as it was read.
unfoldable pub settle_expiry : LinkRequest → ℕ → List LinkRequest → List LinkRequest
settle_expiry r now rows =
    if is_lapsed r now
    then update_where (has_id r.id) (λ x. record x { status = expired }) rows
    else rows

-- The loop of `startLink`, over the codes that are made up.
unfoldable pub allocate_code : List Text → List LinkRequest → Option Text
allocate_code [] rows = none
allocate_code (code ∷ others) rows =
    let rest = allocate_code others rows in if any (with_code code) rows then rest else some code

abbrev pub new_request : ℕ → Text → ℕ → ℕ → LinkRequest
new_request id code hash now = record {
  id = id;
  user_code = code;
  poll_secret_hash = hash;
  status = pending;
  user = none;
  approved_via = none;
  expires_at = now + ttl_ms;
  last_poll_at = none;
  approved_at = none;
  used_at = none;
}

abbrev pub add_request : Text → ℕ → ℕ → Links → Links
add_request code hash now l = record {
  next_id = l.next_id + 1;
  requests = l.requests ++ new_request l.next_id code hash now ∷ [];
}

pub record StartedLink : Type 0 where
  pub request_id : ℕ
  pub user_code : Text
  pub poll_secret : ℕ
  pub expires_at : ℕ
  pub interval_sec : ℕ

-- `startLink`; no answer stands for the error that no code could be allocated.
unfoldable pub start_link : (ℕ → ℕ) → (ℕ → Text) → ℕ → ℕ → Links → Links × Option StartedLink
unfolding allocate_code
start_link digest make_code secret now l =
    elim (allocate_code (map make_code (0 ∷ 1 ∷ 2 ∷ 3 ∷ 4 ∷ [])) l.requests) [
      | none ↦ (l, none)
      | some code ↦ (
        add_request code (digest secret) now l,
        some (record {
          request_id = l.next_id;
          user_code = code;
          poll_secret = secret;
          expires_at = now + ttl_ms;
          interval_sec = poll_interval_sec;
        }),
      )
    ]

pub record LinkDescription : Type 0 where
  pub request_id : ℕ
  pub user_code : Text
  pub status : RequestStatus
  pub expires_at : ℕ

-- `describe`
unfoldable pub describe : LinkRequest → ℕ → LinkDescription
unfolding to_status
describe r now = record {
  request_id = r.id;
  user_code = r.user_code;
  status = to_status r now;
  expires_at = r.expires_at;
}

pub data Reason : Type 0 where
  unknown_code code_expired already : Reason

pub data ApproveOutcome : Type 0 where
  allowed : LinkDescription → ApproveOutcome
  not_allowed : Reason → ApproveOutcome
  row_is_gone : ApproveOutcome

-- The conditional updates.
unfoldable pub claim_approved : ℕ → ℕ → Via → ℕ → List LinkRequest → List LinkRequest × ℕ
claim_approved id user via now rows = (
  update_where (is_in id pending)
      (λ r. record r {
        status = approved;
        user = some user;
        approved_via = some via;
        approved_at = some now;
      })
      rows,
  count (is_in id pending) rows,
)

unfoldable pub claim_denied : ℕ → List LinkRequest → List LinkRequest × ℕ
claim_denied id rows = (
  update_where (is_in id pending) (λ r. record r { status = denied }) rows,
  count (is_in id pending) rows,
)

unfoldable pub claim_used : ℕ → ℕ → List LinkRequest → List LinkRequest × ℕ
claim_used id now rows = (
  update_where (is_in id approved)
      (λ r. record r { status = used; used_at = some now; last_poll_at = some now }) rows,
  count (is_in id approved) rows,
)

unfoldable pub described_again : ℕ → ℕ → List LinkRequest × ℕ → List LinkRequest × ApproveOutcome
unfolding describe
described_again id now (rows, n) = if not (n == 1) then (rows, not_allowed already) else (
  rows,
  elim (find_where (has_id id) rows) [ none ↦ row_is_gone | some r ↦ allowed (describe r now) ],
)

-- `approveLink`
unfoldable pub approve_link :
    Text → ℕ → Via → ℕ → List LinkRequest → List LinkRequest × ApproveOutcome
unfolding normalize_code to_status settle_expiry claim_approved described_again
approve_link code user via now rows = elim (find_where (with_code (normalize_code code)) rows) [
  | none ↦ (rows, not_allowed unknown_code)
  | some r ↦
      if is_status (to_status r now) expired
      then (settle_expiry r now rows, not_allowed code_expired)
      else if not (is_status (to_status r now) pending)
      then (rows, not_allowed already)
      else described_again r.id now (claim_approved r.id user via now rows)
]

-- `denyLink`
unfoldable pub deny_link : Text → ℕ → List LinkRequest → List LinkRequest × ApproveOutcome
unfolding normalize_code to_status claim_denied described_again
deny_link code now rows = elim (find_where (with_code (normalize_code code)) rows) [
  | none ↦ (rows, not_allowed unknown_code)
  | some r ↦
      if not (is_status (to_status r now) pending)
      then (rows, not_allowed already)
      else described_again r.id now (claim_denied r.id rows)
]

-- `describeLink`
unfoldable pub describe_link :
    Text → ℕ → List LinkRequest → List LinkRequest × Option LinkDescription
unfolding normalize_code settle_expiry describe
describe_link code now rows = elim (find_where (with_code (normalize_code code)) rows) [
  | none ↦ (rows, none)
  | some r ↦ (
    settle_expiry r now rows,
    some (describe (if is_lapsed r now then record r { status = expired } else r) now),
  )
]
