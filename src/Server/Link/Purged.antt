-- ===== src/Server/Link/Purged.antt =====
-- An approval, the purges behind it and the poll that collects: `approveLink`, `purgeLinkRequests` and
-- `pollLink` of control-server/src/services/linkAuth.ts.
use gluk_vpn.Common.{
  ℕ, Bool, true, Option, none, some, List, [], ◌∷◌, ◌≡◌, inl, inr, ◌==◌, ◌≤◌, refl, sym, subst, ap,
  ◌∙◌, arith, count, Bool-cases, All, All-imp, Text, filter, not, ◌+◌, ◌*◌, false,
}
use gluk_vpn.Server.Link.{
  pending, approved, LinkRequest, Via, to_status, has_id, is_in, find_where, claim_used, allowed,
  LinkDescription, approve_link, ttl_ms,
}
use gluk_vpn.Server.Link.Handed.{find_where-Mem}
use gluk_vpn.Server.Link.Poll.{
  handed, poll_status, poll_link, is_finished, is_worthless, purge_link_requests,
}
use gluk_vpn.Server.Link.Sound.{All-update_where, All-filter, All-Mem}
use gluk_vpn.Server.Link.Written.{granted_to, found_granted, counted_granted}
use gluk_vpn.Server.Link.Granted.{approve_link-IsGrant, find_where-All, collected_once}

-- The rows that purges leave, one after another.
unfoldable pub purged : List ℕ → List LinkRequest → List LinkRequest
unfolding purge_link_requests
purged [] rows = rows
purged (at ∷ ats) rows = purged ats (purge_link_requests at rows).0

-- No purge is later than ten minutes behind the expiry of the request.
abbrev pub IsYoung : ℕ → List ℕ → LinkRequest → Type 0
IsYoung id ats r = r.id ≡ id → All (λ at. at ≤ r.expires_at + 2 * ttl_ms) ats

kept_found :
    (p q : LinkRequest → Bool) (rows : List LinkRequest) {r : LinkRequest}
    → find_where p rows ≡ some r
    → q r ≡ true
    → find_where p (filter q rows) ≡ some r
kept_found p q [] e k = cc
kept_found p q (x ∷ rows) {r} e k = elim (Bool-cases (p x)) [
  | inl on ↦
      let same : x ≡ r =
        ap (λ (o : Option LinkRequest). elim o [ none ↦ x | some y ↦ y ])
          (rw (find_where, on) at e) in
      let kept : q x ≡ true = subst (λ y. q y ≡ true) (sym same) k in
      rw (filter, kept, find_where, on) (ap some same)
  | inr off ↦
      let rest = kept_found p q rows (rw (find_where, off) at e) k in
      elim (Bool-cases (q x)) [
        | inl kept ↦ rw (filter, kept, find_where, off) rest
        | inr gone ↦ rw (filter, gone) rest
      ]
]

kept_count :
    (c q : LinkRequest → Bool) (rows : List LinkRequest)
    → All (λ x. c x ≡ true → q x ≡ true) rows
    → count c (filter q rows) ≡ count c rows
kept_count c q [] h = refl
kept_count c q (x ∷ rows) h = elim (Bool-cases (q x)) [
  | inl kept ↦ ground (arith, kept, kept_count c q rows h.1)
  | inr gone ↦ ground (arith, gone, unkept, kept_count c q rows h.1)
]
  where
    unkept : q x ≡ false → c x ≡ false
    unkept gone = elim (Bool-cases (c x)) [
      | inl on ↦ let bad = sym (h.0 on) ∙ gone in cc
      | inr off ↦ off
    ]

-- An approved request that is young is not worthless.
young_kept :
    (id at : ℕ) (r : LinkRequest)
    → is_in id approved r ≡ true
    → (r.id ≡ id → at ≤ r.expires_at + 2 * ttl_ms)
    → not (is_worthless at r) ≡ true
young_kept id at r on young =
    let open_yet : is_finished r ≡ false = ground (arith, on) in
    ground (arith, open_yet, young (ground (arith, on)))

module _ (id : ℕ) (g : LinkRequest) (own : is_in id approved g ≡ true) where
  purged-keeps :
      (ats : List ℕ) (rows : List LinkRequest)
      → All (IsYoung id ats) rows
      → find_where (has_id id) rows ≡ some g
      → (find_where (has_id id) (purged ats rows) ≡ some g)
        × (count (is_in id approved) (purged ats rows) ≡ count (is_in id approved) rows)
  unfolding purged purge_link_requests
  purged-keeps [] rows young found = (found, refl)
  purged-keeps (at ∷ ats) rows young found =
      let keep : LinkRequest → Bool = λ r. not (is_worthless at r) in
      let (m, same) = find_where-Mem (has_id id) rows found in
      let kept = young_kept id at g own (λ e. (All-Mem (IsYoung id (at ∷ ats)) rows young m e).0) in
      let (found', counted) =
        purged-keeps ats (filter keep rows)
          (All-filter (IsYoung id ats) keep rows
            (All-imp (IsYoung id (at ∷ ats)) (IsYoung id ats) rows (λ r h e. (h e).1) young))
          (kept_found (has_id id) keep rows found kept) in
      (
        found',
        counted
            ∙ kept_count (is_in id approved) keep rows (
                All-imp (IsYoung id (at ∷ ats)) _ rows
                  (λ r h on. young_kept id at r on (λ e. (h e).0)) young),
      )

poll_granted :
    {A : Type 0} (mint : ℕ → Option A) (id user digest later : ℕ) (via : Via) (now : ℕ)
    (r : LinkRequest) (rows : List LinkRequest) (tokens : A)
    → r.id ≡ id
    → r.poll_secret_hash ≡ digest
    → find_where (has_id id) rows ≡ some (granted_to user via now r)
    → count (is_in id approved) rows ≡ 1
    → mint user ≡ some tokens
    → (poll_link mint id digest later rows).1 ≡ handed tokens
unfolding poll_link poll_status to_status claim_used
poll_granted mint id user digest later via now r rows tokens own secret found won granted =
    let right : (r.poll_secret_hash == digest) ≡ true = ground (arith, secret) in
    rw (poll_link, found, right)
      (collected_once mint user r.id later rows tokens
        (subst (λ i. count (is_in i approved) rows ≡ 1) (sym own) won) granted)

-- The first poll after an approval that offers the request's poll secret is handed the tokens of the
-- account that approved, however long after the request's five minutes it comes, if between the
-- two there are only purges, and none of them is later than ten minutes behind the expiry.
pub approve_link-poll_link :
    {A : Type 0} (mint : ℕ → Option A) (code : Text) (user : ℕ) (via : Via) (now later digest : ℕ)
    (ats : List ℕ) (rows after : List LinkRequest) (d : LinkDescription) (tokens : A)
    → approve_link code user via now rows ≡ (after, allowed d)
    → count (has_id d.request_id) rows ≤ 1
    → All (λ (r : LinkRequest). r.id ≡ d.request_id → r.poll_secret_hash ≡ digest) rows
    → All (IsYoung d.request_id ats) rows
    → mint user ≡ some tokens
    → (poll_link mint d.request_id digest later (purged ats after)).1 ≡ handed tokens
approve_link-poll_link mint code user via now later digest ats rows after d tokens e one secret
      young granted =
    let g = approve_link-IsGrant code user via now rows after d e in
    let (r, before, found) = found_granted d.request_id user via now rows one g.won in
    let (m, same) = find_where-Mem (has_id d.request_id) rows before in
    let own : r.id ≡ d.request_id = ground (arith, same) in
    let won = counted_granted d.request_id user via now rows one g.won in
    let still =
      All-update_where (IsYoung d.request_id ats) (is_in d.request_id pending)
        (granted_to user via now) rows (λ x p h. h) young in
    let here : is_in d.request_id approved (granted_to user via now r) ≡ true =
      ground (arith, own) in
    let (found', counted) =
      purged-keeps d.request_id (granted_to user via now r) here ats _ still found in
    subst (λ rs. (poll_link mint d.request_id digest later (purged ats rs)).1 ≡ handed tokens)
      (sym g.written)
      (poll_granted mint d.request_id user digest later via now r _ tokens own
        (find_where-All _ (has_id d.request_id) rows secret before own) found' (counted ∙ won)
        granted)
