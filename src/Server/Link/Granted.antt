-- ===== src/Server/Link/Granted.antt =====
-- What an approval that is granted writes: `approveLink` of
-- control-server/src/services/linkAuth.ts.
use gluk_vpn.Common.{
  ℕ, Bool, true, Option, none, some, List, [], ◌∷◌, ◌≡◌, inl, inr, ◌==◌, ◌<◌, refl, sym, subst, ap,
  ◌∙◌, arith, count, Bool-cases, Option-cases, All, Text,
}
use gluk_vpn.Server.Link.{
  pending, approved, expired, LinkRequest, Via, to_status, has_id, is_in, is_status, find_where,
  with_code, normalize_code, update_where, claim_approved, claim_used, ApproveOutcome, allowed,
  LinkDescription, describe, described_again, approve_link,
}
use gluk_vpn.Server.Link.Handed.{find_where-Mem}
use gluk_vpn.Server.Link.Poll.{handed, collect}
use gluk_vpn.Server.Link.Written.{granted_to}

not_allowed-absurd :
    {A : Type 0} {rows after : List LinkRequest} {o : ApproveOutcome} {d : LinkDescription}
    → ((x : LinkDescription) → o ≡ allowed x → ⊥)
    → ◌≡◌ {A = List LinkRequest × ApproveOutcome} (rows, o) (after, allowed d)
    → A
not_allowed-absurd {d} differ e =
    absurd (differ d (ap (λ (p : List LinkRequest × ApproveOutcome). p.1) e))

allowed-inj : {a b : LinkDescription} → allowed a ≡ allowed b → a ≡ b
allowed-inj {a} e = ap (λ (o : ApproveOutcome). elim o [ allowed x ↦ x | _ ↦ a ]) e

described_again-allowed :
    (id now : ℕ) (rows after : List LinkRequest) (n : ℕ) (d : LinkDescription)
    → described_again id now (rows, n) ≡ (after, allowed d)
    → (n ≡ 1) × (after ≡ rows) × (d.request_id ≡ id)
unfolding described_again describe
described_again-allowed id now rows after n d e = elim (Bool-cases (n == 1)) [
  | inr lost ↦ not_allowed-absurd (λ x h. cc) (rw (described_again, lost) at e)
  | inl won ↦ elim (Option-cases (find_where (has_id id) rows)) [
    | inl gone ↦ not_allowed-absurd (λ x h. cc) (rw (described_again, won, gone) at e)
    | inr (r, found) ↦
        let h = rw (described_again, won, found) at e in
        let (m, same) = find_where-Mem (has_id id) rows found in
        (
          ground (arith, won),
          sym (ap (λ (p : List LinkRequest × ApproveOutcome). p.0) h),
          ap (λ (x : LinkDescription). x.request_id)
                (sym (allowed-inj (ap (λ (p : List LinkRequest × ApproveOutcome). p.1) h)))
              ∙ ground (arith, same),
        )
  ]
]

-- What an approval that was granted has found and written.
pub record IsGrant (code : Text) (user : ℕ) (via : Via) (now : ℕ) (rows after : List LinkRequest)
    (id : ℕ) : Type 0 where
  pub row : LinkRequest
  pub found : find_where (with_code (normalize_code code)) rows ≡ some row
  pub asked : row.id ≡ id
  pub waiting : row.status ≡ pending
  pub unexpired : now < row.expires_at
  pub won : count (is_in id pending) rows ≡ 1
  pub written : after ≡ update_where (is_in id pending) (granted_to user via now) rows

waiting_row :
    (r : LinkRequest) (now : ℕ)
    → is_status (to_status r now) pending ≡ true
    → (r.status ≡ pending) × (now < r.expires_at)
unfolding to_status
waiting_row r now h = (ground (arith, h), ground (arith, h))

pub approve_link-IsGrant :
    (code : Text) (user : ℕ) (via : Via) (now : ℕ) (rows after : List LinkRequest)
    (d : LinkDescription)
    → approve_link code user via now rows ≡ (after, allowed d)
    → IsGrant code user via now rows after d.request_id
unfolding approve_link claim_approved
approve_link-IsGrant code user via now rows after d e =
    elim (Option-cases (find_where (with_code (normalize_code code)) rows)) [
      | inl none_found ↦ not_allowed-absurd (λ x h. cc) (rw (approve_link, none_found) at e)
      | inr (r, found) ↦ elim (Bool-cases (is_status (to_status r now) expired)) [
        | inl late ↦ not_allowed-absurd (λ x h. cc) (rw (approve_link, found, late) at e)
        | inr early ↦ elim (Bool-cases (is_status (to_status r now) pending)) [
          | inr over ↦ not_allowed-absurd (λ x h. cc) (rw (approve_link, found, early, over) at e)
          | inl wait ↦ granted r found wait (
              described_again-allowed r.id now _ after _ d
                (rw (approve_link, found, early, wait) at e))
        ]
      ]
    ]
  where
    granted :
        (r : LinkRequest)
        → find_where (with_code (normalize_code code)) rows ≡ some r
        → is_status (to_status r now) pending ≡ true
        → (count (is_in r.id pending) rows ≡ 1)
          × (after ≡ update_where (is_in r.id pending) (granted_to user via now) rows)
          × (d.request_id ≡ r.id)
        → IsGrant code user via now rows after d.request_id
    granted r found wait (one, same, id) =
        subst (IsGrant code user via now rows after) (sym id) record {
          row = r;
          found = found;
          asked = refl;
          waiting = (waiting_row r now wait).0;
          unexpired = (waiting_row r now wait).1;
          won = one;
          written = same;
        }

pub find_where-All :
    (P : LinkRequest → Type 0) (p : LinkRequest → Bool) (rows : List LinkRequest) {r : LinkRequest}
    → All P rows
    → find_where p rows ≡ some r
    → P r
find_where-All P p [] k e = cc
find_where-All P p (x ∷ rows) {r} k e = elim (Bool-cases (p x)) [
  | inl on ↦
      let same : x ≡ r =
        ap (λ (o : Option LinkRequest). elim o [ none ↦ x | some y ↦ y ])
          (rw (find_where, on) at e) in
      subst P same k.0
  | inr off ↦ find_where-All P p rows k.1 (rw (find_where, off) at e)
]

pub collected_once :
    {A : Type 0} (mint : ℕ → Option A) (user id later : ℕ) (rows : List LinkRequest) (tokens : A)
    → count (is_in id approved) rows ≡ 1
    → mint user ≡ some tokens
    → (collect mint user (claim_used id later rows)).1 ≡ handed tokens
unfolding claim_used
collected_once mint user id later rows tokens one granted = rw (claim_used, one, granted)
