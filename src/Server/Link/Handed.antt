-- ===== src/Server/Link/Handed.antt =====
-- A poll in the world of interleaved statements: `pollLink` of
-- control-server/src/services/linkAuth.ts.
use gluk_vpn.Common.{
  ℕ, Bool, true, false, not, Option, none, some, List, [], ◌∷◌, ◌≡◌, inl, inr, ◌==◌, ltb, ◌-◌, ◌*◌,
  ◌/◌, if◌then◌else◌, refl, sym, subst, ap, ◌∙◌, arith, Bool-cases, Option-cases,
}
use mathlib.Core.List.{Memᴰ}
use gluk_vpn.Server.Link.{
  RequestStatus, pending, approved, denied, expired, used, LinkRequest, to_status, settle_expiry,
  has_id, find_where, update_where, claim_used, poll_interval_sec,
}
use gluk_vpn.Server.Link.Poll.{
  PollOutcome, still_pending, was_denied, was_expired, unknown, slow_down, handed, poll_pending,
  polled_at, collect as collected, poll_status, poll_link, last_poll,
}
use gluk_vpn.Server.Link.Traces.{
  World, read, settle, note_poll, collect, Reach, later, logged, after_collection,
}

pub find_where-Mem :
    (p : LinkRequest → Bool) (rows : List LinkRequest) {r : LinkRequest}
    → find_where p rows ≡ some r
    → Memᴰ r rows × (p r ≡ true)
find_where-Mem p [] e = cc
find_where-Mem p (x ∷ rows) {r} e = elim (Bool-cases (p x)) [
  | inl on ↦
      let same : x ≡ r =
        ap (λ (o : Option LinkRequest). elim o [ none ↦ x | some y ↦ y ])
          (rw (find_where, on) at e) in
      (Memᴰ.head (sym same), subst (λ y. p y ≡ true) same on)
  | inr off ↦ let (m, q) = find_where-Mem p rows (rw (find_where, off) at e) in (Memᴰ.tail m, q)
]

-- What a claim hands out.
collect-rows :
    {A : Type 0} (mint : ℕ → Option A) (user : ℕ) (rows : List LinkRequest) (n : ℕ)
    → (collected mint user (rows, n)).0 ≡ rows
collect-rows mint user rows n = elim (Bool-cases (n == 1)) [ inl won ↦ rw won | inr lost ↦ rw lost ]

handed-inj : {A : Type 0} {a b : A} → handed a ≡ handed b → a ≡ b
handed-inj {A} {a} e = ap (λ (o : PollOutcome A). elim o [ handed x ↦ x | _ ↦ a ]) e

collect-handed :
    {A : Type 0} (mint : ℕ → Option A) (user : ℕ) (rows : List LinkRequest) (n : ℕ) (tokens : A)
    → (collected mint user (rows, n)).1 ≡ handed tokens
    → ((n == 1) ≡ true) × (mint user ≡ some tokens)
collect-handed mint user rows n tokens e = elim (Bool-cases (n == 1)) [
  | inr lost ↦ absurd (not_handed (rw lost at e))
  | inl won ↦ elim (Option-cases (mint user)) [
    | inl refused ↦ absurd (not_denied (rw (won, refused) at e))
    | inr (t, granted) ↦ (won, granted ∙ ap some (handed-inj (rw (won, granted) at e)))
  ]
]
  where
    not_handed : was_expired ≡ handed tokens → ⊥
    not_handed x = cc

    not_denied : was_denied ≡ handed tokens → ⊥
    not_denied x = cc

logged-won :
    (id user n : ℕ) (log : List (ℕ × ℕ)) → (n == 1) ≡ true → logged id user n log ≡ (id, user) ∷ log
logged-won id user n log won = rw won

approved_row : (r : LinkRequest) (now : ℕ) → to_status r now ≡ approved → r.status ≡ approved
unfolding to_status
approved_row r now e = ground (arith, e)

module _ {A : Type 0} (mint : ℕ → Option A) (id digest : ℕ) (w : World) (reach : Reach w) where
  -- What stands behind tokens that were handed out.
  pub record IsOwed (mints : List (ℕ × ℕ)) (tokens : A) : Type 0 where
    pub row : LinkRequest
    pub user : ℕ
    pub present : Memᴰ row w.links.requests
    pub asked : row.id ≡ id
    pub secret : row.poll_secret_hash ≡ digest
    pub status : row.status ≡ approved
    pub owner : row.user ≡ some user
    pub once_more : mints ≡ (id, user) ∷ w.mints
    pub granted : mint user ≡ some tokens

  -- A world in which the statements of a call have run: the call's rows, and one more mint if tokens
  -- were handed out.
  pub record IsRun (out : List LinkRequest × PollOutcome A) : Type 0 where
    pub world : World
    pub reached : Reach world
    pub links : world.links ≡ record w.links { requests = out.0 }
    pub minted : (tokens : A) → out.1 ≡ handed tokens → IsOwed world.mints tokens

  unchanged :
      (o : PollOutcome A) → ((tokens : A) → o ≡ handed tokens → ⊥) → IsRun (w.links.requests, o)
  unchanged o h = record {
    world = w;
    reached = reach;
    links = refl;
    minted = λ t e. absurd (h t e);
  }

  module _ (r : LinkRequest) (m : Memᴰ r w.links.requests) (same : r.id ≡ id)
      (right : r.poll_secret_hash ≡ digest) (now : ℕ) where
    abbrev was_read : Reach (record w { reads = r ∷ w.reads })
    was_read = later reach (read r m)

    settle_expiry-IsRun : IsRun (settle_expiry r now w.links.requests, was_expired)
    settle_expiry-IsRun = record {
      world = _;
      reached = later was_read (settle r now (Memᴰ.head refl));
      links = refl;
      minted = λ t e. absurd (differ t e);
    }
      where
        differ : (tokens : A) → was_expired ≡ handed tokens → ⊥
        differ t e = cc

    poll_pending-IsRun : IsRun (poll_pending r now w.links.requests)
    poll_pending-IsRun =
        elim (ltb (now - last_poll r) (poll_interval_sec * 1000 / 2))
          as (λ b. IsRun (
            if b then (w.links.requests, slow_down) else (
              update_where (has_id r.id) (polled_at now) w.links.requests,
              still_pending poll_interval_sec,
            ))) [
              | true ↦ unchanged slow_down (λ t e. cc)
              | false ↦ record {
                world = _;
                reached = later was_read (note_poll r now (Memᴰ.head refl));
                links = refl;
                minted = λ t e. absurd (differ t e);
              }
            ]
      where
        differ : (tokens : A) → still_pending poll_interval_sec ≡ handed tokens → ⊥
        differ t e = cc

    collect-IsRun :
        (user : ℕ)
        → to_status r now ≡ approved
        → r.user ≡ some user
        → IsRun (collected mint user (claim_used r.id now w.links.requests))
    unfolding after_collection
    collect-IsRun user e own = record {
      world = _;
      reached = later was_read (collect r user now (Memᴰ.head refl) e own);
      links =
          ap (λ rows. record w.links { requests = rows })
            (sym (
              collect-rows mint user (claim_used r.id now w.links.requests).0
                (claim_used r.id now w.links.requests).1));
      minted = λ t h.
          let (won, granted) =
            collect-handed mint user (claim_used r.id now w.links.requests).0
              (claim_used r.id now w.links.requests).1 t h in
          record {
            row = r;
            user = user;
            present = m;
            asked = same;
            secret = right;
            status = approved_row r now e;
            owner = own;
            once_more =
                logged-won r.id user (claim_used r.id now w.links.requests).1 w.mints won
                ∙ ap (λ i. (i, user) ∷ w.mints) same;
            granted = granted;
          };
    }

    approved-IsRun :
        (o : Option ℕ)
        → to_status r now ≡ approved
        → r.user ≡ o
        → IsRun (elim o [
          | none ↦ (w.links.requests, was_expired)
          | some user ↦ collected mint user (claim_used r.id now w.links.requests)
        ])
    approved-IsRun none e own = unchanged was_expired (λ t h. cc)
    approved-IsRun (some user) e own = collect-IsRun user e own

    status-IsRun :
        (s : RequestStatus)
        → to_status r now ≡ s
        → IsRun (elim s [
          | pending ↦ poll_pending r now w.links.requests
          | approved ↦ elim r.user [
            | none ↦ (w.links.requests, was_expired)
            | some user ↦ collected mint user (claim_used r.id now w.links.requests)
          ]
          | expired ↦ (settle_expiry r now w.links.requests, was_expired)
          | used ↦ (w.links.requests, was_expired)
          | denied ↦ (w.links.requests, was_denied)
        ])
    status-IsRun pending e = poll_pending-IsRun
    status-IsRun approved e = approved-IsRun r.user e refl
    status-IsRun expired e = settle_expiry-IsRun
    status-IsRun used e = unchanged was_expired (λ t h. cc)
    status-IsRun denied e = unchanged was_denied (λ t h. cc)

  secret-IsRun :
      (r : LinkRequest)
      → Memᴰ r w.links.requests
      → r.id ≡ id
      → (now : ℕ) → (b : Bool) → (r.poll_secret_hash == digest) ≡ b
      → IsRun
          (if not b then (w.links.requests, unknown) else poll_status mint r now w.links.requests)
  unfolding poll_status
  secret-IsRun r m same now false e = unchanged unknown (λ t h. cc)
  secret-IsRun r m same now true e =
      status-IsRun r m same (ground (arith, e)) now (to_status r now) refl

  found-IsRun :
      (now : ℕ) (o : Option LinkRequest)
      → find_where (has_id id) w.links.requests ≡ o
      → IsRun (elim o [
        | none ↦ (w.links.requests, unknown)
        | some r ↦
            if not (r.poll_secret_hash == digest)
            then (w.links.requests, unknown)
            else poll_status mint r now w.links.requests
      ])
  found-IsRun now none e = unchanged unknown (λ t h. cc)
  found-IsRun now (some r) e =
      let (m, p) = find_where-Mem (has_id id) w.links.requests e in
      secret-IsRun r m (ground (arith, p)) now (r.poll_secret_hash == digest) refl

  -- A poll is a run of the interleaved statements: from a world that can be reached it leads to one with
  -- the rows that it returns. Tokens are only handed out for a request that was approved, to whoever
  -- offers its poll secret, and are those of the account that approved it; the mint is logged.
  pub poll_link-IsRun : (now : ℕ) → IsRun (poll_link mint id digest now w.links.requests)
  unfolding poll_link
  poll_link-IsRun now = found-IsRun now (find_where (has_id id) w.links.requests) refl
