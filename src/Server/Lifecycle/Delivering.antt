-- ===== src/Server/Lifecycle/Delivering.antt =====
-- `IsSound` and the commands that are delivered, and the addresses that are freed.
use gluk_vpn.Common.{
  ℕ, zero, suc, Bool, true, false, ◌&&◌, some, List, [], ◌∷◌, map, ◌≡◌, inl, inr, refl, sym, ap,
  ◌∙◌, arith, ◌==◌, ==_iff, if◌then◌else◌, ltb, get_elem?, Bool-cases, Option-cases,
}
use Prim.Native.Nat.{min, max}
use gluk_vpn.Server.Store.{
  is_live_status, Session, IpLease, CommandStatus, queued, delivered, done, undone, NodeCommand, Db,
}
use gluk_vpn.Server.Commands.{
  is_open, is_queued, cancel_stale, claim, claim_pending_commands, requeue, requeue_stale_commands,
  release_lease, deliver, is_stale_add, cancel, free_if,
}
use gluk_vpn.Server.Sessions.{is_over_before, reclaim_leases}
use gluk_vpn.Server.Lifecycle.Sound.{
  IsLive, IsSound, follow-IsSound, map-IsSound, IsUpdate, if-IsUpdate,
}
use gluk_vpn.Server.Lifecycle.Leases.{map-IsPool, map-kept}

Follows : List NodeCommand → List NodeCommand → Type 0
Follows cs cs' =
    (k : ℕ) (c' : NodeCommand)
    → get_elem? cs' k ≡ some c'
    → ((c : NodeCommand) × (get_elem? cs k ≡ some c)
        × (c'.type_of ≡ c.type_of)
        × (c'.session ≡ c.session)
        × (is_open c'.status ≡ true → is_open c.status ≡ true))

cons-Follows :
    (c c' : NodeCommand) (cs cs' : List NodeCommand)
    → IsUpdate c c'
    → Follows cs cs'
    → Follows (c ∷ cs) (c' ∷ cs')
unfolding Follows
cons-Follows c c' cs cs' u f zero d e =
    let same : c' ≡ d = cc in
    (
      c,
      refl,
      ap (λ (x : NodeCommand). x.type_of) (sym same) ∙ u.0,
      ap (λ (x : NodeCommand). x.session) (sym same) ∙ u.1,
      λ o. u.2 (ap (λ (x : NodeCommand). is_open x.status) same ∙ o),
    )
cons-Follows c c' cs cs' u f (suc k) d e = f k d e

claim-Follows : (now node take : ℕ) (cs : List NodeCommand) → Follows cs (claim now node take cs)
unfolding claim Follows
claim-Follows now node take [] = λ k c e. cc
claim-Follows now node zero (c ∷ cs) = λ k d e. (d, e, refl, refl, λ o. o)
claim-Follows now node (suc take) (c ∷ cs) =
    elim (Bool-cases (c.node == node && is_queued c.status)) [
      | inl hit ↦
          rw (claim, hit)
            (cons-Follows c (deliver now c) cs (claim now node take cs)
              (refl, refl, λ o. ground arith) (claim-Follows now node take cs))
      | inr miss ↦
          rw (claim, miss)
            (cons-Follows c c cs (claim now node (suc take) cs) (refl, refl, λ o. o)
              (claim-Follows now node (suc take) cs))
    ]

pub poll-IsSound :
    (now node limit : ℕ) (db : Db) → IsSound db → IsSound (claim_pending_commands now node limit db)
unfolding claim_pending_commands cancel_stale Follows
poll-IsSound now node limit db h =
    follow-IsSound (record db { commands = cancel_stale node db.sessions db.commands }) _
      (claim-Follows now node (min (max limit 1) 50) (cancel_stale node db.sessions db.commands))
      (map-IsSound db (λ c. if is_stale_add node db.sessions c then cancel c else c)
        (λ c. if-IsUpdate (is_stale_add node db.sessions c) c (cancel c) (refl, refl, λ o. cc)) h)

requeue-IsUpdate :
    (cutoff max_attempts : ℕ) (c : NodeCommand) → IsUpdate c (requeue cutoff max_attempts c)
requeue-IsUpdate cutoff max_attempts c = go c.status refl
  where
    go : (x : CommandStatus) → c.status ≡ x → IsUpdate c (requeue cutoff max_attempts c)
    go queued e = rw e (refl, refl, λ o. o)
    go done e = rw e (refl, refl, λ o. o)
    go undone e = rw e (refl, refl, λ o. o)
    go delivered e = elim (Bool-cases (ltb c.delivered_at cutoff)) [
      | inr young ↦ rw (e, young) (refl, refl, λ o. o)
      | inl old ↦ elim (Bool-cases (ltb c.attempts max_attempts)) [
        | inl more ↦ rw (e, old, more) (refl, refl, λ o. refl)
        | inr spent ↦ rw (e, old, spent) (refl, refl, λ o. refl)
      ]
    ]

pub requeue_all-IsSound :
    (cutoff max_attempts : ℕ) (db : Db)
    → IsSound db
    → IsSound (requeue_stale_commands cutoff max_attempts db)
unfolding requeue_stale_commands
requeue_all-IsSound cutoff max_attempts db h =
    map-IsSound db (requeue cutoff max_attempts) (requeue-IsUpdate cutoff max_attempts) h

-- Addresses are freed of sessions that are over.
drop-IsSound :
    (db : Db) (f : IpLease → IpLease)
    → ((l : IpLease) → ((f l).node ≡ l.node) × ((f l).ip ≡ l.ip))
    → ((l : IpLease) (i : ℕ) (s : Session)
        → l.session ≡ some i
        → get_elem? db.sessions i ≡ some s
        → IsLive s
        → f l ≡ l)
    → IsSound db
    → IsSound (record db { leases = map f db.leases })
drop-IsSound db f keep stay h = record {
  held = λ i s e live.
      let was = h.held i s e live in
      record {
        lease = was.lease;
        listed = map-kept f db.leases was.lease (stay was.lease i s was.held e live) was.listed;
        held = was.held;
        node = was.node;
        ip = was.ip;
      };
  pool = map-IsPool f db.leases keep h.pool;
  timely = h.timely;
  once = h.once;
  one_each = h.one_each;
}

free_if-same_address :
    (p : ℕ → Bool) (l : IpLease) → ((free_if p l).node ≡ l.node) × ((free_if p l).ip ≡ l.ip)
free_if-same_address p l = elim (Option-cases l.session) [
  | inl e ↦ rw e (refl, refl)
  | inr (i, e) ↦ elim (Bool-cases (p i)) [
    | inl f ↦ rw (e, f) (refl, refl)
    | inr f ↦ rw (e, f) (refl, refl)
  ]
]

kept_if : (p : ℕ → Bool) (l : IpLease) (i : ℕ) → l.session ≡ some i → p i ≡ false → free_if p l ≡ l
kept_if p l i e f = rw (e, f) refl

-- Addresses are freed of sessions that are over.
free-IsSound :
    (db : Db) (p : ℕ → Bool)
    → ((i : ℕ) (s : Session) → get_elem? db.sessions i ≡ some s → IsLive s → p i ≡ false)
    → IsSound db
    → IsSound (record db { leases = map (free_if p) db.leases })
free-IsSound db p over =
    drop-IsSound db (free_if p) (free_if-same_address p)
      (λ l i s e at live. kept_if p l i e (over i s at live))

pub release-IsSound :
    (db : Db) (i : ℕ)
    → ((s : Session) → get_elem? db.sessions i ≡ some s → is_live_status s.status ≡ false)
    → IsSound db
    → IsSound (record db { leases = release_lease i db.leases })
unfolding release_lease
release-IsSound db i over =
    free-IsSound db (λ t. t == i)
      (λ j s at live. elim (Bool-cases (j == i)) [
        | inr off ↦ off
        | inl on ↦
            let same = (==_iff j i).0 on in
            let bad = over s (ap (get_elem? db.sessions) (sym same) ∙ at) in cc
      ])

pub reclaim-IsSound : (cutoff : ℕ) (db : Db) → IsSound db → IsSound (reclaim_leases cutoff db)
unfolding reclaim_leases
reclaim-IsSound cutoff db =
    free-IsSound db (λ i. is_over_before cutoff (get_elem? db.sessions i))
      (λ i s at live. rw (at, live) refl)
