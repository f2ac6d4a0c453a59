-- ===== src/Server/Lifecycle/Answering.antt =====
-- `IsSound` and the answers of a node.
use gluk_vpn.Common.{
  ℕ, Bool, true, false, some, List, ◌≡◌, ◌≢◌, ◌⊎◌, inl, inr, refl, sym, ap, ◌∙◌, arith, ◌==◌,
  if◌then◌else◌, set, length-set, get_elem?, get_elem?-set_cases, Bool-cases, Option-cases,
}
use gluk_vpn.Server.Store
use gluk_vpn.Server.Store.{
  is_live_status, Session, IpLease, CommandType, add_peer, remove_peer, CommandStatus, queued,
  delivered, done, undone, NodeCommand, Db,
}
use gluk_vpn.Server.Commands.{
  is_open, complete_command, release_lease, update_pending, activate, fail_session, ack_effect, ack,
}
use gluk_vpn.Server.Lifecycle.Sound.{IsSound, shrink-IsSound, follow-IsSound, IsUpdate, if-IsUpdate}
use gluk_vpn.Server.Lifecycle.Closing.{close_row-Shrinks}
use gluk_vpn.Server.Lifecycle.Delivering.{release-IsSound}

answered : (good : Bool) → is_open (if good then done else undone) ≡ false
answered true = refl
answered false = refl

completed_over : (good : Bool) (c : NodeCommand) → is_open (complete_command good c).status ≡ false
unfolding complete_command
completed_over good c = elim (Bool-cases (is_open c.status)) [
  | inl e ↦ rw (complete_command, e) (answered good)
  | inr e ↦ rw (complete_command, e) e
]

-- An answer to a command closes it.
completed-IsUpdate : (good : Bool) (c : NodeCommand) → IsUpdate c (complete_command good c)
unfolding complete_command
completed-IsUpdate good c =
    if-IsUpdate (is_open c.status) c _ (refl, refl, λ o. let a = answered good in cc)

set-IsSound :
    (db : Db) (i : ℕ) (c c' : NodeCommand)
    → get_elem? db.commands i ≡ some c
    → IsUpdate c c'
    → IsSound db
    → IsSound (record db { commands = set db.commands i c' })
set-IsSound db i c c' at (ty, se, op) h =
    follow-IsSound db (set db.commands i c')
      (λ k d e. elim (get_elem?-set_cases db.commands i k c' e) [
        | inl (same, new) ↦ (
          c,
          ap (get_elem? db.commands) (sym same) ∙ at,
          ap (λ (x : NodeCommand). x.type_of) (sym new) ∙ ty,
          ap (λ (x : NodeCommand). x.session) (sym new) ∙ se,
          λ o. op (ap (λ (x : NodeCommand). is_open x.status) new ∙ o),
        )
        | inr (off, old) ↦ (d, old, refl, refl, λ o. o)
      ])
      h

-- A waiting row that becomes active is the row it was, with the same address.
activated :
    (ss : List Session) (i : ℕ) (s : Session) (j : ℕ) (t : Session)
    → get_elem? ss i ≡ some s
    → s.status ≡ Store.pending
    → get_elem? (set ss i (activate s)) j ≡ some t
    → (u : Session) × (get_elem? ss j ≡ some u)
      × (t.device ≡ u.device)
      × (t.node ≡ u.node)
      × (t.ip ≡ u.ip)
      × (is_live_status t.status ≡ is_live_status u.status)
      × ((i ≡ j) ⊎ (t.status ≡ u.status))
activated ss i s j t at waits e = elim (get_elem?-set_cases ss i j (activate s) e) [
  | inl (same, new) ↦ (
    s,
    ap (get_elem? ss) (sym same) ∙ at,
    ap (λ (x : Session). x.device) (sym new),
    ap (λ (x : Session). x.node) (sym new),
    ap (λ (x : Session). x.ip) (sym new),
    ap (λ (x : Session). is_live_status x.status) (sym new) ∙ sym (ap is_live_status waits),
    inl same,
  )
  | inr (off, old) ↦ (t, old, refl, refl, refl, refl, inr refl)
]

active_row-IsSound :
    (db : Db) (i : ℕ) (s : Session)
    → get_elem? db.sessions i ≡ some s
    → s.status ≡ Store.pending
    → ((k : ℕ) (c : NodeCommand)
        → get_elem? db.commands k ≡ some c
        → c.type_of ≡ add_peer
        → c.session ≡ i
        → is_open c.status ≡ false)
    → IsSound db
    → IsSound (record db { sessions = set db.sessions i (activate s) })
active_row-IsSound db i s at waits closed h = record {
  held = λ j t e live.
      let (u, old, d, n, a, l, st) = activated db.sessions i s j t at waits e in
      let was = h.held j u old (sym l ∙ live) in
      record {
        lease = was.lease;
        listed = was.listed;
        held = was.held;
        node = was.node ∙ sym n;
        ip = was.ip ∙ sym a;
      };
  pool = h.pool;
  timely = λ k c e.
      let was = h.timely k c e in
      record {
        known = omega (arith, was.known, length-set db.sessions i (activate s));
        removal = λ r t e'.
            let (u, old, d, n, a, l, st) = activated db.sessions i s c.session t at waits e' in
            l ∙ was.removal r u old;
        setup = λ ty o t e' act.
            let (u, old, d, n, a, l, st) = activated db.sessions i s c.session t at waits e' in
            (elim st [
              | inl same ↦ let bad = closed k c e ty (sym same) in cc
              | inr same ↦ was.setup ty o u old (sym same ∙ act)
            ]);
      };
  once = h.once;
  one_each = λ j k t t' e e' live live' same.
      let (u, old, d, n, a, l, st) = activated db.sessions i s j t at waits e in
      let (u', old', d', n', a', l', st') = activated db.sessions i s k t' at waits e' in
      h.one_each j k u u' old old' (sym l ∙ live) (sym l' ∙ live') (sym d ∙ same ∙ d');
}

-- The session whose setup was answered becomes active.
activate-IsSound :
    (db : Db) (i : ℕ)
    → ((k : ℕ) (c : NodeCommand)
        → get_elem? db.commands k ≡ some c
        → c.type_of ≡ add_peer
        → c.session ≡ i
        → is_open c.status ≡ false)
    → IsSound db
    → IsSound (record db { sessions = update_pending i activate db.sessions })
unfolding update_pending
activate-IsSound db i closed h = elim (Option-cases (get_elem? db.sessions i)) [
  | inl e ↦ rw (update_pending, e) h
  | inr (s, e) ↦ go s.status e refl
]
  where
    go :
        {s : Session} (x : Store.SessionStatus)
        → get_elem? db.sessions i ≡ some s
        → s.status ≡ x
        → IsSound (record db { sessions = update_pending i activate db.sessions })
    go Store.active e st = rw (update_pending, e, st) h
    go Store.closed e st = rw (update_pending, e, st) h
    go Store.failed e st = rw (update_pending, e, st) h
    go {s} Store.pending e st = rw (update_pending, e, st) (active_row-IsSound db i s e st closed h)

-- The session whose setup failed is over.
failing-IsSound :
    (now i : ℕ) (db : Db)
    → ((s : Session) → get_elem? db.sessions i ≡ some s → s.status ≢ Store.active)
    → IsSound db
    → IsSound (record db {
      sessions = update_pending i (fail_session now) db.sessions;
      leases = release_lease i db.leases;
    })
unfolding update_pending
failing-IsSound now i db inactive h = elim (Option-cases (get_elem? db.sessions i)) [
  | inl e ↦ rw (update_pending, e) (release-IsSound db i (λ s at. cc) h)
  | inr (s, e) ↦ go s.status e refl
]
  where
    over_already :
        {s : Session}
        → get_elem? db.sessions i ≡ some s
        → is_live_status s.status ≡ false
        → IsSound (record db { leases = release_lease i db.leases })
    over_already {s} e over =
        release-IsSound db i
          (λ t at.
            let same : some s ≡ some t = sym e ∙ at in
            let st : s ≡ t = cc in ap (λ (x : Session). is_live_status x.status) (sym st) ∙ over)
          h

    go :
        {s : Session} (x : Store.SessionStatus)
        → get_elem? db.sessions i ≡ some s
        → s.status ≡ x
        → IsSound (record db {
          sessions = update_pending i (fail_session now) db.sessions;
          leases = release_lease i db.leases;
        })
    go {s} Store.active e st = absurd (inactive s e st)
    go Store.closed e st = rw (update_pending, e, st) (over_already e (ap is_live_status st))
    go Store.failed e st = rw (update_pending, e, st) (over_already e (ap is_live_status st))
    go {s} Store.pending e st =
        rw (update_pending, e, st)
          (release-IsSound (record db { sessions = set db.sessions i (fail_session now s) }) i
            (λ t at. elim (get_elem?-set_cases db.sessions i i (fail_session now s) at) [
              | inl (same, new) ↦ ap (λ (x : Session). is_live_status x.status) (sym new)
              | inr (off, old) ↦ absurd (off refl)
            ])
            (shrink-IsSound db (set db.sessions i (fail_session now s))
              (close_row-Shrinks db.sessions i s (fail_session now s) e refl refl refl refl) h))

-- The answer of a node: the effect, on tables in which the command is completed.
effect-IsSound :
    (now : ℕ) (good : Bool) (i : ℕ) (c : NodeCommand) (db : Db)
    → get_elem? db.commands i ≡ some c
    → (good ≡ false → is_open c.status ≡ true)
    → IsSound db
    → IsSound (
        ack_effect now good c
          (record db { commands = set db.commands i (complete_command good c) }))
unfolding ack_effect
effect-IsSound now good i c db at fresh h = go good c.type_of refl refl
  where
    after : Db
    after = record db { commands = set db.commands i (complete_command good c) }

    answered_once :
        (k : ℕ) (d : NodeCommand)
        → c.type_of ≡ add_peer
        → get_elem? after.commands k ≡ some d
        → d.type_of ≡ add_peer
        → d.session ≡ c.session
        → is_open d.status ≡ false
    answered_once k d ty e ty' same =
        elim (get_elem?-set_cases db.commands i k (complete_command good c) e) [
          | inl (here, new) ↦
              ap (λ (x : NodeCommand). is_open x.status) (sym new) ∙ completed_over good c
          | inr (off, old) ↦ absurd (off (h.once i k c d at old ty ty' (sym same)))
        ]

    sound : IsSound after
    sound = set-IsSound db i c (complete_command good c) at (completed-IsUpdate good c) h

    go :
        (g : Bool) (ty : CommandType)
        → good ≡ g
        → c.type_of ≡ ty
        → IsSound (ack_effect now g c after)
    go true add_peer g e =
        rw (ack_effect, e)
          (activate-IsSound after c.session (λ k d at' ty same. answered_once k d e at' ty same)
            sound)
    go false add_peer g e =
        rw (ack_effect, e)
          (failing-IsSound now c.session after (λ s at'. (h.timely i c at).setup e (fresh g) s at')
            sound)
    go true remove_peer g e =
        rw (ack_effect, e)
          (release-IsSound after c.session (λ s at'. (h.timely i c at).removal e s at') sound)
    go false remove_peer g e = rw (ack_effect, e) sound

pub ack-IsSound :
    (now node : ℕ) (good : Bool) (i : ℕ) (db : Db)
    → ((c : NodeCommand)
        → get_elem? db.commands i ≡ some c
        → good ≡ false
        → is_open c.status ≡ true)
    → IsSound db
    → IsSound (ack now node good i db)
unfolding ack
ack-IsSound now node good i db fresh h = elim (Option-cases (get_elem? db.commands i)) [
  | inl e ↦ rw (ack, e) h
  | inr (c, e) ↦ elim (Bool-cases (c.node == node)) [
    | inl on ↦ rw (ack, e, on) (effect-IsSound now good i c db e (fresh c e) h)
    | inr off ↦ rw (ack, e, off) h
  ]
]
