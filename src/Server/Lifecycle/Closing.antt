-- ===== src/Server/Lifecycle/Closing.antt =====
-- `IsSound` and the closing of sessions: lemmas on `closeSession` and on removals in the queue.
use gluk_vpn.Common.{
  ℕ, zero, suc, false, some, List, [], ◌∷◌, ◌≡◌, inl, inr, refl, sym, ap, subst, ◌∙◌, set,
  get_elem?, get_elem?-snoc, get_elem?-lt, get_elem?-set_cases, length-set, Bool-cases,
  Option-cases,
}
use gluk_vpn.Server.Store.{is_live_status, CloseReason, Session, remove_peer, NodeCommand, Db}
use gluk_vpn.Server.Commands.{enqueue_command, has_open_command}
use gluk_vpn.Server.Sessions.{close_row, close_session, close_each}
use gluk_vpn.Server.Lifecycle.Sound.{IsTimely, IsSound, Shrinks, shrink-IsSound}

-- Session `i` exists and is over.
abbrev pub IsOver : List Session → ℕ → Type 0
IsOver ss i = (s : Session) × (get_elem? ss i ≡ some s) × (is_live_status s.status ≡ false)

-- A removal may be queued for a session that is over.
pub removal-IsSound :
    (db : Db) (node i : ℕ)
    → IsOver db.sessions i
    → IsSound db
    → IsSound (record db { commands = enqueue_command node i remove_peer db.commands })
unfolding enqueue_command
removal-IsSound db node i (s, at, over) h = record {
  held = h.held;
  pool = h.pool;
  timely = λ k c e. elim (get_elem?-snoc db.commands _ k e) [
    | inl old ↦ h.timely k c old
    | inr (end, new) ↦ subst (IsTimely db.sessions) new (record {
      known = get_elem?-lt db.sessions i at;
      removal = λ r t e'.
          let same : some s ≡ some t = sym at ∙ e' in
          let st : s ≡ t = cc in ap (λ (x : Session). is_live_status x.status) (sym st) ∙ over;
      setup = λ a o t e' act. cc;
    })
  ];
  once = λ j k c d e e' a a' same. elim (get_elem?-snoc db.commands _ j e) [
    | inl old ↦ elim (get_elem?-snoc db.commands _ k e') [
      | inl old' ↦ h.once j k c d old old' a a' same
      | inr (end, new) ↦ let bad = ap (λ (x : NodeCommand). x.type_of) new ∙ a' in cc
    ]
    | inr (end, new) ↦ let bad = ap (λ (x : NodeCommand). x.type_of) new ∙ a in cc
  ];
  one_each = h.one_each;
}

-- One row is closed.
pub close_row-Shrinks :
    (ss : List Session) (i : ℕ) (s s' : Session)
    → get_elem? ss i ≡ some s
    → s'.device ≡ s.device
    → s'.node ≡ s.node
    → s'.ip ≡ s.ip
    → is_live_status s'.status ≡ false
    → Shrinks ss (set ss i s')
close_row-Shrinks ss i s s' at d n a over = record {
  same_length = length-set ss i s';
  from_old = λ j t e. elim (get_elem?-set_cases ss i j s' e) [
    | inl (same, new) ↦ (
      s,
      ap (get_elem? ss) (sym same) ∙ at,
      ap (λ (x : Session). x.device) (sym new) ∙ d,
      ap (λ (x : Session). x.node) (sym new) ∙ n,
      ap (λ (x : Session). x.ip) (sym new) ∙ a,
      λ live. let bad = ap (λ (x : Session). is_live_status x.status) new ∙ live in cc,
    )
    | inr (off, old) ↦ (t, old, refl, refl, refl, λ live. refl)
  ];
}

set-IsOver :
    (ss : List Session) (i : ℕ) (s s' : Session)
    → get_elem? ss i ≡ some s
    → is_live_status s'.status ≡ false
    → IsOver (set ss i s') i
set-IsOver [] i s s' at over = cc
set-IsOver (t ∷ ss) zero s s' at over = (s', refl, over)
set-IsOver (t ∷ ss) (suc i) s s' at over = set-IsOver ss i s s' at over

pub close_session-IsSound :
    (now : ℕ) (reason : CloseReason) (i : ℕ) (db : Db)
    → IsSound db
    → IsSound (close_session now reason i db)
unfolding close_session
close_session-IsSound now reason i db h = elim (Option-cases (get_elem? db.sessions i)) [
  | inl e ↦ rw (close_session, e) h
  | inr (s, e) ↦ elim (Bool-cases (is_live_status s.status)) [
    | inr over ↦ rw (close_session, e, over) h
    | inl live ↦
        let closed =
          shrink-IsSound db (set db.sessions i (close_row now reason s))
            (close_row-Shrinks db.sessions i s _ e refl refl refl refl) h in
        elim (Bool-cases (has_open_command s.node i remove_peer db.commands)) [
          | inl open_one ↦ rw (close_session, e, live, open_one) closed
          | inr fresh ↦
              rw (close_session, e, live, fresh)
                (removal-IsSound
                  (record db { sessions = set db.sessions i (close_row now reason s) }) s.node i
                  (set-IsOver db.sessions i s _ e refl) closed)
        ]
  ]
]

pub close_each-IsSound :
    (now : ℕ) (reason : CloseReason) (is : List ℕ) (db : Db)
    → IsSound db
    → IsSound (close_each now reason is db)
unfolding close_each
close_each-IsSound now reason [] db h = h
close_each-IsSound now reason (i ∷ is) db h =
    close_each-IsSound now reason is (close_session now reason i db)
      (close_session-IsSound now reason i db h)
