-- ===== src/Server/Lifecycle/Sound.antt =====
-- What holds of sessions, leases and commands between two steps, and which changes keep it.
use gluk_vpn.Common.{
  ℕ, Bool, true, false, some, List, [], ◌∷◌, map, ◌<◌, ◌≡◌, ◌≢◌, inl, inr, refl, sym, ap, ◌∙◌,
  arith, All, length, get_elem?, get_elem?-map, if◌then◌else◌, Bool-cases,
}
use mathlib.Core.List.{Memᴰ}
use gluk_vpn.Server.Store
use gluk_vpn.Server.Store.{
  SessionStatus, is_live_status, Session, IpLease, CommandType, add_peer, remove_peer,
  CommandStatus, NodeCommand, Db,
}
use gluk_vpn.Server.Commands.{is_open}

abbrev pub IsLive : Session → Type 0
IsLive s = is_live_status s.status ≡ true

-- Session `i` holds its address.
pub record Holds (ls : List IpLease) (i : ℕ) (s : Session) : Type 0 where
  pub lease : IpLease
  pub listed : Memᴰ lease ls
  pub held : lease.session ≡ some i
  pub node : lease.node ≡ s.node
  pub ip : lease.ip ≡ s.ip

-- No address of a node is listed twice.
abbrev pub Differ : IpLease → IpLease → Type 0
Differ l m = l.node ≡ m.node → l.ip ≢ m.ip

abbrev pub IsPool : List IpLease → Type 0
IsPool [] = Unit
IsPool (l ∷ ls) = All (Differ l) ls × IsPool ls

-- A removal is sent for a session that is over, and a setup that is not answered yet for one that
-- is not active.
pub record IsTimely (ss : List Session) (c : NodeCommand) : Type 0 where
  pub known : c.session < length ss
  pub removal :
      c.type_of ≡ remove_peer
      → (s : Session) → get_elem? ss c.session ≡ some s
      → is_live_status s.status ≡ false
  pub setup :
      c.type_of ≡ add_peer
      → is_open c.status ≡ true
      → (s : Session) → get_elem? ss c.session ≡ some s
      → s.status ≢ Store.active

pub record IsSound (db : Db) : Type 0 where
  pub held :
      (i : ℕ) (s : Session) → get_elem? db.sessions i ≡ some s → IsLive s → Holds db.leases i s
  pub pool : IsPool db.leases
  pub timely : (k : ℕ) (c : NodeCommand) → get_elem? db.commands k ≡ some c → IsTimely db.sessions c
  pub once :
      (j k : ℕ) (c d : NodeCommand)
      → get_elem? db.commands j ≡ some c
      → get_elem? db.commands k ≡ some d
      → c.type_of ≡ add_peer
      → d.type_of ≡ add_peer
      → c.session ≡ d.session
      → j ≡ k
  pub one_each :
      (i j : ℕ) (s t : Session)
      → get_elem? db.sessions i ≡ some s
      → get_elem? db.sessions j ≡ some t
      → IsLive s
      → IsLive t
      → s.device ≡ t.device
      → i ≡ j

-- Rows that were only closed, or left as they were.
pub record Shrinks (ss ss' : List Session) : Type 0 where
  pub same_length : length ss' ≡ length ss
  pub from_old :
      (i : ℕ) (s' : Session)
      → get_elem? ss' i ≡ some s'
      → ((s : Session) × (get_elem? ss i ≡ some s)
          × (s'.device ≡ s.device)
          × (s'.node ≡ s.node)
          × (s'.ip ≡ s.ip)
          × (IsLive s' → s'.status ≡ s.status))

pub shrink-IsSound :
    (db : Db) (ss' : List Session)
    → Shrinks db.sessions ss'
    → IsSound db
    → IsSound (record db { sessions = ss' })
shrink-IsSound db ss' sh h = record {
  held = λ i s' e live.
      let (s, old, d, n, a, st) = sh.from_old i s' e in
      let was = h.held i s old (ap is_live_status (sym (st live)) ∙ live) in
      record {
        lease = was.lease;
        listed = was.listed;
        held = was.held;
        node = was.node ∙ sym n;
        ip = was.ip ∙ sym a;
      };
  pool = h.pool;
  timely = λ k c e.
      let t = h.timely k c e in
      record {
        known = omega (arith, t.known, sh.same_length);
        removal = λ r s' e'.
            let (s, old, d, n, a, st) = sh.from_old c.session s' e' in
            (elim (Bool-cases (is_live_status s'.status)) [
              | inl live ↦
                  let was = t.removal r s old in
                  let now_live = ap is_live_status (sym (st live)) ∙ live in cc
              | inr over ↦ over
            ]);
        setup = λ a' o s' e' act.
            let (s, old, d, n, a, st) = sh.from_old c.session s' e' in
            t.setup a' o s old (sym (st (ap is_live_status act)) ∙ act);
      };
  once = h.once;
  one_each = λ i j s' t' e e' l l' same.
      let (s, old, d, n, a, st) = sh.from_old i s' e in
      let (t, old', d', n', a', st') = sh.from_old j t' e' in
      h.one_each i j s t old old' (ap is_live_status (sym (st l)) ∙ l)
        (ap is_live_status (sym (st' l')) ∙ l') (sym d ∙ same ∙ d');
}

-- Commands whose statuses changed, none from answered to open.
pub follow-IsSound :
    (db : Db) (cs' : List NodeCommand)
    → ((k : ℕ) (c' : NodeCommand)
        → get_elem? cs' k ≡ some c'
        → ((c : NodeCommand) × (get_elem? db.commands k ≡ some c)
            × (c'.type_of ≡ c.type_of)
            × (c'.session ≡ c.session)
            × (is_open c'.status ≡ true → is_open c.status ≡ true)))
    → IsSound db
    → IsSound (record db { commands = cs' })
follow-IsSound db cs' fo h = record {
  held = h.held;
  pool = h.pool;
  timely = λ k c' e.
      let (c, old, ty, se, op) = fo k c' e in
      let t = h.timely k c old in
      record {
        known = omega (arith, t.known, se);
        removal = λ r s e'. t.removal (sym ty ∙ r) s (ap (get_elem? db.sessions) (sym se) ∙ e');
        setup =
            λ a o s e'. t.setup (sym ty ∙ a) (op o) s (ap (get_elem? db.sessions) (sym se) ∙ e');
      };
  once = λ j k c' d' e e' a a' same.
      let (c, old, ty, se, op) = fo j c' e in
      let (d, old', ty', se', op') = fo k d' e' in
      h.once j k c d old old' (sym ty ∙ a) (sym ty' ∙ a') (sym se ∙ same ∙ se');
  one_each = h.one_each;
}

-- A change of each command alone.
pub map-IsSound :
    (db : Db) (f : NodeCommand → NodeCommand)
    → ((c : NodeCommand)
        → ((f c).type_of ≡ c.type_of)
          × ((f c).session ≡ c.session)
          × (is_open (f c).status ≡ true → is_open c.status ≡ true))
    → IsSound db
    → IsSound (record db { commands = map f db.commands })
map-IsSound db f same h =
    follow-IsSound db (map f db.commands)
      (λ k c' e.
        let (c, old, fc) = get_elem?-map f db.commands k e in
        let (ty, se, op) = same c in
        (
          c,
          old,
          ap (λ (x : NodeCommand). x.type_of) (sym fc) ∙ ty,
          ap (λ (x : NodeCommand). x.session) (sym fc) ∙ se,
          λ o. op (ap (λ (x : NodeCommand). is_open x.status) fc ∙ o),
        ))
      h

-- The condition on a change of one command.
abbrev pub IsUpdate : NodeCommand → NodeCommand → Type 0
IsUpdate c c' =
    (c'.type_of ≡ c.type_of)
    × (c'.session ≡ c.session)
    × (is_open c'.status ≡ true → is_open c.status ≡ true)

pub if-IsUpdate : (b : Bool) (c c' : NodeCommand) → IsUpdate c c' → IsUpdate c (if b then c' else c)
if-IsUpdate true c c' h = h
if-IsUpdate false c c' h = (refl, refl, λ o. o)
