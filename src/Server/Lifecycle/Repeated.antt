-- ===== src/Server/Lifecycle/Repeated.antt =====
-- A failure reported for a setup that was already confirmed.
use gluk_vpn.Common.{
  ℕ, false, none, some, List, [], ◌∷◌, ◌≡◌, ◌≢◌, refl, sym, ap, subst, ◌∙◌, ◌==◌, ==_iff, All,
  get_elem?, set, Bool-cases, Option-cases, inl, inr,
}
use gluk_vpn.Server.Store
use gluk_vpn.Server.Store.{Session, IpLease, add_peer, done, NodeCommand, Db}
use gluk_vpn.Server.Commands.{
  free_if, release_lease, update_pending, complete_command, ack_effect, ack, fail_session,
}

freed : (i : ℕ) (l : IpLease) → (free_if (λ t. t == i) l).session ≢ some i
freed i l e = elim (Option-cases l.session) [
  | inl held ↦
      let same : free_if (λ t. t == i) l ≡ l = rw held refl in
      let bad : none ≡ some i = sym held ∙ ap (λ (x : IpLease). x.session) (sym same) ∙ e in cc
  | inr (t, held) ↦ elim (Bool-cases (t == i)) [
    | inl on ↦
        let same : free_if (λ t. t == i) l ≡ record l { session = none } = rw (held, on) refl in
        let bad : none ≡ some i = ap (λ (x : IpLease). x.session) (sym same) ∙ e in cc
    | inr off ↦
        let same : free_if (λ t. t == i) l ≡ l = rw (held, off) refl in
        let still : some t ≡ some i = sym held ∙ ap (λ (x : IpLease). x.session) (sym same) ∙ e in
        let eq : t ≡ i = cc in let yes = (==_iff t i).1 eq in cc
  ]
]

released :
    (i : ℕ) (ls : List IpLease) → All (λ (l : IpLease). l.session ≢ some i) (release_lease i ls)
unfolding release_lease
released i [] = tt
released i (l ∷ ls) = (freed i l, released i ls)

refused_setup :
    (now : ℕ) (c : NodeCommand) (db : Db)
    → c.type_of ≡ add_peer
    → ack_effect now false c db ≡ record db {
      sessions = update_pending c.session (fail_session now) db.sessions;
      leases = release_lease c.session db.leases;
    }
unfolding ack_effect
refused_setup now c db ty = rw (ack_effect, ty) refl

-- A failure that is reported for a setup which the node confirmed before frees the address of the
-- session although the session stays active.
pub ack-frees_active :
    (now node i : ℕ) (c : NodeCommand) (s : Session) (db : Db)
    → get_elem? db.commands i ≡ some c
    → c.node ≡ node
    → c.type_of ≡ add_peer
    → c.status ≡ done
    → get_elem? db.sessions c.session ≡ some s
    → s.status ≡ Store.active
    → (get_elem? (ack now node false i db).sessions c.session ≡ some s)
      × All (λ (l : IpLease). l.session ≢ some c.session) (ack now node false i db).leases
unfolding ack update_pending
ack-frees_active now node i c s db at on ty st row live =
    let kept : update_pending c.session (fail_session now) db.sessions ≡ db.sessions =
      rw (update_pending, row, live) refl in
    let after = record db { commands = set db.commands i (complete_command false c) } in
    let handled : ack now node false i db ≡ ack_effect now false c after =
      rw (ack, at, (==_iff c.node node).1 on) refl in
    let run = handled ∙ refused_setup now c after ty in
    let sessions_kept = ap (λ (x : Db). x.sessions) run ∙ kept in
    (
      ap (λ ss. get_elem? ss c.session) sessions_kept ∙ row,
      subst (λ (x : Db). All (λ (l : IpLease). l.session ≢ some c.session) x.leases) (sym run)
          (released c.session db.leases),
    )
