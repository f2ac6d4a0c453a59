-- ===== src/Server/Admission/Opened.antt =====
-- What `createSessionWithLease` writes when it succeeds.
use gluk_vpn.Common.{
  subst, arith, Option, ℕ, zero, suc, true, false, none, some, List, [], ◌∷◌, ◌++◌, ◌≡◌, refl, sym,
  ap, ◌==◌, ==_iff, get_elem?, set, length, Bool-cases, Option-cases, inl, inr,
}
use gluk_vpn.Server.Store.{VpnNode, IpLease, Db, no_address, ok}
use gluk_vpn.Server.Results.{found-ok, bind-ok, ok-inj}
use gluk_vpn.Server.Ip.{int_to_ip}
use gluk_vpn.Server.Admission.{
  text_before, one_further, sooner, first_free, Plan, is_free_on, free_lease, claim_lease,
  session_of, command_of, gate, open_session, is_race, create_session_once, create_session,
}
use gluk_vpn.Server.Admission.Gate.{IsAdmitted, gate_lem}

-- The tables with a new session at position `i` of the leases.
abbrev pub opened : ℕ → ℕ → ℕ → ℕ → ℕ → IpLease → Db → Db
opened now user device node i l db = record db {
  sessions = db.sessions ++ session_of now user device node l.ip ∷ [];
  leases = set db.leases i (record l { session = some (length db.sessions) });
  commands = db.commands ++ command_of node (length db.sessions) ∷ [];
}

pub record IsOpened (window now user device version node : ℕ) (plan : Plan) (db db' : Db) (s : ℕ)
    : Type 0 where
  pub vpn_node : VpnNode
  pub admitted : IsAdmitted window now user device version node plan db vpn_node
  pub position : ℕ
  pub lease : IpLease
  pub at : get_elem? db.leases position ≡ some lease
  pub of_node : lease.node ≡ node
  pub free : lease.session ≡ none
  pub new_id : s ≡ length db.sessions
  pub tables : db' ≡ opened now user device node position lease db

IsFreeAt : ℕ → List IpLease → ℕ → Type 0
IsFreeAt n ls i = (l : IpLease) × (get_elem? ls i ≡ some l) × (l.node ≡ n) × (l.session ≡ none)

is_free_on_lem : (n : ℕ) (l : IpLease) → is_free_on n l ≡ true → (l.node ≡ n) × (l.session ≡ none)
is_free_on_lem n l e = elim (Bool-cases (l.node == n)) [
  | inr off ↦ ground arith
  | inl on ↦ elim (Option-cases l.session) [
    | inl free ↦ ((==_iff l.node n).0 on, free)
    | inr (s, held) ↦ let bad : is_free_on n l ≡ false = rw (on, held) refl in cc
  ]
]

AllFree : ℕ → List IpLease → Option (ℕ × ℕ) → Type 0
AllFree n ls none = Unit
AllFree n ls (some (i, ip)) = IsFreeAt n ls i

further :
    (n : ℕ) (l : IpLease) (ls : List IpLease) (o : Option (ℕ × ℕ))
    → AllFree n ls o
    → AllFree n (l ∷ ls) (one_further o)
unfolding AllFree IsFreeAt
further n l ls none h = h
further n l ls (some (i, ip)) h = h

chosen :
    (n : ℕ) (l : IpLease) (ls : List IpLease) (o : Option (ℕ × ℕ))
    → (l.node ≡ n) × (l.session ≡ none)
    → AllFree n ls o
    → AllFree n (l ∷ ls) (sooner l.ip o)
unfolding AllFree IsFreeAt
chosen n l ls none (on, free) h = (l, refl, on, free)
chosen n l ls (some (i, other)) (on, free) h =
    elim (Bool-cases (text_before (int_to_ip other) (int_to_ip l.ip))) [
      | inl e ↦ rw (sooner, e) h
      | inr e ↦ rw (sooner, e) (l, refl, on, free)
    ]

first_free-AllFree : (n : ℕ) (ls : List IpLease) → AllFree n ls (first_free n ls)
unfolding first_free AllFree
first_free-AllFree n [] = tt
first_free-AllFree n (l ∷ ls) = elim (Bool-cases (is_free_on n l)) [
  | inl e ↦
      rw (first_free, e)
        (chosen n l ls (first_free n ls) (is_free_on_lem n l e) (first_free-AllFree n ls))
  | inr e ↦ rw (first_free, e) (further n l ls (first_free n ls) (first_free-AllFree n ls))
]

pub free_lease_lem :
    (n : ℕ) (ls : List IpLease) (i : ℕ)
    → free_lease n ls ≡ some i
    → (l : IpLease) × (get_elem? ls i ≡ some l) × (l.node ≡ n) × (l.session ≡ none)
unfolding free_lease AllFree IsFreeAt
free_lease_lem n ls i e = elim (Option-cases (first_free n ls)) [
  | inl f ↦ let bad : none ≡ some i = rw (free_lease, f) at e in cc
  | inr (p, f) ↦
      let found : AllFree n ls (some p) = subst (AllFree n ls) f (first_free-AllFree n ls) in
      let given : some p.0 ≡ some i = rw (free_lease, f) at e in
      let same : p.0 ≡ i = cc in subst (IsFreeAt n ls) same found
]

-- A free lease is claimed by one row.
pub claim_free :
    (i s : ℕ) (ls : List IpLease) (l : IpLease)
    → get_elem? ls i ≡ some l
    → l.session ≡ none
    → claim_lease i s ls ≡ (set ls i (record l { session = some s }), 1)
unfolding claim_lease
claim_free i s ls l at free = rw (claim_lease, at, free) refl

pub create_once-IsOpened :
    (window now user device version node : ℕ) (plan : Plan) (db db' : Db) (s : ℕ)
    → create_session_once window now user device version node plan db ≡ ok (db', s)
    → IsOpened window now user device version node plan db db' s
unfolding create_session_once open_session
create_once-IsOpened window now user device version node plan db db' s e =
    let (n, passed, e1) = bind-ok (gate window now user device version node plan db) _ e in
    let (i, found, e2) = found-ok (free_lease node db.leases) no_address _ e1 in
    let (l, at, of_node, free) = free_lease_lem node db.leases i found in
    let result : ok (opened now user device node i l db, length db.sessions) ≡ ok (db', s) =
      rw (at, claim_free i (length db.sessions) db.leases l at free) at e2 in
    record {
      vpn_node = n;
      admitted = gate_lem window now user device version node plan db n passed;
      position = i;
      lease = l;
      at = at;
      of_node = of_node;
      free = free;
      new_id = sym (ap (λ (x : Db × ℕ). x.1) (ok-inj result));
      tables = sym (ap (λ (x : Db × ℕ). x.0) (ok-inj result));
    }

-- The retries of a lost race do not change what a success is.
pub create_session-IsOpened :
    (window now retries user device version node : ℕ) (plan : Plan) (db db' : Db) (s : ℕ)
    → create_session window now retries user device version node plan db ≡ ok (db', s)
    → IsOpened window now user device version node plan db db' s
unfolding create_session
create_session-IsOpened window now zero user device version node plan db db' s e =
    create_once-IsOpened window now user device version node plan db db' s e
create_session-IsOpened window now (suc k) user device version node plan db db' s e =
    elim (Bool-cases
      (is_race window now (create_session_once window now user device version node plan db))) [
        | inl race ↦
            create_session-IsOpened window now k user device version node plan db db' s
              (rw race at e)
        | inr over ↦
            create_once-IsOpened window now user device version node plan db db' s (rw over at e)
      ]
