-- ===== src/Server/Tokens/Lookups.antt =====
-- Rows of refresh tokens that are found again after a rotation: control-server/src/services/tokens.ts.
use gluk_vpn.Common.{
  ℕ, zero, suc, true, Option, none, some, List, [], ◌∷◌, ◌++◌, ◌≡◌, inl, inr, ◌<◌, refl, sym, ◌==◌,
  arith, length, get_elem?, set, Bool-cases, Option-cases, ap, ◌∙◌, ◌≢◌,
}
use gluk_vpn.Server.Tokens.{
  RefreshToken, id_of_hash, has_active_successor, is_of_chain, same_device,
}

-- A row at the end does not hide a row before it.
pub id_of_hash-snoc :
    (h : ℕ) (rows : List RefreshToken) (t : RefreshToken) {i : ℕ}
    → id_of_hash h rows ≡ some i
    → id_of_hash h (rows ++ t ∷ []) ≡ some i
id_of_hash-snoc h [] t e = cc
id_of_hash-snoc h (x ∷ rows) t {i} e = elim (Bool-cases (x.hash == h)) [
  | inl here ↦ rw here (rw here at e)
  | inr off ↦ elim (Option-cases (id_of_hash h rows)) [
    | inl nowhere ↦ absurd (missing (rw (off, nowhere) at e))
    | inr (j, later) ↦ rw (off, id_of_hash-snoc h rows t later) (rw (off, later) at e)
  ]
]
  where
    missing : ◌≡◌ {A = Option ℕ} none (some i) → ⊥
    missing x = cc

pub id_of_hash-set :
    (h : ℕ) (rows : List RefreshToken) (i : ℕ) (t u : RefreshToken)
    → get_elem? rows i ≡ some t
    → u.hash ≡ t.hash
    → id_of_hash h (set rows i u) ≡ id_of_hash h rows
id_of_hash-set h [] i t u e same = refl
id_of_hash-set h (x ∷ rows) zero t u e same = rw same'
  where
    same' : x.hash ≡ u.hash
    same' =
        ap (λ (o : Option RefreshToken). elim o [ none ↦ u.hash | some y ↦ y.hash ]) e ∙ sym same
id_of_hash-set h (x ∷ rows) (suc i) t u e same = rw (id_of_hash-set h rows i t u e same)

same_device_refl : (d : Option ℕ) → same_device d d ≡ true
same_device_refl none = refl
same_device_refl (some d) = ground arith

pub get_elem?-set_self :
    (rows : List RefreshToken) (i : ℕ) (u : RefreshToken)
    → i < length rows
    → get_elem? (set rows i u) i ≡ some u
get_elem?-set_self [] i u h = absurd (omega arith)
get_elem?-set_self (x ∷ rows) zero u h = refl
get_elem?-set_self (x ∷ rows) (suc i) u h = get_elem?-set_self rows i u (omega arith)

pub get_elem?-set_other :
    (rows : List RefreshToken) (i j : ℕ) (u : RefreshToken)
    → i ≢ j
    → get_elem? (set rows i u) j ≡ get_elem? rows j
get_elem?-set_other [] i j u h = refl
get_elem?-set_other (x ∷ rows) zero zero u h = absurd (h refl)
get_elem?-set_other (x ∷ rows) zero (suc j) u h = refl
get_elem?-set_other (x ∷ rows) (suc i) zero u h = refl
get_elem?-set_other (x ∷ rows) (suc i) (suc j) u h =
    get_elem?-set_other rows i j u (λ e. h (omega (arith, e)))

-- A successor that was just issued keeps the walk going.
pub has_active_successor-fresh :
    (rows : List RefreshToken) (t next : RefreshToken) (at id : ℕ)
    → get_elem? rows id ≡ some next
    → next.user ≡ t.user
    → next.device ≡ t.device
    → at < next.expires_at
    → next.revoked_at ≡ none
    → has_active_successor 16 rows t at (some id) ≡ true
unfolding has_active_successor
has_active_successor-fresh rows t next at id e u d x r = rw (has_active_successor, e, chain, r)
  where
    chain : is_of_chain t at next ≡ true
    chain = rw (u, d, same_device_refl t.device) (ground arith)
