-- ===== src/Server/Tokens/Stolen.antt =====
-- What a token that was used long ago brings about: `rotateRefreshToken` of
-- control-server/src/services/tokens.ts.
use gluk_vpn.Common.{
  ℕ, Bool, true, false, none, some, List, map, ◌≡◌, ◌≤◌, ◌+◌, arith, get_elem?, ◌&&◌, Bool-cases,
  inl, inr,
}
use gluk_vpn.Server.Tokens.{
  RefreshToken, Realm, refused, token_already_used, credentials_refusal, id_of_hash,
  rotate_refresh_token, rotate_row, revoked_token, revoked_if, is_of_user, is_unrevoked,
  is_within_grace, rotation_grace_ms,
}

pub revoked_if-done :
    (p : RefreshToken → Bool) (at : ℕ) (t : RefreshToken)
    → p t ≡ true
    → is_unrevoked (revoked_if p at t) ≡ false
revoked_if-done p at t h = elim (Bool-cases (is_unrevoked t)) [
  | inl live ↦ rw (h, live)
  | inr done ↦ rw (h, done) done
]

-- A token of another account, or one that was revoked before, is left as it was.
pub revoked_if-other :
    (p : RefreshToken → Bool) (at : ℕ) (t : RefreshToken)
    → p t && is_unrevoked t ≡ false
    → revoked_if p at t ≡ t
revoked_if-other p at t h = rw h

pub revoked_if-user :
    (p : RefreshToken → Bool) (at : ℕ) (t : RefreshToken) → (revoked_if p at t).user ≡ t.user
revoked_if-user p at t = elim (Bool-cases (p t && is_unrevoked t)) [
  | inl now ↦ rw now
  | inr not_now ↦ rw not_now
]

pub revoked_if-replaced_by :
    (p : RefreshToken → Bool) (at : ℕ) (t : RefreshToken)
    → (revoked_if p at t).replaced_by ≡ t.replaced_by
revoked_if-replaced_by p at t = elim (Bool-cases (p t && is_unrevoked t)) [
  | inl now ↦ rw now
  | inr not_now ↦ rw not_now
]

pub revoked_if-keeps :
    (p : RefreshToken → Bool) (at : ℕ) (t : RefreshToken)
    → is_unrevoked t ≡ false
    → is_unrevoked (revoked_if p at t) ≡ false
revoked_if-keeps p at t h = elim (Bool-cases (p t)) [
  | inl meant ↦ revoked_if-done p at t meant
  | inr other ↦ rw other h
]

pub rotate-stolen :
    (realm : Realm) (raw secret at id revoked next : ℕ) (t : RefreshToken)
    (rows : List RefreshToken)
    → id_of_hash (realm.hash_secret raw) rows ≡ some id
    → get_elem? rows id ≡ some t
    → credentials_refusal realm t at ≡ none
    → t.revoked_at ≡ some revoked
    → t.replaced_by ≡ some next
    → revoked + rotation_grace_ms ≤ at
    → rotate_refresh_token realm raw secret at rows
      ≡ (map (revoked_if (is_of_user t.user) at) rows, refused token_already_used)
unfolding rotate_refresh_token rotate_row revoked_token
rotate-stolen realm raw secret at id revoked next t rows e1 e2 e3 e4 e5 late =
    rw (rotate_refresh_token, e1, e2, rotate_row, e3, e4, revoked_token, e5, stale)
  where
    stale : is_within_grace revoked at ≡ false
    stale = ground (arith, late)
