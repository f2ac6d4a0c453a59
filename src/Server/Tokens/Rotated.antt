-- ===== src/Server/Tokens/Rotated.antt =====
-- What a rotation that issued a pair has checked and written: `rotateRefreshToken` of
-- control-server/src/services/tokens.ts.
use gluk_vpn.Common.{
  ℕ, Bool, true, false, Option, none, some, List, [], ◌∷◌, ◌++◌, ◌≡◌, ◌⊎◌, inl, inr, ◌<◌, refl, sym,
  leb, arith, length, get_elem?, set, Option-cases, Bool-cases, not, ap,
}
use gluk_vpn.Server.Store.{User, Device}
use gluk_vpn.Server.Admission.{is_account_active}
use gluk_vpn.Server.Tokens.{
  RefreshToken, Realm, IssuedTokens, TokenRefusal, Rotation, issued, refused, credentials_refusal,
  device_refusal, token_revoked, token_already_used, invalid_token, device_of, account_active,
  version_number, id_of_hash, fresh_row, issue_tokens, replace_token, revoked_token, rotate_row,
  or_refused, refused_if, rotate_refresh_token, has_active_successor, max_depth, is_within_grace,
}

-- The credentials of a token that may be rotated at a moment.
pub record IsCurrent (realm : Realm) (t : RefreshToken) (at : ℕ) : Type 0 where
  pub unexpired : at < t.expires_at
  pub account :
      (u : User) × (get_elem? realm.users t.user ≡ some u) × (is_account_active u.status ≡ true)
  pub device :
      (d : Device)
      → device_of realm t ≡ some d
      → (d.active ≡ true) × (version_number t.device_version ≡ d.token_version)

found_active :
    (o : Option User)
    → elim o [ none ↦ false | some row ↦ is_account_active row.status ] ≡ true
    → (row : User) × (o ≡ some row) × (is_account_active row.status ≡ true)
found_active none h = cc
found_active (some row) h = (row, refl, h)

current_device :
    (t : RefreshToken) (o : Option Device)
    → device_refusal t o ≡ none
    → (d : Device) → o ≡ some d
    → (d.active ≡ true) × (version_number t.device_version ≡ d.token_version)
current_device t o h d e = ground arith

pub credentials_refusal-IsCurrent :
    (realm : Realm) (t : RefreshToken) (at : ℕ)
    → credentials_refusal realm t at ≡ none
    → IsCurrent realm t at
unfolding credentials_refusal
credentials_refusal-IsCurrent realm t at h = elim (Bool-cases (leb t.expires_at at)) [
  | inl old ↦ absurd (ground (arith, old, h))
  | inr young ↦ elim (Bool-cases (account_active realm t.user)) [
    | inl live ↦ record {
      unexpired = ground (arith, young);
      account = found_active (get_elem? realm.users t.user) live;
      device = current_device t (device_of realm t) (passed young live);
    }
    | inr out ↦ absurd (ground (arith, young, out, h))
  ]
]
  where
    passed :
        leb t.expires_at at ≡ false
        → account_active realm t.user ≡ true
        → device_refusal t (device_of realm t) ≡ none
    passed young live = rw (young, live) at h

-- A token that was never rotated or revoked, or was rotated less than a minute ago and has a
-- successor that is not revoked.
unfoldable pub IsUsable : RefreshToken → ℕ → List RefreshToken → Type 0
IsUsable t at rows =
    (t.revoked_at ≡ none)
    ⊎ ((revoked : ℕ) × (next : ℕ) × (t.revoked_at ≡ some revoked)
        × (t.replaced_by ≡ some next)
        × (is_within_grace revoked at ≡ true)
        × (has_active_successor max_depth rows t at (some next) ≡ true))

abbrev pub replaced : RefreshToken → ℕ → ℕ → RefreshToken
replaced t at id = record t { revoked_at = some at; last_used_at = some at; replaced_by = some id }

-- A refusal is not an issued pair.
pub refused-absurd :
    {A : Type 0} {rows after : List RefreshToken} {r : TokenRefusal} {pair : IssuedTokens}
    → ◌≡◌ {A = List RefreshToken × Rotation} (rows, refused r) (after, issued pair)
    → A
refused-absurd h =
    let same =
      ap (λ (p : List RefreshToken × Rotation). elim p.1 [ issued x ↦ true | refused x ↦ false ])
        h in
    cc

module _ (rows after : List RefreshToken) (r : TokenRefusal) (pair : IssuedTokens) where
  pub passed-if :
      (c : Bool) (x : List RefreshToken × Rotation)
      → refused_if rows r c x ≡ (after, issued pair)
      → (c ≡ false) × (x ≡ (after, issued pair))
  passed-if true x h = refused-absurd h
  passed-if false x h = (refl, h)

  pub passed-some :
      {B : Type 0} (o : Option B) (f : B → List RefreshToken × Rotation)
      → or_refused rows r o f ≡ (after, issued pair)
      → (b : B) × (o ≡ some b) × (f b ≡ (after, issued pair))
  passed-some none f h = refused-absurd h
  passed-some (some b) f h = (b, refl, h)

not-inj : (b : Bool) → not b ≡ false → b ≡ true
not-inj b h = ground arith

revoked_token-issued :
    (realm : Realm) (secret at id : ℕ) (t : RefreshToken) (revoked : ℕ)
    (rows after : List RefreshToken) (pair : IssuedTokens)
    → revoked_token realm secret at id t revoked rows ≡ (after, issued pair)
    → (next : ℕ) × (t.replaced_by ≡ some next)
      × (is_within_grace revoked at ≡ true)
      × (has_active_successor max_depth rows t at (some next) ≡ true)
      × (replace_token realm secret at id t rows ≡ (after, issued pair))
unfolding revoked_token has_active_successor
revoked_token-issued realm secret at id t revoked rows after pair h =
    let (next, e, h1) = passed-some rows after token_revoked pair t.replaced_by _ h in
    let (fresh, h2) =
      passed-if _ after token_already_used pair (not (is_within_grace revoked at)) _ h1 in
    let (live, h3) =
      passed-if rows after token_revoked pair
        (not (has_active_successor max_depth rows t at (some next))) _ h2 in
    (next, e, not-inj (is_within_grace revoked at) fresh, not-inj _ live, h3)

rotate_row-issued :
    (realm : Realm) (secret at id : ℕ) (t : RefreshToken) (rows after : List RefreshToken)
    (pair : IssuedTokens)
    → rotate_row realm secret at id t rows ≡ (after, issued pair)
    → IsCurrent realm t at
      × IsUsable t at rows
      × (replace_token realm secret at id t rows ≡ (after, issued pair))
unfolding rotate_row IsUsable
rotate_row-issued realm secret at id t rows after pair h =
    elim (Option-cases (credentials_refusal realm t at)) [
      | inr (r, e) ↦ refused-absurd (rw (rotate_row, e) at h)
      | inl e ↦ elim (Option-cases t.revoked_at) [
        | inl never ↦
            (credentials_refusal-IsCurrent realm t at e, inl never, rw (rotate_row, e, never) at h)
        | inr (revoked, once) ↦
            let (next, e1, e2, e3, h1) =
              revoked_token-issued realm secret at id t revoked rows after pair
                (rw (rotate_row, e, once) at h) in
            (credentials_refusal-IsCurrent realm t at e, inr (revoked, next, once, e1, e2, e3), h1)
      ]
    ]

-- An exchange of a secret for a pair.
pub record IsExchange (realm : Realm) (raw secret at : ℕ) (rows after : List RefreshToken)
    (pair : IssuedTokens) : Type 0 where
  pub id : ℕ
  pub row : RefreshToken
  pub found : id_of_hash (realm.hash_secret raw) rows ≡ some id
  pub stored : get_elem? rows id ≡ some row
  pub current : IsCurrent realm row at
  pub usable : IsUsable row at rows
  pub minted : pair ≡ (issue_tokens realm secret row.user row.device at rows).1
  pub written :
      after
      ≡ set
          (rows ++ fresh_row realm secret row.user row.device at ∷ [])
          id
          (replaced row at (length rows))

-- A pair is only issued for the secret of a stored token that has not expired, whose account is
-- active and whose device, if it has one, is active and has not been given new credentials since; the
-- token was not revoked, or it was rotated less than a minute ago and one of the tokens that replaced
-- it is still valid. The pair is for the same account and device, the token is marked as replaced
-- by the new one, and no other row changes.
pub rotate_refresh_token-IsExchange :
    (realm : Realm) (raw secret at : ℕ) (rows after : List RefreshToken) (pair : IssuedTokens)
    → rotate_refresh_token realm raw secret at rows ≡ (after, issued pair)
    → IsExchange realm raw secret at rows after pair
unfolding rotate_refresh_token replace_token issue_tokens
rotate_refresh_token-IsExchange realm raw secret at rows after pair h =
    let (i, found, h1) = passed-some rows after invalid_token pair _ _ h in
    let (t, stored, h2) = passed-some rows after invalid_token pair _ _ h1 in
    let (current, usable, h3) = rotate_row-issued realm secret at i t rows after pair h2 in
    record {
      id = i;
      row = t;
      found = found;
      stored = stored;
      current = current;
      usable = usable;
      minted = sym (
          ap (λ (p : List RefreshToken × Rotation). elim p.1 [ issued x ↦ x | refused x ↦ pair ])
            h3);
      written = sym (ap (λ (p : List RefreshToken × Rotation). p.0) h3);
    }
