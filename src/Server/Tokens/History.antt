-- ===== src/Server/Tokens/History.antt =====
-- What can happen to the table of refresh tokens, and what a rotation does to it:
-- control-server/src/services/tokens.ts.
use gluk_vpn.Common.{ℕ, Bool, true, false, Option, none, some, List, map, ◌≡◌, refl, get_elem?}
use gluk_vpn.Server.Tokens.{
  RefreshToken, Realm, TokenRefusal, Rotation, refused, invalid_token, token_revoked,
  token_already_used, issue_tokens, rotate_refresh_token, revoke_refresh_tokens, rotate_row,
  revoked_token, replace_token, or_refused, refused_if, revoked_if, is_of_user, credentials_refusal,
  id_of_hash,
}

-- What is asked of the tokens, in any order; the accounts and devices may change between.
pub data Step (rows : List RefreshToken) : List RefreshToken → Type 0 where
  issue :
      (realm : Realm) (secret user : ℕ) (device : Option ℕ) (at : ℕ)
      → Step rows (issue_tokens realm secret user device at rows).0
  rotate :
      (realm : Realm) (raw secret at : ℕ)
      → Step rows (rotate_refresh_token realm raw secret at rows).0
  revoke :
      (user : ℕ) (device : Option (Option ℕ)) (at : ℕ)
      → Step rows (revoke_refresh_tokens user device at rows).0

pub data Steps (rows : List RefreshToken) : List RefreshToken → Type 0 where
  start : Steps rows rows
  later :
      {before after : List RefreshToken} → Steps rows before → Step before after → Steps rows after

-- The three ways in which a rotation ends.
module _ {κ} (P : List RefreshToken × Rotation → Type κ) where
  or_refused-elim :
      {A : Type 0} (rows : List RefreshToken) (r : TokenRefusal) (o : Option A)
      (f : A → List RefreshToken × Rotation)
      → P (rows, refused r)
      → ((a : A) → o ≡ some a → P (f a))
      → P (or_refused rows r o f)
  or_refused-elim rows r none f p q = p
  or_refused-elim rows r (some a) f p q = q a refl

  refused_if-elim :
      (rows : List RefreshToken) (r : TokenRefusal) (b : Bool) (x : List RefreshToken × Rotation)
      → P (rows, refused r)
      → P x
      → P (refused_if rows r b x)
  refused_if-elim rows r true x p q = p
  refused_if-elim rows r false x p q = q

module _ {κ} (P : List RefreshToken × Rotation → Type κ) (realm : Realm) (raw secret at : ℕ)
    (rows : List RefreshToken) (left : (r : TokenRefusal) → P (rows, refused r))
    (stolen : (user : ℕ)
      → P (map (revoked_if (is_of_user user) at) rows, refused token_already_used)) where
  module _ (id : ℕ) (t : RefreshToken) (minted : P (replace_token realm secret at id t rows)) where
    rotate_row-elim : P (rotate_row realm secret at id t rows)
    unfolding rotate_row revoked_token
    rotate_row-elim =
        elim (credentials_refusal realm t at)
          as (λ c. P (elim c [
            | some r ↦ (rows, refused r)
            | none ↦ elim t.revoked_at [
              | none ↦ replace_token realm secret at id t rows
              | some revoked ↦ revoked_token realm secret at id t revoked rows
            ]
          ])) [
            | some r ↦ left r
            | none ↦
                elim t.revoked_at
                  as (λ o. P (elim o [
                    | none ↦ replace_token realm secret at id t rows
                    | some revoked ↦ revoked_token realm secret at id t revoked rows
                  ])) [
                    | none ↦ minted
                    | some revoked ↦
                        or_refused-elim P rows token_revoked t.replaced_by _ (left token_revoked)
                          λ next e.
                            refused_if-elim P _ token_already_used _ _ (stolen t.user)
                              (refused_if-elim P rows token_revoked _ _ (left token_revoked) minted)
                  ]
          ]

  pub rotate-elim :
      ((id : ℕ) (t : RefreshToken)
        → get_elem? rows id ≡ some t
        → P (replace_token realm secret at id t rows))
      → P (rotate_refresh_token realm raw secret at rows)
  unfolding rotate_refresh_token
  rotate-elim minted =
      or_refused-elim P rows invalid_token (id_of_hash (realm.hash_secret raw) rows) _
        (left invalid_token)
        λ id found.
          or_refused-elim P rows invalid_token (get_elem? rows id) _ (left invalid_token)
            λ t stored. rotate_row-elim id t (minted id t stored)
