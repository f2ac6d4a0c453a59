-- ===== src/Server/Tokens/Ended.antt =====
-- What a sign-out of an account and a stolen token end for good: `revokeRefreshTokens` and
-- `rotateRefreshToken` of control-server/src/services/tokens.ts.
use gluk_vpn.Common.{
  ℕ, Bool, true, false, Option, none, some, List, [], ◌∷◌, ◌++◌, map, ◌≡◌, inl, inr, ◌≤◌, ◌<◌, ◌+◌,
  refl, sym, subst, ap, ◌∙◌, arith, get_elem?, set, length, length-append, length-set, length-map,
  get_elem?-snoc, get_elem?-set_cases, get_elem?-map,
}
use gluk_vpn.Server.Tokens.{
  RefreshToken, Realm, IssuedTokens, TokenRefusal, Rotation, issued, refused, fresh_row,
  issue_tokens, rotate_refresh_token, revoke_refresh_tokens, revoked_if, is_unrevoked, is_of_user,
  is_meant, replace_token, id_of_hash, credentials_refusal, rotation_grace_ms, token_already_used,
}
use gluk_vpn.Server.Tokens.Rotated.{rotate_refresh_token-IsExchange}
use gluk_vpn.Server.Tokens.History.{Step, issue, rotate, revoke, Steps, start, later, rotate-elim}
use gluk_vpn.Server.Tokens.Stolen.{
  revoked_if-user, revoked_if-replaced_by, revoked_if-done, rotate-stolen,
}
use gluk_vpn.Server.Tokens.SignedOut.{AreDead, AreDead-Steps, dead-unusable}

-- Every token is replaced by a row of the table.
AreLinked : List RefreshToken → Type 0
AreLinked rows =
    (i : ℕ) (t : RefreshToken)
    → get_elem? rows i ≡ some t
    → (j : ℕ) → t.replaced_by ≡ some j
    → j < length rows

AreLinked-append :
    (rows : List RefreshToken) (t : RefreshToken)
    → t.replaced_by ≡ none
    → AreLinked rows
    → AreLinked (rows ++ t ∷ [])
unfolding AreLinked
AreLinked-append rows t last d i x e j to = elim (get_elem?-snoc rows t i e) [
  | inl old ↦ omega (arith, d i x old j to, length-append rows (t ∷ []))
  | inr (at, new) ↦ absurd (no_link (sym last ∙ ap (λ (z : RefreshToken). z.replaced_by) new ∙ to))
]
  where
    no_link : ◌≡◌ {A = Option ℕ} none (some j) → ⊥
    no_link h = cc

AreLinked-map :
    (rows : List RefreshToken) (p : RefreshToken → Bool) (at : ℕ)
    → AreLinked rows
    → AreLinked (map (revoked_if p at) rows)
unfolding AreLinked
AreLinked-map rows p at d i x e j to =
    let (y, old, same) = get_elem?-map (revoked_if p at) rows i e in
    let below : j < length rows =
      d i y old j (
        sym (revoked_if-replaced_by p at y) ∙ ap (λ (z : RefreshToken). z.replaced_by) same ∙ to) in
    omega (arith, below, length-map (revoked_if p at) rows)

AreLinked-set :
    (rows : List RefreshToken) (id : ℕ) (t : RefreshToken) (next : ℕ)
    → t.replaced_by ≡ some next
    → next < length rows
    → AreLinked rows
    → AreLinked (set rows id t)
unfolding AreLinked
AreLinked-set rows id t next r below d i x e j to = elim (get_elem?-set_cases rows id i t e) [
  | inl (at, new) ↦ omega (arith, below, same new, length-set rows id t)
  | inr (off, old) ↦ omega (arith, d i x old j to, length-set rows id t)
]
  where
    same : t ≡ x → next ≡ j
    same new =
        ap (λ (o : Option ℕ). elim o [ none ↦ 0 | some k ↦ k ])
          (sym r ∙ ap (λ (z : RefreshToken). z.replaced_by) new ∙ to)

AreLinked-rotate :
    (realm : Realm) (raw secret at : ℕ) (rows : List RefreshToken)
    → AreLinked rows
    → AreLinked (rotate_refresh_token realm raw secret at rows).0
unfolding replace_token issue_tokens
AreLinked-rotate realm raw secret at rows d =
    rotate-elim (λ out. AreLinked out.0) realm raw secret at rows (λ r. d)
      (λ u. AreLinked-map rows (is_of_user u) at d)
      (λ id t stored.
        AreLinked-set (rows ++ fresh_row realm secret t.user t.device at ∷ []) id _ (length rows)
          refl (omega (arith, length-append rows (fresh_row realm secret t.user t.device at ∷ [])))
          (AreLinked-append rows _ refl d))

AreLinked-Step :
    {rows after : List RefreshToken} → AreLinked rows → Step rows after → AreLinked after
unfolding issue_tokens revoke_refresh_tokens
AreLinked-Step {rows} d (issue realm secret u device at) = AreLinked-append rows _ refl d
AreLinked-Step {rows} d (rotate realm raw secret at) = AreLinked-rotate realm raw secret at rows d
AreLinked-Step {rows} d (revoke u device at) = AreLinked-map rows (is_meant u device) at d

AreLinked-Steps : {rows : List RefreshToken} → Steps [] rows → AreLinked rows
unfolding AreLinked
AreLinked-Steps start = λ i t e. cc
AreLinked-Steps (later steps step) = AreLinked-Step (AreLinked-Steps steps) step

-- All tokens of the account die.
all_dead :
    (user at : ℕ) (p : RefreshToken → Bool) (rows : List RefreshToken)
    → ((t : RefreshToken) → t.user ≡ user → p t ≡ true)
    → AreLinked rows
    → AreDead (length rows) user (map (revoked_if p at) rows)
unfolding AreLinked
all_dead user at p rows meant d = record {
  enough = omega (arith, length-map (revoked_if p at) rows);
  dead = λ i x e lt own.
      let (y, old, same) = get_elem?-map (revoked_if p at) rows i e in
      subst (λ z. is_unrevoked z ≡ false) same
        (revoked_if-done p at y
          (meant y (sym (revoked_if-user p at y) ∙ ap (λ (z : RefreshToken). z.user) same ∙ own)));
  linked = λ i x e lt own j to.
      let (y, old, same) = get_elem?-map (revoked_if p at) rows i e in
      d i y old j
        (sym (revoked_if-replaced_by p at y) ∙ ap (λ (z : RefreshToken). z.replaced_by) same ∙ to);
}

-- A dead token is refused.
dead-refused :
    (n user i : ℕ) (t : RefreshToken) (realm : Realm) (raw secret at : ℕ) (rows : List RefreshToken)
    → AreDead n user rows
    → id_of_hash (realm.hash_secret raw) rows ≡ some i
    → i < n
    → get_elem? rows i ≡ some t
    → t.user ≡ user
    → (r : TokenRefusal) × ((rotate_refresh_token realm raw secret at rows).1 ≡ refused r)
unfolding replace_token
dead-refused n user i t realm raw secret at rows d found lt stored own =
    rotate-elim
      (λ out.
        rotate_refresh_token realm raw secret at rows ≡ out
        → (r : TokenRefusal) × (out.1 ≡ refused r))
      realm raw secret at rows (λ r e. (r, refl)) (λ u e. (token_already_used, refl))
      (λ id row at_id e. absurd (not_issued _ _ e)) refl
  where
    not_issued :
        (after : List RefreshToken) (pair : IssuedTokens)
        → rotate_refresh_token realm raw secret at rows ≡ (after, issued pair)
        → ⊥
    not_issued after pair e =
        let x = rotate_refresh_token-IsExchange realm raw secret at rows after pair e in
        let same : x.id ≡ i =
          ap (λ (o : Option ℕ). elim o [ none ↦ i | some k ↦ k ]) (sym x.found ∙ found) in
        let row : x.row ≡ t =
          ap (λ (o : Option RefreshToken). elim o [ none ↦ t | some k ↦ k ])
            (sym x.stored ∙ ap (get_elem? rows) same ∙ stored) in
        dead-unusable n user at x.id rows x.row d x.stored (omega (arith, lt, same))
          (ap (λ (z : RefreshToken). z.user) row ∙ own) x.usable

-- Once `revokeRefreshTokens` was called for an account without a device, no token that the account
-- had then is exchanged again: whatever is issued, rotated or revoked afterwards, and
-- whichever settings and secrets are in use, offering one of those tokens is refused.
pub revoke_refresh_tokens-refused :
    {rows end : List RefreshToken} (user moment i : ℕ) (t : RefreshToken) (realm : Realm)
    (raw secret at : ℕ)
    → Steps [] rows
    → Steps (revoke_refresh_tokens user none moment rows).0 end
    → id_of_hash (realm.hash_secret raw) end ≡ some i
    → i < length rows
    → get_elem? end i ≡ some t
    → t.user ≡ user
    → (r : TokenRefusal) × ((rotate_refresh_token realm raw secret at end).1 ≡ refused r)
unfolding revoke_refresh_tokens
revoke_refresh_tokens-refused {rows} {end} user moment i t realm raw secret at before after found lt
      stored own =
    dead-refused (length rows) user i t realm raw secret at end
      (AreDead-Steps (length rows) user
        (all_dead user moment (is_meant user none) rows (λ x h. ground (arith, h))
          (AreLinked-Steps before))
        after)
      found lt stored own

-- A token with current credentials that is offered a minute or more after it was replaced is refused,
-- and so is from then on every token that its account had at that moment, whatever is issued,
-- rotated or revoked afterwards.
pub rotate_refresh_token-stolen :
    {rows end : List RefreshToken} (realm : Realm) (raw secret at id revoked next : ℕ)
    (t : RefreshToken)
    → Steps [] rows
    → id_of_hash (realm.hash_secret raw) rows ≡ some id
    → get_elem? rows id ≡ some t
    → credentials_refusal realm t at ≡ none
    → t.revoked_at ≡ some revoked
    → t.replaced_by ≡ some next
    → revoked + rotation_grace_ms ≤ at
    → Steps (rotate_refresh_token realm raw secret at rows).0 end
    → ((rotate_refresh_token realm raw secret at rows).1 ≡ refused token_already_used)
      × ((other : Realm) (offered fresh moment i : ℕ) (u : RefreshToken)
          → id_of_hash (other.hash_secret offered) end ≡ some i
          → i < length rows
          → get_elem? end i ≡ some u
          → u.user ≡ t.user
          → (r : TokenRefusal) × ((rotate_refresh_token other offered fresh moment end).1
              ≡ refused r))
rotate_refresh_token-stolen {rows} {end} realm raw secret at id revoked next t before found stored
      live once to late after =
    (
      ap (λ (p : List RefreshToken × Rotation). p.1) out,
      λ other offered fresh moment i u e lt at_i own.
          dead-refused (length rows) t.user i u other offered fresh moment end
            (AreDead-Steps (length rows) t.user
              (subst (λ (p : List RefreshToken × Rotation). AreDead (length rows) t.user p.0)
                (sym out)
                (all_dead t.user at (is_of_user t.user) rows (λ x h. ground (arith, h))
                  (AreLinked-Steps before)))
              after)
            e lt at_i own,
    )
  where
    out :
        rotate_refresh_token realm raw secret at rows
        ≡ (map (revoked_if (is_of_user t.user) at) rows, refused token_already_used)
    out = rotate-stolen realm raw secret at id revoked next t rows found stored live once to late
