-- ===== src/Server/Tokens/Reused.antt =====
-- A refresh token that is offered again: `rotateRefreshToken` of
-- control-server/src/services/tokens.ts.
use gluk_vpn.Common.{
  ℕ, suc, true, false, Option, none, some, List, [], ◌∷◌, ◌++◌, ◌≡◌, ◌<◌, ◌≤◌, ◌+◌, refl, sym,
  subst, leb, arith, length, All, get_elem?, get_elem?-append_left, get_elem?-append_self,
  get_elem?-lt, ap, ◌∙◌, length-append,
}
use gluk_vpn.Server.Store.{Device}
use gluk_vpn.Server.Tokens.{
  RefreshToken, Realm, IssuedTokens, Rotation, issued, credentials_refusal, id_of_hash, fresh_row,
  replace_token, revoked_token, rotate_row, rotate_refresh_token, has_active_successor,
  device_refusal, device_of, version_number, account_active, is_within_grace, rotation_grace_ms,
}
use gluk_vpn.Server.Tokens.Rotated.{
  IsCurrent, IsExchange, replaced, rotate_refresh_token-IsExchange,
}
use gluk_vpn.Server.Tokens.Lookups.{
  id_of_hash-snoc, id_of_hash-set, get_elem?-set_self, get_elem?-set_other,
  has_active_successor-fresh,
}

accepted_device :
    (t : RefreshToken) (o : Option Device)
    → ((d : Device)
        → o ≡ some d
        → (d.active ≡ true) × (version_number t.device_version ≡ d.token_version))
    → device_refusal t o ≡ none
accepted_device t none h = refl
accepted_device t (some d) h = let (live, same) = h d refl in ground (arith, live, same)

-- Current credentials stay current until the token expires.
current-later :
    (realm : Realm) (t : RefreshToken) (at later : ℕ)
    → IsCurrent realm t at
    → later < t.expires_at
    → credentials_refusal realm t later ≡ none
unfolding credentials_refusal
current-later realm t at later c h =
    rw (young, live) (accepted_device t (device_of realm t) c.device)
  where
    young : leb t.expires_at later ≡ false
    young = ground (arith, h)

    live : account_active realm t.user ≡ true
    live = let (u, e, a) = c.account in rw (account_active, e) a

rotate-revoked :
    (realm : Realm) (raw secret at id revoked next : ℕ) (t : RefreshToken)
    (rows : List RefreshToken)
    → id_of_hash (realm.hash_secret raw) rows ≡ some id
    → get_elem? rows id ≡ some t
    → credentials_refusal realm t at ≡ none
    → t.revoked_at ≡ some revoked
    → t.replaced_by ≡ some next
    → is_within_grace revoked at ≡ true
    → has_active_successor 16 rows t at (some next) ≡ true
    → rotate_refresh_token realm raw secret at rows ≡ replace_token realm secret at id t rows
unfolding rotate_refresh_token rotate_row revoked_token replace_token
rotate-revoked realm raw secret at id revoked next t rows e1 e2 e3 e4 e5 e6 e7 =
    rw (rotate_refresh_token, e1, e2, rotate_row, e3, e4, revoked_token, e5, e6, e7)

module _ (realm : Realm) (raw secret at : ℕ) (rows after : List RefreshToken) (pair : IssuedTokens)
    (whole_days : 1 ≤ realm.refresh_ttl_days)
    (x : IsExchange realm raw secret at rows after pair) where
  abbrev used : RefreshToken
  used = replaced x.row at (length rows)

  abbrev minted : RefreshToken
  minted = fresh_row realm secret x.row.user x.row.device at

  below : x.id < length (rows ++ minted ∷ [])
  below = omega (arith, get_elem?-lt rows x.id x.stored, length-append rows (minted ∷ []))

  found_again : id_of_hash (realm.hash_secret raw) after ≡ some x.id
  found_again =
      rw
        (
          x.written,
          id_of_hash-set (realm.hash_secret raw) (rows ++ minted ∷ []) x.id x.row used
              (get_elem?-append_left rows (minted ∷ []) x.id x.stored) refl,
        )
        (id_of_hash-snoc (realm.hash_secret raw) rows minted x.found)

  stored_again : get_elem? after x.id ≡ some used
  stored_again = rw x.written (get_elem?-set_self (rows ++ minted ∷ []) x.id used below)

  successor : get_elem? after (length rows) ≡ some minted
  successor =
      rw
        (
          x.written,
          get_elem?-set_other (rows ++ minted ∷ []) x.id (length rows) used
              (λ e. omega (arith, e, get_elem?-lt rows x.id x.stored)),
        )
        (get_elem?-append_self rows [] minted)

  used_current :
      (later : ℕ) → later < x.row.expires_at → credentials_refusal realm used later ≡ none
  unfolding credentials_refusal
  used_current later young = current-later realm x.row at later x.current young

  -- A secret that has just been exchanged is exchanged again within the grace.
  pub rotate-again :
      (fresh later : ℕ)
      → at ≤ later
      → later < at + rotation_grace_ms
      → later < x.row.expires_at
      → rotate_refresh_token realm raw fresh later after
        ≡ replace_token realm fresh later x.id used after
  rotate-again fresh later after_it soon young =
      rotate-revoked realm raw fresh later x.id at (length rows) used after found_again stored_again
        (used_current later young) refl refl (ground arith)
        (has_active_successor-fresh after used minted later (length rows) successor refl refl
          (omega arith) refl)

-- An exchange of a token that expires then.
record IsReplay (realm : Realm) (raw at expires : ℕ) (out : List RefreshToken × Rotation)
    : Type 0 where
  before : List RefreshToken
  secret : ℕ
  pair : IssuedTokens
  same : out.1 ≡ issued pair
  exchange : IsExchange realm raw secret at before out.0 pair
  kept : exchange.row.expires_at ≡ expires

replayed :
    (realm : Realm) (raw secret at id : ℕ) (t : RefreshToken) (rows after : List RefreshToken)
    (pair : IssuedTokens)
    → rotate_refresh_token realm raw secret at rows ≡ (after, issued pair)
    → id_of_hash (realm.hash_secret raw) rows ≡ some id
    → get_elem? rows id ≡ some t
    → IsReplay realm raw at t.expires_at (rotate_refresh_token realm raw secret at rows)
replayed realm raw secret at id t rows after pair e found stored =
    let x = rotate_refresh_token-IsExchange realm raw secret at rows after pair e in
    subst (IsReplay realm raw at t.expires_at) (sym e) record {
      before = rows;
      secret = secret;
      pair = pair;
      same = refl;
      exchange = x;
      kept =
          ap (λ (o : Option RefreshToken). elim o [ none ↦ 0 | some r ↦ r.expires_at ])
            (sym x.stored
              ∙ ap (λ (o : Option ℕ). elim o [ none ↦ none | some i ↦ get_elem? rows i ])
                  (sym x.found ∙ found)
              ∙ stored);
    }

-- One secret, offered once and again after each gap, the last of them first, with nothing between.
abbrev pub total : List ℕ → ℕ
total [] = 0
total (gap ∷ gaps) = total gaps + gap

unfoldable pub offered :
    Realm → ℕ → (ℕ → ℕ) → ℕ → List ℕ → List RefreshToken → List RefreshToken × Rotation
offered realm raw fresh at [] rows = rotate_refresh_token realm raw (fresh 0) at rows
offered realm raw fresh at (gap ∷ gaps) rows =
    rotate_refresh_token realm raw (fresh (suc (length gaps))) (at + total (gap ∷ gaps))
      (offered realm raw fresh at gaps rows).0

module _ (realm : Realm) (raw expires : ℕ) (whole_days : 1 ≤ realm.refresh_ttl_days) where
  next_offer :
      (at secret later : ℕ) (out : List RefreshToken × Rotation)
      → at ≤ later
      → later < at + rotation_grace_ms
      → later < expires
      → IsReplay realm raw at expires out
      → IsReplay realm raw later expires (rotate_refresh_token realm raw secret later out.0)
  unfolding replace_token
  next_offer at secret later out after_it soon young r =
      let early : later < r.exchange.row.expires_at = omega (arith, young, r.kept) in
      subst (λ z. IsReplay realm raw later z (rotate_refresh_token realm raw secret later out.0))
        r.kept
        (replayed realm raw secret later r.exchange.id _ out.0 _ _
          (rotate-again realm raw r.secret at r.before out.0 r.pair whole_days r.exchange secret
            later after_it soon early)
          (found_again realm raw r.secret at r.before out.0 r.pair whole_days r.exchange)
          (stored_again realm raw r.secret at r.before out.0 r.pair whole_days r.exchange))

  all_replayed :
      (at : ℕ) (fresh : ℕ → ℕ) (rows : List RefreshToken)
      → IsReplay realm raw at expires (rotate_refresh_token realm raw (fresh 0) at rows)
      → (gaps : List ℕ) → All (λ gap. gap < rotation_grace_ms) gaps
      → at + total gaps < expires
      → IsReplay realm raw (at + total gaps) expires (offered realm raw fresh at gaps rows)
  unfolding offered
  all_replayed at fresh rows r [] short young =
      let start : at ≡ at + 0 = omega arith in
      subst (λ m. IsReplay realm raw m expires (offered realm raw fresh at [] rows)) start r
  all_replayed at fresh rows r (gap ∷ gaps) short young =
      next_offer (at + total gaps) (fresh (suc (length gaps))) (at + total (gap ∷ gaps))
        (offered realm raw fresh at gaps rows) (omega arith) (omega (arith, short.0)) young
        (all_replayed at fresh rows r gaps short.1 (omega arith))

-- A refresh token that was exchanged once and is then offered again and again, with no other call in
-- between and while the accounts and devices stay as they are, is exchanged at every offer that
-- comes less than a minute after the one before, until it expires: each exchange restarts the
-- minute that is meant for concurrent requests, and each answer is a new pair.
pub offered-issued :
    (realm : Realm) (raw at id : ℕ) (t : RefreshToken) (fresh : ℕ → ℕ)
    (rows after : List RefreshToken) (pair : IssuedTokens)
    → 1 ≤ realm.refresh_ttl_days
    → id_of_hash (realm.hash_secret raw) rows ≡ some id
    → get_elem? rows id ≡ some t
    → rotate_refresh_token realm raw (fresh 0) at rows ≡ (after, issued pair)
    → (gaps : List ℕ) → All (λ gap. gap < rotation_grace_ms) gaps
    → at + total gaps < t.expires_at
    → (next : IssuedTokens) × ((offered realm raw fresh at gaps rows).1 ≡ issued next)
offered-issued realm raw at id t fresh rows after pair whole_days found stored first gaps short
      young =
    let r =
      all_replayed realm raw t.expires_at whole_days at fresh rows
        (replayed realm raw (fresh 0) at id t rows after pair first found stored) gaps short
        young in
    (r.pair, r.same)
