-- ===== src/Server/Tokens/SignedOut.antt =====
-- What is left of the tokens that an account had when all of them were revoked, whatever happens
-- afterwards: `revokeRefreshTokens` and `rotateRefreshToken` of
-- control-server/src/services/tokens.ts.
use gluk_vpn.Common.{
  ℕ, zero, suc, Bool, false, none, some, List, [], ◌∷◌, ◌++◌, map, ◌≡◌, ◌≢◌, inl, inr, ◌≤◌, ◌<◌,
  refl, sym, subst, ap, ◌∙◌, arith, get_elem?, set, length, length-append, length-set, length-map,
  get_elem?-snoc, get_elem?-set_cases, get_elem?-map, Bool-cases, Option-cases,
}
use gluk_vpn.Server.Tokens.{
  RefreshToken, Realm, IssuedTokens, fresh_row, issue_tokens, rotate_refresh_token,
  revoke_refresh_tokens, revoked_if, is_unrevoked, is_of_user, is_meant, has_active_successor,
  is_within_grace, is_of_chain, max_depth, replace_token,
}
use gluk_vpn.Server.Tokens.Rotated.{IsExchange, IsUsable, replaced, rotate_refresh_token-IsExchange}
use gluk_vpn.Server.Tokens.History.{Step, issue, rotate, revoke, Steps, start, later, rotate-elim}
use gluk_vpn.Server.Tokens.Stolen.{revoked_if-user, revoked_if-replaced_by, revoked_if-keeps}

-- The first `n` rows, as far as they are the account's, are revoked, and replaced by one another.
pub record AreDead (n user : ℕ) (rows : List RefreshToken) : Type 0 where
  pub enough : n ≤ length rows
  pub dead :
      (i : ℕ) (t : RefreshToken)
      → get_elem? rows i ≡ some t
      → i < n
      → t.user ≡ user
      → is_unrevoked t ≡ false
  pub linked :
      (i : ℕ) (t : RefreshToken)
      → get_elem? rows i ≡ some t
      → i < n
      → t.user ≡ user
      → (j : ℕ) → t.replaced_by ≡ some j
      → j < n

-- The walk stops at a row that is not there or not in the chain, and goes past one that is revoked.
past :
    (rows : List RefreshToken) (t : RefreshToken) (at depth j : ℕ)
    → ((next : RefreshToken)
        → get_elem? rows j ≡ some next
        → next.user ≡ t.user
        → (is_unrevoked next ≡ false)
          × (has_active_successor depth rows t at next.replaced_by ≡ false))
    → has_active_successor (suc depth) rows t at (some j) ≡ false
unfolding has_active_successor
past rows t at depth j h = elim (Option-cases (get_elem? rows j)) [
  | inl e ↦ rw (has_active_successor, e)
  | inr (next, e) ↦ elim (Bool-cases (is_of_chain t at next)) [
    | inr off ↦ rw (has_active_successor, e, off)
    | inl on ↦
        let (revoked, rest) = h next e (ground (arith, on)) in
        elim (Option-cases next.revoked_at) [
          | inl never ↦ absurd (ground (arith, revoked, never))
          | inr (r, once) ↦ elim (Bool-cases (is_within_grace r at)) [
            | inr stale ↦ rw (has_active_successor, e, on, once, stale)
            | inl fresh ↦ rw (has_active_successor, e, on, once, fresh) rest
          ]
        ]
  ]
]

no_link :
    (depth : ℕ) (rows : List RefreshToken) (t : RefreshToken) (at : ℕ)
    → has_active_successor depth rows t at none ≡ false
unfolding has_active_successor
no_link zero rows t at = refl
no_link (suc depth) rows t at = refl

no_successor :
    (n user at : ℕ) (rows : List RefreshToken) (t : RefreshToken)
    → AreDead n user rows
    → t.user ≡ user
    → (depth j : ℕ) → j < n
    → has_active_successor depth rows t at (some j) ≡ false
unfolding has_active_successor
no_successor n user at rows t d u zero j h = refl
no_successor n user at rows t d u (suc depth) j h = past rows t at depth j λ next e same. (
  d.dead j next e h (same ∙ u),
  elim (Option-cases next.replaced_by) [
    | inl last ↦ rw last (no_link depth rows t at)
    | inr (k, to) ↦
        rw to (no_successor n user at rows t d u depth k (d.linked j next e h (same ∙ u) k to))
  ],
)

AreDead-append :
    (n user : ℕ) (rows : List RefreshToken) (t : RefreshToken)
    → AreDead n user rows
    → AreDead n user (rows ++ t ∷ [])
AreDead-append n user rows t d = record {
  enough = omega (arith, d.enough, length-append rows (t ∷ []));
  dead = λ i x e lt own. elim (get_elem?-snoc rows t i e) [
    | inl old ↦ d.dead i x old lt own
    | inr (at, new) ↦ absurd (omega (arith, d.enough, at))
  ];
  linked = λ i x e lt own. elim (get_elem?-snoc rows t i e) [
    | inl old ↦ d.linked i x old lt own
    | inr (at, new) ↦ absurd (omega (arith, d.enough, at))
  ];
}

AreDead-map :
    (n user : ℕ) (rows : List RefreshToken) (p : RefreshToken → Bool) (at : ℕ)
    → AreDead n user rows
    → AreDead n user (map (revoked_if p at) rows)
AreDead-map n user rows p at d = record {
  enough = omega (arith, d.enough, length-map (revoked_if p at) rows);
  dead = λ i x e lt own.
      let (y, old, same) = get_elem?-map (revoked_if p at) rows i e in
      subst (λ z. is_unrevoked z ≡ false) same
        (revoked_if-keeps p at y (
          d.dead i y old lt
            (sym (revoked_if-user p at y) ∙ ap (λ (z : RefreshToken). z.user) same ∙ own)));
  linked = λ i x e lt own j to.
      let (y, old, same) = get_elem?-map (revoked_if p at) rows i e in
      d.linked i y old lt
        (sym (revoked_if-user p at y) ∙ ap (λ (z : RefreshToken). z.user) same ∙ own) j
        (sym (revoked_if-replaced_by p at y) ∙ ap (λ (z : RefreshToken). z.replaced_by) same ∙ to);
}

AreDead-set :
    (n user id : ℕ) (rows : List RefreshToken) (t : RefreshToken)
    → AreDead n user rows
    → (id < n → t.user ≢ user)
    → AreDead n user (set rows id t)
AreDead-set n user id rows t d other = record {
  enough = omega (arith, d.enough, length-set rows id t);
  dead = λ i x e lt own. elim (get_elem?-set_cases rows id i t e) [
    | inl (at, new) ↦
        absurd (other (omega (arith, at)) (ap (λ (z : RefreshToken). z.user) new ∙ own))
    | inr (off, old) ↦ d.dead i x old lt own
  ];
  linked = λ i x e lt own. elim (get_elem?-set_cases rows id i t e) [
    | inl (at, new) ↦
        absurd (other (omega (arith, at)) (ap (λ (z : RefreshToken). z.user) new ∙ own))
    | inr (off, old) ↦ d.linked i x old lt own
  ];
}

-- No pair is issued for a dead token.
pub dead-unusable :
    (n user at i : ℕ) (rows : List RefreshToken) (t : RefreshToken)
    → AreDead n user rows
    → get_elem? rows i ≡ some t
    → i < n
    → t.user ≡ user
    → IsUsable t at rows
    → ⊥
unfolding IsUsable
dead-unusable n user at i rows t d e lt own (inl never) =
    let h = d.dead i t e lt own in ground (arith, h, never)
dead-unusable n user at i rows t d e lt own (inr (revoked, next, h1, h2, h3, h4)) =
    let h = no_successor n user at rows t d own max_depth next (d.linked i t e lt own next h2) in cc

-- Where the rows are written by a rotation that issued a pair.
AreDead-exchange :
    (n user : ℕ) (realm : Realm) (raw secret at : ℕ) (rows after : List RefreshToken)
    (pair : IssuedTokens)
    → AreDead n user rows
    → IsExchange realm raw secret at rows after pair
    → AreDead n user after
AreDead-exchange n user realm raw secret at rows after pair d x =
    subst (AreDead n user) (sym x.written) (
      AreDead-set n user x.id _ (replaced x.row at (length rows))
        (AreDead-append n user rows (fresh_row realm secret x.row.user x.row.device at) d)
        λ lt own. dead-unusable n user at x.id rows x.row d x.stored lt own x.usable)

AreDead-rotate :
    (n user : ℕ) (realm : Realm) (raw secret at : ℕ) (rows : List RefreshToken)
    → AreDead n user rows
    → AreDead n user (rotate_refresh_token realm raw secret at rows).0
unfolding replace_token issue_tokens
AreDead-rotate n user realm raw secret at rows d =
    rotate-elim (λ out. rotate_refresh_token realm raw secret at rows ≡ out → AreDead n user out.0)
      realm raw secret at rows (λ r e. d) (λ u e. AreDead-map n user rows (is_of_user u) at d)
      (λ id t stored e.
        AreDead-exchange n user realm raw secret at rows _ _ d
          (rotate_refresh_token-IsExchange realm raw secret at rows _ _ e))
      refl

AreDead-Step :
    (n user : ℕ) {rows after : List RefreshToken}
    → AreDead n user rows
    → Step rows after
    → AreDead n user after
unfolding issue_tokens revoke_refresh_tokens
AreDead-Step n user {rows} d (issue realm secret u device at) = AreDead-append n user rows _ d
AreDead-Step n user {rows} d (rotate realm raw secret at) =
    AreDead-rotate n user realm raw secret at rows d
AreDead-Step n user {rows} d (revoke u device at) = AreDead-map n user rows (is_meant u device) at d

pub AreDead-Steps :
    (n user : ℕ) {rows after : List RefreshToken}
    → AreDead n user rows
    → Steps rows after
    → AreDead n user after
AreDead-Steps n user d start = d
AreDead-Steps n user d (later steps step) = AreDead-Step n user (AreDead-Steps n user d steps) step
