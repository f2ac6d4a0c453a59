-- ===== src/Server/Tests/Tokens.antt =====
-- Refresh tokens at a run of one account.
use gluk_vpn.Common.{ℕ, true, none, some, List, [], ◌∷◌, ◌≡◌, refl, arith, ◌+◌, ◌<◌, get_elem?}
use gluk_vpn.Server.Store.{account_active}
use gluk_vpn.Server.Tokens.{
  RefreshToken, Realm, IssuedTokens, TokenRefusal, Rotation, issued, refused, token_already_used,
  issue_tokens, replace_token, credentials_refusal, rotate_row, rotate_refresh_token,
  revoke_refresh_tokens, fresh_row, id_of_hash,
}
use gluk_vpn.Server.Tokens.Rotated.{IsExchange, rotate_refresh_token-IsExchange, replaced}
use gluk_vpn.Server.Tokens.History.{start, later, issue, rotate}
use gluk_vpn.Server.Tokens.Reused.{offered, offered-issued}
use gluk_vpn.Server.Tokens.Ended.{revoke_refresh_tokens-refused, rotate_refresh_token-stolen}

abbrev realm : Realm
realm = record {
  users = record { status = account_active; max_sessions = 1 } ∷ [];
  devices = record { active = true; token_version = 3 } ∷ [];
  access_ttl_sec = 900;
  refresh_ttl_days = 30;
  hash_secret = λ s. s + 1000;
}

abbrev first : RefreshToken
first = fresh_row realm 7 0 (some 0) 0

abbrev signed_in : List RefreshToken
signed_in = first ∷ []

abbrev pair_of : Rotation → IssuedTokens → IssuedTokens
pair_of (issued p) q = p
pair_of (refused r) q = q

abbrev second : RefreshToken
second = fresh_row realm 8 0 (some 0) 5000

abbrev rotated : List RefreshToken
rotated = replaced first 5000 1 ∷ second ∷ []

abbrev second_pair : IssuedTokens
unfolding issue_tokens
second_pair = (issue_tokens realm 8 0 (some 0) 5000 signed_in).1

rotate_refresh_token-IsExchange_example : IsExchange realm 7 8 5000 signed_in rotated second_pair
unfolding rotate_refresh_token rotate_row credentials_refusal replace_token issue_tokens second_pair
rotate_refresh_token-IsExchange_example =
    rotate_refresh_token-IsExchange realm 7 8 5000 signed_in rotated second_pair refl

-- The token that was exchanged at five seconds, offered again after 59, 10 and 59 seconds.
offered-issued_example :
    (next : IssuedTokens) × ((offered realm 7
        (λ n. 8 + n)
        5000
        (59000 ∷ 10000 ∷ 59000 ∷ [])
        signed_in).1
      ≡ issued next)
unfolding rotate_refresh_token rotate_row credentials_refusal replace_token issue_tokens second_pair
offered-issued_example =
    offered-issued realm 7 5000 0 first (λ n. 8 + n) signed_in rotated second_pair (omega arith)
      refl refl refl (59000 ∷ 10000 ∷ 59000 ∷ []) (omega arith, (omega arith, (omega arith, tt)))
      (omega arith)

abbrev signed_out : List RefreshToken
unfolding revoke_refresh_tokens
signed_out = (revoke_refresh_tokens 0 none 9000 rotated).0

abbrev back : List RefreshToken
unfolding revoke_refresh_tokens issue_tokens signed_out
back = (issue_tokens realm 9 0 (some 0) 10000 signed_out).0

revoke_refresh_tokens-refused_example :
    (r : TokenRefusal) × ((rotate_refresh_token realm 8 10 11000 back).1 ≡ refused r)
unfolding revoke_refresh_tokens issue_tokens signed_out back rotate_refresh_token rotate_row
    credentials_refusal replace_token
revoke_refresh_tokens-refused_example =
    revoke_refresh_tokens-refused {rows = rotated} 0 9000 1
      (record second { revoked_at = some 9000 }) realm 8 10 11000
      (later (later start (issue realm 7 0 (some 0) 0)) (rotate realm 7 8 5000))
      (later start (issue realm 9 0 (some 0) 10000)) refl (omega arith) refl refl

rotate_refresh_token-stolen_example :
    ((rotate_refresh_token realm 7 9 65000 rotated).1 ≡ refused token_already_used)
    × ((other : Realm) (offered fresh moment i : ℕ) (u : RefreshToken)
        → id_of_hash (other.hash_secret offered) (rotate_refresh_token realm 7 9 65000 rotated).0
          ≡ some i
        → i < 2
        → get_elem? (rotate_refresh_token realm 7 9 65000 rotated).0 i ≡ some u
        → u.user ≡ 0
        → (r : TokenRefusal) × ((rotate_refresh_token other offered fresh moment
              (rotate_refresh_token realm 7 9 65000 rotated).0).1
            ≡ refused r))
unfolding issue_tokens rotate_refresh_token rotate_row credentials_refusal replace_token
rotate_refresh_token-stolen_example =
    rotate_refresh_token-stolen {rows = rotated} realm 7 9 65000 0 5000 1 (replaced first 5000 1)
      (later (later start (issue realm 7 0 (some 0) 0)) (rotate realm 7 8 5000)) refl refl refl refl
      refl (omega arith) start
