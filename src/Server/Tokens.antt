-- ===== src/Server/Tokens.antt =====
-- Refresh tokens: control-server/src/services/tokens.ts. A row's id is its position in its table;
-- moments are milliseconds, secrets and their digests numbers. The digest (`hashSecret`) and the
-- fresh secret (`generateSecret`) are arguments.
pub mod Rotated
pub mod Lookups
pub mod Reused
pub mod Stolen
pub mod History
pub mod SignedOut
pub mod Ended
use gluk_vpn.Common.{
  ℕ, zero, suc, Bool, true, false, not, ◌&&◌, Option, none, some, List, [], ◌∷◌, ◌++◌, map, ◌+◌,
  ◌-◌, ◌*◌, leb, ltb, ◌==◌, if◌then◌else◌, length, get_elem?, set, count,
}
use gluk_vpn.Server.Store.{User, Device}
use gluk_vpn.Server.Admission.{is_account_active}
use gluk_vpn.Server.Entitlements.{day_ms}

pub record RefreshToken : Type 0 where
  pub user : ℕ
  pub device : Option ℕ
  pub device_version : Option ℕ
  pub hash : ℕ
  pub expires_at : ℕ
  pub revoked_at : Option ℕ
  pub last_used_at : Option ℕ
  pub replaced_by : Option ℕ

-- The settings, and the tables that a rotation only reads.
pub record Realm : Type 0 where
  pub users : List User
  pub devices : List Device
  pub access_ttl_sec : ℕ
  pub refresh_ttl_days : ℕ
  pub hash_secret : ℕ → ℕ

-- What the access token is signed over, without the roles.
pub record Claims : Type 0 where
  pub sub : ℕ
  pub did : Option ℕ
  pub dv : Option ℕ

pub record IssuedTokens : Type 0 where
  pub access_token : Claims
  pub refresh_token : ℕ
  pub refresh_token_id : ℕ
  pub access_token_expires_in_sec : ℕ
  pub refresh_token_expires_at : ℕ
  pub device_id : Option ℕ

abbrev pub version_of : List Device → Option ℕ → Option ℕ
version_of ds none = none
version_of ds (some d) = elim (get_elem? ds d) [ none ↦ none | some row ↦ some row.token_version ]

abbrev pub fresh_row : Realm → ℕ → ℕ → Option ℕ → ℕ → RefreshToken
fresh_row realm secret user device at = record {
  user = user;
  device = device;
  device_version = version_of realm.devices device;
  hash = realm.hash_secret secret;
  expires_at = at + realm.refresh_ttl_days * day_ms;
  revoked_at = none;
  last_used_at = none;
  replaced_by = none;
}

-- `issueTokens`
unfoldable pub issue_tokens :
    Realm → ℕ → ℕ → Option ℕ → ℕ → List RefreshToken → List RefreshToken × IssuedTokens
issue_tokens realm secret user device at rows = (
  rows ++ fresh_row realm secret user device at ∷ [],
  record {
    access_token = record { sub = user; did = device; dv = version_of realm.devices device };
    refresh_token = secret;
    refresh_token_id = length rows;
    access_token_expires_in_sec = realm.access_ttl_sec;
    refresh_token_expires_at = at + realm.refresh_ttl_days * day_ms;
    device_id = device;
  },
)

abbrev pub rotation_grace_ms : ℕ
rotation_grace_ms = 60000

pub data TokenRefusal : Type 0 where
  invalid_token token_expired account_is_refused credentials_revoked device_revoked token_revoked
        token_already_used :
      TokenRefusal

pub data Rotation : Type 0 where
  issued : IssuedTokens → Rotation
  refused : TokenRefusal → Rotation

-- The id of the row with a digest.
abbrev pub id_of_hash : ℕ → List RefreshToken → Option ℕ
id_of_hash h [] = none
id_of_hash h (t ∷ ts) =
    let rest = id_of_hash h ts in
    if t.hash == h then some 0 else elim rest [ none ↦ none | some i ↦ some (suc i) ]

abbrev pub account_active : Realm → ℕ → Bool
account_active realm u = elim (get_elem? realm.users u) [
  | none ↦ false
  | some row ↦ is_account_active row.status
]

abbrev pub version_number : Option ℕ → ℕ
version_number none = 0
version_number (some v) = v

-- The device of a token, when it is still there.
abbrev pub device_of : Realm → RefreshToken → Option Device
device_of realm t = elim t.device [ none ↦ none | some d ↦ get_elem? realm.devices d ]

abbrev pub device_refusal : RefreshToken → Option Device → Option TokenRefusal
device_refusal t none = none
device_refusal t (some d) =
    if not (version_number t.device_version == d.token_version)
    then some credentials_revoked
    else if not d.active
    then some device_revoked
    else none

-- The refusals that come before a token's own revocation is read.
unfoldable pub credentials_refusal : Realm → RefreshToken → ℕ → Option TokenRefusal
credentials_refusal realm t at =
    if leb t.expires_at at
    then some token_expired
    else if not (account_active realm t.user)
    then some account_is_refused
    else device_refusal t (device_of realm t)

abbrev pub is_within_grace : ℕ → ℕ → Bool
is_within_grace revoked at = ltb (at - revoked) rotation_grace_ms

abbrev pub same_device : Option ℕ → Option ℕ → Bool
same_device none none = true
same_device (some a) (some b) = a == b
same_device _ _ = false

-- A successor that the walk does not stop at for its owner or its age.
abbrev pub is_of_chain : RefreshToken → ℕ → RefreshToken → Bool
is_of_chain t at next =
    next.user == t.user && (same_device next.device t.device && not (leb next.expires_at at))

-- The walk over the tokens that replaced one another.
unfoldable pub has_active_successor : ℕ → List RefreshToken → RefreshToken → ℕ → Option ℕ → Bool
has_active_successor zero rows t at id = false
has_active_successor (suc depth) rows t at none = false
has_active_successor (suc depth) rows t at (some id) = elim (get_elem? rows id) [
  | none ↦ false
  | some next ↦ elim (is_of_chain t at next) [
    | false ↦ false
    | true ↦ elim next.revoked_at [
      | none ↦ true
      | some revoked ↦ elim (is_within_grace revoked at) [
        | false ↦ false
        | true ↦ has_active_successor depth rows t at next.replaced_by
      ]
    ]
  ]
]

abbrev pub max_depth : ℕ
max_depth = 16

abbrev pub is_unrevoked : RefreshToken → Bool
is_unrevoked t = elim t.revoked_at [ none ↦ true | some r ↦ false ]

abbrev pub revoked_if : (RefreshToken → Bool) → ℕ → RefreshToken → RefreshToken
revoked_if p at t = if p t && is_unrevoked t then record t { revoked_at = some at } else t

abbrev pub is_of_user : ℕ → RefreshToken → Bool
is_of_user user t = t.user == user

-- The pair that replaces a token, and the row that says so.
unfoldable pub replace_token :
    Realm → ℕ → ℕ → ℕ → RefreshToken → List RefreshToken → List RefreshToken × Rotation
unfolding issue_tokens
replace_token realm secret at id t rows =
    let (after, pair) = issue_tokens realm secret t.user t.device at rows in
    (
      set after id (record t {
        revoked_at = some at;
        last_used_at = some at;
        replaced_by = some pair.refresh_token_id;
      }),
      issued pair,
    )

-- `if (c) throw r`, and a lookup that throws; the rows are what was written before.
abbrev pub refused_if :
    List RefreshToken
    → TokenRefusal
    → Bool
    → List RefreshToken × Rotation
    → List RefreshToken × Rotation
refused_if rows r true next = (rows, refused r)
refused_if rows r false next = next

abbrev pub or_refused :
    {A : Type 0}
    → List RefreshToken
    → TokenRefusal
    → Option A
    → (A → List RefreshToken × Rotation)
    → List RefreshToken × Rotation
or_refused rows r none f = (rows, refused r)
or_refused rows r (some a) f = f a

-- What is done with a token that was revoked before.
unfoldable pub revoked_token :
    Realm → ℕ → ℕ → ℕ → RefreshToken → ℕ → List RefreshToken → List RefreshToken × Rotation
unfolding has_active_successor replace_token
revoked_token realm secret at id t revoked rows =
    or_refused rows token_revoked t.replaced_by λ next.
      refused_if (map (revoked_if (is_of_user t.user) at) rows) token_already_used
        (not (is_within_grace revoked at))
        (refused_if rows token_revoked (not (has_active_successor max_depth rows t at (some next)))
          (replace_token realm secret at id t rows))

unfoldable pub rotate_row :
    Realm → ℕ → ℕ → ℕ → RefreshToken → List RefreshToken → List RefreshToken × Rotation
unfolding credentials_refusal revoked_token replace_token
rotate_row realm secret at id t rows = elim (credentials_refusal realm t at) [
  | some r ↦ (rows, refused r)
  | none ↦ elim t.revoked_at [
    | none ↦ replace_token realm secret at id t rows
    | some revoked ↦ revoked_token realm secret at id t revoked rows
  ]
]

-- `rotateRefreshToken`, of the secret that is offered and the fresh one.
unfoldable pub rotate_refresh_token :
    Realm → ℕ → ℕ → ℕ → List RefreshToken → List RefreshToken × Rotation
unfolding rotate_row
rotate_refresh_token realm raw secret at rows =
    or_refused rows invalid_token (id_of_hash (realm.hash_secret raw) rows) λ id.
      or_refused rows invalid_token (get_elem? rows id) λ t. rotate_row realm secret at id t rows

abbrev pub is_meant : ℕ → Option (Option ℕ) → RefreshToken → Bool
is_meant user none t = t.user == user
is_meant user (some device) t = t.user == user && same_device t.device device

-- `revokeRefreshTokens`; a device that is not given stands for all.
unfoldable pub revoke_refresh_tokens :
    ℕ → Option (Option ℕ) → ℕ → List RefreshToken → List RefreshToken × ℕ
revoke_refresh_tokens user device at rows = (
  map (revoked_if (is_meant user device) at) rows,
  count (λ t. is_meant user device t && is_unrevoked t) rows,
)
