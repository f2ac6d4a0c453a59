-- ===== src/Server/Throttle.antt =====
-- The counters of failed logins: control-server/src/services/loginThrottle.ts. Names and addresses are
-- texts, moments milliseconds.
pub mod Cleared
use gluk_vpn.Common.{
  ℕ, Bool, true, false, not, ◌&&◌, ◌||◌, List, [], ◌∷◌, ◌++◌, ◌+◌, ◌*◌, leb, ltb, if◌then◌else◌,
  count, filter, Text, text_eq,
}

pub record LoginAttempt : Type 0 where
  pub username : Text
  pub ip : Text
  pub success : Bool
  pub created_at : ℕ

pub record ThrottleConfig : Type 0 where
  pub max_attempts : ℕ
  pub lockout_minutes : ℕ

pub record ThrottleState : Type 0 where
  pub locked : Bool
  pub retry_after_sec : ℕ
  pub failed_by_username : ℕ
  pub failed_by_ip : ℕ

abbrev pub ip_threshold_multiplier : ℕ
ip_threshold_multiplier = 4

-- A failure of the window before `now`.
abbrev pub is_recent_failure : ThrottleConfig → ℕ → LoginAttempt → Bool
is_recent_failure cfg now a =
    not a.success && leb now (a.created_at + cfg.lockout_minutes * 60 * 1000)

-- `checkLoginThrottle`
unfoldable pub check_login_throttle :
    ThrottleConfig → Text → Text → ℕ → List LoginAttempt → ThrottleState
check_login_throttle cfg username ip now rows = record {
  locked = locked;
  retry_after_sec = if locked then cfg.lockout_minutes * 60 else 0;
  failed_by_username = by_username;
  failed_by_ip = by_ip;
}
  where
    by_username : ℕ
    by_username = count (λ a. text_eq a.username username && is_recent_failure cfg now a) rows

    by_ip : ℕ
    by_ip = count (λ a. text_eq a.ip ip && is_recent_failure cfg now a) rows

    locked : Bool
    locked =
        leb cfg.max_attempts by_username || leb (cfg.max_attempts * ip_threshold_multiplier) by_ip

abbrev pub is_cleared : Text → Text → LoginAttempt → Bool
is_cleared username ip a = not a.success && (text_eq a.username username || text_eq a.ip ip)

abbrev pub attempt : Text → Text → Bool → ℕ → LoginAttempt
attempt username ip success now = record {
  username = username;
  ip = ip;
  success = success;
  created_at = now;
}

-- `recordLoginAttempt`
unfoldable pub record_login_attempt : Text → Text → Bool → ℕ → List LoginAttempt → List LoginAttempt
record_login_attempt username ip success now rows =
    if success
    then filter (λ a. not (is_cleared username ip a)) (rows ++ attempt username ip success now ∷ [])
    else rows ++ attempt username ip success now ∷ []

-- `purgeOldLoginAttempts`
unfoldable pub purge_old_login_attempts : ℕ → ℕ → List LoginAttempt → List LoginAttempt × ℕ
purge_old_login_attempts hours now rows = (
  filter (λ a. not (ltb (a.created_at + hours * 60 * 60 * 1000) now)) rows,
  count (λ a. ltb (a.created_at + hours * 60 * 60 * 1000) now) rows,
)
