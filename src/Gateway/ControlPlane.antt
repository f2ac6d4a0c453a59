-- ===== src/Gateway/ControlPlane.antt =====
-- What a control plane answers about credentials, and what the gateway makes of it: `verifyWith`
-- and `planSpeedLimit` of server.js. The JSON members `retryAfterSec` and
-- `speedLimitMbps` are natural numbers. `none` is the code's `null`: no verdict.
use Prim.Native.Nat.{min, max}
use gluk_vpn.Common.{
  ℕ, String, Bool, true, false, not, ◌&&◌, ◌||◌, Option, none, some, ◌+◌, ◌*◌, ltb, leb, ◌==◌,
  if◌then◌else◌, str_eq,
}
use gluk_vpn.Gateway.Config.{Config}
use gluk_vpn.Gateway.State.{
  Runtime, Scope, maintenance, subscription_inactive, no_active_session, token_rejected, service,
  node, Grant, Verdict, granted, refused, Answer,
}
use gluk_vpn.Gateway.Credentials.{Credentials, or_null, extract_user_id}

-- A member of the JSON answer: missing (or null), a boolean, or a number.
pub data Field : Type 0 where
  absent : Field
  flag : Bool → Field
  number : ℕ → Field

pub record ServiceBody : Type 0 where
  pub maintenance : Field
  pub retry_after_sec : Field

-- The members of the JSON object that the gateway reads.
pub record Body : Type 0 where
  pub connected : Field
  pub subscription_active : Field
  pub node_maintenance : Field
  pub service : Option ServiceBody
  pub session_device_id : Option String
  pub quota_speed_limit_mbps : Field
  pub error_code : Option String
  pub error_node_id : Option String

-- `failed`: the request threw, or did not answer in 8 s. A body that is no JSON object is `none`.
pub data Reply : Type 0 where
  failed : Reply
  answered : ℕ → Option Body → Reply

pub record Exchange : Type 0 where
  pub reply : Reply
  pub at : ℕ

abbrev pub is_true : Field → Bool
is_true (flag b) = b
is_true _ = false

abbrev pub is_false : Field → Bool
is_false (flag b) = not b
is_false _ = false

-- `Number(value)`; `none` is NaN.
abbrev to_number : Field → Option ℕ
to_number absent = none
to_number (flag true) = some 1
to_number (flag false) = some 0
to_number (number n) = some n

-- `Number(value) || d`
abbrev number_or : Field → ℕ → ℕ
number_or f d = elim (to_number f) [ none ↦ d | some n ↦ if n == 0 then d else n ]

abbrev service_field : (ServiceBody → Field) → Option ServiceBody → Field
service_field f none = absent
service_field f (some s) = f s

-- `planSpeedLimit`
unfoldable pub plan_speed_limit : Field → Option ℕ
plan_speed_limit f = elim (to_number f) [ none ↦ none | some n ↦ if ltb 0 n then some n else none ]

abbrev pub in_service_maintenance : Body → Bool
in_service_maintenance b = is_true (service_field (λ s. s.maintenance) b.service)

retry_ms : Body → ℕ
retry_ms b =
    min 300000 (max 5000 (number_or (service_field (λ s. s.retry_after_sec) b.service) 30 * 1000))

-- `credentials.username || body.session?.deviceId || 'browser'`
unfoldable pub device_id_of : Credentials → Body → String
device_id_of c b = elim (or_null (some c.username)) [
  | some u ↦ u
  | none ↦ elim (or_null b.session_device_id) [ some d ↦ d | none ↦ "browser" ]
]

abbrev is_maintenance_code : Option Body → Bool
is_maintenance_code none = false
is_maintenance_code (some b) = elim b.error_code [ none ↦ false | some c ↦ str_eq c "maintenance" ]

abbrev error_scope : Option Body → Scope
error_scope none = service
error_scope (some b) = elim (or_null b.error_node_id) [ none ↦ service | some n ↦ node ]

module _ (cfg : Config) (rt : Runtime) (creds : Credentials) where
  -- The branch `if (response.ok)` on a JSON object.
  unfoldable pub judge : String → ℕ → Body → Bool → Answer
  unfolding retry_ms device_id_of plan_speed_limit
  judge api now b require_session =
      if in_service_maintenance b
      then answer (refused (maintenance service)) (now + retry_ms b)
      else if is_true b.node_maintenance
      then answer (refused (maintenance node)) (now + retry_ms b)
      else if is_false b.subscription_active
      then answer (refused subscription_inactive) (now + cfg.auth_ttl_ms)
      else if require_session && not (is_true b.connected)
      then answer (refused no_active_session) (now + 10000)
      else answer (granted grant) (now + cfg.auth_ttl_ms)
    where
      answer : Verdict → ℕ → Answer
      answer v t = record { verdict = v; until = t; api_base = some api }

      grant : Grant
      grant = record {
        user_id = extract_user_id rt creds.token;
        device_id = device_id_of creds b;
        speed_limit_mbps = plan_speed_limit b.quota_speed_limit_mbps;
      }

  -- By the reply: the successes, the explicit refusals, and what gives no verdict.
  unfoldable pub reply_answer : String → ℕ → Bool → Reply → Option Answer
  unfolding judge
  reply_answer api at require_session failed = none
  reply_answer api at require_session (answered status body) =
      if leb 200 status && ltb status 300
      then elim body [ none ↦ none | some b ↦ some (judge api at b require_session) ]
      else if status == 401 || status == 403
      then some (record { verdict = refused token_rejected; until = at; api_base = some api })
      else if status == 503 && is_maintenance_code body
      then some (record {
        verdict = refused (maintenance (error_scope body));
        until = at + 5000;
        api_base = some api;
      })
      else none

  unfoldable pub verify_with : String → Exchange → Bool → Option Answer
  unfolding reply_answer
  verify_with api x require_session = reply_answer api x.at require_session x.reply
