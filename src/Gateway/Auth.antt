-- ===== src/Gateway/Auth.antt =====
-- The check of credentials with its cache: `verifyFresh`, `verify` and the cleanup timer, in server.js.
-- What the control planes answer, and when, enters as an `Exchange`.
pub mod Verdicts
pub mod Cache
pub mod Identity
use gluk_vpn.Common.{
  ℕ, String, Bool, true, false, ◌&&◌, Option, none, some, ◌+◌, ◌-◌, ltb, leb, ◌==◌, if◌then◌else◌,
  StringMap, lookup, insert, erase, retain, map_values,
}
use gluk_vpn.Gateway.Config.{Config}
use gluk_vpn.Gateway.State.{
  Runtime, Counters, maintenance, token_rejected, missing_credentials, control_plane_unreachable,
  service, Grant, granted, refused, Answer, Gateway,
}
use gluk_vpn.Gateway.Credentials.{Credentials, is_empty, or_null, extract_user_id}
use gluk_vpn.Gateway.ControlPlane.{Exchange, verify_with}

abbrev pub is_token_rejected : Option Answer → Bool
is_token_rejected none = false
is_token_rejected (some a) = elim a.verdict [ refused token_rejected ↦ true | _ ↦ false ]

-- `result === null || result.reason === 'token-rejected'`
abbrev pub is_undecided : Option Answer → Bool
is_undecided none = true
is_undecided (some a) = is_token_rejected (some a)

-- What the alternate control plane makes of an undecided result.
abbrev pub merge : Option Answer → Option Answer → Option Answer
merge first none = first
merge first (some b) =
    if is_token_rejected (some b) then elim first [ none ↦ some b | some a ↦ some a ] else some b

module _ (cfg : Config) (rt : Runtime) (creds : Credentials) where
  -- The answer of `verifyFresh`; `first` is what the preferred control plane, or else the
  -- configured one, answers, and `second` what the alternate one would.
  unfoldable pub fresh_answer : Bool → Option String → Exchange → Exchange → Option Answer
  unfolding verify_with
  fresh_answer require_session (some api) first second =
      verify_with cfg rt creds api first require_session
  fresh_answer require_session none first second =
      let primary = verify_with cfg rt creds cfg.control_api first require_session in
      if is_undecided primary
      then merge primary (verify_with cfg rt creds cfg.fallback_api second require_session)
      else primary

-- What `verifyFresh` records about a maintenance of the whole service.
unfoldable pub record_maintenance : Option Answer → StringMap ℕ → StringMap ℕ
record_maintenance none m = m
record_maintenance (some a) m = elim a.api_base [
  | none ↦ m
  | some api ↦ elim a.verdict [
    | granted g ↦ erase api m
    | refused (maintenance service) ↦ insert api a.until m
    | refused _ ↦ m
  ]
]

-- `maintenanceByApi.get(api) || 0`
unfoldable pub cutoff : Gateway → Option String → ℕ
cutoff g none = 0
cutoff g (some api) = elim (lookup api g.maintenance_by_api) [ none ↦ 0 | some t ↦ t ]

module _ (rt : Runtime) (creds : Credentials) where
  abbrev pub cache_key : String
  cache_key = rt.sha256 creds.token

  -- The cached object takes the user name of the request, and the user id if it has none.
  abbrev refresh_grant : Grant → Grant
  refresh_grant g = record {
    user_id = elim g.user_id [ none ↦ extract_user_id rt creds.token | some u ↦ some u ];
    device_id = elim (or_null (some creds.username)) [ none ↦ g.device_id | some u ↦ u ];
    speed_limit_mbps = g.speed_limit_mbps;
  }

  abbrev pub refresh_answer : Answer → Answer
  refresh_answer a = elim a.verdict [
    | refused r ↦ a
    | granted g ↦ record a { verdict = granted (refresh_grant g) }
  ]

  abbrev serve : ℕ → Answer → Gateway → Gateway × Answer
  serve now a g =
      if ltb now (cutoff g a.api_base)
      then (
        g,
        record {
          verdict = refused (maintenance service);
          until = cutoff g a.api_base;
          api_base = a.api_base;
        },
      )
      else (
        record g { auth_cache = insert cache_key (refresh_answer a) g.auth_cache },
        refresh_answer a,
      )

  -- The part of `verify` before the first `await`: an answer from the cache, or none.
  unfoldable pub verify_cached : ℕ → Gateway → Option (Gateway × Answer)
  unfolding cutoff
  verify_cached now g = elim (lookup cache_key g.auth_cache) [
    | none ↦ none
    | some a ↦ if ltb now a.until then some (serve now a g) else none
  ]

  -- `cached?.apiBase || null`, which binds a token to the control plane that answered for it.
  unfoldable pub bound_api : Gateway → Option String
  bound_api g = elim (lookup cache_key g.auth_cache) [ none ↦ none | some a ↦ or_null a.api_base ]

  abbrev or_unreachable : ℕ → Option Answer → Answer
  or_unreachable now none = record {
    verdict = refused control_plane_unreachable;
    until = now + 5000;
    api_base = none;
  }
  or_unreachable now (some a) = a

  -- The part of `verify` behind the `await`, with what `verifyFresh` does to the cutoffs.
  unfoldable pub verify_settle : ℕ → Option Answer → Gateway → Gateway × Answer
  unfolding record_maintenance
  verify_settle later result g =
      let a = or_unreachable later result in
      let m = record_maintenance result g.maintenance_by_api in
      if is_token_rejected (some a)
      then (record g { auth_cache = erase cache_key g.auth_cache; maintenance_by_api = m }, a)
      else (record g { auth_cache = insert cache_key a g.auth_cache; maintenance_by_api = m }, a)

abbrev no_credentials : Answer
no_credentials = record { verdict = refused missing_credentials; until = 0; api_base = none }

-- `verify`, called at `now` and answered at `later`, with no other handler in between.
unfoldable pub verify :
    Config → Runtime → ℕ → ℕ → Option Credentials → Exchange → Exchange → Gateway → Gateway × Answer
unfolding verify_cached verify_settle bound_api fresh_answer
verify cfg rt now later none first second g = (g, no_credentials)
verify cfg rt now later (some c) first second g =
    if is_empty c.token then (g, no_credentials) else elim (verify_cached rt c now g) [
      | some r ↦ r
      | none ↦
          verify_settle rt c later
            (fresh_answer cfg rt c cfg.require_session (bound_api rt c g) first second) g
    ]

-- `authCleanupTimer`
unfoldable pub auth_cleanup : Config → ℕ → Gateway → Gateway
auth_cleanup cfg now g = record g {
  auth_cache = retain (λ k a. ltb now a.until) g.auth_cache;
  maintenance_by_api = retain (λ k t. ltb now t) g.maintenance_by_api;
  stats = map_values forget g.stats;
  user_stats = map_values forget g.user_stats;
}
  where
    forget : Counters → Counters
    forget c =
        if c.active == 0 && leb cfg.token_retention_ms (now - c.token_touched_at)
        then record c { token = none }
        else c
