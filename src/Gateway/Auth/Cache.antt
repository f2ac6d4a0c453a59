-- ===== src/Gateway/Auth/Cache.antt =====
-- What the cache does to later requests.
use gluk_vpn.Common.{
  ℕ, String, Option, none, some, ◌≡◌, ◌≢◌, ◌≤◌, ◌<◌, ◌⊎◌, inl, inr, refl, arith, lookup, IsMap,
  keep_some, lookup-retain, lookup-insert, lookup-erase, eq_iff, eq_refl, Option-cases, ltb,
}
use gluk_vpn.Gateway.Config.{Config}
use gluk_vpn.Gateway.State.{Runtime, refused, Answer, Gateway, token_rejected, maintenance, service}
use gluk_vpn.Gateway.Credentials.{Credentials}
use gluk_vpn.Gateway.Auth.{
  record_maintenance, cutoff, cache_key, verify_cached, verify_settle, bound_api, auth_cleanup,
}

abbrev pub answer_of : Option (Gateway × Answer) → Option Answer
answer_of none = none
answer_of (some r) = some r.1

cutoff-auth_cleanup :
    (cfg : Config) (cleaned now : ℕ) (g : Gateway) (api : Option String)
    → IsMap g.maintenance_by_api
    → cleaned ≤ now
    → (cutoff (auth_cleanup cfg cleaned g) api ≡ cutoff g api)
      ⊎ ((cutoff (auth_cleanup cfg cleaned g) api ≡ 0) × (cutoff g api ≤ now))
unfolding auth_cleanup cutoff
cutoff-auth_cleanup cfg cleaned now g none hm h = inl refl
cutoff-auth_cleanup cfg cleaned now g (some api) hm h =
    ground
      (arith, lookup-retain api (λ (k : String) (t : ℕ). ltb cleaned t) g.maintenance_by_api hm)

-- The cleanup timer only drops what no longer counts: from its run on, each token has the answer
-- from the cache that it would have had without it.
pub verify_cached-auth_cleanup :
    (cfg : Config) (rt : Runtime) (c : Credentials) (cleaned now : ℕ) (g : Gateway)
    → IsMap g.auth_cache
    → IsMap g.maintenance_by_api
    → cleaned ≤ now
    → answer_of (verify_cached rt c now (auth_cleanup cfg cleaned g))
      ≡ answer_of (verify_cached rt c now g)
unfolding verify_cached auth_cleanup
verify_cached-auth_cleanup cfg rt c cleaned now g hc hm h =
    elim (Option-cases (lookup (cache_key rt c) g.auth_cache)) [
      | inl e ↦ ground (arith, kept, e)
      | inr (a, e) ↦ ground (arith, kept, e, cutoff-auth_cleanup cfg cleaned now g a.api_base hm h)
    ]
  where
    kept :
        lookup (cache_key rt c) (auth_cleanup cfg cleaned g).auth_cache
        ≡ keep_some (λ a. ltb cleaned a.until) (lookup (cache_key rt c) g.auth_cache)
    kept =
        lookup-retain (cache_key rt c) (λ (k : String) (a : Answer). ltb cleaned a.until)
          g.auth_cache hc

-- A service-wide maintenance that one token's check reports refuses, at once and up to the
-- reported time, every other token that is bound to the same control plane.
pub maintenance_spreads :
    (rt : Runtime) (c c' : Credentials) (later now until : ℕ) (api : String) (a' : Answer)
    (g : Gateway)
    → cache_key rt c ≢ cache_key rt c'
    → lookup (cache_key rt c') g.auth_cache ≡ some a'
    → a'.api_base ≡ some api
    → now < a'.until
    → now < until
    → answer_of (
        verify_cached rt c' now
          (verify_settle rt c later
            (some (record {
              verdict = refused (maintenance service);
              until = until;
              api_base = some api;
            }))
            g).0)
      ≡ some
          (record { verdict = refused (maintenance service); until = until; api_base = some api })
unfolding verify_cached verify_settle cutoff record_maintenance
maintenance_spreads rt c c' later now until api a' g ne hit bound valid active = ground (
  arith,
  lookup-insert (cache_key rt c) (cache_key rt c')
      (record { verdict = refused (maintenance service); until = until; api_base = some api })
      g.auth_cache,
  eq_iff (cache_key rt c) (cache_key rt c'),
  lookup-insert api api until g.maintenance_by_api,
  eq_refl api,
)

-- A rejected token is forgotten: the next request with it is checked with a control plane again,
-- and with no binding.
pub rejected_is_forgotten :
    (rt : Runtime) (c : Credentials) (later now : ℕ) (a : Answer) (g : Gateway)
    → a.verdict ≡ refused token_rejected
    → (verify_cached rt c now (verify_settle rt c later (some a) g).0 ≡ none)
      × (bound_api rt c (verify_settle rt c later (some a) g).0 ≡ none)
unfolding verify_cached verify_settle bound_api
rejected_is_forgotten rt c later now a g v =
    ground
      (arith, lookup-erase (cache_key rt c) (cache_key rt c) g.auth_cache, eq_refl (cache_key rt c))
