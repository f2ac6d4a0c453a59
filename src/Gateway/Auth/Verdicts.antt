-- ===== src/Gateway/Auth/Verdicts.antt =====
-- What a grant rests on, and which control plane decides.
use gluk_vpn.Common.{
  ℕ, String, Bool, true, false, Option, none, some, ◌≡◌, ◌≤◌, ◌<◌, ◌+◌, ◌⊎◌, inl, inr, refl, arith,
  lookup, if◌then◌else◌, Bool-cases, Option-cases,
}
use gluk_vpn.Gateway.Config.{Config}
use gluk_vpn.Gateway.State.{Runtime, Grant, granted, refused, Answer, Gateway, Verdict}
use gluk_vpn.Gateway.Credentials.{Credentials, is_empty}
use gluk_vpn.Gateway.ControlPlane.{
  is_true, is_false, Body, Reply, failed, answered, Exchange, in_service_maintenance, judge,
  verify_with, reply_answer, device_id_of,
}
use gluk_vpn.Gateway.Auth.{
  is_undecided, merge, fresh_answer, cutoff, cache_key, verify_cached, verify_settle, bound_api,
  verify,
}

-- The control plane lets the device through: nothing is in maintenance, the subscription is not
-- reported inactive, and the device is connected where a session is required.
abbrev pub Admits : Bool → Body → Type 0
Admits require_session b =
    (in_service_maintenance b ≡ false)
    × (is_true b.node_maintenance ≡ false)
    × (is_false b.subscription_active ≡ false)
    × ((require_session ≡ false) ⊎ (is_true b.connected ≡ true))

-- The exchange is a success whose body admits the device.
abbrev pub Vouches : Bool → Exchange → Type 0
Vouches require_session x =
    (status : ℕ) × (b : Body) × (x.reply ≡ answered status (some b))
    × (200 ≤ status)
    × (status < 300)
    × Admits require_session b

-- The device id that a success carries.
abbrev device_of : Credentials → Reply → String
device_of c (answered status (some b)) = device_id_of c b
device_of c _ = ""

pub merge-cases :
    (p q : Option Answer) {a : Answer}
    → (if is_undecided p then merge p q else p) ≡ some a
    → (p ≡ some a) ⊎ (q ≡ some a)
merge-cases none none h = cc
merge-cases none (some b) h = ground arith
merge-cases (some a) none h = ground arith
merge-cases (some a) (some b) h = ground arith

module _ (cfg : Config) (rt : Runtime) (creds : Credentials) where
  judge-granted :
      (api : String) (now : ℕ) (b : Body) (rs : Bool) {gr : Grant}
      → (judge cfg rt creds api now b rs).verdict ≡ granted gr
      → Admits rs b
  unfolding judge
  judge-granted api now b rs e = ground arith

  pub judge-fields :
      (api : String) (now : ℕ) (b : Body) (rs : Bool) {gr : Grant}
      → (judge cfg rt creds api now b rs).verdict ≡ granted gr
      → (gr.device_id ≡ device_id_of creds b)
        × ((judge cfg rt creds api now b rs).until ≡ now + cfg.auth_ttl_ms)
  unfolding judge
  judge-fields api now b rs e = ground arith

  judge-api_base :
      (api : String) (now : ℕ) (b : Body) (rs : Bool)
      → (judge cfg rt creds api now b rs).api_base ≡ some api
  unfolding judge
  judge-api_base api now b rs = ground arith

  pub reply_answer-judge :
      (api : String) (at status : ℕ) (b : Body) (rs : Bool) {a : Answer} {gr : Grant}
      → reply_answer cfg rt creds api at rs (answered status (some b)) ≡ some a
      → a.verdict ≡ granted gr
      → (200 ≤ status) × (status < 300) × (a ≡ judge cfg rt creds api at b rs)
  unfolding reply_answer
  reply_answer-judge api at status b rs h v = ground arith

  reply_answer-Vouches :
      (api : String) (at : ℕ) (r : Reply) (rs : Bool) {a : Answer} {gr : Grant}
      → reply_answer cfg rt creds api at rs r ≡ some a
      → a.verdict ≡ granted gr
      → Vouches rs (record { reply = r; at = at })
        × (gr.device_id ≡ device_of creds r)
        × (a.until ≡ at + cfg.auth_ttl_ms)
        × (a.api_base ≡ some api)
  unfolding reply_answer
  reply_answer-Vouches api at failed rs h v = cc
  reply_answer-Vouches api at (answered status none) rs h v = absurd (ground arith)
  reply_answer-Vouches api at (answered status (some b)) rs {a} {gr} h v =
      let (low, high, e) = reply_answer-judge api at status b rs h v in
      let v' : (judge cfg rt creds api at b rs).verdict ≡ granted gr = rw (← e) v in
      let (device, ttl) = judge-fields api at b rs v' in
      (
        (status, b, refl, low, high, judge-granted api at b rs v'),
        device,
        rw e ttl,
        rw e (judge-api_base api at b rs),
      )

  reply_answer-api_base :
      (api : String) (at : ℕ) (rs : Bool) (r : Reply) {a : Answer}
      → reply_answer cfg rt creds api at rs r ≡ some a
      → a.api_base ≡ some api
  unfolding reply_answer
  reply_answer-api_base api at rs failed h = cc
  reply_answer-api_base api at rs (answered status none) h = ground arith
  reply_answer-api_base api at rs (answered status (some b)) h =
      ground (arith, judge-api_base api at b rs)

  fresh_answer-Vouches :
      (bound : Option String) (rs : Bool) (first second : Exchange) {a : Answer} {gr : Grant}
      → fresh_answer cfg rt creds rs bound first second ≡ some a
      → a.verdict ≡ granted gr
      → Vouches rs first ⊎ Vouches rs second
  unfolding fresh_answer verify_with
  fresh_answer-Vouches (some api) rs first second h v =
      inl (reply_answer-Vouches api first.at first.reply rs h v).0
  fresh_answer-Vouches none rs first second h v = elim (merge-cases _ _ h) [
    | inl e ↦ inl (reply_answer-Vouches cfg.control_api first.at first.reply rs e v).0
    | inr e ↦ inr (reply_answer-Vouches cfg.fallback_api second.at second.reply rs e v).0
  ]

-- Once a token is bound to a control plane, that one alone decides: whatever the alternate one
-- answers makes no difference, and every answer carries the same binding.
pub fresh_answer-bound :
    (cfg : Config) (rt : Runtime) (creds : Credentials) (api : String) (rs : Bool)
    (first second other : Exchange)
    → (fresh_answer cfg rt creds rs (some api) first second
        ≡ fresh_answer cfg rt creds rs (some api) first other)
      × ((a : Answer)
          → fresh_answer cfg rt creds rs (some api) first second ≡ some a
          → a.api_base ≡ some api)
unfolding fresh_answer verify_with
fresh_answer-bound cfg rt creds api rs first second other =
    (refl, λ a h. reply_answer-api_base cfg rt creds api first.at rs first.reply h)

abbrev pub is_granted : Verdict → Bool
is_granted (granted g) = true
is_granted (refused r) = false

-- The cached answer under a token lets it through at `now`.
abbrev pub IsHit : Runtime → Credentials → ℕ → Gateway → Type 0
IsHit rt c now g =
    (a : Answer) × (lookup (cache_key rt c) g.auth_cache ≡ some a)
    × (is_granted a.verdict ≡ true)
    × (now < a.until)
    × (cutoff g a.api_base ≤ now)

verify_cached-IsHit :
    (rt : Runtime) (c : Credentials) (now : ℕ) (g : Gateway) (r : Gateway × Answer) {gr : Grant}
    → verify_cached rt c now g ≡ some r
    → r.1.verdict ≡ granted gr
    → IsHit rt c now g
unfolding verify_cached
verify_cached-IsHit rt c now g r h v = elim (Option-cases (lookup (cache_key rt c) g.auth_cache)) [
  | inl e ↦ absurd (ground arith)
  | inr (a, e) ↦ (a, e, ground arith, ground arith, ground arith)
]

pub verify_settle-granted :
    (rt : Runtime) (c : Credentials) (later : ℕ) (r : Option Answer) (g : Gateway) {gr : Grant}
    → (verify_settle rt c later r g).1.verdict ≡ granted gr
    → (a : Answer) × (r ≡ some a) × (a.verdict ≡ granted gr)
unfolding verify_settle
verify_settle-granted rt c later none g v = absurd (ground arith)
verify_settle-granted rt c later (some a) g v = (a, refl, ground arith)

-- A request is let through only with a token, and only if the cache holds an unexpired grant for
-- that token and its control plane is not cut off for maintenance, or if a control plane that was
-- asked has just vouched for it: it answered with a success, reported no maintenance, no inactive
-- subscription, and an active session where one is required.
pub verify_sound :
    (cfg : Config) (rt : Runtime) (now later : ℕ) (oc : Option Credentials)
    (first second : Exchange) (g : Gateway) {gr : Grant}
    → (verify cfg rt now later oc first second g).1.verdict ≡ granted gr
    → (c : Credentials) × (oc ≡ some c)
      × (is_empty c.token ≡ false)
      × (IsHit rt c now g
          ⊎ (Vouches cfg.require_session first ⊎ Vouches cfg.require_session second))
unfolding verify
verify_sound cfg rt now later none first second g v = absurd (cc)
verify_sound cfg rt now later (some c) first second g v = elim (Bool-cases (is_empty c.token)) [
  | inl e ↦ absurd (ground arith)
  | inr e ↦ (c, refl, e, settled (Option-cases (verify_cached rt c now g)) e)
]
  where
    fresh : Option Answer
    fresh = fresh_answer cfg rt c cfg.require_session (bound_api rt c g) first second

    settled :
        ((verify_cached rt c now g ≡ none)
          ⊎ ((r : Gateway × Answer) × (verify_cached rt c now g ≡ some r)))
        → is_empty c.token ≡ false
        → IsHit rt c now g
          ⊎ (Vouches cfg.require_session first ⊎ Vouches cfg.require_session second)
    settled (inl miss) e =
        let (a, h, w) = verify_settle-granted rt c later fresh g (rw (e, miss) at v) in
        inr (fresh_answer-Vouches cfg rt c (bound_api rt c g) cfg.require_session first second h w)
    settled (inr (r, hit)) e = inl (verify_cached-IsHit rt c now g r hit (rw (e, hit) at v))
