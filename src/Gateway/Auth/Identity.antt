-- ===== src/Gateway/Auth/Identity.antt =====
-- The device id that an answer to a request carries.
use gluk_vpn.Common.{
  ℕ, String, Bool, false, Option, none, some, ◌≡◌, ◌⊎◌, inl, inr, arith, Bool-cases, Option-cases,
}
use gluk_vpn.Gateway.Config.{Config}
use gluk_vpn.Gateway.State.{Runtime, Grant, granted, Answer, Gateway}
use gluk_vpn.Gateway.Credentials.{Credentials, is_empty}
use gluk_vpn.Gateway.ControlPlane.{
  Reply, failed, answered, Exchange, judge, reply_answer, verify_with, device_id_of,
}
use gluk_vpn.Gateway.Auth.{fresh_answer, verify_cached, bound_api, verify}
use gluk_vpn.Gateway.Auth.Verdicts.{
  judge-fields, reply_answer-judge, merge-cases, verify_settle-granted,
}

module _ (cfg : Config) (rt : Runtime) (c : Credentials) (named : is_empty c.username ≡ false) where
  reply_answer-device :
      (api : String) (at : ℕ) (rs : Bool) (r : Reply) {a : Answer} {gr : Grant}
      → reply_answer cfg rt c api at rs r ≡ some a
      → a.verdict ≡ granted gr
      → gr.device_id ≡ c.username
  unfolding reply_answer device_id_of
  reply_answer-device api at rs failed h v = cc
  reply_answer-device api at rs (answered status none) h v = absurd (ground arith)
  reply_answer-device api at rs (answered status (some b)) {a} {gr} h v =
      let (low, high, e) = reply_answer-judge cfg rt c api at status b rs h v in
      let v' : (judge cfg rt c api at b rs).verdict ≡ granted gr = rw (← e) v in
      let (device, ttl) = judge-fields cfg rt c api at b rs v' in ground (arith, device, named)

  fresh_answer-device :
      (bound : Option String) (rs : Bool) (first second : Exchange) {a : Answer} {gr : Grant}
      → fresh_answer cfg rt c rs bound first second ≡ some a
      → a.verdict ≡ granted gr
      → gr.device_id ≡ c.username
  unfolding fresh_answer verify_with
  fresh_answer-device (some api) rs first second h v =
      reply_answer-device api first.at rs first.reply h v
  fresh_answer-device none rs first second h v = elim (merge-cases _ _ h) [
    | inl e ↦ reply_answer-device cfg.control_api first.at rs first.reply e v
    | inr e ↦ reply_answer-device cfg.fallback_api second.at rs second.reply e v
  ]

  verify_cached-device :
      (now : ℕ) (g : Gateway) (r : Gateway × Answer) {gr : Grant}
      → verify_cached rt c now g ≡ some r
      → r.1.verdict ≡ granted gr
      → gr.device_id ≡ c.username
  unfolding verify_cached
  verify_cached-device now g r h v = ground (arith, named)

-- A request that names a user and is let through is given, as the device id of its answer, the name
-- that it gave, whatever device the control plane connects with the token, and whether the
-- answer is new or was kept for another name.
pub verify-device_id :
    (cfg : Config) (rt : Runtime) (now later : ℕ) (c : Credentials) (first second : Exchange)
    (g : Gateway) {gr : Grant}
    → is_empty c.username ≡ false
    → (verify cfg rt now later (some c) first second g).1.verdict ≡ granted gr
    → gr.device_id ≡ c.username
unfolding verify
verify-device_id cfg rt now later c first second g {gr} named v =
    elim (Bool-cases (is_empty c.token)) [
      | inl e ↦ absurd (ground arith)
      | inr e ↦ settled (Option-cases (verify_cached rt c now g)) e
    ]
  where
    fresh : Option Answer
    fresh = fresh_answer cfg rt c cfg.require_session (bound_api rt c g) first second

    settled :
        ((verify_cached rt c now g ≡ none)
          ⊎ ((r : Gateway × Answer) × (verify_cached rt c now g ≡ some r)))
        → is_empty c.token ≡ false
        → gr.device_id ≡ c.username
    settled (inl miss) e =
        let (a, h, w) = verify_settle-granted rt c later fresh g (rw (e, miss) at v) in
        fresh_answer-device cfg rt c named (bound_api rt c g) cfg.require_session first second h w
    settled (inr (r, hit)) e = verify_cached-device cfg rt c named now g r hit (rw (e, hit) at v)
