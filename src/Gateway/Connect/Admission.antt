-- ===== src/Gateway/Connect/Admission.antt =====
-- What a request must have passed before the gateway dials for it.
use gluk_vpn.Common.{
  ℕ, String, true, false, Option, none, some, [], ◌∷◌, ◌≡◌, ◌<◌, refl, subst, arith, Text, split,
  Bool-cases, inl, inr,
}
use gluk_vpn.Gateway.Config.{Config}
use gluk_vpn.Gateway.State.{Grant, Verdict, granted, refused, Answer, Handler, Gateway}
use gluk_vpn.Gateway.Credentials.{Credentials}
use gluk_vpn.Gateway.Target.{Net, is_blocked_address, resolve_target, resolve_target-allowed}
use gluk_vpn.Gateway.Connect.{
  dial, active_of, remember, new_handler, port_allowed, port_of, raw_host, bare_host, admit_target,
  admit_host, admit_verdict, connect_admit,
}

-- The counters are read behind `remember`, which changes no number of connections in progress.
pub record IsAdmitted (cfg : Config) (net : Net) (now : ℕ) (creds : Option Credentials) (url : Text)
    (auth : Answer) (g : Gateway) (address : Text) (port : ℕ) (h : Handler) : Type 0 where
  pub grant : Grant
  pub credentials : Credentials
  pub authorised : auth.verdict ≡ granted grant
  pub present : creds ≡ some credentials
  pub port_read : port_of net (split b':' url) ≡ some port
  pub port_listed : port_allowed cfg port ≡ true
  pub room :
      active_of grant.device_id (remember now grant credentials.token g).stats < cfg.max_per_device
  pub resolved : resolve_target cfg net (bare_host (raw_host (split b':' url))) ≡ some address
  pub unblocked : is_blocked_address cfg (some address) ≡ false
  pub handler : h ≡ new_handler grant credentials.token

module _ (cfg : Config) (net : Net) (now : ℕ) {address : Text} {port : ℕ} {h : Handler} where
  target-dial :
      (gr : Grant) (token : String) (host : Text) (p : ℕ) (g : Gateway)
      → (admit_target cfg net now gr token host p g).1 ≡ dial address port h
      → (p ≡ port)
        × (active_of gr.device_id (remember now gr token g).stats < cfg.max_per_device)
        × (resolve_target cfg net (bare_host host) ≡ some address)
        × (h ≡ new_handler gr token)
  unfolding admit_target
  target-dial gr token host p g e = ground arith

  host-dial :
      (gr : Grant) (token : String) (host : Text) (p : Option ℕ) (g : Gateway)
      → (admit_host cfg net now gr token host p g).1 ≡ dial address port h
      → (p ≡ some port)
        × (port_allowed cfg port ≡ true)
        × ((admit_target cfg net now gr token host port g).1 ≡ dial address port h)
  unfolding admit_host
  host-dial gr token [] p g e = cc
  host-dial gr token (c ∷ cs) none g e = cc
  host-dial gr token (c ∷ cs) (some p) g e = elim (Bool-cases (port_allowed cfg p)) [
    | inr no_port ↦ absurd (ground arith)
    | inl listed ↦
        let e' : (admit_target cfg net now gr token (c ∷ cs) p g).1 ≡ dial address port h =
          rw (listed, admit_host) at e in
        let same : p ≡ port = (target-dial gr token (c ∷ cs) p g e').0 in
        (
          rw same,
          rw same at listed,
          subst (λ q. (admit_target cfg net now gr token (c ∷ cs) q g).1 ≡ dial address port h) same
              e',
        )
  ]

  verdict-dial :
      (creds : Option Credentials) (url : Text) (auth : Answer) (v : Verdict) (g : Gateway)
      → auth.verdict ≡ v
      → (admit_verdict cfg net now creds (split b':' url) v g).1 ≡ dial address port h
      → IsAdmitted cfg net now creds url auth g address port h
  unfolding admit_verdict
  verdict-dial creds url auth (refused r) g a e = cc
  verdict-dial none url auth (granted gr) g a e = cc
  verdict-dial (some c) url auth (granted gr) g a e =
      let (read, listed, e') =
        host-dial gr c.token (raw_host (split b':' url)) (port_of net (split b':' url)) g e in
      let (_, room, resolved, handler) =
        target-dial gr c.token (raw_host (split b':' url)) port g e' in
      record {
        grant = gr;
        credentials = c;
        authorised = a;
        present = refl;
        port_read = read;
        port_listed = listed;
        room = room;
        resolved = resolved;
        unblocked =
            resolve_target-allowed cfg net (bare_host (raw_host (split b':' url))) address resolved;
        handler = handler;
      }

-- The gateway dials for a CONNECT request only if the check of its credentials let it through, its
-- port is one of the allowed ones, the device had fewer connections in progress than its limit, and
-- the address that its host stands for is not a blocked one; the tunnel is counted on the device
-- and the user of the grant.
pub connect_admit-IsAdmitted :
    (cfg : Config) (net : Net) (now : ℕ) (creds : Option Credentials) (url : Text) (auth : Answer)
    (g : Gateway) (address : Text) (port : ℕ) (h : Handler)
    → (connect_admit cfg net now creds url auth g).1 ≡ dial address port h
    → IsAdmitted cfg net now creds url auth g address port h
unfolding connect_admit
connect_admit-IsAdmitted cfg net now creds url auth g address port h e =
    verdict-dial cfg net now creds url auth auth.verdict g refl e
