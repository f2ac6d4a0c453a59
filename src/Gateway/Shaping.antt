-- ===== src/Gateway/Shaping.antt =====
-- The speed limit, in server.js. Bytes in a bucket are counted in thousandths, so that a
-- rate in bytes per second is a growth per millisecond and every amount is a whole number; the
-- code's floating point numbers hold such amounts up to rounding. `planSpeedLimit` stands in
-- ControlPlane.antt.
pub mod Bounds
pub mod Waiting
use Prim.Native.Nat.{min, max}
use gluk_vpn.Common.{
  ℕ, zero, suc, String, Bool, true, false, ◌&&◌, ◌||◌, not, Option, none, some, ◌+◌, ◌-◌, ◌*◌, ◌/◌,
  ltb, leb, ◌==◌, if◌then◌else◌, lookup, insert, update, retain,
}
use gluk_vpn.Gateway.Config.{Config}
use gluk_vpn.Gateway.State.{Grant, Counters, TokenBucket, Shaper, Gateway}
use gluk_vpn.Gateway.Credentials.{or_null}

-- `Math.max(16 * 1024, Math.floor(bytesPerSecond * SHAPING_BURST_SECONDS))`
unfoldable pub bucket_capacity : Config → ℕ → ℕ
bucket_capacity cfg rate = max 16384 (rate * cfg.shaping_burst_ms / 1000) * 1000

unfoldable pub new_bucket : Config → ℕ → ℕ → TokenBucket
unfolding bucket_capacity
new_bucket cfg now rate = record {
  rate = rate;
  capacity = bucket_capacity cfg rate;
  tokens = bucket_capacity cfg rate;
  updated_at = now;
}

unfoldable pub set_rate : Config → ℕ → TokenBucket → TokenBucket
unfolding bucket_capacity
set_rate cfg rate b = if rate == b.rate then b else record {
  rate = rate;
  capacity = bucket_capacity cfg rate;
  tokens = if ltb (bucket_capacity cfg rate) b.tokens then bucket_capacity cfg rate else b.tokens;
  updated_at = b.updated_at;
}

-- The first statements of a round of `take`: what the time that went by has earned.
unfoldable pub refill : ℕ → TokenBucket → TokenBucket
refill now b =
    if ltb 0 (now - b.updated_at)
    then record b {
      updated_at = now;
      tokens = min b.capacity (b.tokens + (now - b.updated_at) * b.rate);
    }
    else b

-- What a round spends on `left` thousandths: nothing below a whole byte.
unfoldable pub spend : TokenBucket → ℕ → ℕ
spend b left = if leb 1000 b.tokens then min b.tokens left else 0

-- One round of the loop of `take` at the time `now`: the bucket, and what is left to pay.
unfoldable pub take_round : ℕ → TokenBucket × ℕ → TokenBucket × ℕ
unfolding refill spend
take_round now (b, left) =
    let b' = refill now b in
    (record b' { tokens = b'.tokens - spend b' left }, left - spend b' left)

-- `Math.min(1_000, Math.max(5, Math.ceil((left / this.rate) * 1_000)))`
unfoldable pub sleep_ms : ℕ → ℕ → ℕ
sleep_ms rate left = min 1000 (max 5 ((left + rate - 1) / rate))

-- `take`, with fuel for its rounds. `delay` is by how much the timer of a round fires late, and
-- `others` what the other connections of the device have made of the bucket when it does, which they
-- share; `none` means that the fuel ran out. The answer has the time at which the bytes are paid.
unfoldable pub take :
    (ℕ → ℕ → TokenBucket → TokenBucket)
    → ℕ
    → (ℕ → ℕ)
    → ℕ
    → TokenBucket
    → ℕ
    → Option (TokenBucket × ℕ)
take others zero delay now b left = none
take others (suc fuel) delay now b left =
    let r = take_round now (b, left) in
    let wakes = now + sleep_ms b.rate r.1 + delay fuel in
    let again = take others fuel delay wakes (others fuel wakes r.0) r.1 in
    if left == 0 then some (b, now) else if r.1 == 0 then some (r.0, now) else again

-- `Math.max(32 * 1024, Math.floor((mbps * 1_000_000) / 8))`
unfoldable pub bytes_per_second : ℕ → ℕ
bytes_per_second mbps = max 32768 (mbps * 1000000 / 8)

-- `String(auth.deviceId || auth.userId || 'browser')`
abbrev pub shaper_key : Grant → String
shaper_key gr = elim (or_null (some gr.device_id)) [
  | some d ↦ d
  | none ↦ elim (or_null gr.user_id) [ some u ↦ u | none ↦ "browser" ]
]

unfoldable pub retune : Config → ℕ → Shaper → Shaper
unfolding set_rate bytes_per_second
retune cfg mbps s = if s.mbps == mbps then s else record {
  mbps = mbps;
  rx = set_rate cfg (bytes_per_second mbps) s.rx;
  tx = set_rate cfg (bytes_per_second mbps) s.tx;
}

unfoldable pub new_shaper : Config → ℕ → ℕ → Shaper
unfolding new_bucket bytes_per_second
new_shaper cfg now mbps = record {
  mbps = mbps;
  rx = new_bucket cfg now (bytes_per_second mbps);
  tx = new_bucket cfg now (bytes_per_second mbps);
}

-- `shaperFor`: the state, and the key of the shaper that the connection gets, if any.
unfoldable pub shaper_for : Config → ℕ → Grant → Gateway → Gateway × Option String
unfolding retune new_shaper
shaper_for cfg now gr g = elim gr.speed_limit_mbps [
  | none ↦ (g, none)
  | some mbps ↦
      if not cfg.shaping_enabled || mbps == 0
      then (g, none)
      else elim (lookup (shaper_key gr) g.shapers) [
        | none ↦ (
          record g { shapers = insert (shaper_key gr) (new_shaper cfg now mbps) g.shapers },
          some (shaper_key gr),
        )
        | some s ↦ (
          record g { shapers = update (shaper_key gr) (retune cfg mbps) g.shapers },
          some (shaper_key gr),
        )
      ]
]

abbrev in_use : Config → ℕ → Option Counters → Bool
in_use cfg now none = false
in_use cfg now (some c) = ltb 0 c.active || ltb (now - c.token_touched_at) cfg.token_retention_ms

-- `shaperCleanupTimer`
unfoldable pub shaper_cleanup : Config → ℕ → Gateway → Gateway
shaper_cleanup cfg now g = record g {
  shapers = retain (λ k s. in_use cfg now (lookup k g.stats)) g.shapers;
}
