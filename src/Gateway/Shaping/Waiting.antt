-- ===== src/Gateway/Shaping/Waiting.antt =====
-- That `take` ends.
use gluk_vpn.Common.{ℕ, Option, none, some, ◌≤◌, ◌+◌, ◌-◌, ◌*◌, arith}
use gluk_vpn.Gateway.Config.{Config}
use gluk_vpn.Gateway.State.{TokenBucket}
use gluk_vpn.Gateway.Shaping.{refill, new_bucket, bytes_per_second}

-- Five milliseconds earn a whole byte, and the bucket holds one.
abbrev pub IsFlowing : TokenBucket → Type 0
IsFlowing b = (1000 ≤ 5 * b.rate) × (1000 ≤ b.capacity)

-- What the other connections make of a bucket while a payment sleeps: whenever it wakes, the bucket
-- holds or has earned a whole byte.
abbrev pub IsFair : (ℕ → ℕ → TokenBucket → TokenBucket) → Type 0
IsFair others =
    (i now : ℕ) (b : TokenBucket)
    → IsFlowing b
    → b.updated_at + 5 ≤ now
    → IsFlowing (others i now b)
      × ((others i now b).updated_at ≤ now)
      × (1000 ≤ (refill now (others i now b)).tokens)

-- With no other connection that is so.
pub alone-IsFair : IsFair (λ i now b. b)
unfolding refill
alone-IsFair i now b f h =
    let earned : 5 * b.rate ≤ (now - b.updated_at) * b.rate = grind arith in
    (f, omega arith, ground arith)

abbrev pub Ends : ℕ → Option (TokenBucket × ℕ) → Type 0
Ends now none = ⊥
Ends now (some r) = now ≤ r.1

-- Every bucket that the gateway makes is such that payments end.
pub new_bucket-IsFlowing :
    (cfg : Config) (now mbps : ℕ) → IsFlowing (new_bucket cfg now (bytes_per_second mbps))
unfolding new_bucket bytes_per_second
new_bucket-IsFlowing cfg now mbps = omega arith
