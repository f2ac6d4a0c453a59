-- ===== src/Gateway/Shaping/Bounds.antt =====
-- How much a bucket lets through.
use gluk_vpn.Common.{ℕ, List, [], ◌∷◌, ◌≡◌, ◌≤◌, ◌+◌, ◌-◌, ◌*◌, ap, sym, subst, arith}
use gluk_vpn.Gateway.Config.{Config}
use gluk_vpn.Gateway.State.{TokenBucket}
use gluk_vpn.Gateway.Shaping.{set_rate, take_round}

pub record IsBucket (b : TokenBucket) : Type 0 where
  pub within : b.tokens ≤ b.capacity

pub set_rate-IsBucket :
    (cfg : Config) (rate : ℕ) {b : TokenBucket} → IsBucket b → IsBucket (set_rate cfg rate b)
unfolding set_rate
set_rate-IsBucket cfg rate v = ground arith

pub take_round-IsBucket :
    (now left : ℕ) {b : TokenBucket} → IsBucket b → IsBucket (take_round now (b, left)).0
unfolding take_round
take_round-IsBucket now left v = ground arith

-- Rounds of one or several connections that share a bucket: when each ran, and what it had left
-- to pay. The sum is what they were allowed to send, in thousandths of a byte.
abbrev pub paid : TokenBucket → ℕ → ℕ → ℕ
paid b now left = left - (take_round now (b, left)).1

pub sent : TokenBucket → List (ℕ × ℕ) → ℕ
sent b [] = 0
sent b ((now, left) ∷ rounds) = paid b now left + sent (take_round now (b, left)).0 rounds

-- Times do not run backwards and end by `last`.
abbrev pub Ordered : ℕ → List (ℕ × ℕ) → ℕ → Type 0
Ordered start [] last = start ≤ last
Ordered start ((now, left) ∷ rounds) last = (start ≤ now) × Ordered now rounds last

round_lem :
    (b : TokenBucket) (now left : ℕ)
    → b.updated_at ≤ now
    → (paid b now left + (take_round now (b, left)).0.tokens
        ≤ b.tokens + (now - b.updated_at) * b.rate)
      × ((take_round now (b, left)).0.rate ≡ b.rate)
      × ((take_round now (b, left)).0.updated_at ≡ now)
unfolding take_round
round_lem b now left h = ground arith

Ordered-le :
    (start : ℕ) (rounds : List (ℕ × ℕ)) (last : ℕ) → Ordered start rounds last → start ≤ last
Ordered-le start [] last h = h
Ordered-le start ((now, left) ∷ rounds) last h = omega (arith, Ordered-le now rounds last h.1)

interval_mul :
    (u now last rate : ℕ)
    → u ≤ now
    → now ≤ last
    → (last - u) * rate ≡ (now - u) * rate + (last - now) * rate
interval_mul u now last rate h k =
    let e : last - u ≡ (now - u) + (last - now) = omega arith in
    omega (arith, ap (λ (t : ℕ). t * rate) e)

at_values :
    (s t last : ℕ) {u u' r r' : ℕ}
    → u ≡ u'
    → r ≡ r'
    → s ≤ t + (last - u) * r
    → s ≤ t + (last - u') * r'
at_values s t last e d h = rw (← e, ← d) h

-- The speed limit: over any interleaving of the rounds of the connections that share a bucket, from
-- its last refill to `last`, what passes is at most what the bucket held and what its rate earns in
-- that time, however many connections there are.
pub sent_bound :
    (b : TokenBucket) (rounds : List (ℕ × ℕ)) (last : ℕ)
    → Ordered b.updated_at rounds last
    → sent b rounds ≤ b.tokens + (last - b.updated_at) * b.rate
unfolding sent
sent_bound b [] last h = omega arith
sent_bound b ((now, left) ∷ rounds) last h =
    let b' = (take_round now (b, left)).0 in
    let (spent, same, clock) = round_lem b now left h.0 in
    let ordered : Ordered b'.updated_at rounds last =
      subst (λ u. Ordered u rounds last) (sym clock) h.1 in
    let rest : sent b' rounds ≤ b'.tokens + (last - now) * b.rate =
      at_values (sent b' rounds) b'.tokens last clock same (sent_bound b' rounds last ordered) in
    let later : now ≤ last = Ordered-le now rounds last h.1 in
    let whole : (last - b.updated_at) * b.rate
        ≡ (now - b.updated_at) * b.rate + (last - now) * b.rate =
      interval_mul b.updated_at now last b.rate h.0 later in
    omega arith
