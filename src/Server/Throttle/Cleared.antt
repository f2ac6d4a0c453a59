-- ===== src/Server/Throttle/Cleared.antt =====
-- What a successful login forgets: `recordLoginAttempt` of
-- control-server/src/services/loginThrottle.ts.
use gluk_vpn.Common.{
  ℕ, zero, suc, Bool, true, false, not, ◌&&◌, ◌||◌, List, [], ◌∷◌, ◌++◌, ◌≡◌, ◌≤◌, ◌<◌, count,
  filter, Text, text_eq, text_eq_lem, All, All-append, count-append, refl, arith,
}
use gluk_vpn.Server.Throttle.{
  LoginAttempt, ThrottleConfig, is_recent_failure, check_login_throttle, is_cleared, attempt,
  record_login_attempt,
}

text_eq_refl : (t : Text) → text_eq t t ≡ true
text_eq_refl t = (text_eq_lem t t).1 refl

-- Failed logins to one account from one address.
unfoldable pub guesses : Text → Text → ℕ → ℕ → List LoginAttempt → List LoginAttempt
unfolding record_login_attempt
guesses victim ip now zero rows = rows
guesses victim ip now (suc n) rows =
    record_login_attempt victim ip false now (guesses victim ip now n rows)

-- Rounds of such logins, each followed by a login to an account of one's own.
unfoldable pub rounds : Text → Text → Text → ℕ → ℕ → ℕ → List LoginAttempt
unfolding record_login_attempt guesses
rounds victim own ip now k zero = []
rounds victim own ip now k (suc n) =
    record_login_attempt own ip true now (guesses victim ip now k (rounds victim own ip now k n))

-- Nothing failed, or from that address only.
abbrev is_from : Text → LoginAttempt → Bool
is_from ip a = a.success || text_eq a.ip ip

guesses-from :
    (victim ip : Text) (now k : ℕ) (rows : List LoginAttempt)
    → All (λ a. is_from ip a ≡ true) rows
    → All (λ a. is_from ip a ≡ true) (guesses victim ip now k rows)
unfolding guesses record_login_attempt
guesses-from victim ip now zero rows h = h
guesses-from victim ip now (suc k) rows h =
    All-append (λ a. is_from ip a ≡ true) (guesses victim ip now k rows)
      (attempt victim ip false now ∷ []) (guesses-from victim ip now k rows h) (text_eq_refl ip, tt)

All-keep :
    (P : LoginAttempt → Type 0) (b : Bool) (a : LoginAttempt) (rest : List LoginAttempt)
    → (b ≡ true → P a)
    → All P rest
    → All P (elim b [ true ↦ a ∷ rest | false ↦ rest ])
All-keep P true a rest h k = (h refl, k)
All-keep P false a rest h k = k

cleared-All :
    (own ip : Text) (rows : List LoginAttempt)
    → All (λ a. is_from ip a ≡ true) rows
    → All (λ a. a.success ≡ true) (filter (λ a. not (is_cleared own ip a)) rows)
cleared-All own ip [] h = tt
cleared-All own ip (a ∷ rows) h =
    All-keep (λ x. x.success ≡ true) (not (is_cleared own ip a)) a
      (filter (λ x. not (is_cleared own ip x)) rows) (λ k. ground (arith, k, h.0))
      (cleared-All own ip rows h.1)

successes-from :
    (ip : Text) (rows : List LoginAttempt)
    → All (λ a. a.success ≡ true) rows
    → All (λ a. is_from ip a ≡ true) rows
successes-from ip [] h = tt
successes-from ip (a ∷ rows) h = (ground (arith, h.0), successes-from ip rows h.1)

rounds-All :
    (victim own ip : Text) (now k n : ℕ)
    → All (λ a. a.success ≡ true) (rounds victim own ip now k n)
unfolding rounds record_login_attempt
rounds-All victim own ip now k zero = tt
rounds-All victim own ip now k (suc n) =
    cleared-All own ip
      (guesses victim ip now k (rounds victim own ip now k n) ++ attempt own ip true now ∷ [])
      (All-append (λ a. is_from ip a ≡ true)
        (guesses victim ip now k (rounds victim own ip now k n)) (attempt own ip true now ∷ [])
        (guesses-from victim ip now k (rounds victim own ip now k n)
          (successes-from ip (rounds victim own ip now k n) (rounds-All victim own ip now k n)))
        (refl, tt))

-- Each failure is counted at most once.
counted :
    (q : LoginAttempt → Bool) (cfg : ThrottleConfig) (at : ℕ) (rows : List LoginAttempt)
    → All (λ a. a.success ≡ true) rows
    → count (λ a. q a && is_recent_failure cfg at a) rows ≡ 0
counted q cfg at [] h = refl
counted q cfg at (a ∷ rows) h = ground (arith, h.0, counted q cfg at rows h.1)

counted-guesses :
    (q : LoginAttempt → Bool) (cfg : ThrottleConfig) (victim ip : Text) (now at k : ℕ)
    (rows : List LoginAttempt)
    → All (λ a. a.success ≡ true) rows
    → count (λ a. q a && is_recent_failure cfg at a) (guesses victim ip now k rows) ≤ k
unfolding guesses record_login_attempt
counted-guesses q cfg victim ip now at zero rows h = omega (arith, counted q cfg at rows h)
counted-guesses q cfg victim ip now at (suc k) rows h = omega (
  arith,
  counted-guesses q cfg victim ip now at k rows h,
  count-append (λ a. q a && is_recent_failure cfg at a) (guesses victim ip now k rows)
      (attempt victim ip false now ∷ []),
  one (λ a. q a && is_recent_failure cfg at a) (attempt victim ip false now),
)
  where
    one : (p : LoginAttempt → Bool) (a : LoginAttempt) → count p (a ∷ []) ≤ 1
    one p a = ground arith

-- Failed logins to an account from one address lock neither while every round of them is followed by a
-- login to an account of one's own from there: after any number of rounds, and after further
-- failed logins short of the limit, the next attempt is let through.
pub check_login_throttle-guesses :
    (cfg : ThrottleConfig) (victim own ip : Text) (now at k n j : ℕ)
    → j < cfg.max_attempts
    → (check_login_throttle cfg victim ip at
        (guesses victim ip now j (rounds victim own ip now k n))).locked
      ≡ false
unfolding check_login_throttle
check_login_throttle-guesses cfg victim own ip now at k n j few =
    let clean = rounds-All victim own ip now k n in
    ground (
      arith,
      few,
      counted-guesses (λ a. text_eq a.username victim) cfg victim ip now at j
          (rounds victim own ip now k n) clean,
      counted-guesses (λ a. text_eq a.ip ip) cfg victim ip now at j (rounds victim own ip now k n)
          clean,
    )
