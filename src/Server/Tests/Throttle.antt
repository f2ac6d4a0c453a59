-- ===== src/Server/Tests/Throttle.antt =====
-- The counters of failed logins at a concrete attack.
use gluk_vpn.Common.{true, false, [], ◌≡◌, refl, arith, codes}
use gluk_vpn.Server.Throttle.{ThrottleConfig, check_login_throttle, record_login_attempt}
use gluk_vpn.Server.Throttle.Cleared.{guesses, rounds, check_login_throttle-guesses}

abbrev settings : ThrottleConfig
settings = record { max_attempts = 5; lockout_minutes = 15 }

-- Five failed logins lock.
locks :
    (check_login_throttle settings
      (codes "ann")
      (codes "10.0.0.1")
      2000
      (guesses (codes "ann") (codes "10.0.0.1") 1000 5 [])).locked
    ≡ true
unfolding check_login_throttle guesses record_login_attempt
locks = refl

-- Four hundred and four do not, with a login to the own account after every fourth.
check_login_throttle-guesses_example :
    (check_login_throttle settings (codes "ann") (codes "10.0.0.1") 2000 (
      guesses
        (codes "ann")
        (codes "10.0.0.1")
        1000
        4
        (rounds (codes "ann") (codes "eve") (codes "10.0.0.1") 1000 4 100))).locked
    ≡ false
check_login_throttle-guesses_example =
    check_login_throttle-guesses settings (codes "ann") (codes "eve") (codes "10.0.0.1") 1000 2000 4
      100 4 (omega arith)
