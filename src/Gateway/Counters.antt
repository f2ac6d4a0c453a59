-- ===== src/Gateway/Counters.antt =====
-- `counters` and `userCounters` of server.js. An entry that was made is never removed.
use gluk_vpn.Common.{ℕ, String, none, some, StringMap, lookup, insert}
use gluk_vpn.Gateway.State.{Counters}

abbrev pub fresh_counters : ℕ → Counters
fresh_counters now = record {
  bytes_rx = 0;
  bytes_tx = 0;
  connections = 0;
  active = 0;
  since = now;
  token = none;
  token_touched_at = 0;
  reported_rx = 0;
  reported_tx = 0;
}

-- The map after `counters(key)`, in which `key` has an entry.
unfoldable pub touch : ℕ → String → StringMap Counters → StringMap Counters
touch now key m = elim (lookup key m) [ none ↦ insert key (fresh_counters now) m | some c ↦ m ]
