-- ===== src/Server/Nodes.antt =====
-- Which nodes may take a client: control-server/src/services/nodes.ts and `pickNode` of
-- services/sessions.ts. `window` is NODE_OFFLINE_AFTER_SEC in milliseconds.
use gluk_vpn.Common.{
  ℕ, Bool, true, false, not, ◌&&◌, Option, none, some, List, [], ◌∷◌, ◌-◌, leb, ltb, ◌==◌,
  if◌then◌else◌, any, filter,
}
use gluk_vpn.Server.Store.{
  VpnNode, under_maintenance, not_found, node_is_disabled, node_needs_plan, no_key, node_is_offline,
  no_node, Result, ok, err, ◌>>=◌, refuse_if, or_refuse,
}

pub data NodeAvailability : Type 0 where
  pending online offline disabled maintenance : NodeAvailability

unfoldable pub find_node : ℕ → List VpnNode → Option VpnNode
find_node i [] = none
find_node i (n ∷ ns) = if n.id == i then some n else find_node i ns

module _ (window now : ℕ) where
  unfoldable pub is_heartbeat_fresh : Option ℕ → Bool
  is_heartbeat_fresh none = false
  is_heartbeat_fresh (some t) = leb (now - t) window

  unfoldable pub effective_node_status : VpnNode → NodeAvailability
  unfolding is_heartbeat_fresh
  effective_node_status n =
      if n.disabled
      then disabled
      else if n.maintenance
      then maintenance
      else if not n.has_key
      then pending
      else if is_heartbeat_fresh n.last_heartbeat
      then online
      else offline

  abbrev pub is_online : NodeAvailability → Bool
  is_online online = true
  is_online _ = false

  unfoldable pub is_node_connectable : VpnNode → Bool
  unfolding effective_node_status
  is_node_connectable n = is_online (effective_node_status n) && ltb n.active_peers n.capacity

  -- `orderBy: [{ activePeers: "asc" }]`
  abbrev pub insert_by_peers : VpnNode → List VpnNode → List VpnNode
  insert_by_peers n [] = n ∷ []
  insert_by_peers n (m ∷ ms) =
      let rest = insert_by_peers n ms in
      if leb n.active_peers m.active_peers then n ∷ m ∷ ms else m ∷ rest

  unfoldable pub by_peers : List VpnNode → List VpnNode
  by_peers [] = []
  by_peers (n ∷ ns) = insert_by_peers n (by_peers ns)

  abbrev pub first_node : List VpnNode → Option VpnNode
  first_node [] = none
  first_node (n ∷ ns) = some n

  -- The `where` of the query for candidates.
  unfoldable pub is_candidate : ℕ → VpnNode → Bool
  is_candidate tier n = not n.disabled && n.has_key && leb n.tier tier

  -- `pickNode` with a node id.
  unfoldable pub pick_wanted : ℕ → ℕ → List VpnNode → Result VpnNode
  unfolding find_node effective_node_status
  pick_wanted wanted tier nodes = or_refuse (find_node wanted nodes) not_found >>= λ n.
      refuse_if n.disabled node_is_disabled >>= λ _.
      refuse_if n.maintenance under_maintenance >>= λ _.
      refuse_if (ltb tier n.tier) node_needs_plan >>= λ _. refuse_if (not n.has_key) no_key >>= λ _.
      refuse_if (not (is_online (effective_node_status n))) node_is_offline >>= λ _. ok n

  abbrev some_node : Option VpnNode → Bool → Result VpnNode
  some_node (some n) in_maintenance = ok n
  some_node none true = err under_maintenance
  some_node none false = err no_node

  -- `pickNode` without one.
  unfoldable pub pick_least_loaded : ℕ → List VpnNode → Result VpnNode
  unfolding is_candidate by_peers is_node_connectable
  pick_least_loaded tier nodes =
      let candidates = by_peers (filter (is_candidate tier) nodes) in
      some_node (first_node (filter is_node_connectable candidates))
        (any (λ n. n.maintenance) candidates)

  unfoldable pub pick_node : Option ℕ → ℕ → List VpnNode → Result VpnNode
  unfolding pick_wanted pick_least_loaded
  pick_node none tier nodes = pick_least_loaded tier nodes
  pick_node (some wanted) tier nodes = pick_wanted wanted tier nodes
