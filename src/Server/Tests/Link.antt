-- ===== src/Server/Tests/Link.antt =====
-- A sign-in by link at one request.
use gluk_vpn.Common.{ℕ, some, [], ◌∷◌, ◌≡◌, ◌≤◌, refl, arith, count, All, codes}
use mathlib.Core.List.{Memᴰ}
use gluk_vpn.Server.Link.{
  LinkRequest, telegram, add_request, approve_link, describe, described_again, claim_approved,
  claim_used, to_status, normalize_code, new_request,
}
use gluk_vpn.Server.Link.Poll.{handed, poll_link}
use gluk_vpn.Server.Link.Traces.{
  World, started, read, approve, collect, Reach, start, later, empty_world, after_approval,
  after_collection,
}
use gluk_vpn.Server.Link.Yields.{logged_for}
use gluk_vpn.Server.Link.Once.{Reach-minted}
use gluk_vpn.Server.Link.Handed.{IsRun, poll_link-IsRun}
use gluk_vpn.Server.Link.Written.{granted_to}
use gluk_vpn.Server.Link.Purged.{purged, approve_link-poll_link}

abbrev request : LinkRequest
request = new_request 0 (codes "ABCD-2345") 77 1000

abbrev granted_request : LinkRequest
granted_request = granted_to 5 telegram 2000 request

abbrev one_request : World
one_request = record {
  links = add_request (codes "ABCD-2345") 77 1000 empty_world.links;
  reads = [];
  approvals = [];
  mints = [];
}

abbrev one_read : World
one_read = record one_request { reads = request ∷ [] }

abbrev approved_world : World
approved_world = record {
  links = record { next_id = 1; requests = granted_request ∷ [] };
  reads = request ∷ [];
  approvals = (0, 5) ∷ [];
  mints = [];
}

approved_reach : Reach approved_world
unfolding after_approval claim_approved to_status
approved_reach =
    later
      (later (later start (started (codes "ABCD-2345") 77 1000)) (read request (Memᴰ.head refl)))
      (approve request 5 telegram 2000 (Memᴰ.head refl) refl)

abbrev collected_world : World
unfolding after_collection claim_used
collected_world =
    after_collection (record approved_world { reads = granted_request ∷ request ∷ [] }) 0 5 3000

Reach-minted_example :
    ((id : ℕ) → count (logged_for id) collected_world.mints ≤ 1)
    × All (λ e. Memᴰ e collected_world.approvals) collected_world.mints
unfolding after_collection claim_used to_status collected_world
Reach-minted_example = Reach-minted (
    later (later approved_reach (read granted_request (Memᴰ.head refl)))
      (collect granted_request 5 3000 (Memᴰ.head refl) refl refl))

poll_link-IsRun_example :
    IsRun
      (λ u. some u)
      0
      77
      approved_world
      approved_reach
      (poll_link (λ u. some u) 0 77 3000 approved_world.links.requests)
poll_link-IsRun_example = poll_link-IsRun (λ u. some u) 0 77 approved_world approved_reach 3000

approve_link-poll_link_example :
    (poll_link (λ u. some u) 0 77 900000 (purged (301000 ∷ 800000 ∷ []) (granted_request ∷ []))).1
    ≡ handed 5
unfolding approve_link described_again describe claim_approved to_status normalize_code
approve_link-poll_link_example =
    approve_link-poll_link (λ u. some u) (codes " abcd2345") 5 telegram 2000 900000 77
      (301000 ∷ 800000 ∷ []) (request ∷ []) (granted_request ∷ []) (describe granted_request 2000) 5
      refl (omega arith) ((λ e. refl), tt) ((λ e. (omega arith, (omega arith, tt))), tt) refl
