-- ===== src/Server/Link/Traces.antt =====
-- The statements of the sign-in by link in any interleaving: control-server/src/services/linkAuth.ts.
-- Each handler reads a row, decides on what it read, and writes with one statement; other handlers
-- may run between the two. A world keeps the rows that were read, the approvals that were
-- granted and the mints that were made, each as the request's id and the account.
use gluk_vpn.Common.{ℕ, some, List, [], ◌∷◌, ◌≡◌, ◌==◌, if◌then◌else◌, Text}
use mathlib.Core.List.{Memᴰ}
use gluk_vpn.Server.Link.{
  pending, approved, LinkRequest, Links, Via, to_status, settle_expiry, update_where, has_id,
  add_request, claim_approved, claim_denied, claim_used,
}
use gluk_vpn.Server.Link.Poll.{purge_link_requests, polled_at}

pub record World : Type 0 where
  pub links : Links
  pub reads : List LinkRequest
  pub approvals : List (ℕ × ℕ)
  pub mints : List (ℕ × ℕ)

-- A claim that wrote one row is logged.
abbrev pub logged : ℕ → ℕ → ℕ → List (ℕ × ℕ) → List (ℕ × ℕ)
logged id user n log = if n == 1 then (id, user) ∷ log else log

abbrev pub with_rows : World → List LinkRequest → World
with_rows w rows = record w { links = record w.links { requests = rows } }

unfoldable pub after_approval : World → ℕ → ℕ → Via → ℕ → World
unfolding claim_approved
after_approval w id user via now =
    let (rows, n) = claim_approved id user via now w.links.requests in
    record (with_rows w rows) { approvals = logged id user n w.approvals }

unfoldable pub after_collection : World → ℕ → ℕ → ℕ → World
unfolding claim_used
after_collection w id user now =
    let (rows, n) = claim_used id now w.links.requests in
    record (with_rows w rows) { mints = logged id user n w.mints }

pub data Step (w : World) : World → Type 0 where
  started :
      (code : Text) (hash now : ℕ) → Step w (record w { links = add_request code hash now w.links })
  read : (r : LinkRequest) → Memᴰ r w.links.requests → Step w (record w { reads = r ∷ w.reads })
  approve :
      (r : LinkRequest) (user : ℕ) (via : Via) (now : ℕ)
      → Memᴰ r w.reads
      → to_status r now ≡ pending
      → Step w (after_approval w r.id user via now)
  deny :
      (r : LinkRequest) (now : ℕ)
      → Memᴰ r w.reads
      → to_status r now ≡ pending
      → Step w (with_rows w (claim_denied r.id w.links.requests).0)
  settle :
      (r : LinkRequest) (now : ℕ)
      → Memᴰ r w.reads
      → Step w (with_rows w (settle_expiry r now w.links.requests))
  note_poll :
      (r : LinkRequest) (now : ℕ)
      → Memᴰ r w.reads
      → Step w (with_rows w (update_where (has_id r.id) (polled_at now) w.links.requests))
  collect :
      (r : LinkRequest) (user now : ℕ)
      → Memᴰ r w.reads
      → to_status r now ≡ approved
      → r.user ≡ some user
      → Step w (after_collection w r.id user now)
  purge : (now : ℕ) → Step w (with_rows w (purge_link_requests now w.links.requests).0)

abbrev pub empty_world : World
empty_world = record {
  links = record { next_id = 0; requests = [] };
  reads = [];
  approvals = [];
  mints = [];
}

pub data Reach : World → Type 0 where
  start : Reach empty_world
  later : {w v : World} → Reach w → Step w v → Reach v
