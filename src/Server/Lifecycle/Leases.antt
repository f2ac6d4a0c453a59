-- ===== src/Server/Lifecycle/Leases.antt =====
-- Changes of the table of leases: a row written, rows added for a node, and every row rewritten.
use gluk_vpn.Common.{
  ℕ, zero, suc, false, none, some, List, [], ◌∷◌, ◌++◌, map, ◌<◌, ◌≡◌, ◌≢◌, inl, inr, refl, sym, ap,
  ◌∙◌, arith, ◌==◌, ==_iff, All, All-get, All-set, All-append, All-imp, set, get_elem?,
}
use mathlib.Core.List.{Memᴰ}
use mathlib.Core.List.Memᴰ
use gluk_vpn.Server.Store.{IpLease}
use gluk_vpn.Server.Ip.Pool.{IsRising}
use gluk_vpn.Server.Admission.{pool_of}
use gluk_vpn.Server.Lifecycle.Sound.{Differ, IsPool}

to_same_address : (x l m : IpLease) → m.node ≡ l.node → m.ip ≡ l.ip → Differ x l → Differ x m
to_same_address x l m n a d = λ same e. d (same ∙ n) (e ∙ a)

from_same_address : (x l m : IpLease) → m.node ≡ l.node → m.ip ≡ l.ip → Differ l x → Differ m x
from_same_address x l m n a d = λ same e. d (sym n ∙ same) (sym a ∙ e)

pub set-IsPool :
    (ls : List IpLease) (i : ℕ) (l m : IpLease)
    → get_elem? ls i ≡ some l
    → m.node ≡ l.node
    → m.ip ≡ l.ip
    → IsPool ls
    → IsPool (set ls i m)
set-IsPool [] i l m at n a h = h
set-IsPool (x ∷ ls) zero l m at n a h =
    let same : x ≡ l = cc in
    (
      All-imp (Differ x) (Differ m) ls
          (λ y.
            from_same_address y x m (n ∙ ap (λ (z : IpLease). z.node) (sym same))
              (a ∙ ap (λ (z : IpLease). z.ip) (sym same)))
          h.0,
      h.1,
    )
set-IsPool (x ∷ ls) (suc i) l m at n a h = (
  All-set (Differ x) ls i m h.0 (to_same_address x l m n a (All-get (Differ x) ls i h.0 at)),
  set-IsPool ls i l m at n a h.1,
)

-- A row that is not the one written stays.
pub set-kept :
    (ls : List IpLease) (i : ℕ) (l m x : IpLease)
    → get_elem? ls i ≡ some l
    → x ≢ l
    → Memᴰ x ls
    → Memᴰ x (set ls i m)
set-kept [] i l m x at off h = h
set-kept (y ∷ ls) zero l m x at off h = elim (Memᴰ.cases_cons h) [
  | inl e ↦ let same : y ≡ l = cc in absurd (off (e ∙ same))
  | inr k ↦ Memᴰ.tail k
]
set-kept (y ∷ ls) (suc i) l m x at off h = elim (Memᴰ.cases_cons h) [
  | inl e ↦ Memᴰ.head e
  | inr k ↦ Memᴰ.tail (set-kept ls i l m x at off k)
]

pub set-new :
    (ls : List IpLease) (i : ℕ) (l m : IpLease) → get_elem? ls i ≡ some l → Memᴰ m (set ls i m)
set-new [] i l m at = cc
set-new (y ∷ ls) zero l m at = Memᴰ.head refl
set-new (y ∷ ls) (suc i) l m at = Memᴰ.tail (set-new ls i l m at)

All-pool_of :
    (node : ℕ) (ips : List ℕ) (l : IpLease)
    → All (λ ip. l.node ≡ node → l.ip ≢ ip) ips
    → All (Differ l) (pool_of node ips)
unfolding pool_of
All-pool_of node [] l h = tt
All-pool_of node (ip ∷ ips) l h = (h.0, All-pool_of node ips l h.1)

pool_of-IsPool : (node : ℕ) (ips : List ℕ) → IsRising ips → IsPool (pool_of node ips)
unfolding pool_of
pool_of-IsPool node [] h = tt
pool_of-IsPool node (ip ∷ ips) h = (
  All-pool_of node ips (record { node = node; ip = ip; session = none })
      (All-imp (λ y. ip < y) (λ y. node ≡ node → ip ≢ y) ips (λ y less same e. omega arith) h.0),
  pool_of-IsPool node ips h.1,
)

elsewhere :
    (l : IpLease) (node : ℕ) (ips : List ℕ) → l.node ≢ node → All (Differ l) (pool_of node ips)
unfolding pool_of
elsewhere l node [] off = tt
elsewhere l node (ip ∷ ips) off = ((λ same e. off same), elsewhere l node ips off)

-- The first rows of a node.
pub new_rows-IsPool :
    (node : ℕ) (ips : List ℕ) (ls : List IpLease)
    → All (λ (l : IpLease). (l.node == node) ≡ false) ls
    → IsRising ips
    → IsPool ls
    → IsPool (ls ++ pool_of node ips)
new_rows-IsPool node ips [] none_yet up h = pool_of-IsPool node ips up
new_rows-IsPool node ips (l ∷ ls) none_yet up h = (
  All-append (Differ l) ls (pool_of node ips) h.0
      (elsewhere l node ips (λ e. let yes = (==_iff l.node node).1 e in cc)),
  new_rows-IsPool node ips ls none_yet.1 up h.1,
)

-- Rows rewritten with their addresses kept.
pub map-IsPool :
    (f : IpLease → IpLease) (ls : List IpLease)
    → ((l : IpLease) → ((f l).node ≡ l.node) × ((f l).ip ≡ l.ip))
    → IsPool ls
    → IsPool (map f ls)
map-IsPool f [] keep h = tt
map-IsPool f (l ∷ ls) keep h = (rest ls h.0, map-IsPool f ls keep h.1)
  where
    rest : (ms : List IpLease) → All (Differ l) ms → All (Differ (f l)) (map f ms)
    rest [] h = tt
    rest (m ∷ ms) h = (
      from_same_address (f m) l (f l) (keep l).0 (keep l).1
          (to_same_address l m (f m) (keep m).0 (keep m).1 h.0),
      rest ms h.1,
    )

pub map-kept :
    (f : IpLease → IpLease) (ls : List IpLease) (x : IpLease)
    → f x ≡ x
    → Memᴰ x ls
    → Memᴰ x (map f ls)
map-kept f ls x e h = Memᴰ.cast (sym e) (Memᴰ.map f h)
