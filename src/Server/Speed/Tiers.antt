-- ===== src/Server/Speed/Tiers.antt =====
-- The lists of speeds that the configuration describes.
use gluk_vpn.Common.{
  ℕ, false, Option, none, some, List, [], ◌∷◌, ◌++◌, ◌<◌, ◌≡◌, ◌≢◌, inl, inr, arith, leb, ◌==◌,
  ==_iff, any, All, All-append, All-imp, Bool-cases, Text, split,
}
use gluk_vpn.Extension.Pac.{trim}
use gluk_vpn.Server.Ip.Pool.{IsRising}
use gluk_vpn.Server.Speed.{
  read_entry, push_speed, speeds_of, insert_speed, sort_speeds, parse_speed_tiers,
}

All-insert {ℓ} : (P : ℕ → Type ℓ) (s : ℕ) (ts : List ℕ) → P s → All P ts → All P (insert_speed s ts)
All-insert P s [] p h = (p, tt)
All-insert P s (t ∷ ts) p h = elim (Bool-cases (leb s t)) [
  | inl e ↦ rw (insert_speed, e) (p, h)
  | inr e ↦ rw (insert_speed, e) (h.0, All-insert P s ts p h.1)
]

insert-IsRising :
    (s : ℕ) (ts : List ℕ) → All (λ t. s ≢ t) ts → IsRising ts → IsRising (insert_speed s ts)
insert-IsRising s [] off h = (tt, tt)
insert-IsRising s (t ∷ ts) off (above, h) = elim (Bool-cases (leb s t)) [
  | inl e ↦
      let less : s < t = ground (arith, off.0) in
      rw (insert_speed, e)
        ((less, All-imp (λ u. t < u) (λ u. s < u) ts (λ u k. omega arith) above), (above, h))
  | inr e ↦
      rw (insert_speed, e)
        (All-insert (λ u. t < u) s ts (ground arith) above, insert-IsRising s ts off.1 h)
]

IsDistinct : List ℕ → Type 0
IsDistinct [] = Unit
IsDistinct (s ∷ ss) = All (λ t. s ≢ t) ss × IsDistinct ss

All-sort {ℓ} : (P : ℕ → Type ℓ) (ss : List ℕ) → All P ss → All P (sort_speeds ss)
unfolding sort_speeds
All-sort P [] h = tt
All-sort P (s ∷ ss) h = All-insert P s (sort_speeds ss) h.0 (All-sort P ss h.1)

sort-IsRising : (ss : List ℕ) → IsDistinct ss → IsRising (sort_speeds ss)
unfolding sort_speeds IsDistinct
sort-IsRising [] h = tt
sort-IsRising (s ∷ ss) h =
    insert-IsRising s (sort_speeds ss) (All-sort (λ t. s ≢ t) ss h.0) (sort-IsRising ss h.1)

not_among : (s : ℕ) (ss : List ℕ) → any (λ t. t == s) ss ≡ false → All (λ t. t ≢ s) ss
not_among s [] e = tt
not_among s (t ∷ ss) e = elim (Bool-cases (t == s)) [
  | inl on ↦ ground arith
  | inr off ↦ ((λ k. let yes = (==_iff t s).1 k in cc), not_among s ss (ground arith))
]

snoc-IsDistinct :
    (ss : List ℕ) (s : ℕ) → All (λ t. t ≢ s) ss → IsDistinct ss → IsDistinct (ss ++ s ∷ [])
unfolding IsDistinct
snoc-IsDistinct [] s off h = (tt, tt)
snoc-IsDistinct (t ∷ ss) s off h =
    (All-append (λ u. t ≢ u) ss (s ∷ []) h.0 (off.0, tt), snoc-IsDistinct ss s off.1 h.1)

IsProper : List ℕ → Type 0
IsProper ss = IsDistinct ss × All (λ s. 0 < s) ss

push-IsProper : (ss : List ℕ) (e : Option (ℕ × Option ℕ)) → IsProper ss → IsProper (push_speed ss e)
unfolding IsProper
push-IsProper ss none h = h
push-IsProper ss (some (mbps, port)) h = elim (Bool-cases (leb mbps 0)) [
  | inl zero_speed ↦ rw zero_speed h
  | inr positive ↦ elim (Bool-cases (any (λ s. s == mbps) ss)) [
    | inl again ↦ rw (positive, again) h
    | inr fresh ↦
        rw (positive, fresh)
          (
            snoc-IsDistinct ss mbps (not_among mbps ss fresh) h.0,
            All-append (λ s. 0 < s) ss (mbps ∷ []) h.1 (ground arith, tt),
          )
  ]
]

speeds_of-IsProper : (ss : List ℕ) (raws : List Text) → IsProper ss → IsProper (speeds_of ss raws)
unfolding speeds_of
speeds_of-IsProper ss [] h = h
speeds_of-IsProper ss (raw ∷ raws) h =
    speeds_of-IsProper (push_speed ss (read_entry (trim raw))) raws
      (push-IsProper ss (read_entry (trim raw)) h)

-- Whatever the configuration holds, the speeds read from it rise, so that none is there twice, and
-- are positive.
pub parse_speed_tiers-IsRising :
    (spec : Text) → IsRising (parse_speed_tiers spec) × All (λ s. 0 < s) (parse_speed_tiers spec)
unfolding parse_speed_tiers IsProper IsDistinct
parse_speed_tiers-IsRising spec =
    let h = speeds_of-IsProper [] (split b',' spec) (tt, tt) in
    (
      sort-IsRising (speeds_of [] (split b',' spec)) h.0,
      All-sort (λ s. 0 < s) (speeds_of [] (split b',' spec)) h.1,
    )
