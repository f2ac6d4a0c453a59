-- ===== src/Extension/Store/Repair.antt =====
-- What the repair of lib/store.js makes of whatever is stored.
use gluk_vpn.Common.{
  ℕ, Bool, true, false, ◌&&◌, ◌||◌, Option, List, [], ◌∷◌, ◌++◌, ◌≡◌, ◌≢◌, ◌<◌, ◌+◌, ◌*◌, ◌⊎◌, inl,
  inr, refl, sym, ap, ◌∙◌, arith, ltb, Bool-cases, All, All-append, any, Text, codes, text_eq,
  to_lower, is_empty_text,
}
use gluk_vpn.Extension.Pac.{trim}
use gluk_vpn.Extension.Store.{
  StoredList, array, JsNumber, ratio, other, repair_port, raw_list, note_host, note_hosts,
  normalise_list, Stored, Merged, or_default, or_list, one_of, tunnel_modes, language_choices,
  schemes, default_bypass, merge_settings,
}

-- No entry twice.
abbrev pub IsDistinct : List Text → Type 0
IsDistinct [] = Unit
IsDistinct (t ∷ ts) = (any (text_eq t) ts ≡ false) × IsDistinct ts

-- A list that was cleaned: no entry is empty or there twice.
pub record IsTidy (ts : List Text) : Type 0 where
  pub filled : All (λ t. t ≢ []) ts
  pub distinct : IsDistinct ts

or_false : (a b : Bool) → a || b ≡ false → (a ≡ false) × (b ≡ false)
or_false a b e = ground arith

any-snoc :
    (x y : Text) (ts : List Text)
    → any (text_eq x) ts ≡ false
    → text_eq x y ≡ false
    → any (text_eq x) (ts ++ y ∷ []) ≡ false
any-snoc x y [] h k = ground (arith, k)
any-snoc x y (t ∷ ts) h k =
    let (here, rest) = or_false (text_eq x t) (any (text_eq x) ts) h in
    ground (arith, here, any-snoc x y ts rest k)

text_eq_comm : (s t : Text) → text_eq s t ≡ text_eq t s
text_eq_comm [] [] = refl
text_eq_comm [] (d ∷ ds) = refl
text_eq_comm (c ∷ cs) [] = refl
text_eq_comm (c ∷ cs) (d ∷ ds) = ground (arith, text_eq_comm cs ds)

snoc-IsDistinct :
    (ts : List Text) (y : Text)
    → IsDistinct ts
    → any (text_eq y) ts ≡ false
    → IsDistinct (ts ++ y ∷ [])
snoc-IsDistinct [] y d h = (refl, tt)
snoc-IsDistinct (t ∷ ts) y d h =
    let (here, rest) = or_false (text_eq y t) (any (text_eq y) ts) h in
    (any-snoc t y ts d.0 (text_eq_comm t y ∙ here), snoc-IsDistinct ts y d.1 rest)

note_host-IsTidy : (seen : List Text) (item : Text) → IsTidy seen → IsTidy (note_host seen item)
unfolding note_host
note_host-IsTidy seen item h = elim (Bool-cases (is_empty_text (to_lower (trim item)))) [
  | inl e ↦ rw e h
  | inr e ↦ elim (Bool-cases (any (text_eq (to_lower (trim item))) seen)) [
    | inl old ↦ rw (e, old) h
    | inr fresh ↦
        rw (e, fresh)
          (record {
            filled =
                All-append (λ t. t ≢ []) seen _ h.filled
                  ((λ none. let bad = sym (ap is_empty_text none) ∙ e in cc), tt);
            distinct = snoc-IsDistinct seen _ h.distinct fresh;
          })
  ]
]

note_hosts-IsTidy : (seen items : List Text) → IsTidy seen → IsTidy (note_hosts seen items)
unfolding note_hosts
note_hosts-IsTidy seen [] h = h
note_hosts-IsTidy seen (t ∷ ts) h =
    note_hosts-IsTidy (note_host seen t) ts (note_host-IsTidy seen t h)

normalise_list-IsTidy : (v : Option StoredList) → IsTidy (normalise_list v)
unfolding normalise_list
normalise_list-IsTidy v = note_hosts-IsTidy [] (raw_list v) (record { filled = tt; distinct = tt })

pub record IsRepaired (m : Merged) : Type 0 where
  pub channel : (m.channel ≡ codes "beta") ⊎ (m.channel ≡ codes "prod")
  -- Between 0 and 65536, perhaps not a whole number.
  pub port : (n : ℕ) × (d : ℕ) × (m.gateway_port ≡ ratio n d) × (0 < n) × (n < 65536 * (d + 1))
  pub scheme : any (text_eq m.gateway_scheme) schemes ≡ true
  pub language : any (text_eq m.language) language_choices ≡ true
  pub mode : any (text_eq m.tunnel_mode) tunnel_modes ≡ true
  pub sites : IsTidy m.site_list
  pub bypass : IsTidy m.bypass

one_of_lem :
    (choices : List Text) (v d : Text)
    → any (text_eq d) choices ≡ true
    → any (text_eq (one_of choices v d)) choices ≡ true
one_of_lem choices v d h = elim (Bool-cases (any (text_eq v) choices)) [
  | inl e ↦ rw e e
  | inr e ↦ rw e h
]

-- Whatever is stored, the settings that are read have a channel, scheme, language and mode that the
-- extension knows, a port above 0 and below 65536, and lists in which no entry is empty or there
-- twice. The port need not be a whole number.
pub merge_settings-IsRepaired : (s : Stored) → IsRepaired (merge_settings s)
unfolding merge_settings
merge_settings-IsRepaired s = record {
  channel = (elim (Bool-cases (text_eq (or_default s.channel (codes "prod")) (codes "beta"))) [
    | inl e ↦ inl (rw e refl)
    | inr e ↦ inr (rw e refl)
  ]);
  port = port_range (or_default s.gateway_port (ratio 8443 0));
  scheme =
      one_of_lem schemes (to_lower (or_default s.gateway_scheme (codes "https"))) (codes "https")
        refl;
  language = one_of_lem language_choices (or_default s.language (codes "auto")) (codes "auto") refl;
  mode = one_of_lem tunnel_modes (or_default s.tunnel_mode (codes "all")) (codes "all") refl;
  sites = normalise_list-IsTidy (or_list s.site_list (array []));
  bypass = normalise_list-IsTidy (or_list s.bypass default_bypass);
}
  where
    port_range :
        (p : JsNumber)
        → (n : ℕ) × (d : ℕ) × (repair_port p ≡ ratio n d) × (0 < n) × (n < 65536 * (d + 1))
    port_range other = (8443, 0, refl, omega arith, omega arith)
    port_range (ratio n d) = elim (Bool-cases (ltb 0 n && ltb n (65536 * (d + 1)))) [
      | inl e ↦ (n, d, rw (repair_port, e) refl, ground (arith, e), ground (arith, e))
      | inr e ↦ (8443, 0, rw (repair_port, e) refl, omega arith, omega arith)
    ]
