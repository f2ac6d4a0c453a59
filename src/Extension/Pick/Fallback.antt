-- ===== src/Extension/Pick/Fallback.antt =====
-- `pickNode`: the user's choice while it can be had, the automatic one otherwise.
use gluk_vpn.Common.{
  String, Bool, true, false, Option, none, some, List, [], ◌∷◌, ◌≡◌, ◌⊎◌, inl, inr, refl, sym, ap,
  arith, str_eq, Bool-cases, Option-cases, subst, ◌∙◌, if◌then◌else◌,
}
use mathlib.Core.List.{Memᴰ}
use gluk_vpn.Extension.Pick.{
  Node, Options, is_node_usable, best_node, find_node, Choice, pick_node, usable_choice, automatic,
  manual,
}
use gluk_vpn.Extension.Pick.Best.{IsBest, NoneUsable, best_node_lem}

find_node_lem :
    (wanted : String) (ns : List Node) (n : Node)
    → find_node wanted ns ≡ some n
    → (Memᴰ n ns × (str_eq n.id wanted ≡ true))
unfolding find_node
find_node_lem wanted [] n e = cc
find_node_lem wanted (x ∷ ns) n e = elim (Bool-cases (str_eq x.id wanted)) [
  | inl h ↦ let same : x ≡ n = ground (arith, h) in (Memᴰ.head (sym same), ground (arith, h, same))
  | inr h ↦ let (m, id) = find_node_lem wanted ns n (ground (arith, h)) in (Memᴰ.tail m, id)
]

-- The server of a choice `c` is a usable row of the list. A choice of the user's own has the
-- wanted id; an automatic one is a best one; and a usable row that the wanted id names is it.
pub record Serves (o : Options) (ns : List Node) (wanted : String) (c : Choice) (r : Node)
    : Type 0 where
  pub given : c.node ≡ some r
  pub listed : Memᴰ r ns
  pub usable : is_node_usable o.paid r ≡ true
  pub own : c.auto ≡ false → str_eq r.id wanted ≡ true
  pub best : c.auto ≡ true → IsBest o ns r
  pub honoured :
      (n : Node)
      → str_eq wanted "" ≡ false
      → find_node wanted ns ≡ some n
      → is_node_usable o.paid n ≡ true
      → n ≡ r

abbrev pub Answers : Options → List Node → String → Choice → Type 0
Answers o ns wanted c =
    ((c.node ≡ none) × NoneUsable o.paid ns) ⊎ ((r : Node) × Serves o ns wanted c r)

-- Without a usable choice of the user's own.
automatic-Answers :
    (o : Options) (ns : List Node) (wanted : String) (b : Bool)
    → ((n : Node)
        → str_eq wanted "" ≡ false
        → find_node wanted ns ≡ some n
        → is_node_usable o.paid n ≡ false)
    → Answers o ns wanted (automatic b (best_node o ns))
automatic-Answers o ns wanted b unusable = elim (best_node_lem o ns) [
  | inl (e, h) ↦ inl (e, h)
  | inr (r, e, h) ↦ inr (
    r,
    record {
      given = e;
      listed = h.listed;
      usable = h.usable;
      own = λ never. cc;
      best = λ _. h;
      honoured = λ n w f u. let bad = unusable n w f in cc;
    },
  )
]

-- A usable choice of the user's own is the row that the id names.
usable_choice_lem :
    (paid : Bool) (f : Option Node) (n : Node)
    → usable_choice paid f ≡ some n
    → ((f ≡ some n) × (is_node_usable paid n ≡ true))
usable_choice_lem paid none n e = cc
usable_choice_lem paid (some x) n e = elim (Bool-cases (is_node_usable paid x)) [
  | inl h ↦ let same : x ≡ n = ground (arith, h) in (ap some same, ground (arith, h, same))
  | inr h ↦ ground (arith, h)
]

usable_choice-none :
    (paid : Bool) (n : Node) → usable_choice paid (some n) ≡ none → is_node_usable paid n ≡ false
usable_choice-none paid n e = ground arith

-- `pickNode` gives a usable server of the list, or there is none in it: the one that the user
-- wants if that one is usable, a best one otherwise.
pub pick_node_lem :
    (o : Options) (ns : List Node) (wanted : String) → Answers o ns wanted (pick_node o ns wanted)
unfolding pick_node
pick_node_lem o ns wanted = elim (Bool-cases (str_eq wanted "")) [
  | inl w ↦
      subst (λ t. Answers o ns wanted (if t then automatic false (best_node o ns) else wish))
        (sym w) (automatic-Answers o ns wanted false (λ n w' f. cc))
  | inr w ↦
      subst (λ t. Answers o ns wanted (if t then automatic false (best_node o ns) else wish))
        (sym w)
        (elim (Option-cases (usable_choice o.paid (find_node wanted ns))) [
          | inl e ↦
              subst (λ u. Answers o ns wanted (after u)) (sym e)
                (automatic-Answers o ns wanted true
                  (λ n w' f. usable_choice-none o.paid n (ap (usable_choice o.paid) (sym f) ∙ e)))
          | inr (n, e) ↦
              let (f, u) = usable_choice_lem o.paid (find_node wanted ns) n e in
              let (m, id) = find_node_lem wanted ns n f in
              subst (λ u. Answers o ns wanted (after u)) (sym e)
                (inr (
                  n,
                  record {
                    given = refl;
                    listed = m;
                    usable = u;
                    own = λ _. id;
                    best = λ never. cc;
                    honoured = λ n' w' f' u'. cc;
                  },
                ))
        ])
]
  where
    after : Option Node → Choice
    after u = elim u [
      | some n ↦ record { node = some n; reason = manual; auto = false }
      | none ↦ automatic true (best_node o ns)
    ]

    wish : Choice
    wish = after (usable_choice o.paid (find_node wanted ns))
