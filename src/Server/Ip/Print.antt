-- ===== src/Server/Ip/Print.antt =====
-- An address that is printed is read back.
use gluk_vpn.Common.{
  ℕ, none, some, List, [], ◌∷◌, ◌++◌, ◌/◌, ◌%◌, ◌^◌, ◌<◌, ◌≤◌, ◌≡◌, refl, ◌∙◌, ap, arith, All,
  All-append, Text, split,
}
use gluk_vpn.Extension.Pac.{trim, trim_end}
use gluk_vpn.Server.Ip.{read_octet, shift_in, read_parts, ip_to_int, show_octet, int_to_ip, dotted}

unfoldable pub IsPlain : ℕ → Type 0
IsPlain c = (46 ≤ c) × (c ≤ 57)

unfoldable pub IsDigits : Text → Type 0
IsDigits = All (λ c. (48 ≤ c) × (c ≤ 57))

pub show_octet-IsDigits : (n : ℕ) → n < 256 → IsDigits (show_octet n)
unfolding show_octet IsDigits
show_octet-IsDigits n h = ground arith

read_octet-show_octet : (n : ℕ) → n < 256 → read_octet (show_octet n) ≡ some n
unfolding show_octet read_octet
read_octet-show_octet n h = ground arith

pub split-IsDigits :
    (d rest : Text) → IsDigits d → split b'.' (d ++ b'.' ∷ rest) ≡ d ∷ split b'.' rest
unfolding IsDigits
split-IsDigits [] rest h = ground arith
split-IsDigits (c ∷ d) rest h = ground (arith, split-IsDigits d rest h.1)

pub split_last : (d : Text) → IsDigits d → split b'.' d ≡ d ∷ []
unfolding IsDigits
split_last [] h = refl
split_last (c ∷ d) h = ground (arith, split_last d h.1)

pub IsPlain-trim : (t : Text) → All IsPlain t → trim t ≡ t
unfolding IsPlain
IsPlain-trim [] h = refl
IsPlain-trim (c ∷ t) h = ground (arith, ended (c ∷ t) h)
  where
    ended : (t : Text) → All IsPlain t → trim_end t ≡ t
    ended [] h = refl
    ended (c ∷ t) h = ground (arith, ended t h.1)

pub show_octet-IsPlain : (n : ℕ) → n < 256 → All IsPlain (show_octet n)
unfolding show_octet IsPlain
show_octet-IsPlain n h = ground arith

pub dotted-IsPlain : (s t : Text) → All IsPlain s → All IsPlain t → All IsPlain (s ++ b'.' ∷ t)
unfolding IsPlain
dotted-IsPlain s t h k = All-append IsPlain s (b'.' ∷ t) h ((omega arith, omega arith), k)

read_one :
    (v : ℕ) (p : Text) (ps : List Text) (a : ℕ)
    → read_octet p ≡ some a
    → read_parts v (p ∷ ps) ≡ read_parts (shift_in v a) ps
unfolding read_parts
read_one v p ps a h = ap (λ o. elim o [ none ↦ none | some x ↦ read_parts (shift_in v x) ps ]) h

read_four :
    (p q r s : Text) (a b c d : ℕ)
    → read_octet p ≡ some a
    → read_octet q ≡ some b
    → read_octet r ≡ some c
    → read_octet s ≡ some d
    → read_parts 0 (p ∷ q ∷ r ∷ s ∷ []) ≡ some (shift_in (shift_in (shift_in (shift_in 0 a) b) c) d)
unfolding read_parts
read_four p q r s a b c d ha hb hc hd =
    read_one 0 p (q ∷ r ∷ s ∷ []) a ha
    ∙ read_one (shift_in 0 a) q (r ∷ s ∷ []) b hb
    ∙ read_one (shift_in (shift_in 0 a) b) r (s ∷ []) c hc
    ∙ read_one (shift_in (shift_in (shift_in 0 a) b) c) s [] d hd

dotted_parts :
    (a b c d : ℕ)
    → a < 256
    → b < 256
    → c < 256
    → d < 256
    → ip_to_int
        (dotted (show_octet a) (dotted (show_octet b) (dotted (show_octet c) (show_octet d))))
      ≡ some (shift_in (shift_in (shift_in (shift_in 0 a) b) c) d)
unfolding ip_to_int read_parts
dotted_parts a b c d ha hb hc hd =
    rw
      (
        IsPlain-trim
            (dotted (show_octet a) (dotted (show_octet b) (dotted (show_octet c) (show_octet d))))
            (dotted-IsPlain (show_octet a) _ (show_octet-IsPlain a ha) (
              dotted-IsPlain (show_octet b) _ (show_octet-IsPlain b hb) (
                dotted-IsPlain (show_octet c) _ (show_octet-IsPlain c hc)
                  (show_octet-IsPlain d hd)))),
        split-IsDigits (show_octet a) (dotted (show_octet b) (dotted (show_octet c) (show_octet d)))
            (show_octet-IsDigits a ha),
        split-IsDigits (show_octet b) (dotted (show_octet c) (show_octet d))
            (show_octet-IsDigits b hb),
        split-IsDigits (show_octet c) (show_octet d) (show_octet-IsDigits c hc),
        split_last (show_octet d) (show_octet-IsDigits d hd),
      )
      (read_four (show_octet a) (show_octet b) (show_octet c) (show_octet d) a b c d
        (read_octet-show_octet a ha) (read_octet-show_octet b hb) (read_octet-show_octet c hc)
        (read_octet-show_octet d hd))

bytes_lem :
    (n : ℕ)
    → n < 2 ^ 32
    → shift_in
        (shift_in (shift_in (shift_in 0 (n / 2 ^ 24 % 256)) (n / 2 ^ 16 % 256)) (n / 2 ^ 8 % 256))
        (n % 256)
      ≡ n
bytes_lem n h = omega arith

-- An address that is printed in dotted decimals is read back as the same number.
pub ip_to_int-int_to_ip : (n : ℕ) → n < 2 ^ 32 → ip_to_int (int_to_ip n) ≡ some n
unfolding int_to_ip
ip_to_int-int_to_ip n h =
    dotted_parts (n / 2 ^ 24 % 256) (n / 2 ^ 16 % 256) (n / 2 ^ 8 % 256) (n % 256) (omega arith)
      (omega arith) (omega arith) (omega arith)
    ∙ ap some (bytes_lem n h)
