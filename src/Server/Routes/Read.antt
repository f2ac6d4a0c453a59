-- ===== src/Server/Routes/Read.antt =====
-- The exclusions as texts: `parseCidr` of control-server/src/services/tunnelRoutes.ts, on an address with
-- a prefix as it is printed.
use gluk_vpn.Common.{
  ℕ, true, false, ◌&&◌, some, List, [], ◌∷◌, ◌++◌, ◌+◌, ◌*◌, ◌/◌, ◌%◌, ◌^◌, ◌<◌, ◌≤◌, ◌≡◌, refl, ap,
  ◌∙◌, arith, leb, ltb, All, All-append, Text, split, before, from, contains_code, is_empty_text,
}
use gluk_vpn.Extension.Pac.{trim}
use gluk_vpn.Server.Ip.{read_digits, show_octet, dotted, int_to_ip}
use gluk_vpn.Server.Ip.Print.{
  IsPlain, show_octet-IsDigits, split-IsDigits, split_last, IsPlain-trim, show_octet-IsPlain,
  dotted-IsPlain,
}
use gluk_vpn.Server.Routes.{is_slash, is_short_number, read_octets, snapped, bits_text, parse_range}

-- The addresses that share their first `bits` bits with `address`.
pub record Exclusion : Type 0 where
  pub address : ℕ
  pub bits : ℕ

-- `address/bits`
abbrev pub exclusion_text : Exclusion → Text
exclusion_text e = int_to_ip e.address ++ b'/' ∷ show_octet e.bits

IsName : Text → Type 0
IsName = All (λ c. is_slash c ≡ false)

show_octet-IsName : (n : ℕ) → n < 256 → IsName (show_octet n)
unfolding show_octet IsName
show_octet-IsName n h = ground arith

dotted-IsName : (s t : Text) → IsName s → IsName t → IsName (s ++ b'.' ∷ t)
unfolding IsName
dotted-IsName s t h k = All-append (λ c. is_slash c ≡ false) s (b'.' ∷ t) h (refl, k)

cut_before : (s t : Text) → IsName s → before is_slash (s ++ b'/' ∷ t) ≡ s
unfolding IsName
cut_before [] t h = refl
cut_before (c ∷ s) t h = ground (arith, h.0, cut_before s t h.1)

cut_from : (s t : Text) → IsName s → from is_slash (s ++ b'/' ∷ t) ≡ b'/' ∷ t
unfolding IsName
cut_from [] t h = refl
cut_from (c ∷ s) t h = ground (arith, h.0, cut_from s t h.1)

has_slash : (s t : Text) → contains_code b'/' (s ++ b'/' ∷ t) ≡ true
has_slash [] t = refl
has_slash (c ∷ s) t = ground (arith, has_slash s t)

filled : (s t : Text) → is_empty_text (s ++ b'/' ∷ t) ≡ false
filled [] t = refl
filled (c ∷ s) t = refl

bits_text-slash : (s t : Text) → IsName s → bits_text (s ++ b'/' ∷ t) ≡ t
bits_text-slash s t h = rw (bits_text, has_slash s t, cut_from s t h) refl

octet_read : (n : ℕ) → n < 256 → read_digits 0 (show_octet n) ≡ n
unfolding show_octet
octet_read n h = ground arith

octet_short : (n : ℕ) → n < 256 → (is_short_number 3 (show_octet n) && leb n 255) ≡ true
unfolding show_octet
octet_short n h = ground arith

bits_short : (n : ℕ) → n ≤ 32 → is_short_number 2 (show_octet n) ≡ true
unfolding show_octet
bits_short n h = ground arith

read_one :
    (v n : ℕ) (os : List Text)
    → n < 256
    → read_octets v (show_octet n ∷ os) ≡ read_octets (v * 256 + n) os
read_one v n os h = rw (read_octets, octet_read n h, octet_short n h) refl

unfoldable four : ℕ → ℕ → ℕ → ℕ → Text
four a b c d = dotted (show_octet a) (dotted (show_octet b) (dotted (show_octet c) (show_octet d)))

module _ (a b c d : ℕ) (ha : a < 256) (hb : b < 256) (hc : c < 256) (hd : d < 256) where
  four-IsName : IsName (four a b c d)
  unfolding four
  four-IsName = dotted-IsName (show_octet a) _ (show_octet-IsName a ha) (
      dotted-IsName (show_octet b) _ (show_octet-IsName b hb)
        (dotted-IsName (show_octet c) _ (show_octet-IsName c hc) (show_octet-IsName d hd)))

  four-IsPlain : All IsPlain (four a b c d)
  unfolding four
  four-IsPlain = dotted-IsPlain (show_octet a) _ (show_octet-IsPlain a ha) (
      dotted-IsPlain (show_octet b) _ (show_octet-IsPlain b hb)
        (dotted-IsPlain (show_octet c) _ (show_octet-IsPlain c hc) (show_octet-IsPlain d hd)))

  split-four :
      split b'.' (four a b c d) ≡ show_octet a ∷ show_octet b ∷ show_octet c ∷ show_octet d ∷ []
  unfolding four
  split-four =
      rw
        (
          split-IsDigits (show_octet a)
              (dotted (show_octet b) (dotted (show_octet c) (show_octet d)))
              (show_octet-IsDigits a ha),
          split-IsDigits (show_octet b) (dotted (show_octet c) (show_octet d))
              (show_octet-IsDigits b hb),
          split-IsDigits (show_octet c) (show_octet d) (show_octet-IsDigits c hc),
          split_last (show_octet d) (show_octet-IsDigits d hd),
        )
        refl

  read-four :
      read_octets 0 (show_octet a ∷ show_octet b ∷ show_octet c ∷ show_octet d ∷ [])
      ≡ some (((a * 256 + b) * 256 + c) * 256 + d)
  read-four =
      read_one 0 a (show_octet b ∷ show_octet c ∷ show_octet d ∷ []) ha
      ∙ read_one (0 * 256 + a) b (show_octet c ∷ show_octet d ∷ []) hb
      ∙ read_one ((0 * 256 + a) * 256 + b) c (show_octet d ∷ []) hc
      ∙ read_one (((0 * 256 + a) * 256 + b) * 256 + c) d [] hd
      ∙ ap some same
    where
      same : (((0 * 256 + a) * 256 + b) * 256 + c) * 256 + d ≡ ((a * 256 + b) * 256 + c) * 256 + d
      same = omega arith

  text_plain :
      (bits : ℕ)
      → bits ≤ 32
      → trim (four a b c d ++ b'/' ∷ show_octet bits) ≡ four a b c d ++ b'/' ∷ show_octet bits
  unfolding IsPlain
  text_plain bits h = IsPlain-trim (four a b c d ++ b'/' ∷ show_octet bits) (
      All-append IsPlain (four a b c d) (b'/' ∷ show_octet bits) four-IsPlain
        ((omega arith, omega arith), show_octet-IsPlain bits (omega arith)))

  parsed :
      (bits : ℕ)
      → bits ≤ 32
      → parse_range (four a b c d ++ b'/' ∷ show_octet bits)
        ≡ snapped bits (some (((a * 256 + b) * 256 + c) * 256 + d))
  unfolding parse_range
  parsed bits h =
      let short : ltb 32 bits ≡ false = ground arith in
      rw
        (
          parse_range,
          text_plain bits h,
          filled (four a b c d) (show_octet bits),
          bits_text-slash (four a b c d) (show_octet bits) four-IsName,
          cut_before (four a b c d) (show_octet bits) four-IsName,
          split-four,
          octet_read bits (omega arith),
          bits_short bits h,
          short,
          read-four,
        )
        refl

-- An exclusion that is printed is read as its block of addresses.
pub parse_range-exclusion_text :
    (e : Exclusion)
    → e.address < 2 ^ 32
    → e.bits ≤ 32
    → parse_range (exclusion_text e) ≡ snapped e.bits (some e.address)
unfolding int_to_ip four
parse_range-exclusion_text e h k =
    parsed (e.address / 2 ^ 24 % 256) (e.address / 2 ^ 16 % 256) (e.address / 2 ^ 8 % 256)
      (e.address % 256) (omega arith) (omega arith) (omega arith) (omega arith) e.bits k
    ∙ ap (λ n. snapped e.bits (some n)) same
  where
    same :
        ((e.address / 2 ^ 24 % 256 * 256 + e.address / 2 ^ 16 % 256) * 256
              + e.address / 2 ^ 8 % 256)
            * 256
          + e.address % 256
        ≡ e.address
    same = omega arith
