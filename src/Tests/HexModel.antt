-- ===== src/Tests/HexModel.antt =====
-- A hexadecimal codec that meets the laws asked of Boost's.
use hearty_rabbit.Prelude.{
  ℕ, ◌+◌, ◌*◌, ◌/◌, ◌%◌, ◌<◌, ◌≡◌, refl, Bool, true, false, [], ◌∷◌, Option, none, some, arith,
  ◌==◌, ltb, lt→ltb, ◌-◌, Bytes, codes, contains, length, get_or, IsByte, IsBytes, All,
  Option-cases, inl, inr, all_below, all_below_sound,
}
use hearty_rabbit.Escape.Hex.{HexCodec, HexLaws, IsHexDigit, hex_digits}
use hearty_rabbit.Escape.Url.{from_hex, hex_digit}

abbrev lower : Bytes
lower = codes "0123456789abcdef"

unfoldable pub hex_lower : Bytes → Bytes
hex_lower [] = []
hex_lower (c ∷ s) = get_or lower (c / 16 % 16) 0 ∷ get_or lower (c % 16) 0 ∷ hex_lower s

unfoldable pub unhex : Bytes → Option Bytes
unhex [] = some []
unhex (x ∷ []) = none
unhex (x ∷ y ∷ s) = elim (from_hex x y) [
  | none ↦ none
  | some c ↦ elim (unhex s) [ none ↦ none | some r ↦ some (c ∷ r) ]
]

abbrev pub model : HexCodec
model = record { hex_lower = hex_lower; unhex = unhex }

length-hex_lower : (s : Bytes) → length (hex_lower s) ≡ length s * 2
unfolding hex_lower
length-hex_lower [] = refl
length-hex_lower (c ∷ s) = omega (arith, length-hex_lower s)

digit_table : all_below 16 (λ d. contains hex_digits (get_or lower d 0)) ≡ true
unfolding all_below
digit_table = refl

hex_lower-IsHexDigit : (s : Bytes) → All IsHexDigit (hex_lower s)
unfolding hex_lower
hex_lower-IsHexDigit [] = tt
hex_lower-IsHexDigit (c ∷ s) = (
  all_below_sound 16 _ (c / 16 % 16) digit_table (omega arith),
  (all_below_sound 16 _ (c % 16) digit_table (omega arith), hex_lower-IsHexDigit s),
)

spells : ℕ → Bool
spells c = elim (from_hex (get_or lower (c / 16 % 16) 0) (get_or lower (c % 16) 0)) [
  | none ↦ false
  | some d ↦ d == c
]

spells_table : all_below 256 spells ≡ true
unfolding all_below spells from_hex hex_digit
spells_table = refl

from_hex-lower :
    (c : ℕ) → IsByte c → from_hex (get_or lower (c / 16 % 16) 0) (get_or lower (c % 16) 0) ≡ some c
unfolding spells
from_hex-lower c h = ground (arith, all_below_sound 256 spells c spells_table h)

unhex-hex_lower : (s : Bytes) → IsBytes s → unhex (hex_lower s) ≡ some s
unfolding unhex hex_lower
unhex-hex_lower [] h = refl
unhex-hex_lower (c ∷ s) (hc, hs) = rw (from_hex-lower c hc, unhex) (rw (unhex-hex_lower s hs))

-- A byte is a digit for the decoder exactly when it is in the set.
digit_iff :
    (c : ℕ) → contains hex_digits c ≡ (elim (hex_digit c) [ none ↦ false | some d ↦ ltb d 16 ])
unfolding hex_digit
digit_iff c = ground arith

hex_digit-lt : (c d : ℕ) → hex_digit c ≡ some d → d < 16
unfolding hex_digit
hex_digit-lt c d h = ground arith

IsHexDigit-hex_digit : (c : ℕ) → IsHexDigit c → (d : ℕ) × (hex_digit c ≡ some d)
IsHexDigit-hex_digit c h = elim (Option-cases (hex_digit c)) [
  | inl e ↦ let bad : false ≡ true = rw (digit_iff c, e) at h in cc
  | inr (d, e) ↦ (d, e)
]

hex_digit-IsHexDigit : (c d : ℕ) → hex_digit c ≡ some d → IsHexDigit c
hex_digit-IsHexDigit c d e = rw (digit_iff c, e) (lt→ltb d 16 (hex_digit-lt c d e))

unhex_pair :
    (x y p q : ℕ) (s r : Bytes)
    → hex_digit x ≡ some p
    → hex_digit y ≡ some q
    → unhex s ≡ some r
    → unhex (x ∷ y ∷ s) ≡ some ((p * 16 + q) % 256 ∷ r)
unfolding unhex from_hex
unhex_pair x y p q s r ep eq er = ground arith

unhex_accepts :
    (s : Bytes) (n : ℕ) → length s ≡ n * 2 → All IsHexDigit s → (b : Bytes) × (unhex s ≡ some b)
unfolding unhex
unhex_accepts [] n h a = ([], refl)
unhex_accepts (x ∷ []) n h a = absurd (omega arith)
unhex_accepts (x ∷ y ∷ s) n h (ax, (ay, as')) =
    let (p, ep) = IsHexDigit-hex_digit x ax in
    let (q, eq) = IsHexDigit-hex_digit y ay in
    let (r, er) = unhex_accepts s (n - 1) (omega arith) as' in
    ((p * 16 + q) % 256 ∷ r, unhex_pair x y p q s r ep eq er)

unhex_cons :
    (x y : ℕ) (s b : Bytes)
    → unhex (x ∷ y ∷ s) ≡ some b
    → (p : ℕ) × (q : ℕ) × (r : Bytes) × (hex_digit x ≡ some p)
      × (hex_digit y ≡ some q)
      × (unhex s ≡ some r)
      × (b ≡ (p * 16 + q) % 256 ∷ r)
unfolding unhex from_hex
unhex_cons x y s b h = elim (Option-cases (hex_digit x)) [
  | inl e ↦ absurd (ground arith)
  | inr (p, ep) ↦ elim (Option-cases (hex_digit y)) [
    | inl e ↦ absurd (ground arith)
    | inr (q, eq) ↦ elim (Option-cases (unhex s)) [
      | inl e ↦ absurd (ground arith)
      | inr (r, er) ↦ (p, q, r, ep, eq, er, ground arith)
    ]
  ]
]

unhex_sound :
    (s b : Bytes) → unhex s ≡ some b → All IsHexDigit s × (length s ≡ length b * 2) × IsBytes b
unfolding unhex
unhex_sound [] b h = rw (let e : b ≡ [] = cc in e) (tt, refl, tt)
unhex_sound (x ∷ []) b h = cc
unhex_sound (x ∷ y ∷ s) b h =
    let (p, q, r, ep, eq, er, e) = unhex_cons x y s b h in
    let (digits, n, bytes) = unhex_sound s r er in
    (
      (hex_digit-IsHexDigit x p ep, (hex_digit-IsHexDigit y q eq, digits)),
      rw e (omega (arith, n)),
      rw e (omega arith, bytes),
    )

pub model-HexLaws : HexLaws model
model-HexLaws = record {
  length-hex_lower = length-hex_lower;
  hex_lower-IsHexDigit = hex_lower-IsHexDigit;
  unhex-hex_lower = unhex-hex_lower;
  unhex_accepts = unhex_accepts;
  unhex_sound = unhex_sound;
}
