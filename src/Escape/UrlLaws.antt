-- ===== src/Escape/UrlLaws.antt =====
-- The round trip of `url_encode` and `url_decode`, and the bytes that an encoded text holds.
use hearty_rabbit.Prelude.{
  ℕ, ◌/◌, ◌%◌, append_assoc, get_or, ap, ◌≡◌, refl, Bool, true, false, not, ◌&&◌, ◌||◌, [], ◌∷◌,
  ◌++◌, none, some, arith, ◌==◌, Bytes, codes, contains, Avoids, IsBytes, IsByte, All, All-append,
  Bool-cases, inl, inr, all_below, all_below_sound,
}
use hearty_rabbit.Escape.Url.{
  hex_digit, need_escape, from_hex, encode_byte, url_encode, url_decode, hex,
}

-- The two digits that `encode_byte` writes spell the byte.
digits_spell : ℕ → Bool
digits_spell c = elim (from_hex (get_or hex (c / 16 % 16) 0) (get_or hex (c % 16) 0)) [
  | none ↦ false
  | some d ↦ d == c
]

digits_table : all_below 256 digits_spell ≡ true
unfolding all_below digits_spell from_hex hex_digit
digits_table = refl

from_hex-hex :
    (c : ℕ) → IsByte c → from_hex (get_or hex (c / 16 % 16) 0) (get_or hex (c % 16) 0) ≡ some c
unfolding digits_spell
from_hex-hex c h = ground (arith, all_below_sound 256 digits_spell c digits_table h)

-- A byte that is copied is no percent sign.
plain_table : all_below 256 (λ c. need_escape c || not (c == b'%')) ≡ true
unfolding all_below need_escape
plain_table = refl

plain-ne-percent : (c : ℕ) → IsByte c → need_escape c ≡ false → (c == b'%') ≡ false
plain-ne-percent c h n =
    ground (arith, all_below_sound 256 (λ c. need_escape c || not (c == b'%')) c plain_table h)

url_decode_plain : (c : ℕ) (s : Bytes) → (c == b'%') ≡ false → url_decode (c ∷ s) ≡ c ∷ url_decode s
unfolding url_decode
url_decode_plain c [] h = rw h
url_decode_plain c (x ∷ []) h = rw h
url_decode_plain c (x ∷ y ∷ s) h = rw h

url_decode_escape :
    (x y c : ℕ) (s : Bytes)
    → from_hex x y ≡ some c
    → url_decode (b'%' ∷ x ∷ y ∷ s) ≡ c ∷ url_decode s
unfolding url_decode
url_decode_escape x y c s h = rw (h)

url_decode-encode_byte :
    (c : ℕ) (s : Bytes) → IsByte c → url_decode (encode_byte c ++ s) ≡ c ∷ url_decode s
unfolding encode_byte
url_decode-encode_byte c s h = elim (Bool-cases (need_escape c)) [
  | inl e ↦ rw e (url_decode_escape _ _ c s (from_hex-hex c h))
  | inr e ↦ rw e (url_decode_plain c s (plain-ne-percent c h e))
]

-- Decoding an encoded text gives the text back, whatever bytes it holds.
pub url_decode-url_encode : (s : Bytes) → IsBytes s → url_decode (url_encode s) ≡ s
unfolding url_encode
url_decode-url_encode [] h = unfold url_decode in refl
url_decode-url_encode (c ∷ s) (hc, hs) =
    rw (url_decode-encode_byte c (url_encode s) hc) (ap (λ t. c ∷ t) (url_decode-url_encode s hs))

-- Decoding stops at a percent sign with fewer than two bytes behind it or with one that is no digit.
pub url_decode_cut :
    (s : Bytes) (x y : ℕ) (t : Bytes)
    → IsBytes s
    → from_hex x y ≡ none
    → (url_decode (url_encode s ++ b'%' ∷ x ∷ y ∷ t) ≡ s)
      × (url_decode (url_encode s ++ b'%' ∷ x ∷ []) ≡ s)
      × (url_decode (url_encode s ++ b'%' ∷ []) ≡ s)
unfolding url_encode
url_decode_cut [] x y t h bad = unfold url_decode in (rw bad, refl, refl)
url_decode_cut (c ∷ s) x y t (hc, hs) bad =
    let ih = url_decode_cut s x y t hs bad in
    let at = λ (r : Bytes). url_decode-encode_byte c (url_encode s ++ r) hc in
    (
      rw (append_assoc, at (b'%' ∷ x ∷ y ∷ t), ih.0),
      rw (append_assoc, at (b'%' ∷ x ∷ []), ih.1),
      rw (append_assoc, at (b'%' ∷ []), ih.2),
    )

-- Whether no byte of the text is in the set.
abbrev pub avoids : Bytes → Bytes → Bool
avoids vs [] = true
avoids vs (c ∷ s) = not (contains vs c) && avoids vs s

pub avoids-Avoids : (vs s : Bytes) → avoids vs s ≡ true → Avoids vs s
avoids-Avoids vs [] h = tt
avoids-Avoids vs (c ∷ s) h = (ground arith, avoids-Avoids vs s (ground arith))

url_encode-Avoids :
    (vs s : Bytes) → All (λ c. avoids vs (encode_byte c) ≡ true) s → Avoids vs (url_encode s)
unfolding url_encode
url_encode-Avoids vs [] h = tt
url_encode-Avoids vs (c ∷ s) (hc, hs) =
    All-append _ (encode_byte c) (url_encode s) (avoids-Avoids vs _ hc) (url_encode-Avoids vs s hs)

query_table : all_below 256 (λ c. avoids (codes "?#") (encode_byte c)) ≡ true
unfolding all_below encode_byte
query_table = refl

no_query : (s : Bytes) → IsBytes s → All (λ c. avoids (codes "?#") (encode_byte c) ≡ true) s
no_query [] h = tt
no_query (c ∷ s) (hc, hs) = (all_below_sound 256 _ c query_table hc, no_query s hs)

-- An encoded text never holds the bytes that end the path of a URL.
pub url_encode-no_query : (s : Bytes) → IsBytes s → Avoids (codes "?#") (url_encode s)
url_encode-no_query s h = url_encode-Avoids (codes "?#") s (no_query s h)

slash_table :
    all_below 256 (λ c. contains (codes "/") c || avoids (codes "/?#") (encode_byte c)) ≡ true
unfolding all_below encode_byte
slash_table = refl

no_slash :
    (s : Bytes)
    → IsBytes s
    → Avoids (codes "/") s
    → All (λ c. avoids (codes "/?#") (encode_byte c) ≡ true) s
no_slash [] h a = tt
no_slash (c ∷ s) (hc, hs) (ac, as') =
    (ground (arith, all_below_sound 256 _ c slash_table hc), no_slash s hs as')

-- Nor does it hold a slash that the text has not.
pub url_encode-no_slash :
    (s : Bytes) → IsBytes s → Avoids (codes "/") s → Avoids (codes "/?#") (url_encode s)
url_encode-no_slash s h a = url_encode-Avoids (codes "/?#") s (no_slash s h a)

pub url_encode-append : (s t : Bytes) → url_encode (s ++ t) ≡ url_encode s ++ url_encode t
unfolding url_encode
url_encode-append [] t = refl
url_encode-append (c ∷ s) t = rw (url_encode-append s t, append_assoc)

-- A text without a percent sign is its own decoding.
pub url_decode_same : (s : Bytes) → Avoids (codes "%") s → url_decode s ≡ s
url_decode_same [] a = unfold url_decode in refl
url_decode_same (c ∷ s) (ac, as') =
    rw (url_decode_plain c s (ground arith)) (ap (λ t. c ∷ t) (url_decode_same s as'))
