-- ===== src/Escape/Hex.antt =====
-- `to_hex`, `to_quoted_hex` and `hex_to_array` of src/common/util/Escape.hh. The digits themselves
-- are Boost's, and enter as a record of operations with the laws of its documentation.
use hearty_rabbit.Prelude.{
  ℕ, ◌*◌, ◌≡◌, true, [], ◌∷◌, ◌++◌, Option, none, some, ◌==◌, if◌then◌else◌, Bytes, codes, contains,
  length, IsBytes, All,
}

-- `boost::algorithm::hex_lower` and `unhex`; `none` is the exception `hex_decode_error`.
pub record HexCodec : Type 0 where
  pub hex_lower : Bytes → Bytes
  pub unhex : Bytes → Option Bytes

abbrev pub hex_digits : Bytes
hex_digits = codes "0123456789ABCDEFabcdef"

abbrev pub IsHexDigit : ℕ → Type 0
IsHexDigit c = contains hex_digits c ≡ true

-- What the documentation says: two digits for a byte, decoding undoes encoding, and decoding fails
-- exactly on a text of odd length or with another byte.
pub record HexLaws (h : HexCodec) : Type 0 where
  pub length-hex_lower : (s : Bytes) → length (h.hex_lower s) ≡ length s * 2
  pub hex_lower-IsHexDigit : (s : Bytes) → All IsHexDigit (h.hex_lower s)
  pub unhex-hex_lower : (s : Bytes) → IsBytes s → h.unhex (h.hex_lower s) ≡ some s
  pub unhex_accepts :
      (s : Bytes) (n : ℕ) → length s ≡ n * 2 → All IsHexDigit s → (b : Bytes) × (h.unhex s ≡ some b)
  pub unhex_sound :
      (s b : Bytes) → h.unhex s ≡ some b → All IsHexDigit s × (length s ≡ length b * 2) × IsBytes b

module _ (h : HexCodec) where
  unfoldable pub to_hex : Bytes → Bytes
  to_hex arr = h.hex_lower arr

  unfoldable pub to_quoted_hex : Bytes → ℕ → Bytes
  to_quoted_hex id quote = quote ∷ h.hex_lower id ++ quote ∷ []

  -- `n` is the size of the array; the exception is caught.
  unfoldable pub hex_to_array : ℕ → Bytes → Option Bytes
  hex_to_array n text = if length text == n * 2 then h.unhex text else none
