-- ===== src/ObjectId.antt =====
-- src/common/hrb/ObjectID.hh and ObjectID.cc: the 20-byte hash that names a blob.
use hearty_rabbit.Prelude.{
  ℕ, ◌*◌, ◌≡◌, ◌↔◌, refl, Bool, true, false, ◌&&◌, [], ◌∷◌, Option, none, some, arith, ◌==◌,
  if◌then◌else◌, Bytes, codes, contains, length, IsBytes, All, Bool-cases, contains-subset, ==_iff,
  inl, inr, bytes_eq,
}
use hearty_rabbit.Escape.Hex.{HexCodec, HexLaws, IsHexDigit, hex_digits, hex_to_array, to_hex}

-- `Blake2::size`.
abbrev pub blake2_size : ℕ
blake2_size = 20

-- An object ID is its bytes.
pub record IsObjectId (id : Bytes) : Type 0 where
  pub full : length id ≡ blake2_size
  pub bytes : IsBytes id

-- `hex.find_first_not_of(set) == npos`
unfoldable pub only_of : Bytes → Bytes → Bool
only_of set [] = true
only_of set (c ∷ s) = contains set c && only_of set s

unfoldable pub is_hex : Bytes → Bool
unfolding only_of
is_hex text = length text == blake2_size * 2 && only_of (codes "01234567890ABCDEFabcdef") text

unfoldable pub from_raw : Bytes → Option Bytes
from_raw raw = if length raw == blake2_size then some raw else none

unfoldable pub same_id : Bytes → Bytes → Bool
same_id id1 id2 = bytes_eq id1 id2

-- The sets of `is_hex` and of the decoder hold the same bytes.
only_of-All : (s : Bytes) → only_of (codes "01234567890ABCDEFabcdef") s ≡ true → All IsHexDigit s
unfolding only_of
only_of-All [] e = tt
only_of-All (c ∷ s) e = elim (Bool-cases (contains (codes "01234567890ABCDEFabcdef") c)) [
  | inl y ↦ (
    contains-subset (codes "01234567890ABCDEFabcdef") hex_digits c refl y,
    only_of-All s (rw y at e),
  )
  | inr n ↦ let bad : false ≡ true = rw n at e in cc
]

All-only_of : (s : Bytes) → All IsHexDigit s → only_of (codes "01234567890ABCDEFabcdef") s ≡ true
unfolding only_of
All-only_of [] a = refl
All-only_of (c ∷ s) (ac, as') =
    rw (contains-subset hex_digits (codes "01234567890ABCDEFabcdef") c refl ac) (All-only_of s as')

pub is_hex-All : (s : Bytes) → is_hex s ≡ true → (length s ≡ 40) × All IsHexDigit s
unfolding is_hex
is_hex-All s e = elim (Bool-cases (length s == 40)) [
  | inl y ↦ ((==_iff (length s) 40).0 y, only_of-All s (rw y at e))
  | inr n ↦ let bad : false ≡ true = rw n at e in cc
]

module _ (h : HexCodec) where
  unfoldable pub from_hex : Bytes → Option Bytes
  unfolding hex_to_array
  from_hex text = hex_to_array h blake2_size text

  from_hex-unhex : (s id : Bytes) → from_hex s ≡ some id → (length s ≡ 40) × (h.unhex s ≡ some id)
  unfolding from_hex
  from_hex-unhex s id r = elim (Bool-cases (length s == 40)) [
    | inl y ↦ ((==_iff (length s) 40).0 y, rw y at r)
    | inr n ↦ let bad : none ≡ some id = rw n at r in cc
  ]

  module _ (laws : HexLaws h) where
    -- An ID is read back from its hexadecimal text.
    pub from_hex-to_hex : (id : Bytes) → IsObjectId id → from_hex (to_hex h id) ≡ some id
    unfolding from_hex to_hex
    from_hex-to_hex id v =
        ground (arith, laws.length-hex_lower id, laws.unhex-hex_lower id v.bytes, v.full)

    -- The text of an ID passes the test for one.
    pub is_hex-to_hex : (id : Bytes) → IsObjectId id → is_hex (to_hex h id) ≡ true
    unfolding is_hex to_hex
    is_hex-to_hex id v =
        let n : length (h.hex_lower id) ≡ 40 = omega (arith, laws.length-hex_lower id, v.full) in
        rw n (All-only_of _ (laws.hex_lower-IsHexDigit id))

    -- `is_hex` is true exactly of the texts that `from_hex` reads, and what is read is an ID.
    pub is_hex-from_hex :
        (s : Bytes)
        → ((is_hex s ≡ true) ↔ ((id : Bytes) × (from_hex s ≡ some id)))
          × ((id : Bytes) → from_hex s ≡ some id → IsObjectId id)
    is_hex-from_hex s = ((reads, is_hex_of), sized)
      where
        reads : is_hex s ≡ true → (id : Bytes) × (from_hex s ≡ some id)
        reads e =
            let a = is_hex-All s e in
            let (id, u) = laws.unhex_accepts s 20 a.0 a.1 in (id, unfold from_hex in rw a.0 u)

        is_hex_of : (id : Bytes) × (from_hex s ≡ some id) → is_hex s ≡ true
        is_hex_of (id, r) =
            let u = from_hex-unhex s id r in
            unfold is_hex in rw u.0 (All-only_of s (laws.unhex_sound s id u.1).0)

        sized : (id : Bytes) → from_hex s ≡ some id → IsObjectId id
        sized id r =
            let u = from_hex-unhex s id r in
            let v = laws.unhex_sound s id u.1 in
            record { full = omega (arith, u.0, v.1); bytes = v.2 }
