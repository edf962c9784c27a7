-- ===== src/Escape/Url.antt =====
-- `url_encode` and `url_decode` of src/common/util/Escape.cc, and the digits that they use. A
-- `char` is its byte, below 256.
use hearty_rabbit.Prelude.{
  ℕ, ◌+◌, ◌-◌, ◌*◌, ◌/◌, ◌%◌, Bool, true, false, ◌&&◌, [], ◌∷◌, ◌++◌, Option, none, some, leb, ◌==◌,
  if◌then◌else◌, Bytes, codes, contains, get_or,
}

-- The case labels of the switch.
abbrev unreserved : Bytes
unreserved = codes "0123456789abcdefghijklmnopqrstuvwxyzABCDEFGHIJKLMNOPQRSTUVWXYZ-._~"

is_unreserved : ℕ → Bool
is_unreserved c = contains unreserved c

-- The reserved bytes that are copied all the same.
abbrev kept : Bytes
kept = codes "!$&()'*+,;=:@/"

unfoldable pub need_escape : ℕ → Bool
unfolding is_unreserved
need_escape c = if is_unreserved c then false else if contains kept c then false else true

-- The value of a hexadecimal digit in either case.
unfoldable pub hex_digit : ℕ → Option ℕ
hex_digit c =
    if leb b'0' c && leb c b'9'
    then some (c - b'0')
    else if leb b'A' c && leb c b'F'
    then some (c - b'A' + 10)
    else if leb b'a' c && leb c b'f'
    then some (c - b'a' + 10)
    else none

-- The byte of two digits, converted to `char`.
unfoldable pub from_hex : ℕ → ℕ → Option ℕ
from_hex msb lsb = elim (hex_digit msb) [
  | none ↦ none
  | some big ↦ elim (hex_digit lsb) [ none ↦ none | some sml ↦ some ((big * 16 + sml) % 256) ]
]

abbrev pub hex : Bytes
hex = codes "0123456789ABCDEF"

-- What one round of the loop of `url_encode` appends.
unfoldable pub encode_byte : ℕ → Bytes
unfolding need_escape
encode_byte c =
    if need_escape c then b'%' ∷ get_or hex (c / 16 % 16) 0 ∷ get_or hex (c % 16) 0 ∷ [] else c ∷ []

unfoldable pub url_encode : Bytes → Bytes
unfolding encode_byte
url_encode [] = []
url_encode (c ∷ s) = encode_byte c ++ url_encode s

-- The loop stops at an escape that is cut short or has a byte that is no digit, and what was
-- decoded until then is the result.
unfoldable pub url_decode : Bytes → Bytes
unfolding from_hex
url_decode [] = []
url_decode (c ∷ []) = if c == b'%' then [] else c ∷ []
url_decode (c ∷ x ∷ []) = let copied = c ∷ url_decode (x ∷ []) in if c == b'%' then [] else copied
url_decode (c ∷ x ∷ y ∷ s) =
    let copied = c ∷ url_decode (x ∷ y ∷ s) in
    let rest = url_decode s in
    let escaped : Bytes = elim (from_hex x y) [ none ↦ [] | some ch ↦ ch ∷ rest ] in
    if c == b'%' then escaped else copied
