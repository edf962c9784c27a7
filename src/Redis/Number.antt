-- ===== src/Redis/Number.antt =====
-- src/server/net/Redis.cc, `Reply::to_int`: the number in the text of a reply.
use hearty_rabbit.Prelude.{
  ℕ, zero, suc, ◌+◌, ◌-◌, ◌*◌, ◌^◌, ◌&&◌, ◌==◌, ltb, leb, [], ◌∷◌, Option, none, some,
  if◌then◌else◌, Bytes, is_empty,
}
use hearty_rabbit.StringFields.{is_space}
use hearty_rabbit.Redis.Reply.{Reply, ℤ, as_any_string}

abbrev with_digit : Option ℕ → ℕ → ℕ
with_digit none c = c - b'0'
with_digit (some n) c = n * 10 + (c - b'0')

abbrev digits : Option ℕ → Bytes → Option ℕ
digits seen [] = seen
digits seen (c ∷ s) =
    let more = digits (some (with_digit seen c)) s in
    if leb b'0' c && leb c b'9' then more else seen

-- A `long` has 64 bits.
abbrev signed : Option ℕ → Option ℤ
signed none = none
signed (some zero) = some (ℤ.pos 0)
signed (some (suc n)) = if ltb n (2 ^ 63) then some (ℤ.negsuc n) else none

abbrev unsigned : Option ℕ → Option ℤ
unsigned none = none
unsigned (some n) = if ltb n (2 ^ 63) then some (ℤ.pos n) else none

-- `std::stol`: spaces, a sign, digits; `none` is its exception, as for a number that a `long` does not
-- hold.
unfoldable pub stol : Bytes → Option ℤ
stol [] = none
stol (c ∷ s) =
    let skipped = stol s in
    if is_space c
    then skipped
    else if c == b'-'
    then signed (digits none s)
    else if c == b'+'
    then unsigned (digits none s)
    else unsigned (digits none (c ∷ s))

-- `none` is the exception of `stol`; as `to_int` is `noexcept`, the program ends.
unfoldable pub to_int : Reply → Option ℤ
unfolding as_any_string
to_int r = if is_empty (as_any_string r) then some (ℤ.pos 0) else stol (as_any_string r)
