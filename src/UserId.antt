-- ===== src/UserId.antt =====
-- src/common/hrb/UserID.hh and UserID.cc: who sends a request, and the cookie that says so. A
-- session ID is 16 bytes; that of nobody is all zero.
pub mod Laws
use hearty_rabbit.Prelude.{
  ℕ, zero, suc, ◌+◌, ◌/◌, ◌%◌, ◌≡◌, refl, Bool, true, false, ◌&&◌, not, List, [], ◌∷◌, ◌++◌, Option,
  none, some, ltb, if◌then◌else◌, Bytes, codes, length, is_empty, bytes_eq, IsBytes,
}
use hearty_rabbit.Escape.Hex.{HexCodec, hex_to_array, to_hex}
use hearty_rabbit.Cookie

pub record UserId : Type 0 where
  pub session : Bytes
  pub user : Bytes
  pub guest : Bool

-- `SessionID{}`.
abbrev pub no_session : Bytes
no_session = 0 ∷ 0 ∷ 0 ∷ 0 ∷ 0 ∷ 0 ∷ 0 ∷ 0 ∷ 0 ∷ 0 ∷ 0 ∷ 0 ∷ 0 ∷ 0 ∷ 0 ∷ 0 ∷ []

-- `UserID{}`.
abbrev pub nobody : UserId
nobody = record { session = no_session; user = []; guest = false }

-- `UserID(SessionID, user, guest)`.
unfoldable pub of_session : Bytes → Bytes → Bool → UserId
of_session session user guest = record {
  session = if is_empty user then no_session else session;
  user = user;
  guest = guest;
}

-- `valid()`, without its assertion.
unfoldable pub valid : UserId → Bool
valid u = not (bytes_eq u.session no_session) && not (is_empty u.user)

-- `operator==`.
unfoldable pub same_user : UserId → UserId → Bool
same_user a b =
    bytes_eq a.user b.user
    && bytes_eq a.session b.session
    && (if a.guest then b.guest else not b.guest)

-- `std::to_string` of a number below 10 ^ 20, one digit a round.
unfoldable pub decimal : ℕ → ℕ → Bytes
decimal zero n = []
decimal (suc fuel) n =
    let higher = decimal fuel (n / 10) in
    if ltb n 10 then (b'0' + n) ∷ [] else higher ++ (b'0' + n % 10) ∷ []

module _ (h : HexCodec) where
  unfoldable pub cookie : UserId → Bytes
  cookie u = Cookie.add [] (codes "id") (if valid u then to_hex h u.session else [])

  unfoldable pub set_cookie : UserId → ℕ → Bytes
  set_cookie u session_length =
      let with_path = Cookie.add (cookie u) (codes "Path") (codes "/") in
      if valid u
      then Cookie.add
          (Cookie.add (Cookie.add (Cookie.add with_path (codes "Secure") []) (codes "HttpOnly") [])
            (codes "SameSite") (codes "Strict"))
          (codes "Max-Age") (decimal 20 session_length)
      else Cookie.add with_path (codes "Expires") (codes "Thu, Jan 01 1970 00:00:00 UTC")

  unfoldable pub parse_cookie : Bytes → Option Bytes
  parse_cookie c = hex_to_array h 16 (Cookie.field c (codes "id"))

  -- `UserID(Cookie, user)`.
  unfoldable pub of_cookie : Bytes → Bytes → UserId
  of_cookie c user = record {
    session = elim (parse_cookie c) [ none ↦ no_session | some s ↦ s ];
    user = user;
    guest = false;
  }
