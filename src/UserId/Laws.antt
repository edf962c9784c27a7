-- ===== src/UserId/Laws.antt =====
-- The session in the cookie of src/common/hrb/UserID.cc.
use hearty_rabbit.Prelude.{
  ℕ, zero, suc, ◌+◌, ◌/◌, ◌%◌, ◌≡◌, refl, ◌∙◌, false, [], ◌∷◌, none, some, ltb, if◌then◌else◌,
  Bytes, codes, length, bytes_eq, IsBytes, Avoids, Avoids-append, All-Avoids, arith, Bool-cases,
  inl, inr,
}
use hearty_rabbit.Escape.Hex.{HexCodec, HexLaws, hex_to_array, to_hex, hex_digits}
use hearty_rabbit.Escape.UrlLaws.{avoids-Avoids}
use hearty_rabbit.Cookie
use hearty_rabbit.Cookie.{fields}
use hearty_rabbit.Cookie.Laws.{IsName, field-add}
use hearty_rabbit.StringFields.{trim_name}
use hearty_rabbit.UserId.{UserId, valid, decimal, cookie, set_cookie, parse_cookie}

-- A session ID is 16 bytes.
pub record IsSession (s : Bytes) : Type 0 where
  pub full : length s ≡ 16
  pub bytes : IsBytes s

decimal-Avoids : (fuel n : ℕ) → Avoids (codes ";") (decimal fuel n)
unfolding decimal
decimal-Avoids zero n = tt
decimal-Avoids (suc fuel) n = elim (Bool-cases (ltb n 10)) [
  | inl y ↦ rw y (ground arith, tt)
  | inr h ↦ rw h (
      Avoids-append (codes ";") (decimal fuel (n / 10)) ((b'0' + n % 10) ∷ [])
        (decimal-Avoids fuel (n / 10)) (ground arith, tt))
]

id-IsName : IsName (codes "id")
unfolding trim_name
id-IsName = record {
  present = cc;
  no_delims = avoids-Avoids (codes "=;") (codes "id") refl;
  trimmed = refl;
}

path-IsName : IsName (codes "Path")
unfolding trim_name
path-IsName = record {
  present = cc;
  no_delims = avoids-Avoids (codes "=;") (codes "Path") refl;
  trimmed = refl;
}

secure-IsName : IsName (codes "Secure")
unfolding trim_name
secure-IsName = record {
  present = cc;
  no_delims = avoids-Avoids (codes "=;") (codes "Secure") refl;
  trimmed = refl;
}

http_only-IsName : IsName (codes "HttpOnly")
unfolding trim_name
http_only-IsName = record {
  present = cc;
  no_delims = avoids-Avoids (codes "=;") (codes "HttpOnly") refl;
  trimmed = refl;
}

same_site-IsName : IsName (codes "SameSite")
unfolding trim_name
same_site-IsName = record {
  present = cc;
  no_delims = avoids-Avoids (codes "=;") (codes "SameSite") refl;
  trimmed = refl;
}

max_age-IsName : IsName (codes "Max-Age")
unfolding trim_name
max_age-IsName = record {
  present = cc;
  no_delims = avoids-Avoids (codes "=;") (codes "Max-Age") refl;
  trimmed = refl;
}

expires-IsName : IsName (codes "Expires")
unfolding trim_name
expires-IsName = record {
  present = cc;
  no_delims = avoids-Avoids (codes "=;") (codes "Expires") refl;
  trimmed = refl;
}

-- Another attribute leaves the ID as it is.
keeps_id :
    (c name value : Bytes)
    → IsName name
    → Avoids (codes ";") value
    → bytes_eq name (codes "id") ≡ false
    → Cookie.field (Cookie.add c name value) (codes "id") ≡ Cookie.field c (codes "id")
keeps_id c name value hn hv e = field-add c name value (codes "id") (λ z. cc) hn hv ∙ rw e

module _ (h : HexCodec) (laws : HexLaws h) where
  cookie_id :
      (u : UserId)
      → Cookie.field (cookie h u) (codes "id") ≡ (if valid u then to_hex h u.session else [])
  unfolding cookie to_hex
  cookie_id u =
      field-add [] (codes "id") _ (codes "id") (λ z. cc) id-IsName
        (elim (Bool-cases (valid u)) [
          | inl y ↦
              rw y (All-Avoids hex_digits (codes ";") _ refl (laws.hex_lower-IsHexDigit u.session))
          | inr n ↦ rw n tt
        ])

  set_cookie_id :
      (u : UserId) (t : ℕ)
      → Cookie.field (set_cookie h u t) (codes "id") ≡ Cookie.field (cookie h u) (codes "id")
  unfolding set_cookie
  set_cookie_id u t = elim (Bool-cases (valid u)) [
    | inl y ↦ rw y (
        keeps_id _ (codes "Max-Age") (decimal 20 t) max_age-IsName (decimal-Avoids 20 t) refl
        ∙ (keeps_id _ (codes "SameSite") (codes "Strict") same_site-IsName
              (avoids-Avoids (codes ";") (codes "Strict") refl) refl
            ∙ (keeps_id _ (codes "HttpOnly") [] http_only-IsName tt refl
                ∙ (keeps_id _ (codes "Secure") [] secure-IsName tt refl
                    ∙ keeps_id (cookie h u) (codes "Path") (codes "/") path-IsName (refl, tt)
                        refl))))
    | inr n ↦ rw n (
        keeps_id _ (codes "Expires") (codes "Thu, Jan 01 1970 00:00:00 UTC") expires-IsName
          (avoids-Avoids (codes ";") (codes "Thu, Jan 01 1970 00:00:00 UTC") refl) refl
        ∙ keeps_id (cookie h u) (codes "Path") (codes "/") path-IsName (refl, tt) refl)
  ]

  -- The session of a user comes back from the cookie that is sent with a request and from the header
  -- that sets it, whatever its lifetime; of an invalid user neither carries a session.
  pub parse_cookie-set_cookie :
      (u : UserId) (session_length : ℕ)
      → IsSession u.session
      → (parse_cookie h (cookie h u) ≡ (if valid u then some u.session else none))
        × (parse_cookie h (set_cookie h u session_length)
            ≡ (if valid u then some u.session else none))
  unfolding parse_cookie
  parse_cookie-set_cookie u t s = (rw cookie_id decoded, rw (set_cookie_id u t, cookie_id) decoded)
    where
      decoded :
          hex_to_array h 16 (if valid u then to_hex h u.session else [])
          ≡ (if valid u then some u.session else none)
      decoded = elim (Bool-cases (valid u)) [
        | inl y ↦ rw y (
            unfold hex_to_array to_hex in
            ground (
              arith,
              laws.length-hex_lower u.session,
              laws.unhex-hex_lower u.session s.bytes,
              s.full,
            ))
        | inr n ↦ rw n (unfold hex_to_array in refl)
      ]
