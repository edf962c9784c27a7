-- ===== src/Auth.antt =====
-- src/server/crypto/Authentication.cc: log-in, and the sessions of those who are logged in. A
-- redis command is two parts here, what redis does with it and what the callback does with the
-- reply; random session IDs are arguments. Redis itself is a parameter.
pub mod Store
pub mod Password
pub mod Users
pub mod Renewal
pub mod Live
pub mod Guests
use hearty_rabbit.Prelude.{
  ℕ, zero, suc, ◌+◌, ◌-◌, ◌/◌, ◌≡◌, Bool, true, false, not, ◌&&◌, ◌||◌, List, [], ◌∷◌, ◌++◌, Option,
  none, some, ltb, leb, ◌==◌, if◌then◌else◌, Bytes, codes, length, drop, get_or, is_empty, bytes_eq,
}
use hearty_rabbit.Redis.Reply.{
  Error, is_error, ℤ, Reply, Replies, null, array, string, integer, nil, error, end, ◌⨾◌, is_nil,
  as_string, as_int, as_array_checked,
}
use hearty_rabbit.UserId.{UserId, nobody, of_session}
use hearty_rabbit.Auth.Store.{Redis}

abbrev pub session_key : Bytes → Bytes
session_key cookie = codes "session:" ++ cookie

-- `<` of signed numbers, and the test for a negative one.
abbrev pub less : ℤ → ℕ → Bool
less (ℤ.pos n) m = ltb n m
less (ℤ.negsuc n) m = true

abbrev pub is_one : ℤ → Bool
is_one (ℤ.pos n) = n == 1
is_one (ℤ.negsuc n) = false

-- What the callback of `verify_session` does: it completes, or it renews the session first.
pub data Verified : Type 0 where
  done : Error → UserId → Verified
  renew : UserId → Verified

unfoldable pub on_verify_session : Bytes → ℕ → Reply → Error → Verified
on_verify_session cookie session_length reply ec =
    let (user, ec1) = as_array_checked reply 0 ec in
    let (ttl, ec2) = as_array_checked reply 1 ec1 in
    let auth = of_session cookie (drop 1 (as_string user)) false in
    if is_error ec
    then Verified.done ec nobody
    else if is_error ec2 || is_nil user || leb (length (as_string user)) 1 || less (as_int ttl) 0
    then Verified.done ec2 nobody
    else if less (as_int ttl) (session_length / 2)
    then Verified.renew auth
    else Verified.done ec2 auth

-- What the callback of `renew_session` completes with.
unfoldable pub on_renew_session : UserId → Bytes → Reply → Error → Error × UserId
on_renew_session uid new_cookie reply ec =
    if is_error ec || not (is_one (as_int reply))
    then (ec, uid)
    else (ec, of_session new_cookie uid.user false)

module _ {ℓ} {S : Type ℓ} (redis : Redis S) where
  -- Redis answers a text, or nil.
  abbrev pub found : Option Bytes → Reply
  found none = nil
  found (some v) = string v

  -- The script of `verify_session`.
  unfoldable pub verify_script : Bytes → S → Reply
  verify_script key db = array (found (redis.get db key) ⨾ integer (redis.ttl db key) ⨾ end)

  -- The script of `renew_session`; `string.sub` of a missing value is an error.
  unfoldable pub renew_script : Bytes → Bytes → Bytes → ℕ → S → S × Reply
  renew_script old_key new_key user session_length db = elim (redis.get db old_key) [
    | none ↦ (db, error (codes "ERR bad argument #1 to 'sub'"))
    | some v ↦
        let renewed =
          redis.set (redis.set db old_key (b'#' ∷ user) 30) new_key (b'_' ∷ user) session_length in
        if get_or v 0 0 == b'_' then (renewed, integer (ℤ.pos 1)) else (db, integer (ℤ.pos 0))
  ]

  unfoldable pub renew_session : UserId → ℕ → Bytes → S → S × (Error × UserId)
  renew_session uid session_length new_cookie db =
      let (after, reply) =
        renew_script (session_key uid.session) (session_key new_cookie) uid.user session_length
          db in
      (after, on_renew_session uid new_cookie reply Error.ok)

  unfoldable pub verify_session : Bytes → ℕ → Bytes → S → S × (Error × UserId)
  verify_session cookie session_length new_cookie db =
      elim (on_verify_session cookie session_length (verify_script (session_key cookie) db)
        Error.ok) [
          | done ec uid ↦ (db, (ec, uid))
          | renew uid ↦ renew_session uid session_length new_cookie db
        ]

  unfoldable pub create_session : Bytes → Bytes → ℕ → S → S × (Error × UserId)
  create_session random username session_length db =
      let auth = of_session random username false in
      (redis.set db (session_key auth.session) (b'_' ∷ username) session_length, (Error.ok, auth))

  unfoldable pub destroy_session : UserId → S → S × Error
  destroy_session uid db = (redis.del db (session_key uid.session), Error.ok)
