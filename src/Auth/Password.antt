-- ===== src/Auth/Password.antt =====
-- `verify_password`, `verify_user` and `add_user` of src/server/crypto/Authentication.cc. The key
-- that OpenSSL derives from the password is a parameter.
use hearty_rabbit.Prelude.{
  ℕ, ◌+◌, ◌≡◌, refl, Bool, true, false, not, ◌&&◌, [], map, Option, none, some, ltb, leb,
  if◌then◌else◌, Bytes, codes, bytes_eq,
}
use hearty_rabbit.Redis.Reply.{
  Error, is_error, ℤ, Reply, array, string, nil, end, ◌⨾◌, is_ok, as_string, as_any_string,
  as_array_checked, items,
}
use hearty_rabbit.Redis.Number.{stol, to_int}
use hearty_rabbit.UserId.{UserId, nobody}
use hearty_rabbit.Auth.{create_session}
use hearty_rabbit.Auth.Store.{Redis}

abbrev pub min_iteration : ℕ
min_iteration = 5000

abbrev pub default_hash_algorithm : Bytes
default_hash_algorithm = codes "sha512"

-- `boost::algorithm::to_lower` in the C locale.
abbrev pub lower : ℕ → ℕ
lower c = if leb 65 c && leb c 90 then c + 32 else c

abbrev pub to_lower : Bytes → Bytes
to_lower = map lower

abbrev pub is_string : Reply → Bool
is_string (string s) = true
is_string _ = false

abbrev pub positive : ℤ → Bool
positive (ℤ.pos n) = ltb 0 n
positive (ℤ.negsuc n) = false

-- What redis answers of a user who was stored without a hash algorithm.
abbrev pub stored_before : Bytes → Bytes → Bytes → Reply
stored_before salt key iteration = array (string salt ⨾ string key ⨾ string iteration ⨾ nil ⨾ end)

-- A password: its key by salt, iterations and hash algorithm.
module _ (derive_key : Bytes → ℤ → Bytes → Bytes) where
  -- `none` is the exception of `stol`.
  unfoldable pub verify_password : Reply → Error → Option Error
  verify_password reply ec =
      let (salt, ec1) = as_array_checked reply 0 ec in
      let (key, ec2) = as_array_checked reply 1 ec1 in
      let (iter, ec3) = as_array_checked reply 2 ec2 in
      let (hash_algorithm, ec4) = as_array_checked reply 3 ec3 in
      let algorithm =
        (if is_ok hash_algorithm then as_string hash_algorithm else default_hash_algorithm) in
      if is_error ec4
      then some ec4
      else if not (is_string salt && is_string key && is_string iter)
      then some Error.login_incorrect
      else elim (to_int iter) [
        | none ↦ none
        | some n ↦
            if not (positive n)
            then some Error.login_incorrect
            else if bytes_eq (derive_key (as_string salt) n algorithm) (as_string key)
            then some ec4
            else some Error.login_incorrect
      ]

  -- The key that `add_user` stores, for a salt.
  abbrev pub new_key : Bytes → Bytes
  new_key salt = derive_key salt (ℤ.pos min_iteration) default_hash_algorithm

  module _ {ℓ} {S : Type ℓ} (redis : Redis S) where
    -- The callback of `verify_user`: the password is verified, and a session is created.
    unfoldable pub on_verify_user :
        Bytes → ℕ → Bytes → Reply → Error → S → Option (S × (Error × UserId))
    on_verify_user username session_length random reply ec db =
        let checked = (if is_error ec then some ec else verify_password reply ec) in
        elim checked [
          | none ↦ none
          | some e ↦
              if is_error e
              then some (db, (e, nobody))
              else some (create_session redis random (to_lower username) session_length db)
        ]

-- The reply with a key that was made with the defaults.
abbrev pub reply_of : Bytes → Bytes → Reply
reply_of salt key =
    array (string salt ⨾ string key ⨾ string (codes "5000") ⨾ string default_hash_algorithm ⨾ end)

some_if {ℓ} :
    {A : Type ℓ} (b : Bool) (x y : A) → (if b then some x else some y) ≡ some (if b then x else y)
some_if true x y = refl
some_if false x y = refl

-- With such a reply a password is right exactly if it derives the key.
pub verify_password-reply_of :
    (derive_key : Bytes → ℤ → Bytes → Bytes) (salt key : Bytes)
    → verify_password derive_key (reply_of salt key) Error.ok
      ≡ some (if bytes_eq (new_key derive_key salt) key then Error.ok else Error.login_incorrect)
unfolding verify_password as_array_checked items is_ok as_string to_int as_any_string stol
verify_password-reply_of derive_key salt key =
    some_if (bytes_eq (new_key derive_key salt) key) Error.ok Error.login_incorrect

-- A user stored without a hash algorithm is checked with the empty algorithm, not with the default
-- one: a nil reply tests as true.
pub verify_password-no_algorithm :
    (derive_key : Bytes → ℤ → Bytes → Bytes) (salt key : Bytes)
    → verify_password derive_key (stored_before salt key (codes "5000")) Error.ok
      ≡ some (
          if bytes_eq (derive_key salt (ℤ.pos min_iteration) []) key
          then Error.ok
          else Error.login_incorrect)
unfolding verify_password as_array_checked items is_ok as_string to_int as_any_string stol
verify_password-no_algorithm derive_key salt key =
    some_if (bytes_eq (derive_key salt (ℤ.pos min_iteration) []) key) Error.ok Error.login_incorrect
