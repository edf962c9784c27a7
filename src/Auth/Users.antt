-- ===== src/Auth/Users.antt =====
-- `add_user` and `verify_user` of src/server/crypto/Authentication.cc: what redis keeps of a user, and the
-- log-in that reads it.
use hearty_rabbit.Prelude.{
  ℕ, ◌≡◌, ◌≢◌, ◌++◌, ◌∷◌, [], List, Option, none, some, false, if◌then◌else◌, Bytes, codes,
  bytes_eq, is_empty, Bool-cases, inl, inr, ap, refl, arith, get_or,
}
use hearty_rabbit.Redis.Reply.{Error, ℤ, Reply, array, string, nil, end, ◌⨾◌, is_ok}
use hearty_rabbit.UserId.{UserId, nobody, of_session, decimal}
use hearty_rabbit.Auth.{create_session}
use hearty_rabbit.Auth.Store.{Redis, Hashes, HashLaws}
use hearty_rabbit.Auth.Password.{
  min_iteration, default_hash_algorithm, to_lower, new_key, on_verify_user, reply_of,
  verify_password-reply_of,
}

abbrev pub user_key : Bytes → Bytes
user_key username = codes "user:" ++ username

-- A value in the reply of `HMGET`.
abbrev pub reply_value : Option Bytes → Reply
reply_value none = nil
reply_value (some v) = string v

-- The callback of `add_user`.
unfoldable pub on_add_user : Reply → Error → Error
on_add_user reply ec = if is_ok reply then ec else Error.command_error

module _ {ℓ} {S : Type ℓ} (redis : Redis S) (hashes : Hashes S) where
  unfoldable pub hmset : Bytes → List (Bytes × Bytes) → S → S
  hmset key [] db = db
  hmset key ((field, value) ∷ fields) db = hmset key fields (hashes.hset db key field value)

  -- What `add_user` stores, with its salt.
  unfoldable pub add_user : (Bytes → ℤ → Bytes → Bytes) → Bytes → Bytes → S → S
  unfolding hmset decimal
  add_user derive_key salt username db =
      hmset (user_key (to_lower username))
        ((codes "salt", salt)
          ∷ (codes "key", new_key derive_key salt)
          ∷ (codes "iteration", decimal 20 min_iteration)
          ∷ (codes "hash_algorithm", default_hash_algorithm)
          ∷ [])
        db

  unfoldable pub hmget_user : Bytes → S → Reply
  hmget_user key db = array (
      reply_value (hashes.hget db key (codes "salt"))
      ⨾ reply_value (hashes.hget db key (codes "key"))
      ⨾ reply_value (hashes.hget db key (codes "iteration"))
      ⨾ reply_value (hashes.hget db key (codes "hash_algorithm"))
      ⨾ end)

  -- `verify_user` of a connection that is well, with the bytes of the new session.
  unfoldable pub verify_user :
      (Bytes → ℤ → Bytes → Bytes) → Bytes → ℕ → Bytes → S → Option (S × (Error × UserId))
  unfolding on_verify_user hmget_user
  verify_user derive_key username session_length random db =
      on_verify_user derive_key redis username session_length random
        (hmget_user (user_key (to_lower username)) db) Error.ok db

first_differs : (f g : Bytes) → get_or f 0 0 ≢ get_or g 0 0 → f ≢ g
first_differs f g apart e = apart (ap (λ s. get_or s 0 0) e)

module _ {ℓ} {S : Type ℓ} (redis : Redis S) (hashes : Hashes S) (laws : HashLaws hashes) where
  -- What redis answers to `verify_user` once `add_user` has stored a user.
  hmget-add_user :
      (derive_key : Bytes → ℤ → Bytes → Bytes) (salt username : Bytes) (db : S)
      → hmget_user redis hashes
          (user_key (to_lower username))
          (add_user redis hashes derive_key salt username db)
        ≡ reply_of salt (new_key derive_key salt)
  unfolding hmget_user add_user hmset decimal
  hmget-add_user derive_key salt username db =
      let apart = laws.hget_hset_other in
      rw
        (
          laws.hget_hset,
          apart _ _ (codes "hash_algorithm") (codes "salt") _ (first_differs _ _ (omega arith)),
          apart _ _ (codes "iteration") (codes "salt") _ (first_differs _ _ (omega arith)),
          apart _ _ (codes "key") (codes "salt") _ (first_differs _ _ (omega arith)),
          apart _ _ (codes "hash_algorithm") (codes "key") _ (first_differs _ _ (omega arith)),
          apart _ _ (codes "iteration") (codes "key") _ (first_differs _ _ (omega arith)),
          apart _ _ (codes "hash_algorithm") (codes "iteration") _
              (first_differs _ _ (omega arith)),
          laws.hget_hset,
          laws.hget_hset,
          laws.hget_hset,
        )
        refl

  created :
      (random username : Bytes) (session_length : ℕ) (db : S)
      → is_empty username ≡ false
      → create_session redis random username session_length db ≡ (
        redis.set db (codes "session:" ++ random) (b'_' ∷ username) session_length,
        (Error.ok, record { session = random; user = username; guest = false }),
      )
  unfolding create_session of_session
  created random username session_length db named = rw named refl

  -- A user whom `add_user` stored is logged in with a name that is the same but for its case, and exactly
  -- with a password that derives the key that is stored: then the session is kept for its time under the
  -- name in lower case, which must not be empty. With any other password nobody is logged in, and the
  -- store stays as it is.
  pub verify_user-add_user :
      (added tried : Bytes → ℤ → Bytes → Bytes) (username other random salt : Bytes)
      (session_length : ℕ) (db : S)
      → to_lower other ≡ to_lower username
      → is_empty (to_lower username) ≡ false
      → verify_user redis hashes tried other session_length random
          (add_user redis hashes added salt username db)
        ≡ some (
            if bytes_eq (new_key tried salt) (new_key added salt)
            then (
              redis.set
                  (add_user redis hashes added salt username db)
                  (codes "session:" ++ random)
                  (b'_' ∷ to_lower username)
                  session_length,
              (Error.ok, record { session = random; user = to_lower username; guest = false }),
            )
            else (add_user redis hashes added salt username db, (Error.login_incorrect, nobody)))
  unfolding verify_user on_verify_user
  verify_user-add_user added tried username other random salt session_length db same named =
      rw
        (
          same,
          hmget-add_user added salt username db,
          on_verify_user,
          verify_password-reply_of tried salt (new_key added salt),
        )
        (elim (Bool-cases (bytes_eq (new_key tried salt) (new_key added salt))) [
          | inl y ↦ rw (y, same, created random (to_lower username) session_length _ named) refl
          | inr n ↦ rw n refl
        ])
