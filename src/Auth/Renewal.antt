-- ===== src/Auth/Renewal.antt =====
-- Sessions in the store, through the functions of src/server/crypto/Authentication.cc.
use hearty_rabbit.Prelude.{
  ℕ, ◌/◌, ◌<◌, ◌≡◌, ◌≢◌, inl, inr, refl, sym, ap, ◌∙◌, true, false, ◌||◌, [], ◌∷◌, none, some, ltb,
  leb, ◌==◌, if◌then◌else◌, Bytes, length, drop, get_or, arith, Bool-cases,
}
use hearty_rabbit.Redis.Reply.{Error, ℤ, is_nil, as_string, as_int, as_array_checked, items}
use hearty_rabbit.UserId.{UserId, nobody, of_session}
use hearty_rabbit.Auth.Store.{Redis, RedisLaws}
use hearty_rabbit.Auth.{
  session_key, less, Verified, done, renew, on_verify_session, on_renew_session, verify_script,
  renew_script, renew_session, verify_session, create_session, destroy_session,
}

-- Different sessions are stored under different keys.
session_key_inj : (a b : Bytes) → a ≢ b → session_key a ≢ session_key b
session_key_inj a b h e = h (ap (drop 8) e)

-- Half a time is no longer than the time.
half : (n : ℕ) → ltb n (n / 2) ≡ false
half n = ground arith

module _ {ℓ} {S : Type ℓ} (redis : Redis S) where
  -- What is decided from a value and its time.
  unfoldable pub judged : Bytes → ℕ → Bytes → ℤ → Verified
  judged cookie session_length v t =
      let auth = of_session cookie (drop 1 v) false in
      if leb (length v) 1 || less t 0
      then Verified.done Error.ok nobody
      else if less t (session_length / 2)
      then Verified.renew auth
      else Verified.done Error.ok auth

  pub decide_found :
      (cookie v : Bytes) (session_length : ℕ) (t : ℤ) (db : S)
      → redis.get db (session_key cookie) ≡ some v
      → redis.ttl db (session_key cookie) ≡ t
      → on_verify_session cookie session_length
          (verify_script redis (session_key cookie) db)
          Error.ok
        ≡ judged cookie session_length v t
  unfolding on_verify_session verify_script as_array_checked items is_nil as_string as_int judged
  decide_found cookie v session_length t db e f = rw (e, f)

  pub decide_missing :
      (cookie : Bytes) (session_length : ℕ) (db : S)
      → redis.get db (session_key cookie) ≡ none
      → on_verify_session cookie session_length
          (verify_script redis (session_key cookie) db)
          Error.ok
        ≡ Verified.done Error.ok nobody
  unfolding on_verify_session verify_script as_array_checked items is_nil as_string as_int
  decide_missing cookie session_length db e = rw e

  pub judged_live :
      (cookie user : Bytes) (p session_length t : ℕ)
      → user ≢ []
      → judged cookie session_length (p ∷ user) (ℤ.pos t) ≡ (
          let auth = of_session cookie user false in
          if ltb t (session_length / 2) then Verified.renew auth else Verified.done Error.ok auth)
  unfolding judged
  judged_live cookie [] p session_length t h = absurd (h refl)
  judged_live cookie (c ∷ user) p session_length t h =
      let long : leb (length (p ∷ c ∷ user)) 1 ≡ false = ground arith in
      let later : ltb t 0 ≡ false = ground arith in rw (long, later)

  module _ (cookie new_cookie : Bytes) (session_length : ℕ) (db : S) where
    pub verify_done :
        (ec : Error) (uid : UserId)
        → on_verify_session cookie session_length
            (verify_script redis (session_key cookie) db)
            Error.ok
          ≡ Verified.done ec uid
        → verify_session redis cookie session_length new_cookie db ≡ (db, (ec, uid))
    unfolding verify_session
    verify_done ec uid e =
        ap
          (λ v. elim v [
            | done f u ↦ (db, (f, u))
            | renew u ↦ renew_session redis u session_length new_cookie db
          ])
          e

    pub verify_renew :
        (uid : UserId)
        → on_verify_session cookie session_length
            (verify_script redis (session_key cookie) db)
            Error.ok
          ≡ Verified.renew uid
        → verify_session redis cookie session_length new_cookie db
          ≡ renew_session redis uid session_length new_cookie db
    unfolding verify_session
    verify_renew uid e =
        ap
          (λ v. elim v [
            | done f u ↦ (db, (f, u))
            | renew u ↦ renew_session redis u session_length new_cookie db
          ])
          e

  pub of_session_named :
      (session user : Bytes)
      → user ≢ []
      → of_session session user false ≡ record { session = session; user = user; guest = false }
  unfolding of_session
  of_session_named session [] h = absurd (h refl)
  of_session_named session (c ∷ user) h = refl

  pub renew_found :
      (uid : UserId) (new_cookie v : Bytes) (session_length : ℕ) (db : S)
      → redis.get db (session_key uid.session) ≡ some v
      → renew_session redis uid session_length new_cookie db ≡ (
          if get_or v 0 0 == b'_'
          then (
            redis.set
                (redis.set db (session_key uid.session) (b'#' ∷ uid.user) 30)
                (session_key new_cookie)
                (b'_' ∷ uid.user)
                session_length,
            (Error.ok, of_session new_cookie uid.user false),
          )
          else (db, (Error.ok, uid)))
  unfolding renew_session renew_script on_renew_session as_int
  renew_found uid new_cookie v session_length db e = elim (Bool-cases (get_or v 0 0 == b'_')) [
    | inl y ↦ rw (y, renew_session, renew_script, e, y)
    | inr n ↦ rw (n, renew_session, renew_script, e, n)
  ]

  module _ (laws : RedisLaws redis) where
    -- A session just created is verified as its user's, and is not renewed.
    pub verify-create :
        (random username new_cookie : Bytes) (session_length : ℕ) (db : S)
        → username ≢ []
        → 0 < session_length
        → verify_session redis random session_length new_cookie
            (create_session redis random username session_length db).0
          ≡ (
            (create_session redis random username session_length db).0,
            (Error.ok, of_session random username false),
          )
    unfolding create_session
    verify-create random username new_cookie session_length db h pos =
        let auth = of_session_named random username h in
        let not_late : ltb session_length (session_length / 2) ≡ false = half session_length in
        rw auth (
          verify_done random new_cookie session_length _ Error.ok _ (
            decide_found random (b'_' ∷ username) session_length (ℤ.pos session_length) _
              (laws.get_set db (session_key random) (b'_' ∷ username) session_length pos)
              (laws.ttl_set db (session_key random) (b'_' ∷ username) session_length pos)
            ∙ (judged_live random username b'_' session_length session_length h
                ∙ rw (not_late, auth))))

    -- A session that is destroyed verifies nobody.
    pub verify-destroy :
        (uid : UserId) (new_cookie : Bytes) (session_length : ℕ) (db : S)
        → verify_session redis uid.session session_length new_cookie
            (destroy_session redis uid db).0
          ≡ ((destroy_session redis uid db).0, (Error.ok, nobody))
    unfolding destroy_session
    verify-destroy uid new_cookie session_length db =
        verify_done uid.session new_cookie session_length (redis.del db (session_key uid.session))
          Error.ok nobody
          (decide_missing uid.session session_length (redis.del db (session_key uid.session))
            (laws.get_del db (session_key uid.session)))

    -- A session of which less than half the time is left is renewed: its user gets the new session,
    -- with the full time, and the old one lasts for 30 seconds, marked as renewed.
    pub verify-renews :
        (old new_cookie user : Bytes) (session_length t : ℕ) (db : S)
        → old ≢ new_cookie
        → user ≢ []
        → 0 < session_length
        → redis.get db (session_key old) ≡ some (b'_' ∷ user)
        → redis.ttl db (session_key old) ≡ ℤ.pos t
        → t < session_length / 2
        → (after : S) × (verify_session redis old session_length new_cookie db
            ≡ (after, (Error.ok, of_session new_cookie user false)))
          × (redis.get after (session_key new_cookie) ≡ some (b'_' ∷ user))
          × (redis.ttl after (session_key new_cookie) ≡ ℤ.pos session_length)
          × (redis.get after (session_key old) ≡ some (b'#' ∷ user))
          × (redis.ttl after (session_key old) ≡ ℤ.pos 30)
    verify-renews old new_cookie user session_length t db differ h pos e f late =
        let auth = of_session_named old user h in
        let soon : ltb t (session_length / 2) ≡ true = ground arith in
        let marked = redis.set db (session_key old) (b'#' ∷ user) 30 in
        let keys = session_key_inj new_cookie old (λ same. differ (sym same)) in
        let renewed = verify_renew old new_cookie session_length db (of_session old user false) (
          decide_found old (b'_' ∷ user) session_length (ℤ.pos t) db e f
          ∙ (judged_live old user b'_' session_length t h ∙ rw soon)) in
        (
          redis.set marked (session_key new_cookie) (b'_' ∷ user) session_length,
          (renewed
              ∙ rw auth (
                  renew_found (record { session = old; user = user; guest = false }) new_cookie
                    (b'_' ∷ user) session_length db e)),
          laws.get_set marked (session_key new_cookie) (b'_' ∷ user) session_length pos,
          laws.ttl_set marked (session_key new_cookie) (b'_' ∷ user) session_length pos,
          laws.get_set_other marked (session_key new_cookie) (session_key old) (b'_' ∷ user)
                session_length pos keys
              ∙ laws.get_set db (session_key old) (b'#' ∷ user) 30 (omega arith),
          laws.ttl_set_other marked (session_key new_cookie) (session_key old) (b'_' ∷ user)
                session_length pos keys
              ∙ laws.ttl_set db (session_key old) (b'#' ∷ user) 30 (omega arith),
        )

    -- A session that was renewed is not renewed again: a request that still has it is its user's, and
    -- the store stays as it is.
    pub verify_once :
        (old newer user : Bytes) (session_length t : ℕ) (db : S)
        → user ≢ []
        → redis.get db (session_key old) ≡ some (b'#' ∷ user)
        → redis.ttl db (session_key old) ≡ ℤ.pos t
        → verify_session redis old session_length newer db
          ≡ (db, (Error.ok, of_session old user false))
    verify_once old newer user session_length t db h e f =
        elim (Bool-cases (ltb t (session_length / 2))) [
          | inl soon ↦
              verify_renew old newer session_length db (of_session old user false) (
                decide_found old (b'#' ∷ user) session_length (ℤ.pos t) db e f
                ∙ (judged_live old user b'#' session_length t h ∙ rw soon))
              ∙ rw (of_session_named old user h) (
                  renew_found (record { session = old; user = user; guest = false }) newer
                    (b'#' ∷ user) session_length db e)
          | inr late ↦
              verify_done old newer session_length db Error.ok (of_session old user false) (
                decide_found old (b'#' ∷ user) session_length (ℤ.pos t) db e f
                ∙ (judged_live old user b'#' session_length t h ∙ rw late))
        ]
