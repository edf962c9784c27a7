-- ===== src/Auth/Live.antt =====
-- The user that `verify_session` of src/server/crypto/Authentication.cc completes with.
use hearty_rabbit.Prelude.{
  ℕ, ◌/◌, ◌≡◌, ◌≢◌, ◌⊎◌, inl, inr, refl, ap, ◌∙◌, true, false, [], ◌∷◌, some, ltb, leb, ◌==◌, Bytes,
  length, get_or, is_empty, arith, Bool-cases, Option-cases,
}
use hearty_rabbit.Redis.Reply.{Error, ℤ}
use hearty_rabbit.UserId.{UserId, nobody, of_session}
use hearty_rabbit.Auth.Store.{Redis}
use hearty_rabbit.Auth.{session_key, Verified, renew_session, verify_session}
use hearty_rabbit.Auth.Renewal.{
  judged, judged_live, decide_found, decide_missing, verify_done, verify_renew, of_session_named,
  renew_found,
}

module _ {ℓ} {S : Type ℓ} (redis : Redis S) where
  module _ (cookie new_cookie : Bytes) (session_length : ℕ) (db : S) where
    -- The user whom a session is verified as.
    abbrev verified_user : Bytes
    verified_user = (verify_session redis cookie session_length new_cookie db).1.1.user

    no_user :
        (v : Bytes) (t : ℤ)
        → redis.get db (session_key cookie) ≡ some v
        → redis.ttl db (session_key cookie) ≡ t
        → judged redis cookie session_length v t ≡ Verified.done Error.ok nobody
        → is_empty verified_user ≡ true
    no_user v t e f j =
        ap (λ r. is_empty r.1.1.user)
          (verify_done redis cookie new_cookie session_length db Error.ok nobody
            (decide_found redis cookie v session_length t db e f ∙ j))

    renewed_user :
        (v : Bytes) (uid : UserId)
        → redis.get db (session_key uid.session) ≡ some v
        → (renew_session redis uid session_length new_cookie db).1.1.user ≡ uid.user
    unfolding of_session
    renewed_user v uid e = elim (Bool-cases (get_or v 0 0 == b'_')) [
      | inl y ↦ rw (renew_found redis uid new_cookie v session_length db e, y)
      | inr n ↦ rw (renew_found redis uid new_cookie v session_length db e, n)
    ]

    live_user :
        (p : ℕ) (user : Bytes) (t : ℕ)
        → user ≢ []
        → redis.get db (session_key cookie) ≡ some (p ∷ user)
        → redis.ttl db (session_key cookie) ≡ ℤ.pos t
        → verified_user ≡ user
    live_user p user t h e f =
        let found = decide_found redis cookie (p ∷ user) session_length (ℤ.pos t) db e f in
        let asked = judged_live redis cookie user p session_length t h in
        let uid : UserId = record { session = cookie; user = user; guest = false } in
        let auth = of_session_named redis cookie user h in
        elim (Bool-cases (ltb t (session_length / 2))) [
          | inl soon ↦
              let step : judged redis cookie session_length (p ∷ user) (ℤ.pos t)
                  ≡ Verified.renew uid =
                asked ∙ rw (soon, auth) in
              ap (λ r. r.1.1.user)
                (verify_renew redis cookie new_cookie session_length db uid (found ∙ step))
              ∙ renewed_user (p ∷ user) uid e
          | inr late ↦
              let step : judged redis cookie session_length (p ∷ user) (ℤ.pos t)
                  ≡ Verified.done Error.ok uid =
                asked ∙ rw (late, auth) in
              ap (λ r. r.1.1.user)
                (verify_done redis cookie new_cookie session_length db Error.ok uid (found ∙ step))
        ]

    live_value :
        (v : Bytes) (t : ℤ)
        → redis.get db (session_key cookie) ≡ some v
        → redis.ttl db (session_key cookie) ≡ t
        → (is_empty verified_user ≡ true)
          ⊎ ((p : ℕ) × (left : ℕ) × (redis.get db (session_key cookie) ≡ some (p ∷ verified_user))
              × (redis.ttl db (session_key cookie) ≡ ℤ.pos left))
    unfolding judged
    live_value [] t e f = inl (no_user [] t e f refl)
    live_value (p ∷ []) t e f = inl (no_user (p ∷ []) t e f refl)
    live_value (p ∷ c ∷ user) (ℤ.negsuc n) e f =
        let long : leb (length (p ∷ c ∷ user)) 1 ≡ false = ground arith in
        inl (no_user (p ∷ c ∷ user) (ℤ.negsuc n) e f (rw long))
    live_value (p ∷ c ∷ user) (ℤ.pos t) e f =
        let named : (c ∷ user) ≢ [] = cc in inr (p, t, rw (live_user p (c ∷ user) t named e f) e, f)

    -- Nobody is verified as a user who has no live session in the store.
    pub verify_session-live :
        (is_empty verified_user ≡ true)
        ⊎ ((p : ℕ) × (left : ℕ) × (redis.get db (session_key cookie) ≡ some (p ∷ verified_user))
            × (redis.ttl db (session_key cookie) ≡ ℤ.pos left))
    verify_session-live = elim (Option-cases (redis.get db (session_key cookie))) [
      | inl e ↦ inl (
          ap (λ r. is_empty r.1.1.user)
            (verify_done redis cookie new_cookie session_length db Error.ok nobody
              (decide_missing redis cookie session_length db e)))
      | inr (v, e) ↦ live_value v _ e refl
    ]
