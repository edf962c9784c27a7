-- ===== src/Tests/Sessions.antt =====
-- Log-in and sessions.
use hearty_rabbit.Prelude.{
  ℕ, ◌≡◌, ◌≢◌, ◌⊎◌, refl, true, false, [], ◌∷◌, ◌++◌, some, if◌then◌else◌, Bytes, codes, bytes_eq,
  is_empty, ap, get_or, arith,
}
use hearty_rabbit.Redis.Reply.{Error, ℤ}
use hearty_rabbit.UserId.{UserId, nobody, of_session}
use hearty_rabbit.Auth.{session_key, verify_session}
use hearty_rabbit.Auth.Renewal.{verify-renews, verify_once}
use hearty_rabbit.Auth.Live.{verify_session-live}
use hearty_rabbit.Auth.Password.{new_key, to_lower}
use hearty_rabbit.Auth.Users.{add_user, verify_user, verify_user-add_user}
use hearty_rabbit.Redis.Number.{stol}
use hearty_rabbit.Tests.RedisModel.{
  values, cells, cells-HashLaws, Entries, entries, entries-RedisLaws, find_value, find_seconds,
}

abbrev nestal : Bytes
nestal = codes "nestal"

abbrev old_session : Bytes
old_session = codes "0123456789abcdef"

abbrev next_session : Bytes
next_session = codes "fedcba9876543210"

-- A store with a session of which 100 seconds are left, and one that was renewed.
abbrev late_store : Entries
late_store = record { key = session_key old_session; value = b'_' ∷ nestal; seconds = 100 } ∷ []

abbrev marked_store : Entries
marked_store = record { key = session_key old_session; value = b'#' ∷ nestal; seconds = 20 } ∷ []

named : nestal ≢ []
named = cc

sessions_differ : old_session ≢ next_session
sessions_differ e = omega (arith, ap (λ s. get_or s 0 0) e)

verify-renews_example :
    (after : Entries) × (verify_session entries old_session 3600 next_session late_store
      ≡ (after, (Error.ok, of_session next_session nestal false)))
    × (find_value after (session_key next_session) ≡ some (b'_' ∷ nestal))
    × (find_seconds after (session_key next_session) ≡ ℤ.pos 3600)
    × (find_value after (session_key old_session) ≡ some (b'#' ∷ nestal))
    × (find_seconds after (session_key old_session) ≡ ℤ.pos 30)
unfolding find_value find_seconds
verify-renews_example =
    verify-renews entries entries-RedisLaws old_session next_session nestal 3600 100 late_store
      sessions_differ named (omega arith) refl refl (omega arith)

verify_once_example :
    verify_session entries old_session 3600 next_session marked_store
    ≡ (marked_store, (Error.ok, of_session old_session nestal false))
unfolding find_value find_seconds
verify_once_example =
    verify_once entries entries-RedisLaws old_session next_session nestal 3600 20 marked_store named
      refl refl

verify_session-live_example :
    (is_empty (verify_session entries old_session 3600 next_session late_store).1.1.user ≡ true)
    ⊎ ((p : ℕ) × (left : ℕ) × (find_value late_store (session_key old_session)
          ≡ some (p ∷ (verify_session entries old_session 3600 next_session late_store).1.1.user))
        × (find_seconds late_store (session_key old_session) ≡ ℤ.pos left))
verify_session-live_example = verify_session-live entries old_session next_session 3600 late_store

abbrev logged_in : UserId
logged_in = record { session = old_session; user = nestal; guest = false }

-- A key that is told from the salt alone.
abbrev salted : Bytes → ℤ → Bytes → Bytes
salted salt n algorithm = b'k' ∷ salt

-- Added as Nestal, logged in as nESTAL.
verify_user-add_user_example :
    verify_user values cells salted
      (codes "nESTAL")
      3600
      old_session
      (add_user values cells salted (codes "salt") (codes "Nestal") ([], []))
    ≡ some (
        if bytes_eq (new_key salted (codes "salt")) (new_key salted (codes "salt"))
        then (
          values.set
              (add_user values cells salted (codes "salt") (codes "Nestal") ([], []))
              (codes "session:" ++ old_session)
              (b'_' ∷ to_lower (codes "Nestal"))
              3600,
          (
            Error.ok,
            record { session = old_session; user = to_lower (codes "Nestal"); guest = false },
          ),
        )
        else (
          add_user values cells salted (codes "salt") (codes "Nestal") ([], []),
          (Error.login_incorrect, nobody),
        ))
verify_user-add_user_example =
    verify_user-add_user values cells cells-HashLaws salted salted (codes "Nestal") (codes "nESTAL")
      old_session (codes "salt") 3600 ([], []) refl refl

reads_a_number : stol (codes " -42 is it") ≡ some (ℤ.negsuc 41)
unfolding stol
reads_a_number = refl
