-- ===== src/Auth/Guests.antt =====
-- src/server/crypto/Authentication.ipp: guests, who see what its owner shares under a session of
-- their own.
use hearty_rabbit.Prelude.{
  ℕ, ◌≡◌, ◌≢◌, refl, Bool, true, false, List, [], ◌∷◌, Option, none, some, ltb, ◌==◌, ==_iff,
  if◌then◌else◌, Bytes, length, All, arith, Bool-cases, inl, inr,
}
use hearty_rabbit.Redis.Reply.{Reply, ℤ, pairs, items}
use hearty_rabbit.UserId.{UserId, of_session}
use hearty_rabbit.Permission.{allow, private, shared, public}
use hearty_rabbit.Redis.Number.{to_int}

-- `make_guest`.
abbrev pub make_guest : Bytes → Bytes → UserId
make_guest owner key = of_session key owner true

-- The guests of those pairs whose key is as long as a session.
unfoldable pub valid_guests : Bytes → List (Bytes × Reply) → List UserId
valid_guests owner [] = []
valid_guests owner ((key, value) ∷ kvs) =
    let others = valid_guests owner kvs in
    if length key == 16 then make_guest owner key ∷ others else others

-- What the callback of `list_guests` completes with.
unfoldable pub on_list_guests : Bytes → Reply → List UserId
on_list_guests owner reply = valid_guests owner (pairs (items reply))

abbrev later : ℕ → ℤ → Bool
later now (ℤ.pos n) = ltb now n
later now (ℤ.negsuc n) = false

-- What the callback of `is_shared_resource` completes with; `none` is the exception of `stol`.
unfoldable pub on_is_shared_resource : ℕ → Reply → Option Bool
on_is_shared_resource now reply = elim (to_int reply) [ none ↦ none | some n ↦ some (later now n) ]

-- A guest of an owner: may see what is shared and public, but nothing private, of whichever owner.
pub record IsGuest (owner : Bytes) (u : UserId) : Type 0 where
  pub of_owner : u.user ≡ owner
  pub full : length u.session ≡ 16
  pub sees_shared : (other : Bytes) → allow shared u other ≡ true
  pub sees_public : (other : Bytes) → allow public u other ≡ true
  pub not_private : (other : Bytes) → allow private u other ≡ false

make_guest-IsGuest :
    (owner key : Bytes)
    → owner ≢ []
    → (length key == 16) ≡ true
    → IsGuest owner (make_guest owner key)
unfolding of_session allow
make_guest-IsGuest [] key h e = absurd (h refl)
make_guest-IsGuest (c ∷ owner) key h e = record {
  of_owner = refl;
  full = (==_iff (length key) 16).0 e;
  sees_shared = λ other. ground arith;
  sees_public = λ other. refl;
  not_private = λ other. refl;
}

valid_guests-IsGuest :
    (owner : Bytes) (kvs : List (Bytes × Reply))
    → owner ≢ []
    → All (IsGuest owner) (valid_guests owner kvs)
unfolding valid_guests
valid_guests-IsGuest owner [] h = tt
valid_guests-IsGuest owner ((key, value) ∷ kvs) h = elim (Bool-cases (length key == 16)) [
  | inl y ↦ rw y (make_guest-IsGuest owner key h y, valid_guests-IsGuest owner kvs h)
  | inr n ↦ rw n (valid_guests-IsGuest owner kvs h)
]

-- Everybody whom `list_guests` lists for a named owner is a guest of that owner.
pub on_list_guests-IsGuest :
    (owner : Bytes) (reply : Reply) → owner ≢ [] → All (IsGuest owner) (on_list_guests owner reply)
unfolding on_list_guests
on_list_guests-IsGuest owner reply h = valid_guests-IsGuest owner (pairs (items reply)) h
