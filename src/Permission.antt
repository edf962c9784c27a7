-- ===== src/Permission.antt =====
-- src/common/hrb/Permission.hh and Permission.cc: who may see a blob. A permission is its
-- character.
use hearty_rabbit.Prelude.{
  ℕ, ◌≡◌, ◌↔◌, ◌⊎◌, inl, inr, refl, Bool, true, false, ◌&&◌, ◌||◌, not, ◌==◌, if◌then◌else◌, Bytes,
  codes, is_empty, bytes_eq, bytes_eq_refl, bytes_eq_sound, arith, Bool-cases, [], ◌∷◌,
}
use hearty_rabbit.UserId
use hearty_rabbit.UserId.{UserId, no_session, nobody, of_session}

abbrev pub shared : ℕ
shared = b'+'

abbrev pub public : ℕ
public = b'*'

abbrev pub private : ℕ
private = b' '

unfoldable pub allow : ℕ → UserId → Bytes → Bool
allow perm requester owner =
    if perm == b'*'
    then true
    else if perm == b'+'
    then UserId.valid requester || requester.guest
    else if perm == b' '
    then not requester.guest && bytes_eq requester.user owner
    else false

unfoldable pub description : ℕ → Bytes
description perm =
    if perm == b'*'
    then codes "public"
    else if perm == b'+'
    then codes "shared"
    else if perm == b' '
    then codes "private"
    else codes "acl"

unfoldable pub from_description : Bytes → ℕ
from_description text =
    if bytes_eq text (codes "public")
    then public
    else if bytes_eq text (codes "private")
    then private
    else if bytes_eq text (codes "shared")
    then shared
    else private

-- The three permissions that the program makes are read back from their descriptions; any other is
-- described as an access list, and is read as private.
pub from_description-description :
    (perm : ℕ)
    → from_description (description perm)
      ≡ (if perm == public then public else if perm == shared then shared else private)
unfolding from_description description
from_description-description perm = ground arith

-- A session and a user name come together: both are there, or neither is. It is what `valid` asserts.
abbrev pub IsPaired : UserId → Type 0
IsPaired u = bytes_eq u.session no_session ≡ is_empty u.user

-- The constructor from a session makes such a user, unless the session is all zero.
pub of_session-IsPaired :
    (session user : Bytes) (guest : Bool)
    → bytes_eq session no_session ≡ false
    → IsPaired (of_session session user guest)
unfolding of_session
of_session-IsPaired session [] guest h = refl
of_session-IsPaired session (c ∷ user) guest h = h

valid-user : (u : UserId) → IsPaired u → UserId.valid u ≡ not (is_empty u.user)
unfolding UserId.valid
valid-user u p = rw p (elim (Bool-cases (is_empty u.user)) [ inl y ↦ rw y | inr n ↦ rw n ])

bytes_eq_iff : (s t : Bytes) → (bytes_eq s t ≡ true) ↔ (s ≡ t)
bytes_eq_iff s t = (bytes_eq_sound s t, λ e. rw e (bytes_eq_refl t))

-- Public blobs are seen by everybody, shared ones by guests and by all who are logged in, private
-- ones by the owner alone, if no guest, and blobs with any other permission by nobody.
pub allow_iff :
    (perm : ℕ) (u : UserId) (owner : Bytes)
    → IsPaired u
    → (allow perm u owner ≡ true) ↔ (
        (perm ≡ public)
        ⊎ ((perm ≡ shared) × ((u.guest ≡ true) ⊎ (is_empty u.user ≡ false)))
        ⊎ ((perm ≡ private) × (u.guest ≡ false) × (u.user ≡ owner)))
unfolding allow
allow_iff perm u owner p = (
  λ h. ground (arith, valid-user u p, bytes_eq_sound u.user owner),
  λ h. ground (arith, valid-user u p, (bytes_eq_iff u.user owner).1),
)

-- Who sees a blob of a named owner under a stricter permission sees it under a weaker one.
pub allow_widens :
    (u : UserId) (owner : Bytes)
    → IsPaired u
    → is_empty owner ≡ false
    → ((allow private u owner ≡ false) ⊎ (allow shared u owner ≡ true))
      × ((allow shared u owner ≡ false) ⊎ (allow public u owner ≡ true))
unfolding allow
allow_widens u owner p named =
    (ground (arith, valid-user u p, bytes_eq_sound u.user owner), inr refl)
