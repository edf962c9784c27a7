-- ===== src/Tests/Identity.antt =====
-- Fields, cookies, users and permissions.
use hearty_rabbit.Prelude.{
  ◌≡◌, ◌↔◌, ◌⊎◌, refl, true, false, List, [], ◌∷◌, none, some, if◌then◌else◌, Bytes, codes,
  is_empty, arith,
}
use hearty_rabbit.StringFields.{urlform}
use hearty_rabbit.StringFields.Parts.{IsSeparator}
use hearty_rabbit.UserId.{UserId, cookie, valid, set_cookie, parse_cookie}
use hearty_rabbit.UserId.Laws.{IsSession, parse_cookie-set_cookie}
use hearty_rabbit.Permission.{allow, public, private, shared, IsPaired, allow_iff}
use hearty_rabbit.Tests.HexModel.{model, model-HexLaws}

abbrev form_fields : List Bytes
form_fields = codes "user" ∷ codes "pass" ∷ []

ampersand : IsSeparator urlform b'&'
ampersand = record { of_names = refl; of_values = refl; no_equals = refl }

abbrev pub member : UserId
member = record { session = codes "0123456789abcdef"; user = codes "nestal"; guest = false }

pub member-IsSession : IsSession member.session
member-IsSession = record { full = refl; bytes = omega arith }

parse_cookie-set_cookie_example :
    (parse_cookie model (cookie model member)
      ≡ (if valid member then some member.session else none))
    × (parse_cookie model (set_cookie model member 3600)
        ≡ (if valid member then some member.session else none))
parse_cookie-set_cookie_example =
    parse_cookie-set_cookie model model-HexLaws member 3600 member-IsSession

member-IsPaired : IsPaired member
member-IsPaired = refl

allow_iff_example : (allow b' ' member (codes "nestal") ≡ true) ↔ (
    (b' ' ≡ public)
    ⊎ ((b' ' ≡ shared) × ((member.guest ≡ true) ⊎ (is_empty member.user ≡ false)))
    ⊎ ((b' ' ≡ private) × (member.guest ≡ false) × (member.user ≡ codes "nestal")))
allow_iff_example = allow_iff b' ' member (codes "nestal") member-IsPaired
