-- ===== src/Cookie.antt =====
-- src/common/util/Cookie.hh and Cookie.cc: a list of cookies in an HTTP header. A cookie is its
-- text; the time in `Expires` and its cache are left out.
pub mod Laws
use hearty_rabbit.Prelude.{
  ℕ, ◌≡◌, refl, Bool, true, false, List, [], ◌∷◌, ◌++◌, Option, none, some, if◌then◌else◌, Bytes,
  codes, length, is_empty,
}
use hearty_rabbit.StringFields
use hearty_rabbit.StringFields.{StringFields}

abbrev pub fields : StringFields
fields = record { all_delims = codes "=;"; kv_delims = codes ";"; trim_space = true }

-- `std::get<0>` of a tuple of one.
abbrev pub get_first {ℓ} : {A : Type ℓ} → A → List A → A
get_first a [] = a
get_first a (x ∷ xs) = x

unfoldable pub field : Bytes → Bytes → Bytes
unfolding StringFields.find
field cookie id = get_first [] (StringFields.find fields cookie (id ∷ []))

unfoldable pub has : Bytes → Bytes → Bool
unfolding StringFields.find_optional
has cookie id = elim (get_first none (StringFields.find_optional fields cookie (id ∷ []))) [
  | none ↦ false
  | some v ↦ true
]

unfoldable pub add : Bytes → Bytes → Bytes → Bytes
add cookie id value =
    let before = (if is_empty cookie then [] else cookie ++ codes "; ") in
    let named = before ++ id in if is_empty value then named else named ++ b'=' ∷ value
