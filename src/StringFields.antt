-- ===== src/StringFields.antt =====
-- src/common/util/StringFields.hh, with `match_field` of src/common/util/RepeatingTuple.hh: the
-- values of named fields in a text such as `a=1;b=2`. A tuple of results is a list as long as the
-- fields.
pub mod Laws
pub mod Parts
use hearty_rabbit.Prelude.{
  ℕ, zero, suc, ◌+◌, ◌≡◌, refl, Bool, true, false, ◌&&◌, ◌||◌, List, [], ◌∷◌, ◌++◌, Option, none,
  some, leb, ◌==◌, if◌then◌else◌, Bytes, codes, length, bytes_eq,
}
use hearty_rabbit.Escape.Split.{split_left}

pub record StringFields : Type 0 where
  pub all_delims : Bytes
  pub kv_delims : Bytes
  pub trim_space : Bool

abbrev pub urlform : StringFields
urlform = record { all_delims = codes "=;&"; kv_delims = codes ";&"; trim_space = false }

-- `std::isspace` in the C locale.
abbrev pub is_space : ℕ → Bool
is_space c = c == b' ' || leb 9 c && leb c 13

-- The two loops that trim a name.
unfoldable pub trim_front : Bytes → Bytes
trim_front [] = []
trim_front (c ∷ s) = let rest = trim_front s in if is_space c then rest else c ∷ s

unfoldable pub trim_back : Bytes → Bytes
trim_back [] = []
trim_back (c ∷ s) = elim (trim_back s) [
  | [] ↦ if is_space c then [] else c ∷ []
  | d ∷ r ↦ c ∷ d ∷ r
]

unfoldable pub trim_name : StringFields → Bytes → Bytes
unfolding trim_front trim_back
trim_name sf name = if sf.trim_space then trim_back (trim_front name) else name

-- What one round of the loop takes off the text.
pub record Token : Type 0 where
  pub name : Bytes
  pub value : Bytes
  pub rest : Bytes

unfoldable pub next_token : StringFields → Bytes → Token
next_token sf remain =
    let cut = split_left remain sf.all_delims in
    let held = split_left cut.rest sf.kv_delims in
    if cut.match == b'='
    then record { name = trim_name sf cut.field; value = held.field; rest = held.rest }
    else record { name = trim_name sf cut.field; value = []; rest = cut.rest }

module _ {ℓ} {A : Type ℓ} where
  -- The value goes to the first field of that name.
  unfoldable pub match_field : List A → Bytes → A → List Bytes → List A
  match_field (r ∷ result) name value (f ∷ fields) =
      let others = match_field result name value fields in
      if bytes_eq name f then value ∷ result else r ∷ others
  match_field result name value fields = result

-- The loop, on fuel; it returns what it has not read, too. `out` makes a result of a value.
module _ {ℓ} {A : Type ℓ} (sf : StringFields) (out : Bytes → A) (fields : List Bytes) where
  unfoldable pub find_loop : ℕ → Bytes → List A → Bytes × List A
  find_loop fuel [] result = ([], result)
  find_loop zero (c ∷ s) result = (c ∷ s, result)
  find_loop (suc fuel) (c ∷ s) result =
      let token = next_token sf (c ∷ s) in
      find_loop fuel token.rest (match_field result token.name (out token.value) fields)

abbrev defaults {ℓ} : {A : Type ℓ} → A → List Bytes → List A
defaults a [] = []
defaults a (f ∷ fields) = a ∷ defaults a fields

-- `find`: the default of a view is the empty text.
unfoldable pub find : StringFields → Bytes → List Bytes → List Bytes
unfolding find_loop
find sf remain fields = (find_loop sf (λ v. v) fields (length remain) remain (defaults [] fields)).1

-- `find_optional`: the default is no value.
unfoldable pub find_optional : StringFields → Bytes → List Bytes → List (Option Bytes)
unfolding find_loop
find_optional sf remain fields =
    (find_loop sf (λ v. some v) fields (length remain) remain (defaults none fields)).1
