-- ===== src/Escape/Split.antt =====
-- `split_left`, `split_right` and `split_front_substring` of src/common/util/Escape.cc. A call
-- that shortens its argument returns what is left of it.
use hearty_rabbit.Prelude.{
  ℕ, suc, [], ◌∷◌, Option, none, some, if◌then◌else◌, Bytes, contains, length, take, drop, get_or,
  is_prefix,
}

-- What a cut returns: the field, the delimiter found (0 if none) and the text that is left.
pub record Cut : Type 0 where
  pub field : Bytes
  pub match : ℕ
  pub rest : Bytes

-- `string_view::find_first_of`; `none` is `npos`.
unfoldable pub find_first_of : Bytes → Bytes → Option ℕ
find_first_of [] value = none
find_first_of (c ∷ s) value =
    let next = find_first_of s value in
    if contains value c then some 0 else elim next [ none ↦ none | some i ↦ some (suc i) ]

-- `string_view::find_last_of`.
unfoldable pub find_last_of : Bytes → Bytes → Option ℕ
find_last_of [] value = none
find_last_of (c ∷ s) value = elim (find_last_of s value) [
  | some i ↦ some (suc i)
  | none ↦ if contains value c then some 0 else none
]

-- `string_view::find` of a text.
unfoldable pub find : Bytes → Bytes → Option ℕ
find [] needle = if is_prefix needle [] then some 0 else none
find (c ∷ s) needle =
    let next = find s needle in
    if is_prefix needle (c ∷ s) then some 0 else elim next [ none ↦ none | some i ↦ some (suc i) ]

unfoldable pub split_left : Bytes → Bytes → Cut
unfolding find_first_of
split_left text value = elim (find_first_of text value) [
  | none ↦ record { field = text; match = 0; rest = [] }
  | some i ↦ record { field = take i text; match = get_or text i 0; rest = drop (suc i) text }
]

unfoldable pub split_right : Bytes → Bytes → Cut
unfolding find_last_of
split_right text value = elim (find_last_of text value) [
  | none ↦ record { field = text; match = 0; rest = [] }
  | some i ↦ record { field = drop (suc i) text; match = get_or text i 0; rest = take i text }
]

-- The field before the first occurrence of a text, and what is behind it.
unfoldable pub split_front_substring : Bytes → Bytes → Bytes × Bytes
unfolding find
split_front_substring text needle = elim (find text needle) [
  | none ↦ (text, [])
  | some i ↦ (take i text, drop (length needle) (drop i text))
]
