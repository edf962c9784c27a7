-- ===== src/Escape/SplitLaws.antt =====
-- What the cuts of src/common/util/Escape.cc find and leave.
use hearty_rabbit.Prelude.{
  ℕ, suc, ◌≡◌, refl, true, false, [], ◌∷◌, ◌++◌, none, some, arith, Bytes, contains, Avoids, length,
  take, drop, get_or, Bool-cases, inl, inr, ◌⊎◌, Option-cases, ap, take-append, is_prefix,
  is_prefix_sound,
}
use hearty_rabbit.Escape.Split.{find_last_of, find, split_left, split_right, split_front_substring}

-- One step of the search, as the loops over a text see it.
pub split_left_hit :
    (c : ℕ) (s value : Bytes)
    → contains value c ≡ true
    → split_left (c ∷ s) value ≡ record { field = []; match = c; rest = s }
unfolding split_left
split_left_hit c s value h = ground arith

pub split_left_miss :
    (c : ℕ) (s value : Bytes)
    → contains value c ≡ false
    → split_left (c ∷ s) value ≡ record {
      field = c ∷ (split_left s value).field;
      match = (split_left s value).match;
      rest = (split_left s value).rest;
    }
unfolding split_left
split_left_miss c s value h = ground arith

pub split_left-append :
    (f : Bytes) (c : ℕ) (s value : Bytes)
    → Avoids value f
    → contains value c ≡ true
    → split_left (f ++ c ∷ s) value ≡ record { field = f; match = c; rest = s }
split_left-append [] c s value h hc = split_left_hit c s value hc
split_left-append (d ∷ f) c s value (hd, hf) hc =
    rw (split_left_miss d (f ++ c ∷ s) value hd, split_left-append f c s value hf hc)

pub split_left_none :
    (f value : Bytes)
    → Avoids value f
    → split_left f value ≡ record { field = f; match = 0; rest = [] }
split_left_none [] value h = unfold split_left in refl
split_left_none (d ∷ f) value (hd, hf) =
    rw (split_left_miss d f value hd, split_left_none f value hf)

pub split_left-Avoids : (s value : Bytes) → Avoids value (split_left s value).field
split_left-Avoids [] value = unfold split_left in tt
split_left-Avoids (c ∷ s) value = elim (Bool-cases (contains value c)) [
  | inl h ↦ rw (split_left_hit c s value h) tt
  | inr h ↦ rw (split_left_miss c s value h) (h, split_left-Avoids s value)
]

-- A cut from the left loses no byte and stops at the first delimiter: either the text holds none
-- and is the field, or it is the field, one delimiter and the rest.
pub split_left_sound :
    (s value : Bytes)
    → (Avoids value s × (split_left s value ≡ record { field = s; match = 0; rest = [] }))
      ⊎ (Avoids value (split_left s value).field
          × (contains value (split_left s value).match ≡ true)
          × (s
              ≡ (split_left s value).field
                ++ (split_left s value).match ∷ (split_left s value).rest))
split_left_sound [] value = inl (tt, unfold split_left in refl)
split_left_sound (c ∷ s) value = elim (Bool-cases (contains value c)) [
  | inl h ↦ inr (rw (split_left_hit c s value h) (tt, h, refl))
  | inr h ↦ elim (split_left_sound s value) [
    | inl (a, e) ↦ inl ((h, a), rw (split_left_miss c s value h, e))
    | inr (a, m, e) ↦ inr (rw (split_left_miss c s value h) ((h, a), m, ap (λ t. c ∷ t) e))
  ]
]

find_last_of-Avoids : (f value : Bytes) → Avoids value f → find_last_of f value ≡ none
unfolding find_last_of
find_last_of-Avoids [] value h = refl
find_last_of-Avoids (c ∷ f) value (hc, hf) = rw (find_last_of-Avoids f value hf, hc)

pub split_right_none :
    (f value : Bytes)
    → Avoids value f
    → split_right f value ≡ record { field = f; match = 0; rest = [] }
unfolding split_right
split_right_none f value h = rw (find_last_of-Avoids f value h, split_right)

find_last_of-append :
    (s : Bytes) (c : ℕ) (f value : Bytes)
    → Avoids value f
    → contains value c ≡ true
    → find_last_of (s ++ c ∷ f) value ≡ some (length s)
unfolding find_last_of
find_last_of-append [] c f value h hc = rw (find_last_of-Avoids f value h, hc)
find_last_of-append (d ∷ s) c f value h hc = rw (find_last_of-append s c f value h hc)

drop_past : (s : Bytes) (c : ℕ) (f : Bytes) → drop (suc (length s)) (s ++ c ∷ f) ≡ f
drop_past [] c f = refl
drop_past (d ∷ s) c f = drop_past s c f

get_or_at : (s : Bytes) (c : ℕ) (f : Bytes) → get_or (s ++ c ∷ f) (length s) 0 ≡ c
get_or_at [] c f = refl
get_or_at (d ∷ s) c f = get_or_at s c f

pub split_right-append :
    (s : Bytes) (c : ℕ) (f value : Bytes)
    → Avoids value f
    → contains value c ≡ true
    → split_right (s ++ c ∷ f) value ≡ record { field = f; match = c; rest = s }
unfolding split_right
split_right-append s c f value h hc =
    rw (find_last_of-append s c f value h hc, split_right)
      (rw (take-append s (c ∷ f), drop_past s c f, get_or_at s c f))

-- Where the last delimiter of a text stands, if it holds one.
pub last_delimiter :
    (s value : Bytes)
    → Avoids value s
      ⊎ ((p : Bytes) × (c : ℕ) × (f : Bytes) × (s ≡ p ++ c ∷ f)
          × (contains value c ≡ true)
          × Avoids value f)
last_delimiter [] value = inl tt
last_delimiter (c ∷ s) value = elim (last_delimiter s value) [
  | inr (p, d, f, e, hd, hf) ↦ inr (c ∷ p, d, f, ap (λ t. c ∷ t) e, hd, hf)
  | inl a ↦ elim (Bool-cases (contains value c)) [
    | inl h ↦ inr ([], c, s, refl, h, a)
    | inr h ↦ inl (h, a)
  ]
]

-- A cut from the right loses no byte and stops at the last delimiter: either the text holds none
-- and is the field, or it is the rest, one delimiter and the field.
pub split_right_sound :
    (s value : Bytes)
    → (Avoids value s × (split_right s value ≡ record { field = s; match = 0; rest = [] }))
      ⊎ (Avoids value (split_right s value).field
          × (contains value (split_right s value).match ≡ true)
          × (s
              ≡ (split_right s value).rest
                ++ (split_right s value).match ∷ (split_right s value).field))
split_right_sound s value = elim (last_delimiter s value) [
  | inl a ↦ inl (a, split_right_none s value a)
  | inr (p, c, f, e, hc, hf) ↦ inr (rw (e, split_right-append p c f value hf hc) (hf, hc, refl))
]

-- A text found in another stands there, with nothing lost before or behind it.
pub find_sound :
    (text needle : Bytes) (i : ℕ)
    → find text needle ≡ some i
    → text ≡ take i text ++ needle ++ drop (length needle) (drop i text)
unfolding find
find_sound [] [] i h = rw (let e : i ≡ 0 = ground arith in e)
find_sound [] (d ∷ needle) i h = cc
find_sound (c ∷ s) needle i h = elim (Bool-cases (is_prefix needle (c ∷ s))) [
  | inl p ↦ let e : i ≡ 0 = ground arith in rw e (is_prefix_sound needle (c ∷ s) p)
  | inr n ↦ elim (Option-cases (find s needle)) [
    | inl e ↦ let none_some : none ≡ some i = ground arith in cc
    | inr (j, e) ↦
        let k : i ≡ suc j = ground arith in rw k (ap (λ t. c ∷ t) (find_sound s needle j e))
  ]
]

-- Cutting at a text loses only the text cut at, and only where it occurs.
pub split_front_substring_sound :
    (text needle : Bytes)
    → ((find text needle ≡ none) × (split_front_substring text needle ≡ (text, [])))
      ⊎ (text
          ≡ (split_front_substring text needle).0
            ++ needle
            ++ (split_front_substring text needle).1)
split_front_substring_sound text needle = elim (Option-cases (find text needle)) [
  | inl e ↦ inl (e, unfold split_front_substring in rw (e, split_front_substring))
  | inr (i, e) ↦
      inr
        (unfold split_front_substring in rw (e, split_front_substring) (find_sound text needle i e))
]
