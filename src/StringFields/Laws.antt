-- ===== src/StringFields/Laws.antt =====
-- The loop of `basic_find` in src/common/util/StringFields.hh.
use hearty_rabbit.Prelude.{
  ℕ, zero, suc, ◌≤◌, ◌≡◌, inl, inr, refl, ap, List, [], ◌∷◌, Bytes, length, length-append, arith,
}
use hearty_rabbit.Escape.Split.{split_left}
use hearty_rabbit.Escape.SplitLaws.{split_left_sound}
use hearty_rabbit.StringFields.{StringFields, next_token, find_loop}

-- A cut leaves less than it was given, or nothing.
split_left-length : (s value : Bytes) → length (split_left s value).rest ≤ length s
split_left-length s value = elim (split_left_sound s value) [
  | inl (a, e) ↦ rw e (omega arith)
  | inr (a, h, e) ↦ omega (
    arith,
    ap length e,
    length-append (split_left s value).field
        ((split_left s value).match ∷ (split_left s value).rest),
  )
]

split_left-shorter : (c : ℕ) (s value : Bytes) → length (split_left (c ∷ s) value).rest ≤ length s
split_left-shorter c s value = elim (split_left_sound (c ∷ s) value) [
  | inl (a, e) ↦ rw e (omega arith)
  | inr (a, h, e) ↦ omega (
    arith,
    ap length e,
    length-append (split_left (c ∷ s) value).field
        ((split_left (c ∷ s) value).match ∷ (split_left (c ∷ s) value).rest),
  )
]

pub next_token-shorter :
    (sf : StringFields) (c : ℕ) (s : Bytes) → length (next_token sf (c ∷ s)).rest ≤ length s
unfolding next_token
next_token-shorter sf c s = ground (
  arith,
  split_left-shorter c s sf.all_delims,
  split_left-length (split_left (c ∷ s) sf.all_delims).rest sf.kv_delims,
)

module _ {ℓ} {A : Type ℓ} (sf : StringFields) (out : Bytes → A) (fields : List Bytes) where
  -- With as much fuel as the text is long, the loop of `basic_find` reads all of the text: every
  -- round takes at least one byte.
  pub find_loop_done :
      (fuel : ℕ) (s : Bytes) (r : List A)
      → length s ≤ fuel
      → (find_loop sf out fields fuel s r).0 ≡ []
  unfolding find_loop
  find_loop_done fuel [] r h = refl
  find_loop_done zero (c ∷ s) r h = absurd (omega arith)
  find_loop_done (suc fuel) (c ∷ s) r h =
      find_loop_done fuel (next_token sf (c ∷ s)).rest _ (omega (arith, next_token-shorter sf c s))

  -- More fuel changes nothing.
  pub find_loop_fuel :
      (m n : ℕ) (s : Bytes) (r : List A)
      → length s ≤ m
      → length s ≤ n
      → find_loop sf out fields m s r ≡ find_loop sf out fields n s r
  unfolding find_loop
  find_loop_fuel zero zero s r h k = refl
  find_loop_fuel m n [] r h k = refl
  find_loop_fuel zero n (c ∷ s) r h k = absurd (omega arith)
  find_loop_fuel (suc m) zero (c ∷ s) r h k = absurd (omega arith)
  find_loop_fuel (suc m) (suc n) (c ∷ s) r h k =
      let shorter = next_token-shorter sf c s in
      find_loop_fuel m n (next_token sf (c ∷ s)).rest _ (omega (arith, shorter))
        (omega (arith, shorter))
