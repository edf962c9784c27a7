-- ===== src/Prelude/Lists.antt =====
-- Lists measured and cut by native numbers, under the library's names; bytes; predicates on lists.
use Prim.Native.Nat.{ℕ, zero, suc, ◌+◌, ◌<◌}
use Prim.Native.Char.{code}
use Prim.Native.String.{String}
use mathlib.Core.Path.{◌≡◌, refl}
use mathlib.Core.Logic.{◌⊎◌, inl, inr}
use mathlib.Core.Bool.{Bool, true, false, ◌&&◌, ◌||◌, not}
use mathlib.Core.List.{List, [], ◌∷◌, ◌++◌}
use mathlib.Core.Option.{Option, none, some}
use native.Mathlib.Omega.{arith}
use hearty_rabbit.Prelude.Tests.{◌==◌, Bool-cases}

module _ {ℓ} {A : Type ℓ} where
  abbrev pub length : List A → ℕ
  length [] = 0
  length (x ∷ xs) = suc (length xs)

  abbrev pub get_elem? : List A → ℕ → Option A
  get_elem? [] i = none
  get_elem? (x ∷ xs) zero = some x
  get_elem? (x ∷ xs) (suc i) = get_elem? xs i

  abbrev pub get_or : List A → ℕ → A → A
  get_or [] i d = d
  get_or (x ∷ xs) zero d = x
  get_or (x ∷ xs) (suc i) d = get_or xs i d

  abbrev pub take : ℕ → List A → List A
  take zero xs = []
  take (suc n) [] = []
  take (suc n) (x ∷ xs) = x ∷ take n xs

  abbrev pub drop : ℕ → List A → List A
  drop zero xs = xs
  drop (suc n) [] = []
  drop (suc n) (x ∷ xs) = drop n xs

  abbrev pub is_empty : List A → Bool
  is_empty [] = true
  is_empty (x ∷ xs) = false

  pub List-cases : (xs : List A) → (xs ≡ []) ⊎ ((x : A) × (ys : List A) × (xs ≡ x ∷ ys))
  List-cases [] = inl refl
  List-cases (x ∷ xs) = inr (x, xs, refl)

  pub length-append : (xs ys : List A) → length (xs ++ ys) ≡ length xs + length ys
  length-append [] ys = omega arith
  length-append (x ∷ xs) ys = omega (arith, length-append xs ys)

  pub take-append : (xs ys : List A) → take (length xs) (xs ++ ys) ≡ xs
  take-append [] ys = refl
  take-append (x ∷ xs) ys = rw (take-append xs ys)

  pub drop-append : (xs ys : List A) → drop (length xs) (xs ++ ys) ≡ ys
  drop-append [] ys = refl
  drop-append (x ∷ xs) ys = drop-append xs ys

  pub take-append-drop : (n : ℕ) (xs : List A) → take n xs ++ drop n xs ≡ xs
  take-append-drop zero xs = refl
  take-append-drop (suc n) [] = refl
  take-append-drop (suc n) (x ∷ xs) = rw (take-append-drop n xs)

module _ {ℓ κ} {A : Type ℓ} (P : A → Type κ) where
  -- `P` holds of every element.
  abbrev pub All : List A → Type κ
  All [] = Unit
  All (x ∷ xs) = P x × All xs

  pub All-append : (xs ys : List A) → All xs → All ys → All (xs ++ ys)
  All-append [] ys _ hy = hy
  All-append (x ∷ xs) ys (px, hx) hy = (px, All-append xs ys hx hy)

-- A text is the list of its bytes.
abbrev pub Bytes : Type 0
Bytes = List ℕ

-- The code points of a literal: its bytes, if it is ASCII.
abbrev pub codes : String → Bytes
codes String.[] = []
codes (String.◌∷◌ c s) = code c ∷ codes s

abbrev pub IsByte : ℕ → Type 0
IsByte c = c < 256

abbrev pub IsBytes : Bytes → Type 0
IsBytes = All IsByte

-- Whether a byte is one of a set of bytes.
abbrev pub contains : Bytes → ℕ → Bool
contains [] c = false
contains (v ∷ vs) c = c == v || contains vs c

-- No byte of the text is in the set.
abbrev pub Avoids : Bytes → Bytes → Type 0
Avoids vs = All λ c. contains vs c ≡ false

-- Equality of texts, byte by byte.
abbrev pub bytes_eq : Bytes → Bytes → Bool
bytes_eq [] [] = true
bytes_eq [] (d ∷ t) = false
bytes_eq (c ∷ s) [] = false
bytes_eq (c ∷ s) (d ∷ t) = c == d && bytes_eq s t

pub bytes_eq_refl : (s : Bytes) → bytes_eq s s ≡ true
bytes_eq_refl [] = refl
bytes_eq_refl (c ∷ s) = ground (arith, bytes_eq_refl s)

pub bytes_eq_sound : (s t : Bytes) → bytes_eq s t ≡ true → s ≡ t
bytes_eq_sound [] [] h = refl
bytes_eq_sound [] (d ∷ t) h = cc
bytes_eq_sound (c ∷ s) [] h = cc
bytes_eq_sound (c ∷ s) (d ∷ t) h = ground (arith, bytes_eq_sound s t)

-- Whether the first text is a prefix of the second.
pub bytes_eq_apart :
    (a b c : Bytes) → bytes_eq a b ≡ false → bytes_eq a c ≡ true → bytes_eq b c ≡ false
bytes_eq_apart a b c n y = elim (Bool-cases (bytes_eq b c)) [
  | inr m ↦ m
  | inl z ↦
      let same : bytes_eq a b ≡ true =
        rw (bytes_eq_sound a c y, bytes_eq_sound b c z) (bytes_eq_refl c) in
      absurd (ground (arith, n, same))
]

abbrev pub is_prefix : Bytes → Bytes → Bool
is_prefix [] t = true
is_prefix (c ∷ s) [] = false
is_prefix (c ∷ s) (d ∷ t) = c == d && is_prefix s t

pub is_prefix_sound : (s t : Bytes) → is_prefix s t ≡ true → t ≡ s ++ drop (length s) t
is_prefix_sound [] t h = refl
is_prefix_sound (c ∷ s) [] h = cc
is_prefix_sound (c ∷ s) (d ∷ t) h = ground (arith, is_prefix_sound s t)

-- Every byte of the first set is in the second.
abbrev pub subset : Bytes → Bytes → Bool
subset [] ws = true
subset (v ∷ vs) ws = contains ws v && subset vs ws

pub contains-subset :
    (vs ws : Bytes) (c : ℕ) → subset vs ws ≡ true → contains vs c ≡ true → contains ws c ≡ true
contains-subset [] ws c h e = cc
contains-subset (v ∷ vs) ws c h e = ground (arith, contains-subset vs ws c)

-- No byte of the first set is in the second.
abbrev pub disjoint : Bytes → Bytes → Bool
disjoint [] ws = true
disjoint (v ∷ vs) ws = not (contains ws v) && disjoint vs ws

pub contains-disjoint :
    (vs ws : Bytes) (c : ℕ) → disjoint vs ws ≡ true → contains vs c ≡ true → contains ws c ≡ false
contains-disjoint [] ws c h e = cc
contains-disjoint (v ∷ vs) ws c h e = ground (arith, contains-disjoint vs ws c)

pub Avoids-append : (vs s t : Bytes) → Avoids vs s → Avoids vs t → Avoids vs (s ++ t)
Avoids-append vs = All-append (λ c. contains vs c ≡ false)

pub Avoids-subset : (vs ws s : Bytes) → subset vs ws ≡ true → Avoids ws s → Avoids vs s
Avoids-subset vs ws [] h a = tt
Avoids-subset vs ws (c ∷ s) h (ac, as') =
    (ground (arith, contains-subset vs ws c), Avoids-subset vs ws s h as')

pub All-Avoids :
    (vs ws s : Bytes) → disjoint vs ws ≡ true → All (λ c. contains vs c ≡ true) s → Avoids ws s
All-Avoids vs ws [] h a = tt
All-Avoids vs ws (c ∷ s) h (ac, as') = (contains-disjoint vs ws c h ac, All-Avoids vs ws s h as')

-- Whether a text is one of a list of texts.
abbrev pub has : Bytes → List Bytes → Bool
has m [] = false
has m (n ∷ ns) = bytes_eq n m || has m ns

pub has-is_empty : (m : Bytes) (ns : List Bytes) → has m ns ≡ true → is_empty ns ≡ false
has-is_empty m [] h = cc
has-is_empty m (n ∷ ns) h = refl

pub bytes_eq-append : (p s t : Bytes) → bytes_eq (p ++ s) (p ++ t) ≡ bytes_eq s t
bytes_eq-append [] s t = refl
bytes_eq-append (c ∷ p) s t = ground (arith, bytes_eq-append p s t)
