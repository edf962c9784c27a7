-- ===== src/Tests/Crops.antt =====
-- A picture with two features, cropped with a stable sort.
use hearty_rabbit.Prelude.{◌≡◌, ◌∙◌, ap, refl, List, [], ◌∷◌, if◌then◌else◌, All, inl, inr, arith}
use hearty_rabbit.Prelude.Int.{ℤ, ◌+ℤ◌, ◌-ℤ◌, ◌≤ℤ◌, leb_ℤ, leb_ℤ-cases, int_laws}
use hearty_rabbit.ImageContent
use hearty_rabbit.ImageContent.{InflectionPoint, ImageContent, square_crop, place}
use hearty_rabbit.ImageContent.Sums.{sum_of, IsSorted, SortLaws}
use hearty_rabbit.ImageContent.Totals.{All-map}
use hearty_rabbit.ImageContent.Weights.{weight, holds}
use hearty_rabbit.ImageContent.Optimal.{IsBest, square_crop-IsBest}

unfoldable insert_point : InflectionPoint → List InflectionPoint → List InflectionPoint
insert_point x [] = x ∷ []
insert_point x (y ∷ ys) =
    let rest = insert_point x ys in if leb_ℤ x.pos y.pos then x ∷ y ∷ ys else y ∷ rest

unfoldable sort : List InflectionPoint → List InflectionPoint
sort [] = []
sort (x ∷ xs) = insert_point x (sort xs)

insert-All :
    (P : InflectionPoint → Type 0) (x : InflectionPoint) (ys : List InflectionPoint)
    → P x
    → All P ys
    → All P (insert_point x ys)
unfolding insert_point
insert-All P x [] h hs = (h, tt)
insert-All P x (y ∷ ys) h (hy, hs) = elim (leb_ℤ-cases x.pos y.pos) [
  | inl (e, l) ↦ rw e (h, (hy, hs))
  | inr (e, l) ↦ rw e (hy, insert-All P x ys h hs)
]

insert-IsSorted :
    (x : InflectionPoint) (ys : List InflectionPoint) → IsSorted ys → IsSorted (insert_point x ys)
unfolding insert_point
insert-IsSorted x [] s = (tt, tt)
insert-IsSorted x (y ∷ ys) (later, s) = elim (leb_ℤ-cases x.pos y.pos) [
  | inl (e, l) ↦ rw e ((l, All-map ys (λ q (g : y.pos ≤ℤ q.pos). omega arith) later), (later, s))
  | inr (e, l) ↦
      rw e (insert-All (λ q. y.pos ≤ℤ q.pos) x ys (omega arith) later, insert-IsSorted x ys s)
]

swap : (a b c : ℤ) → b +ℤ (a +ℤ c) ≡ a +ℤ (b +ℤ c)
swap a b c = omega int_laws

sum_of-insert :
    (f : InflectionPoint → ℤ) (x : InflectionPoint) (ys : List InflectionPoint)
    → sum_of f (insert_point x ys) ≡ f x +ℤ sum_of f ys
unfolding insert_point
sum_of-insert f x [] = refl
sum_of-insert f x (y ∷ ys) = elim (leb_ℤ-cases x.pos y.pos) [
  | inl (e, l) ↦ rw e refl
  | inr (e, l) ↦ rw (e, sum_of-insert f x ys) (swap (f x) (f y) (sum_of f ys))
]

sort-IsSorted : (xs : List InflectionPoint) → IsSorted (sort xs)
unfolding sort
sort-IsSorted [] = tt
sort-IsSorted (x ∷ xs) = insert-IsSorted x (sort xs) (sort-IsSorted xs)

sum_of-sort :
    (f : InflectionPoint → ℤ) (xs : List InflectionPoint) → sum_of f (sort xs) ≡ sum_of f xs
unfolding sort
sum_of-sort f [] = refl
sum_of-sort f (x ∷ xs) = sum_of-insert f x (sort xs) ∙ ap (λ s. f x +ℤ s) (sum_of-sort f xs)

All-sort : (P : InflectionPoint → Type 0) (xs : List InflectionPoint) → All P xs → All P (sort xs)
unfolding sort
All-sort P [] h = tt
All-sort P (x ∷ xs) (h, hs) = insert-All P x (sort xs) h (All-sort P xs hs)

sort-SortLaws : SortLaws sort
sort-SortLaws = record {
  sort-IsSorted = sort-IsSorted;
  sum_of-sort = sum_of-sort;
  All-sort = All-sort;
}

-- Wider than high, with a face and two features.
abbrev wide : ImageContent
wide = record {
  cols = 40;
  rows = 10;
  faces = record { x = 25; y = 2; width = 6; height = 6 } ∷ [];
  eyes = [];
  features =
      record { x = 3; y = 5; width = 0; height = 0 }
      ∷ record { x = 33; y = 5; width = 0; height = 0 }
      ∷ [];
}

square_crop-IsBest_example : IsBest wide (square_crop sort wide) 12
square_crop-IsBest_example =
    square_crop-IsBest sort sort-SortLaws wide
      (record { in_image = omega arith; in_window = omega arith }, tt)
      (
        record { in_image = omega arith; in_window = omega arith },
        (record { in_image = omega arith; in_window = omega arith }, tt),
      )
      12

-- The second face enters the window where the first one leaves it, and the sort puts the one that
-- leaves first: the place that holds both is not found.
abbrev tied : ImageContent
tied = record {
  cols = 40;
  rows = 10;
  faces =
      record { x = 20; y = 2; width = 5; height = 5 }
      ∷ record { x = 25; y = 2; width = 5; height = 5 }
      ∷ [];
  eyes = [];
  features = [];
}

tied_misses :
    (square_crop sort tied ≡ place tied (ℤ.pos 15))
    × (weight tied (holds tied 15) ≡ 25)
    × (weight tied (holds tied 20) ≡ 50)
unfolding square_crop sort insert_point ImageContent.optimal ImageContent.inflections
    ImageContent.add_content ImageContent.enter ImageContent.exit ImageContent.add_totals
    ImageContent.clip ImageContent.find_optimal ImageContent.max_element ◌-ℤ◌ ◌+ℤ◌
tied_misses = (refl, refl, refl)
