-- ===== src/ImageContent/Optimal.antt =====
-- The square crop of src/server/image/ImageContent.cc, from its place in the image to what it holds.
use mathlib.Core.Path.{subst}
use hearty_rabbit.Prelude.{
  ℕ, ◌+◌, ◌-◌, ◌/◌, ◌≤◌, ◌≡◌, ◌∙◌, ap, refl, sym, true, List, [], ◌∷◌, none, some, All, is_empty,
  Option-cases, inl, inr, arith,
}
use hearty_rabbit.Prelude.Int.{ℤ, ◌-ℤ◌, ◌≤ℤ◌, ◌<ℤ◌, int_laws}
use hearty_rabbit.ImageContent.{
  InflectionPoint, ImageContent, Roi, window_length, length_of, inflections, add_totals, clip,
  find_optimal, optimal, place, square_crop, centre_crop,
}
use hearty_rabbit.ImageContent.Sums.{sum_of, IsSorted, SortLaws, up_to, at_best}
use hearty_rabbit.ImageContent.Totals.{All-map, clip_best, clip_nonneg, sum_up_to_last}
use hearty_rabbit.ImageContent.Chosen.{IsKept, clip-IsKept}
use hearty_rabbit.ImageContent.Greatest.{Lowers, clip-AtLimit, clip_none, find_optimal-some}
use hearty_rabbit.ImageContent.Weights.{
  weight, holds, holds_on, IsFitting, inflections-up_to, inflections-at_best, inflections-Lowers,
  inflections-score,
}

find_optimal-none : (kept : List InflectionPoint) → find_optimal kept ≡ none → is_empty kept ≡ true
unfolding find_optimal
find_optimal-none [] e = refl
find_optimal-none (k ∷ ks) e = cc

-- The chosen one of sorted points whose scores cancel.
chosen :
    (limit : ℤ) (pts : List InflectionPoint) (x : InflectionPoint)
    → ℤ.pos 0 ≤ℤ limit
    → IsSorted pts
    → sum_of (λ x. x.score) pts ≡ ℤ.pos 0
    → Lowers limit pts
    → find_optimal (clip (add_totals (ℤ.pos 0) pts)) ≡ some x
    → (ℤ.pos 0 ≤ℤ x.pos)
      × (x.pos ≤ℤ limit)
      × ((q : ℤ) → ℤ.pos 0 ≤ℤ q → sum_of (up_to q) pts ≤ℤ sum_of (at_best x.pos) pts)
chosen limit pts x h s e ls found =
    let kept = clip (add_totals (ℤ.pos 0) pts) in
    let (some_point, within, picks) = find_optimal-some kept x found in
    let least = clip_nonneg x.total pts e s some_point within in
    let (inside, reached) = picks (IsKept (ℤ.pos 0) pts) (clip-IsKept pts s) in
    (
      inside,
      picks (λ y. y.total ≡ x.total → y.pos ≤ℤ limit)
          (clip-AtLimit x.total limit pts least h ls within) refl,
      λ q hq. omega (int_laws, reached, clip_best x.total q pts hq least s some_point within),
    )

none_chosen :
    (q : ℤ) (pts : List InflectionPoint)
    → ℤ.pos 0 ≤ℤ q
    → sum_of (λ x. x.score) pts ≡ ℤ.pos 0
    → find_optimal (clip (add_totals (ℤ.pos 0) pts)) ≡ none
    → sum_of (up_to q) pts ≡ ℤ.pos 0
none_chosen q pts h e found =
    let behind = clip_none pts (find_optimal-none (clip (add_totals (ℤ.pos 0) pts)) found) in
    sum_up_to_last q pts (All-map pts (λ x (g : x.pos <ℤ ℤ.pos 0). omega arith) behind) ∙ e

window_in_length : (c : ImageContent) → window_length c ≤ length_of c
window_in_length c = ground arith

half_fits : (l w : ℕ) → w ≤ l → l / 2 - w / 2 + w ≤ l
half_fits l w h = omega arith

from_zero : (z : ℤ) → ℤ.pos 0 ≤ℤ z → (p : ℕ) × (z ≡ ℤ.pos p)
from_zero (ℤ.pos p) h = (p, refl)
from_zero (ℤ.negsuc n) h = absurd (omega arith)

-- A place of the square that is inside the image, and holds as much as stays in it in a step from `q`.
abbrev pub IsBest : ImageContent → Roi → ℕ → Type 0
IsBest c roi q =
    (p : ℕ) × (roi ≡ place c (ℤ.pos p))
    × (p + window_length c ≤ length_of c)
    × (weight c (holds_on c q) ≤ weight c (holds c p))

module _ (sort : List InflectionPoint → List InflectionPoint) (laws : SortLaws sort)
    (c : ImageContent) (faces_fit : All (IsFitting c) c.faces)
    (features_fit : All (IsFitting c) c.features) where
  none-IsBest :
      (q : ℕ)
      → find_optimal (clip (add_totals (ℤ.pos 0) (sort (inflections c)))) ≡ none
      → IsBest c (centre_crop c) q
  unfolding centre_crop
  none-IsBest q found =
      let pts = sort (inflections c) in
      let e = laws.sum_of-sort (λ x. x.score) (inflections c) ∙ inflections-score c in
      let nothing =
        sym (laws.sum_of-sort (up_to (ℤ.pos q)) (inflections c))
        ∙ none_chosen (ℤ.pos q) pts (omega arith) e found in
      let low = rw nothing at (inflections-up_to c faces_fit features_fit q) in
      (
        length_of c / 2 - window_length c / 2,
        refl,
        half_fits _ _ (window_in_length c),
        omega (arith, low),
      )

  some-IsBest :
      (q : ℕ) (x : InflectionPoint)
      → find_optimal (clip (add_totals (ℤ.pos 0) (sort (inflections c)))) ≡ some x
      → IsBest c (place c x.pos) q
  some-IsBest q x found =
      let pts = sort (inflections c) in
      let limit = ℤ.pos (length_of c) -ℤ ℤ.pos (window_length c) in
      let fits = window_in_length c in
      let (inside, near, best) =
        chosen limit pts x (omega int_laws) (laws.sort-IsSorted (inflections c))
          (laws.sum_of-sort (λ x. x.score) (inflections c) ∙ inflections-score c)
          (laws.All-sort _ (inflections c) (inflections-Lowers c faces_fit features_fit)) found in
      let (p, at) = from_zero x.pos inside in
      let more =
        rw (at, laws.sum_of-sort (up_to (ℤ.pos q)), laws.sum_of-sort (at_best (ℤ.pos p))) at
          (best (ℤ.pos q) (omega arith)) in
      let close = rw at at near in
      (
        p,
        ap (place c) at,
        omega int_laws,
        omega (
          int_laws,
          more,
          inflections-up_to c faces_fit features_fit q,
          inflections-at_best c faces_fit features_fit p,
        ),
      )

  crop_none : optimal sort c ≡ none → square_crop sort c ≡ centre_crop c
  unfolding square_crop centre_crop
  crop_none nothing = rw (nothing, square_crop) refl

  crop_some : (x : InflectionPoint) → optimal sort c ≡ some x → square_crop sort c ≡ place c x.pos
  unfolding square_crop
  crop_some x found = rw (found, square_crop) refl

  -- The square lies inside the image. The weight of what it holds there is at least, for each place, the
  -- weight of what the square holds at that place and at the next one too: what it would hold at that
  -- place alone is not counted, so a place that holds such things may hold more. What is found must lie
  -- inside the image and be no longer than the square, and the points must be sorted by their positions.
  pub square_crop-IsBest : (q : ℕ) → IsBest c (square_crop sort c) q
  unfolding optimal
  square_crop-IsBest q = elim (Option-cases (optimal sort c)) [
    | inl nothing ↦ subst (λ roi. IsBest c roi q) (sym (crop_none nothing)) (none-IsBest q nothing)
    | inr (x, found) ↦
        subst (λ roi. IsBest c roi q) (sym (crop_some x found)) (some-IsBest q x found)
  ]
