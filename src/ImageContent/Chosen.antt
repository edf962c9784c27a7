-- ===== src/ImageContent/Chosen.antt =====
-- What the totals of src/server/image/ImageContent.cc bound: at each point that is left, the score of
-- those before it and of those that raise it there.
use hearty_rabbit.Prelude.{List, [], ◌∷◌, All, inl, inr, arith}
use hearty_rabbit.Prelude.Int.{ℤ, ◌+ℤ◌, ◌≤ℤ◌, ◌<ℤ◌, leb_ℤ-cases, int_laws}
use hearty_rabbit.ImageContent.{InflectionPoint, add_totals, clip, clip_after}
use hearty_rabbit.ImageContent.Sums.{sum_of, IsSorted, at_best, at_best_above, sum_from}
use hearty_rabbit.ImageContent.Totals.{All-map, totals_All}

All-map2 {ℓ κ} :
    {A : Type ℓ} {P Q R : A → Type κ} (xs : List A)
    → ((x : A) → P x → Q x → R x)
    → All P xs
    → All Q xs
    → All R xs
All-map2 [] f p q = tt
All-map2 (x ∷ xs) f (p, ps) (q, qs) = (f x p q, All-map2 xs f ps qs)

-- A point that the score of those before it, and of those that raise it there, reaches.
abbrev pub IsReached : ℤ → List InflectionPoint → InflectionPoint → Type 0
IsReached acc pts x = x.total ≤ℤ acc +ℤ sum_of (at_best x.pos) pts

IsReached-later :
    (acc : ℤ) (pt : InflectionPoint) (pts : List InflectionPoint) (x : InflectionPoint)
    → IsReached (acc +ℤ pt.score) pts x
    → pt.pos ≤ℤ x.pos
    → IsReached acc (pt ∷ pts) x
IsReached-later acc pt pts x h g = omega (int_laws, at_best_above x.pos pt g)

totals-IsReached :
    (acc : ℤ) (pts : List InflectionPoint)
    → IsSorted pts
    → All (IsReached acc pts) (add_totals acc pts)
unfolding add_totals
totals-IsReached acc [] s = tt
totals-IsReached acc (pt ∷ pts) (later, s) =
    let total = acc +ℤ pt.score in
    (
      omega (int_laws, at_best_above pt.pos pt (omega arith), sum_from pt.pos pts later),
      All-map2 (add_totals total pts) (IsReached-later acc pt pts) (totals-IsReached total pts s)
          (totals_All (λ p. pt.pos ≤ℤ p) total pts later),
    )

abbrev pub IsKept : ℤ → List InflectionPoint → InflectionPoint → Type 0
IsKept acc pts x = (ℤ.pos 0 ≤ℤ x.pos) × IsReached acc pts x

totals-IsKept :
    (acc : ℤ) (pts : List InflectionPoint)
    → IsSorted pts
    → All (λ x. ℤ.pos 0 ≤ℤ x.pos) pts
    → All (IsKept acc pts) (add_totals acc pts)
totals-IsKept acc pts s h =
    All-map2 (add_totals acc pts) (λ x p q. (p, q)) (totals_All (λ p. ℤ.pos 0 ≤ℤ p) acc pts h)
      (totals-IsReached acc pts s)

inside_from :
    (pt : InflectionPoint) (pts : List InflectionPoint)
    → ℤ.pos 0 ≤ℤ pt.pos
    → All (λ x. pt.pos ≤ℤ x.pos) pts
    → All (λ x. ℤ.pos 0 ≤ℤ x.pos) (pt ∷ pts)
inside_from pt pts h later = (h, All-map pts (λ x (g : pt.pos ≤ℤ x.pos). omega arith) later)

IsKept-later :
    (acc : ℤ) (pt : InflectionPoint) (pts : List InflectionPoint) (x : InflectionPoint)
    → pt.pos <ℤ ℤ.pos 0
    → IsKept (acc +ℤ pt.score) pts x
    → IsKept acc (pt ∷ pts) x
IsKept-later acc pt pts x h (a, b) = (a, IsReached-later acc pt pts x b (omega arith))

clip_after-IsKept :
    (last : InflectionPoint) (pts : List InflectionPoint)
    → IsSorted pts
    → All (IsKept last.total pts) (clip_after last (add_totals last.total pts))
unfolding add_totals clip_after
clip_after-IsKept last [] s = tt
clip_after-IsKept last (pt ∷ pts) (later, s) = elim (leb_ℤ-cases (ℤ.pos 0) pt.pos) [
  | inl (y, l) ↦
      let from = inside_from pt pts l later in
      rw y (
        (omega arith, omega (int_laws, sum_from (ℤ.pos 0) (pt ∷ pts) from)),
        totals-IsKept last.total (pt ∷ pts) (later, s) from,
      )
  | inr (n, l) ↦
      let here = record pt { total = last.total +ℤ pt.score } in
      rw n (
        All-map (clip_after here (add_totals here.total pts))
          (λ x. IsKept-later last.total pt pts x l) (clip_after-IsKept here pts s))
]

pub clip-IsKept :
    (pts : List InflectionPoint)
    → IsSorted pts
    → All (IsKept (ℤ.pos 0) pts) (clip (add_totals (ℤ.pos 0) pts))
unfolding add_totals clip
clip-IsKept [] s = tt
clip-IsKept (pt ∷ pts) (later, s) = elim (leb_ℤ-cases (ℤ.pos 0) pt.pos) [
  | inl (y, l) ↦ rw y (totals-IsKept (ℤ.pos 0) (pt ∷ pts) (later, s) (inside_from pt pts l later))
  | inr (n, l) ↦
      let here = record pt { total = ℤ.pos 0 +ℤ pt.score } in
      rw n (
        All-map (clip_after here (add_totals here.total pts))
          (λ x. IsKept-later (ℤ.pos 0) pt pts x l) (clip_after-IsKept here pts s))
]
