-- ===== src/ImageContent/Sums.antt =====
-- Sums over the inflection points of src/server/image/ImageContent.cc, and what `std::sort` does.
use hearty_rabbit.Prelude.{
  ◌≡◌, refl, sym, Bool, true, false, ◌&&◌, List, [], ◌∷◌, ◌++◌, if◌then◌else◌, All, inl, inr, arith,
}
use hearty_rabbit.Prelude.Int.{
  ℤ, ◌+ℤ◌, ◌≤ℤ◌, ◌<ℤ◌, ltb_ℤ, leb_ℤ, leb_ℤ-cases, ltb_ℤ-cases, int_laws, +ℤ_assoc, zero_+ℤ,
}
use hearty_rabbit.ImageContent.{InflectionPoint}

abbrev pub sum_of : (InflectionPoint → ℤ) → List InflectionPoint → ℤ
sum_of f [] = ℤ.pos 0
sum_of f (pt ∷ pts) = f pt +ℤ sum_of f pts

pub sum_of-append :
    (f : InflectionPoint → ℤ) (a b : List InflectionPoint)
    → sum_of f (a ++ b) ≡ sum_of f a +ℤ sum_of f b
sum_of-append f [] b = sym (zero_+ℤ (sum_of f b))
sum_of-append f (pt ∷ a) b =
    rw (sum_of-append f a b) (sym (+ℤ_assoc (f pt) (sum_of f a) (sum_of f b)))

abbrev pub IsSorted : List InflectionPoint → Type 0
IsSorted [] = Unit
IsSorted (pt ∷ pts) = All (λ q. pt.pos ≤ℤ q.pos) pts × IsSorted pts

-- The points in the order of their positions, those at the same position in any order.
pub record SortLaws (sort : List InflectionPoint → List InflectionPoint) : Type 1 where
  pub sort-IsSorted : (pts : List InflectionPoint) → IsSorted (sort pts)
  pub sum_of-sort :
      (f : InflectionPoint → ℤ) (pts : List InflectionPoint) → sum_of f (sort pts) ≡ sum_of f pts
  pub All-sort :
      (P : InflectionPoint → Type 0) (pts : List InflectionPoint) → All P pts → All P (sort pts)

-- What a point adds to the score at a position: with the points at the position, or with those that
-- raise it only.
abbrev pub up_to : ℤ → InflectionPoint → ℤ
up_to q pt = if leb_ℤ pt.pos q then pt.score else ℤ.pos 0

abbrev pub at_best : ℤ → InflectionPoint → ℤ
at_best q pt =
    if ltb_ℤ pt.pos q
    then pt.score
    else if leb_ℤ pt.pos q && ltb_ℤ (ℤ.pos 0) pt.score
    then pt.score
    else ℤ.pos 0

pub up_to_in : (q : ℤ) (pt : InflectionPoint) → pt.pos ≤ℤ q → up_to q pt ≡ pt.score
up_to_in q pt h = elim (leb_ℤ-cases pt.pos q) [
  | inl (y, l) ↦ rw y
  | inr (n, l) ↦ absurd (omega arith)
]

pub up_to_out : (q : ℤ) (pt : InflectionPoint) → q <ℤ pt.pos → up_to q pt ≡ ℤ.pos 0
up_to_out q pt h = elim (leb_ℤ-cases pt.pos q) [
  | inl (y, l) ↦ absurd (omega arith)
  | inr (n, l) ↦ rw n
]

-- Points behind a position add nothing, and those from it on nothing below zero.
pub sum_behind :
    (q : ℤ) (pts : List InflectionPoint)
    → All (λ pt. q <ℤ pt.pos) pts
    → sum_of (up_to q) pts ≡ ℤ.pos 0
sum_behind q [] h = refl
sum_behind q (pt ∷ pts) (hp, hs) = rw (up_to_out q pt hp, sum_behind q pts hs, zero_+ℤ)

pub at_best_from :
    (q : ℤ) (pt : InflectionPoint)
    → q ≤ℤ pt.pos
    → at_best q pt ≡ (if leb_ℤ pt.pos q && ltb_ℤ (ℤ.pos 0) pt.score then pt.score else ℤ.pos 0)
at_best_from q pt h = elim (ltb_ℤ-cases pt.pos q) [
  | inl (y, l) ↦ absurd (omega arith)
  | inr (n, l) ↦ rw n
]

raised : (b : Bool) (s : ℤ) → ℤ.pos 0 ≤ℤ (if b && ltb_ℤ (ℤ.pos 0) s then s else ℤ.pos 0)
raised false s = omega arith
raised true s = elim (ltb_ℤ-cases (ℤ.pos 0) s) [
  | inl (y, l) ↦ rw y (omega arith)
  | inr (n, l) ↦ rw n (omega arith)
]

raises : (s : ℤ) → s ≤ℤ (if ltb_ℤ (ℤ.pos 0) s then s else ℤ.pos 0)
raises s = elim (ltb_ℤ-cases (ℤ.pos 0) s) [
  | inl (y, l) ↦ rw y (omega arith)
  | inr (n, l) ↦ rw n (omega arith)
]

at_best_nonneg : (q : ℤ) (pt : InflectionPoint) → q ≤ℤ pt.pos → ℤ.pos 0 ≤ℤ at_best q pt
at_best_nonneg q pt h = rw (at_best_from q pt h) (raised (leb_ℤ pt.pos q) pt.score)

pub at_best_above : (q : ℤ) (pt : InflectionPoint) → pt.pos ≤ℤ q → pt.score ≤ℤ at_best q pt
at_best_above q pt h = elim (ltb_ℤ-cases pt.pos q) [
  | inl (y, l) ↦ rw y (omega arith)
  | inr (n, l) ↦ elim (leb_ℤ-cases pt.pos q) [
    | inl (k, m) ↦ rw (n, k) (raises pt.score)
    | inr (k, m) ↦ absurd (omega arith)
  ]
]

pub sum_from :
    (q : ℤ) (pts : List InflectionPoint)
    → All (λ pt. q ≤ℤ pt.pos) pts
    → ℤ.pos 0 ≤ℤ sum_of (at_best q) pts
sum_from q [] h = omega arith
sum_from q (pt ∷ pts) (hp, hs) = omega (int_laws, at_best_nonneg q pt hp, sum_from q pts hs)
