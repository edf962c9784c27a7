-- ===== src/ImageContent/Greatest.antt =====
-- The point that src/server/image/ImageContent.cc takes, which has the greatest total: it is never behind
-- the last place of the window, since the points there only lower the score.
use mathlib.Core.Path.{subst}
use mathlib.Core.Option.{some-injective}
use hearty_rabbit.Prelude.{
  ◌≡◌, refl, sym, true, false, List, [], ◌∷◌, All, is_empty, some, inl, inr, ◌⊎◌, arith,
}
use hearty_rabbit.Prelude.Int.{ℤ, ◌+ℤ◌, ◌≤ℤ◌, ◌<ℤ◌, ltb_ℤ, leb_ℤ-cases, ltb_ℤ-cases, int_laws}
use hearty_rabbit.ImageContent.{
  InflectionPoint, add_totals, clip, clip_after, max_element, find_optimal,
}
use hearty_rabbit.ImageContent.Totals.{Within}

-- The greatest of the points.
pub max_element-All :
    (P : InflectionPoint → Type 0) (best : InflectionPoint) (pts : List InflectionPoint)
    → P best
    → All P pts
    → P (max_element best pts)
unfolding max_element
max_element-All P best [] h hs = h
max_element-All P best (pt ∷ pts) h (hp, hs) = elim (ltb_ℤ-cases best.total pt.total) [
  | inl (y, l) ↦ rw y (max_element-All P pt pts hp hs)
  | inr (n, l) ↦ rw n (max_element-All P best pts h hs)
]

max_better :
    (best pt : InflectionPoint) (pts : List InflectionPoint)
    → ltb_ℤ best.total pt.total ≡ true
    → max_element best (pt ∷ pts) ≡ max_element pt pts
unfolding max_element
max_better best pt pts y = rw y refl

max_same :
    (best pt : InflectionPoint) (pts : List InflectionPoint)
    → ltb_ℤ best.total pt.total ≡ false
    → max_element best (pt ∷ pts) ≡ max_element best pts
unfolding max_element
max_same best pt pts n = rw n refl

pub max_element-Within :
    (best : InflectionPoint) (pts : List InflectionPoint)
    → Within (max_element best pts).total (best ∷ pts)
unfolding max_element
max_element-Within best [] = (omega arith, tt)
max_element-Within best (pt ∷ pts) = elim (ltb_ℤ-cases best.total pt.total) [
  | inl (y, l) ↦
      let (h, hs) = max_element-Within pt pts in
      subst (λ x. Within x.total (best ∷ pt ∷ pts)) (sym (max_better best pt pts y))
        (omega (arith, h), (h, hs))
  | inr (n, l) ↦
      let (h, hs) = max_element-Within best pts in
      subst (λ x. Within x.total (best ∷ pt ∷ pts)) (sym (max_same best pt pts n))
        (h, (omega (arith, h), hs))
]

-- What `std::max_element` finds, where it finds any.
pub find_optimal-some :
    (kept : List InflectionPoint) (x : InflectionPoint)
    → find_optimal kept ≡ some x
    → (is_empty kept ≡ false)
      × Within x.total kept
      × ((P : InflectionPoint → Type 0) → All P kept → P x)
unfolding find_optimal
find_optimal-some [] x e = cc
find_optimal-some (k ∷ ks) x e =
    subst
      (λ x.
        (false ≡ false)
        × Within x.total (k ∷ ks)
        × ((P : InflectionPoint → Type 0) → All P (k ∷ ks) → P x))
      (some-injective (max_element k ks) x e)
      (refl, max_element-Within k ks, λ P (h, hs). max_element-All P k ks h hs)

at_least : (a b : ℤ) → a ≡ b → b ≤ℤ a
at_least a b e = rw e (omega arith)

-- Each point that is behind the limit lowers the score.
abbrev pub Lowers : ℤ → List InflectionPoint → Type 0
Lowers limit = All λ x. (x.score <ℤ ℤ.pos 0) ⊎ (x.pos ≤ℤ limit)

-- Where a greatest total `m` can be.
module _ (m limit : ℤ) where
  abbrev pub AtLimit : List InflectionPoint → Type 0
  AtLimit = All λ x. x.total ≡ m → x.pos ≤ℤ limit

  totals-AtLimit :
      (acc : ℤ) (pts : List InflectionPoint)
      → acc ≤ℤ m
      → Lowers limit pts
      → Within m (add_totals acc pts)
      → AtLimit (add_totals acc pts)
  unfolding add_totals
  totals-AtLimit acc [] h ls w = tt
  totals-AtLimit acc (pt ∷ pts) h (lowers, ls) (here, w) = (
    λ e. elim lowers [
      | inl down ↦ absurd (omega (int_laws, at_least (acc +ℤ pt.score) m e))
      | inr near ↦ near
    ],
    totals-AtLimit (acc +ℤ pt.score) pts here ls w,
  )

  clip_after-AtLimit :
      (last : InflectionPoint) (pts : List InflectionPoint)
      → ℤ.pos 0 ≤ℤ limit
      → Lowers limit pts
      → Within m (clip_after last (add_totals last.total pts))
      → AtLimit (clip_after last (add_totals last.total pts))
  unfolding add_totals clip_after
  clip_after-AtLimit last [] hl ls w = tt
  clip_after-AtLimit last (pt ∷ pts) hl (lowers, ls) w = elim (leb_ℤ-cases (ℤ.pos 0) pt.pos) [
    | inl (y, l) ↦
        let (first, rest) = rw y at w in
        rw y (λ e. hl, totals-AtLimit last.total (pt ∷ pts) first (lowers, ls) rest)
    | inr (n, l) ↦
        rw n
          (clip_after-AtLimit (record pt { total = last.total +ℤ pt.score }) pts hl ls (rw n at w))
  ]

  pub clip-AtLimit :
      (pts : List InflectionPoint)
      → ℤ.pos 0 ≤ℤ m
      → ℤ.pos 0 ≤ℤ limit
      → Lowers limit pts
      → Within m (clip (add_totals (ℤ.pos 0) pts))
      → AtLimit (clip (add_totals (ℤ.pos 0) pts))
  unfolding add_totals clip
  clip-AtLimit [] h hl ls w = tt
  clip-AtLimit (pt ∷ pts) h hl (lowers, ls) w = elim (leb_ℤ-cases (ℤ.pos 0) pt.pos) [
    | inl (y, l) ↦ rw y (totals-AtLimit (ℤ.pos 0) (pt ∷ pts) h (lowers, ls) (rw y at w))
    | inr (n, l) ↦
        rw n (clip_after-AtLimit (record pt { total = ℤ.pos 0 +ℤ pt.score }) pts hl ls (rw n at w))
  ]

-- With all points behind the edge there is nothing to choose from.
clip_after_none :
    (last : InflectionPoint) (pts : List InflectionPoint)
    → is_empty (clip_after last (add_totals last.total pts)) ≡ true
    → All (λ x. x.pos <ℤ ℤ.pos 0) pts
unfolding add_totals clip_after
clip_after_none last [] e = tt
clip_after_none last (pt ∷ pts) e = elim (leb_ℤ-cases (ℤ.pos 0) pt.pos) [
  | inl (y, l) ↦ let bad = rw y at e in cc
  | inr (n, l) ↦ (l, clip_after_none (record pt { total = last.total +ℤ pt.score }) pts (rw n at e))
]

pub clip_none :
    (pts : List InflectionPoint)
    → is_empty (clip (add_totals (ℤ.pos 0) pts)) ≡ true
    → All (λ x. x.pos <ℤ ℤ.pos 0) pts
unfolding add_totals clip
clip_none [] e = tt
clip_none (pt ∷ pts) e = elim (leb_ℤ-cases (ℤ.pos 0) pt.pos) [
  | inl (y, l) ↦ let bad = rw y at e in cc
  | inr (n, l) ↦ (l, clip_after_none (record pt { total = ℤ.pos 0 +ℤ pt.score }) pts (rw n at e))
]
