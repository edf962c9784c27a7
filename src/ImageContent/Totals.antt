-- ===== src/ImageContent/Totals.antt =====
-- The totals of the inflection points of src/server/image/ImageContent.cc, in the order of positions.
use hearty_rabbit.Prelude.{◌≡◌, refl, false, List, [], ◌∷◌, All, is_empty, inl, inr, arith}
use hearty_rabbit.Prelude.Int.{ℤ, ◌+ℤ◌, ◌≤ℤ◌, ◌<ℤ◌, leb_ℤ-cases, int_laws}
use hearty_rabbit.ImageContent.{InflectionPoint, add_totals, clip, clip_after}
use hearty_rabbit.ImageContent.Sums.{sum_of, IsSorted, up_to, up_to_in, up_to_out, sum_behind}

pub All-map {ℓ κ} :
    {A : Type ℓ} {P Q : A → Type κ} (xs : List A) → ((x : A) → P x → Q x) → All P xs → All Q xs
All-map [] f h = tt
All-map (x ∷ xs) f (hx, hs) = (f x hx, All-map xs f hs)

-- The totals leave the positions as they are.
pub totals_All :
    (P : ℤ → Type 0) (acc : ℤ) (pts : List InflectionPoint)
    → All (λ x. P x.pos) pts
    → All (λ x. P x.pos) (add_totals acc pts)
unfolding add_totals
totals_All P acc [] h = tt
totals_All P acc (pt ∷ pts) (hp, hs) = (hp, totals_All P (acc +ℤ pt.score) pts hs)

last_position : (pts : List InflectionPoint) → (q : ℤ) × (ℤ.pos 0 ≤ℤ q) × All (λ x. x.pos ≤ℤ q) pts
last_position [] = (ℤ.pos 0, omega arith, tt)
last_position (pt ∷ pts) =
    let (q, h, hs) = last_position pts in
    elim (leb_ℤ-cases pt.pos q) [
      | inl (y, l) ↦ (q, h, (l, hs))
      | inr (n, l) ↦
          (pt.pos, omega arith, (omega arith, All-map pts (λ x (g : x.pos ≤ℤ q). omega arith) hs))
    ]

pub sum_up_to_last :
    (q : ℤ) (pts : List InflectionPoint)
    → All (λ x. x.pos ≤ℤ q) pts
    → sum_of (up_to q) pts ≡ sum_of (λ x. x.score) pts
sum_up_to_last q [] h = refl
sum_up_to_last q (pt ∷ pts) (hp, hs) = rw (up_to_in q pt hp, sum_up_to_last q pts hs)

module _ (m : ℤ) where
  abbrev pub Within : List InflectionPoint → Type 0
  Within = All λ x. x.total ≤ℤ m

  -- The score at a position is one of the totals, or none is counted.
  total_up_to :
      (q acc : ℤ) (pts : List InflectionPoint)
      → IsSorted pts
      → acc ≤ℤ m
      → Within (add_totals acc pts)
      → acc +ℤ sum_of (up_to q) pts ≤ℤ m
  unfolding add_totals
  total_up_to q acc [] s h w = omega int_laws
  total_up_to q acc (pt ∷ pts) (later, s) h (here, w) = elim (leb_ℤ-cases pt.pos q) [
    | inl (y, l) ↦
        rw (up_to_in q pt l) (omega (int_laws, total_up_to q (acc +ℤ pt.score) pts s here w))
    | inr (n, l) ↦
        let behind : All (λ x. q <ℤ x.pos) pts =
          All-map pts (λ x (g : pt.pos ≤ℤ x.pos). omega arith) later in
        rw (up_to_out q pt l, sum_behind q pts behind) (omega int_laws)
  ]

  clip_up_to :
      (q : ℤ) (last : InflectionPoint) (pts : List InflectionPoint)
      → ℤ.pos 0 ≤ℤ q
      → IsSorted pts
      → is_empty (clip_after last (add_totals last.total pts)) ≡ false
      → Within (clip_after last (add_totals last.total pts))
      → last.total +ℤ sum_of (up_to q) pts ≤ℤ m
  unfolding add_totals clip_after
  clip_up_to q last [] hq s some_point w = cc
  clip_up_to q last (pt ∷ pts) hq (later, s) some_point w = elim (leb_ℤ-cases (ℤ.pos 0) pt.pos) [
    | inl (y, l) ↦
        let (first, rest) = rw y at w in total_up_to q last.total (pt ∷ pts) (later, s) first rest
    | inr (n, l) ↦
        let rest =
          clip_up_to q (record pt { total = last.total +ℤ pt.score }) pts hq s (rw n at some_point)
            (rw n at w) in
        rw (up_to_in q pt (omega arith)) (omega (int_laws, rest))
  ]

  clip_first :
      (q : ℤ) (pt : InflectionPoint) (pts : List InflectionPoint)
      → ℤ.pos 0 ≤ℤ q
      → pt.pos ≤ℤ q
      → IsSorted (pt ∷ pts)
      → is_empty (clip (add_totals (ℤ.pos 0) (pt ∷ pts))) ≡ false
      → Within (clip (add_totals (ℤ.pos 0) (pt ∷ pts)))
      → sum_of (up_to q) (pt ∷ pts) ≤ℤ m
  unfolding add_totals clip
  clip_first q pt pts hq hp (later, s) some_point w =
      let total = ℤ.pos 0 +ℤ pt.score in
      elim (leb_ℤ-cases (ℤ.pos 0) pt.pos) [
        | inl (y, l) ↦
            let (first, rest) = rw y at w in
            rw (up_to_in q pt hp) (omega (int_laws, total_up_to q total pts s first rest))
        | inr (n, l) ↦
            let rest =
              clip_up_to q (record pt { total = total }) pts hq s (rw n at some_point)
                (rw n at w) in
            rw (up_to_in q pt hp) (omega (int_laws, rest))
      ]

  -- The score at a position inside the image is at most the greatest of the totals that are left.
  pub clip_best :
      (q : ℤ) (pts : List InflectionPoint)
      → ℤ.pos 0 ≤ℤ q
      → ℤ.pos 0 ≤ℤ m
      → IsSorted pts
      → is_empty (clip (add_totals (ℤ.pos 0) pts)) ≡ false
      → Within (clip (add_totals (ℤ.pos 0) pts))
      → sum_of (up_to q) pts ≤ℤ m
  clip_best q [] hq hm s some_point w = hm
  clip_best q (pt ∷ pts) hq hm (later, s) some_point w = elim (leb_ℤ-cases pt.pos q) [
    | inl (y, l) ↦ clip_first q pt pts hq l (later, s) some_point w
    | inr (n, l) ↦
        let behind : All (λ x. q <ℤ x.pos) pts =
          All-map pts (λ x (g : pt.pos ≤ℤ x.pos). omega arith) later in
        rw (up_to_out q pt l, sum_behind q pts behind) (omega int_laws)
  ]

  -- If all scores cancel, a greatest total is not below zero.
  pub clip_nonneg :
      (pts : List InflectionPoint)
      → sum_of (λ x. x.score) pts ≡ ℤ.pos 0
      → IsSorted pts
      → is_empty (clip (add_totals (ℤ.pos 0) pts)) ≡ false
      → Within (clip (add_totals (ℤ.pos 0) pts))
      → ℤ.pos 0 ≤ℤ m
  unfolding add_totals clip
  clip_nonneg [] e s some_point w = cc
  clip_nonneg (pt ∷ pts) e s some_point w =
      let (q, hq, (hp, hs)) = last_position (pt ∷ pts) in
      let all = clip_first q pt pts hq hp s some_point w in
      rw (sum_up_to_last q (pt ∷ pts) (hp, hs), e) at all
