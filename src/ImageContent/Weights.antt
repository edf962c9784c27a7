-- ===== src/ImageContent/Weights.antt =====
-- What a window of the square's size holds of the contents that src/server/image/ImageContent.cc finds,
-- and how the inflection points count it.
use hearty_rabbit.Prelude.{
  ℕ, ◌+◌, ◌≤◌, ◌<◌, ◌≡◌, ◌∙◌, refl, Bool, ◌&&◌, List, [], ◌∷◌, ◌++◌, if◌then◌else◌, All, inl, inr,
  arith, ltb, leb,
}
use hearty_rabbit.Prelude.Int.{ℤ, ◌+ℤ◌, ◌-ℤ◌, ◌≤ℤ◌, leb_ℤ, ltb_ℤ, int_laws, zero_+ℤ, +ℤ_zero}
use hearty_rabbit.ImageContent.{
  InflectionPoint, Rect, ImageContent, start_of, end_of, score_of, window_length, length_of, enter,
  exit, add_content, inflections,
}
use hearty_rabbit.ImageContent.Sums.{sum_of, sum_of-append, up_to, at_best}
use hearty_rabbit.ImageContent.Greatest.{Lowers}

-- The window at a position holds the rectangle, and still holds it one step further.
abbrev pub holds : ImageContent → ℕ → Rect → Bool
holds c p r = leb (end_of c r) (p + window_length c) && leb p (start_of c r)

abbrev pub holds_on : ImageContent → ℕ → Rect → Bool
holds_on c p r = leb (end_of c r) (p + window_length c) && ltb p (start_of c r)

abbrev pub weight_of : (Rect → Bool) → ℕ → List Rect → ℕ
weight_of held ratio [] = 0
weight_of held ratio (r ∷ rs) = (if held r then score_of ratio r else 0) + weight_of held ratio rs

abbrev pub weight : ImageContent → (Rect → Bool) → ℕ
weight c held = weight_of held 1 c.faces + weight_of held 0 c.features

-- The rectangle is inside the image and no longer than the window.
pub record IsFitting (c : ImageContent) (r : Rect) : Type 0 where
  pub in_image : end_of c r ≤ length_of c
  pub in_window : end_of c r ≤ start_of c r + window_length c

pub score_positive : (ratio : ℕ) (r : Rect) → 0 < score_of ratio r
score_positive ratio r = ground arith

leb_enter : (e w q : ℕ) → leb_ℤ (ℤ.pos e -ℤ ℤ.pos w) (ℤ.pos q) ≡ leb e (q + w)
unfolding ◌-ℤ◌
leb_enter e w q = ground arith

ltb_enter : (e w q : ℕ) → ltb_ℤ (ℤ.pos e -ℤ ℤ.pos w) (ℤ.pos q) ≡ ltb e (q + w)
unfolding ◌-ℤ◌
ltb_enter e w q = ground arith

leb_exit : (b q : ℕ) → leb_ℤ (ℤ.pos b) (ℤ.pos q) ≡ leb b q
leb_exit b q = ground arith

ltb_exit : (b q : ℕ) → ltb_ℤ (ℤ.pos b) (ℤ.pos q) ≡ ltb b q
ltb_exit b q = ground arith

never_raised :
    (s : ℕ) (b : Bool) (x : ℤ)
    → (if b && ltb_ℤ (ℤ.pos 0) (ℤ.pos 0 -ℤ ℤ.pos s) then x else ℤ.pos 0) ≡ ℤ.pos 0
unfolding ◌-ℤ◌
never_raised s b x = ground arith

rise :
    (e w b s q : ℕ)
    → e ≤ b + w
    → ℤ.pos (if leb e (q + w) && ltb q b then s else 0)
      ≤ℤ (if leb_ℤ (ℤ.pos e -ℤ ℤ.pos w) (ℤ.pos q) then ℤ.pos s else ℤ.pos 0)
        +ℤ (if leb_ℤ (ℤ.pos b) (ℤ.pos q) then ℤ.pos 0 -ℤ ℤ.pos s else ℤ.pos 0)
unfolding ◌+ℤ◌ ◌-ℤ◌
rise e w b s q h = rw (leb_enter e w q, leb_exit b q) (ground arith)

fall :
    (e w b s q : ℕ)
    → e ≤ b + w
    → 0 < s
    → (if ltb_ℤ (ℤ.pos e -ℤ ℤ.pos w) (ℤ.pos q)
          then ℤ.pos s
          else if leb_ℤ (ℤ.pos e -ℤ ℤ.pos w) (ℤ.pos q) && ltb_ℤ (ℤ.pos 0) (ℤ.pos s)
          then ℤ.pos s
          else ℤ.pos 0)
        +ℤ (if ltb_ℤ (ℤ.pos b) (ℤ.pos q)
            then ℤ.pos 0 -ℤ ℤ.pos s
            else if leb_ℤ (ℤ.pos b) (ℤ.pos q) && ltb_ℤ (ℤ.pos 0) (ℤ.pos 0 -ℤ ℤ.pos s)
            then ℤ.pos 0 -ℤ ℤ.pos s
            else ℤ.pos 0)
      ≤ℤ ℤ.pos (if leb e (q + w) && leb q b then s else 0)
unfolding ◌+ℤ◌ ◌-ℤ◌
fall e w b s q h positive =
    rw
      (
        ltb_enter e w q,
        leb_enter e w q,
        ltb_exit b q,
        never_raised s (leb_ℤ (ℤ.pos b) (ℤ.pos q)) (ℤ.pos 0 -ℤ ℤ.pos s),
      )
      (ground arith)

up_to_points :
    (c : ImageContent) (ratio q : ℕ) (r : Rect)
    → IsFitting c r
    → ℤ.pos (if holds_on c q r then score_of ratio r else 0)
      ≤ℤ up_to (ℤ.pos q) (enter c ratio r) +ℤ up_to (ℤ.pos q) (exit c ratio r)
unfolding enter exit
up_to_points c ratio q r fits =
    rise (end_of c r) (window_length c) (start_of c r) (score_of ratio r) q fits.in_window

at_best_points :
    (c : ImageContent) (ratio p : ℕ) (r : Rect)
    → IsFitting c r
    → at_best (ℤ.pos p) (enter c ratio r) +ℤ at_best (ℤ.pos p) (exit c ratio r)
      ≤ℤ ℤ.pos (if holds c p r then score_of ratio r else 0)
unfolding enter exit
at_best_points c ratio p r fits =
    fall (end_of c r) (window_length c) (start_of c r) (score_of ratio r) p fits.in_window
      (score_positive ratio r)

score_points :
    (c : ImageContent) (ratio : ℕ) (r : Rect)
    → (enter c ratio r).score +ℤ (exit c ratio r).score ≡ ℤ.pos 0
unfolding enter exit
score_points c ratio r = omega int_laws

Lowers-points :
    (c : ImageContent) (ratio : ℕ) (r : Rect)
    → IsFitting c r
    → Lowers
        (ℤ.pos (length_of c) -ℤ ℤ.pos (window_length c))
        (enter c ratio r ∷ (exit c ratio r ∷ []))
unfolding enter exit
Lowers-points c ratio r fits =
    let positive = score_positive ratio r in
    let inside = fits.in_image in (inr (omega int_laws), (inl (omega int_laws), tt))

-- Over the rectangles of one kind, and over both.
add_content-up_to :
    (c : ImageContent) (ratio q : ℕ) (rs : List Rect)
    → All (IsFitting c) rs
    → ℤ.pos (weight_of (holds_on c q) ratio rs) ≤ℤ sum_of (up_to (ℤ.pos q)) (add_content c ratio rs)
unfolding add_content
add_content-up_to c ratio q [] fits = omega arith
add_content-up_to c ratio q (r ∷ rs) (fit, fits) =
    omega (int_laws, up_to_points c ratio q r fit, add_content-up_to c ratio q rs fits)

add_content-at_best :
    (c : ImageContent) (ratio p : ℕ) (rs : List Rect)
    → All (IsFitting c) rs
    → sum_of (at_best (ℤ.pos p)) (add_content c ratio rs) ≤ℤ ℤ.pos (weight_of (holds c p) ratio rs)
unfolding add_content
add_content-at_best c ratio p [] fits = omega arith
add_content-at_best c ratio p (r ∷ rs) (fit, fits) =
    omega (int_laws, at_best_points c ratio p r fit, add_content-at_best c ratio p rs fits)

add_content-score :
    (c : ImageContent) (ratio : ℕ) (rs : List Rect)
    → sum_of (λ x. x.score) (add_content c ratio rs) ≡ ℤ.pos 0
unfolding add_content
add_content-score c ratio [] = refl
add_content-score c ratio (r ∷ rs) =
    rw (add_content-score c ratio rs, +ℤ_zero) (score_points c ratio r)

All-append :
    (P : InflectionPoint → Type 0) (a b : List InflectionPoint) → All P a → All P b → All P (a ++ b)
All-append P [] b ha hb = hb
All-append P (x ∷ a) b (h, ha) hb = (h, All-append P a b ha hb)

add_content-Lowers :
    (c : ImageContent) (ratio : ℕ) (rs : List Rect)
    → All (IsFitting c) rs
    → Lowers (ℤ.pos (length_of c) -ℤ ℤ.pos (window_length c)) (add_content c ratio rs)
unfolding add_content
add_content-Lowers c ratio [] fits = tt
add_content-Lowers c ratio (r ∷ rs) (fit, fits) =
    let (first, (second, none_left)) = Lowers-points c ratio r fit in
    (first, (second, add_content-Lowers c ratio rs fits))

module _ (c : ImageContent) (faces_fit : All (IsFitting c) c.faces)
    (features_fit : All (IsFitting c) c.features) where
  pub inflections-up_to :
      (q : ℕ) → ℤ.pos (weight c (holds_on c q)) ≤ℤ sum_of (up_to (ℤ.pos q)) (inflections c)
  unfolding inflections
  inflections-up_to q =
      rw (sum_of-append (up_to (ℤ.pos q)) (add_content c 1 c.faces) (add_content c 0 c.features)) (
        omega (
          int_laws,
          add_content-up_to c 1 q c.faces faces_fit,
          add_content-up_to c 0 q c.features features_fit,
        ))

  pub inflections-at_best :
      (p : ℕ) → sum_of (at_best (ℤ.pos p)) (inflections c) ≤ℤ ℤ.pos (weight c (holds c p))
  unfolding inflections
  inflections-at_best p =
      rw (sum_of-append (at_best (ℤ.pos p)) (add_content c 1 c.faces) (add_content c 0 c.features))
        (omega (
          int_laws,
          add_content-at_best c 1 p c.faces faces_fit,
          add_content-at_best c 0 p c.features features_fit,
        ))

  pub inflections-Lowers : Lowers (ℤ.pos (length_of c) -ℤ ℤ.pos (window_length c)) (inflections c)
  unfolding inflections
  inflections-Lowers =
      All-append _ (add_content c 1 c.faces) (add_content c 0 c.features)
        (add_content-Lowers c 1 c.faces faces_fit) (add_content-Lowers c 0 c.features features_fit)

pub inflections-score : (c : ImageContent) → sum_of (λ x. x.score) (inflections c) ≡ ℤ.pos 0
unfolding inflections
inflections-score c =
    sum_of-append (λ x. x.score) (add_content c 1 c.faces) (add_content c 0 c.features)
    ∙ rw (add_content-score c 1 c.faces, add_content-score c 0 c.features) (zero_+ℤ (ℤ.pos 0))
