-- ===== src/ImageContent.antt =====
-- src/server/image/ImageContent.cc and ImageContent.hh: the square that an image is cropped to. What
-- OpenCV detects is an argument: rectangles and points inside the image. Numbers are not cut off at 32
-- bits.
pub mod Totals
pub mod Sums
pub mod Chosen
pub mod Greatest
pub mod Weights
pub mod Optimal
use hearty_rabbit.Prelude.{
  ℕ, ◌+◌, ◌-◌, ◌*◌, ◌/◌, Bool, true, false, List, [], ◌∷◌, ◌++◌, Option, none, some, ltb, leb,
  if◌then◌else◌, min,
}
use hearty_rabbit.Prelude.Int.{ℤ, ◌+ℤ◌, ◌-ℤ◌, ltb_ℤ, leb_ℤ}

pub record Rect : Type 0 where
  pub x : ℕ
  pub y : ℕ
  pub width : ℕ
  pub height : ℕ

pub record ImageContent : Type 0 where
  pub cols : ℕ
  pub rows : ℕ
  pub faces : List Rect
  pub eyes : List Rect
  pub features : List Rect

pub record InflectionPoint : Type 0 where
  pub pos : ℤ
  pub score : ℤ
  pub total : ℤ

-- The rectangle that is kept.
pub record Roi : Type 0 where
  pub x : ℤ
  pub y : ℤ
  pub width : ℕ
  pub height : ℕ

-- Eyes are found relative to their face.
unfoldable pub move_eyes : Rect → List Rect → List Rect
move_eyes face [] = []
move_eyes face (eye ∷ eyes) =
    record eye { x = eye.x + face.x; y = eye.y + face.y } ∷ move_eyes face eyes

-- The loop over the faces; one without eyes is a feature only.
unfoldable pub add_face : Rect → List Rect → ImageContent → ImageContent
unfolding move_eyes
add_face face [] c = record c { features = c.features ++ face ∷ [] }
add_face face (eye ∷ eyes) c = record c {
  eyes = c.eyes ++ move_eyes face (eye ∷ eyes);
  faces = c.faces ++ face ∷ [];
}

unfoldable pub add_faces : List (Rect × List Rect) → ImageContent → ImageContent
unfolding add_face
add_faces [] c = c
add_faces ((face, eyes) ∷ found) c = add_faces found (add_face face eyes c)

unfoldable pub add_features : List (ℕ × ℕ) → ImageContent → ImageContent
add_features [] c = c
add_features ((x, y) ∷ points) c =
    add_features points
      (record c { features = c.features ++ record { x = x; y = y; width = 0; height = 0 } ∷ [] })

-- The constructor, with the faces that are detected, each with its eyes, and the features.
unfoldable pub image_content : ℕ → ℕ → List (Rect × List Rect) → List (ℕ × ℕ) → ImageContent
unfolding add_faces add_features
image_content cols rows found points =
    add_features points
      (add_faces found (record { cols = cols; rows = rows; faces = []; eyes = []; features = [] }))

-- The principal axis.
abbrev pub is_wide : ImageContent → Bool
is_wide c = ltb c.rows c.cols

abbrev pub window_length : ImageContent → ℕ
window_length c = if is_wide c then c.rows else c.cols

abbrev pub start_of : ImageContent → Rect → ℕ
start_of c r = if is_wide c then r.x else r.y

abbrev pub end_of : ImageContent → Rect → ℕ
end_of c r = if is_wide c then r.x + r.width else r.y + r.height

abbrev pub score_of : ℕ → Rect → ℕ
score_of ratio r = let area = ratio * r.width * r.height in if ltb area 1 then 1 else area

-- Where a rectangle enters the window, and where it leaves it.
unfoldable pub enter : ImageContent → ℕ → Rect → InflectionPoint
enter c ratio r = record {
  pos = ℤ.pos (end_of c r) -ℤ ℤ.pos (window_length c);
  score = ℤ.pos (score_of ratio r);
  total = ℤ.pos 0;
}

unfoldable pub exit : ImageContent → ℕ → Rect → InflectionPoint
exit c ratio r = record {
  pos = ℤ.pos (start_of c r);
  score = ℤ.pos 0 -ℤ ℤ.pos (score_of ratio r);
  total = ℤ.pos 0;
}

-- `add_content` for each rectangle.
unfoldable pub add_content : ImageContent → ℕ → List Rect → List InflectionPoint
unfolding enter exit
add_content c ratio [] = []
add_content c ratio (r ∷ rs) = enter c ratio r ∷ exit c ratio r ∷ add_content c ratio rs

unfoldable pub inflections : ImageContent → List InflectionPoint
unfolding add_content
inflections c = add_content c 1 c.faces ++ add_content c 0 c.features

unfoldable pub add_totals : ℤ → List InflectionPoint → List InflectionPoint
add_totals score [] = []
add_totals score (pt ∷ pts) =
    let total = score +ℤ pt.score in record pt { total = total } ∷ add_totals total pts

-- The points before the image: the last of them stands for all, at the edge; if no point is behind
-- the edge, all are erased.
unfoldable pub clip_after : InflectionPoint → List InflectionPoint → List InflectionPoint
clip_after last [] = []
clip_after last (pt ∷ pts) =
    let rest = clip_after pt pts in
    if leb_ℤ (ℤ.pos 0) pt.pos then record last { pos = ℤ.pos 0 } ∷ pt ∷ pts else rest

unfoldable pub clip : List InflectionPoint → List InflectionPoint
unfolding clip_after
clip [] = []
clip (pt ∷ pts) = if leb_ℤ (ℤ.pos 0) pt.pos then pt ∷ pts else clip_after pt pts

-- `std::max_element`: the first of the greatest.
unfoldable pub max_element : InflectionPoint → List InflectionPoint → InflectionPoint
max_element best [] = best
max_element best (pt ∷ pts) = max_element (if ltb_ℤ best.total pt.total then pt else best) pts

unfoldable pub find_optimal : List InflectionPoint → Option InflectionPoint
unfolding max_element
find_optimal [] = none
find_optimal (pt ∷ pts) = some (max_element pt pts)

abbrev pub place : ImageContent → ℤ → Roi
place c at =
    if is_wide c
    then record { x = at; y = ℤ.pos 0; width = window_length c; height = window_length c }
    else record { x = ℤ.pos 0; y = at; width = window_length c; height = window_length c }

abbrev pub length_of : ImageContent → ℕ
length_of c = if is_wide c then c.cols else c.rows

-- `std::sort` leaves points at the same position in any order, so it is an argument.
module _ (sort : List InflectionPoint → List InflectionPoint) where
  unfoldable pub optimal : ImageContent → Option InflectionPoint
  unfolding inflections add_totals clip find_optimal
  optimal c = find_optimal (clip (add_totals (ℤ.pos 0) (sort (inflections c))))

  unfoldable pub square_crop : ImageContent → Roi
  unfolding optimal
  square_crop c = elim (optimal c) [
    | none ↦ place c (ℤ.pos (length_of c / 2 - window_length c / 2))
    | some pt ↦ place c pt.pos
  ]

-- `square_crop` of src/server/hrb/BlobFile.cc where the detection throws: the middle of the image.
unfoldable pub centre_crop : ImageContent → Roi
centre_crop c = place c (ℤ.pos (length_of c / 2 - window_length c / 2))
