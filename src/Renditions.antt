-- ===== src/Renditions.antt =====
-- `RenditionSetting` of src/server/util/Configuration.hh and Configuration.cc: the sizes in which
-- images are sent, by name. `find` calls itself, so it is on fuel: `none` says that it has not
-- returned.
pub mod Served
pub mod Answered
use hearty_rabbit.Prelude.{
  ℕ, zero, suc, ◌≡◌, ◌⊎◌, inl, inr, refl, ◌∙◌, Bool, true, false, List, [], ◌∷◌, Option, none, some,
  if◌then◌else◌, Bytes, codes, is_empty, bytes_eq, bytes_eq_sound, bytes_eq_apart, Bool-cases,
  Option-cases,
}

-- Sizes are positive, as the configuration makes them.
pub record Size2D : Type 0 where
  pub width : ℕ
  pub height : ℕ

pub record JpegRenditionSetting : Type 0 where
  pub dim : Size2D
  pub quality : ℕ
  pub square_crop : Bool

pub record Rendition : Type 0 where
  pub name : Bytes
  pub setting : JpegRenditionSetting

-- A map, as the list of its entries with different names.
pub record RenditionSetting : Type 0 where
  pub default_ : Bytes
  pub renditions : List Rendition

-- `RenditionSetting()`.
abbrev pub initial : RenditionSetting
initial = record {
  default_ = codes "2048x2048";
  renditions =
      record {
        name = codes "2048x2048";
        setting = record {
          dim = record { width = 2048; height = 2048 };
          quality = 70;
          square_crop = false;
        };
      }
      ∷ [];
}

-- `find` of the map.
unfoldable pub look_up : List Rendition → Bytes → Option JpegRenditionSetting
look_up [] rend = none
look_up (r ∷ rs) rend =
    let others = look_up rs rend in if bytes_eq r.name rend then some r.setting else others

unfoldable pub valid : RenditionSetting → Bytes → Bool
valid s rend = elim (look_up s.renditions rend) [ none ↦ false | some r ↦ true ]

-- `insert_or_assign`.
unfoldable pub assign : Bytes → JpegRenditionSetting → List Rendition → List Rendition
assign rend setting [] = record { name = rend; setting = setting } ∷ []
assign rend setting (r ∷ rs) =
    let others = assign rend setting rs in
    if bytes_eq r.name rend then record { name = rend; setting = setting } ∷ rs else r ∷ others

unfoldable pub add : Bytes → JpegRenditionSetting → RenditionSetting → RenditionSetting
add rend setting s = record s { renditions = assign rend setting s.renditions }

unfoldable pub set_default : Bytes → RenditionSetting → RenditionSetting
set_default rend s = record s { default_ = rend }

unfoldable pub find : ℕ → RenditionSetting → Bytes → Option JpegRenditionSetting
find zero s rend = none
find (suc fuel) s rend =
    let asked = (if is_empty rend then s.default_ else rend) in
    let by_default = find fuel s s.default_ in
    elim (look_up s.renditions asked) [ none ↦ by_default | some r ↦ some r ]

abbrev asked : RenditionSetting → Bytes → Bytes
asked s rend = if is_empty rend then s.default_ else rend

-- The setting asked for, or else the default one.
abbrev pub wanted : RenditionSetting → Bytes → Option JpegRenditionSetting
wanted s rend = elim (look_up s.renditions (asked s rend)) [
  | none ↦ look_up s.renditions s.default_
  | some r ↦ some r
]

find_hit :
    (fuel : ℕ) (s : RenditionSetting) (rend : Bytes) (r : JpegRenditionSetting)
    → look_up s.renditions (asked s rend) ≡ some r
    → find (suc fuel) s rend ≡ some r
unfolding find
find_hit fuel s rend r e = rw (find, e)

find_miss :
    (fuel : ℕ) (s : RenditionSetting) (rend : Bytes)
    → look_up s.renditions (asked s rend) ≡ none
    → find (suc fuel) s rend ≡ find fuel s s.default_
unfolding find
find_miss fuel s rend e = rw (find, e)

asked_default : (s : RenditionSetting) → asked s s.default_ ≡ s.default_
asked_default s = elim (Bool-cases (is_empty s.default_)) [ inl y ↦ rw y | inr n ↦ rw n ]

asked_cases :
    (s : RenditionSetting) (rend : Bytes) → (asked s rend ≡ s.default_) ⊎ (asked s rend ≡ rend)
asked_cases s [] = inl refl
asked_cases s (c ∷ rend) = inr refl

-- If the default rendition is there, two calls are enough for `find` to return the rendition asked
-- for, or the default one if that is missing or has no name.
pub find_returns :
    (fuel : ℕ) (s : RenditionSetting) (rend : Bytes) (d : JpegRenditionSetting)
    → look_up s.renditions s.default_ ≡ some d
    → (r : JpegRenditionSetting) × (find (suc (suc fuel)) s rend ≡ some r)
      × (wanted s rend ≡ some r)
find_returns fuel s rend d h = elim (Option-cases (look_up s.renditions (asked s rend))) [
  | inr (r, e) ↦ (r, find_hit (suc fuel) s rend r e, rw (wanted, e))
  | inl e ↦ (
    d,
    find_miss (suc fuel) s rend e ∙ find_hit fuel s s.default_ d (rw (asked_default s) h),
    rw (wanted, e) h,
  )
]

-- If it is not there, `find` of a rendition that is missing never returns.
pub find_loops :
    (fuel : ℕ) (s : RenditionSetting) (rend : Bytes)
    → look_up s.renditions s.default_ ≡ none
    → look_up s.renditions rend ≡ none
    → find fuel s rend ≡ none
unfolding find
find_loops zero s rend h e = refl
find_loops (suc fuel) s rend h e =
    let missing : look_up s.renditions (asked s rend) ≡ none = elim (asked_cases s rend) [
      | inl a ↦ rw a h
      | inr a ↦ rw a e
    ] in
    find_miss fuel s rend missing ∙ find_loops fuel s s.default_ h h

-- A rendition that is added is found, and adding leaves the others as they are.
pub look_up-assign :
    (rend other : Bytes) (setting : JpegRenditionSetting) (rs : List Rendition)
    → look_up (assign rend setting rs) other
      ≡ (if bytes_eq rend other then some setting else look_up rs other)
unfolding look_up assign
look_up-assign rend other setting [] = refl
look_up-assign rend other setting (r ∷ rs) = elim (Bool-cases (bytes_eq r.name rend)) [
  | inl y ↦
      let same = bytes_eq_sound r.name rend y in
      elim (Bool-cases (bytes_eq rend other)) [ inl z ↦ rw (y, same, z) | inr m ↦ rw (y, same, m) ]
  | inr n ↦ elim (Bool-cases (bytes_eq r.name other)) [
    | inl z ↦ rw (n, z, bytes_eq_apart r.name rend other n z)
    | inr m ↦ rw (n, m, look_up-assign rend other setting rs)
  ]
]
