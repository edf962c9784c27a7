-- ===== src/Url/Trim.antt =====
-- `trim` of src/common/hrb/URLIntent.cc.
use hearty_rabbit.Prelude.{
  ◌≡◌, refl, ap, ◌∙◌, false, ◌&&◌, sym, Avoids, ◌++◌, append-nil, [], ◌∷◌, ◌==◌, Bytes, codes,
  IsBytes, is_empty, Bool-cases, inl, inr, arith,
}
use hearty_rabbit.Url.Pieces.{trim_front-IsBytes, trim_back-Avoids}
use hearty_rabbit.Url.Parse.{trim, trim_front, trim_back}

-- A text that does not begin with a slash.
abbrev NoSlashFirst : Bytes → Type 0
NoSlashFirst [] = Unit
NoSlashFirst (c ∷ s) = (c == b'/') ≡ false

trim_front-NoSlashFirst : (s : Bytes) → NoSlashFirst (trim_front s)
unfolding trim_front
trim_front-NoSlashFirst [] = tt
trim_front-NoSlashFirst (c ∷ s) = elim (Bool-cases (c == b'/')) [
  | inl y ↦ rw y (trim_front-NoSlashFirst s)
  | inr n ↦ rw n n
]

trim_front_same : (s : Bytes) → NoSlashFirst s → trim_front s ≡ s
unfolding trim_front
trim_front_same [] h = refl
trim_front_same (c ∷ s) h = rw h

trim_back-NoSlashFirst : (s : Bytes) → NoSlashFirst s → NoSlashFirst (trim_back s)
unfolding trim_back
trim_back-NoSlashFirst [] h = tt
trim_back-NoSlashFirst (c ∷ s) h = elim (Bool-cases (is_empty (trim_back s))) [
  | inl z ↦ rw (z, h) h
  | inr z ↦ rw z h
]

trim_back_idem : (s : Bytes) → trim_back (trim_back s) ≡ trim_back s
unfolding trim_back
trim_back_idem [] = refl
trim_back_idem (c ∷ s) = elim (Bool-cases (is_empty (trim_back s) && c == b'/')) [
  | inl y ↦ rw y
  | inr n ↦ rw n (rw (trim_back_idem s, n))
]

-- Trimming twice is trimming once.
pub trim_idem : (s : Bytes) → trim (trim s) ≡ trim s
unfolding trim
trim_idem s =
    rw (trim_front_same _ (trim_back-NoSlashFirst _ (trim_front-NoSlashFirst s)), trim_back_idem)

trim_back-IsBytes : (s : Bytes) → IsBytes s → IsBytes (trim_back s)
unfolding trim_back
trim_back-IsBytes [] h = tt
trim_back-IsBytes (c ∷ s) (hc, hs) = elim (Bool-cases (is_empty (trim_back s) && c == b'/')) [
  | inl y ↦ rw y tt
  | inr n ↦ rw n (hc, trim_back-IsBytes s hs)
]

pub trim-IsBytes : (s : Bytes) → IsBytes s → IsBytes (trim s)
unfolding trim
trim-IsBytes s h = trim_back-IsBytes (trim_front s) (trim_front-IsBytes s h)

-- A text without slashes stays as it is.
pub trim-Avoids : (s : Bytes) → Avoids (codes "/") s → trim s ≡ s
unfolding trim
trim-Avoids s a =
    rw (trim_front_same s (first s a))
      (ap trim_back (sym (append-nil s)) ∙ (trim_back-Avoids s [] a ∙ whole s))
  where
    first : (s : Bytes) → Avoids (codes "/") s → NoSlashFirst s
    first [] a = tt
    first (c ∷ s) a = ground arith

    whole : (s : Bytes) → s ++ trim_back [] ≡ s
    whole s = unfold trim_back in append-nil s
