-- ===== src/Url/Pieces.antt =====
-- What the parts of the URL parser do to a text that the writer made.
use hearty_rabbit.Prelude.{
  ℕ, ◌≡◌, refl, Bool, true, false, ◌&&◌, [], ◌∷◌, ◌++◌, ◌==◌, if◌then◌else◌, Bytes, codes, length,
  drop, drop-append, Avoids, IsBytes, IsByte, is_empty, Bool-cases, inl, inr, arith, all_below,
  all_below_sound,
}
use hearty_rabbit.Escape.SplitLaws.{split_left-append, split_left_none}
use hearty_rabbit.Escape.Url.{url_encode, encode_byte, need_escape}
use hearty_rabbit.Escape.UrlLaws.{avoids, avoids-Avoids}
use hearty_rabbit.Url.Parse.{extract_left, trim, trim_front, trim_back}

drop_all : (s : Bytes) → drop (length s) s ≡ []
drop_all [] = refl
drop_all (c ∷ s) = drop_all s

-- A field is cut at the first slash, question mark or hash; only the slash is dropped.
pub extract_left_slash :
    (f rest : Bytes) → Avoids (codes "/?#") f → extract_left (f ++ b'/' ∷ rest) ≡ (f, rest)
unfolding extract_left
extract_left_slash f rest h = rw (split_left-append f b'/' rest (codes "/?#") h refl)

pub extract_left_query :
    (f rest : Bytes) → Avoids (codes "/?#") f → extract_left (f ++ b'?' ∷ rest) ≡ (f, b'?' ∷ rest)
unfolding extract_left
extract_left_query f rest h = rw (split_left-append f b'?' rest (codes "/?#") h refl, drop-append)

pub extract_left_all : (f : Bytes) → Avoids (codes "/?#") f → extract_left f ≡ (f, [])
unfolding extract_left
extract_left_all f h = rw (split_left_none f (codes "/?#") h, drop_all)

-- Whether a slash is encoded by itself, and any other byte without a slash.
keeps_slash : ℕ → Bytes → Bool
keeps_slash c [] = false
keeps_slash c (d ∷ r) = if c == b'/' then d == b'/' && is_empty r else avoids (codes "/") (d ∷ r)

slash_table : all_below 256 (λ c. keeps_slash c (encode_byte c)) ≡ true
unfolding all_below keeps_slash encode_byte
slash_table = refl

data Encoded (c : ℕ) (s : Bytes) : Type 0 where
  slash : (c == b'/') ≡ true → s ≡ b'/' ∷ [] → Encoded c s
  other :
      (c == b'/') ≡ false
      → (d : ℕ) (r : Bytes) → s ≡ d ∷ r
      → Avoids (codes "/") (d ∷ r)
      → Encoded c s

keeps_slash-Encoded : (c : ℕ) (s : Bytes) → keeps_slash c s ≡ true → Encoded c s
unfolding keeps_slash
keeps_slash-Encoded c [] h = cc
keeps_slash-Encoded c (d ∷ r) h = elim (Bool-cases (c == b'/')) [
  | inl y ↦ slash y (alone r (rw y at h))
  | inr n ↦ other n d r refl (avoids-Avoids (codes "/") (d ∷ r) (rw n at h))
]
  where
    alone : (r : Bytes) → (d == b'/' && is_empty r) ≡ true → d ∷ r ≡ b'/' ∷ []
    alone [] e = ground arith
    alone (x ∷ r) e = ground arith

encoded : (c : ℕ) → IsByte c → Encoded c (encode_byte c)
encoded c h = keeps_slash-Encoded c _ (all_below_sound 256 _ c slash_table h)

pub trim_back-Avoids : (f s : Bytes) → Avoids (codes "/") f → trim_back (f ++ s) ≡ f ++ trim_back s
unfolding trim_back
trim_back-Avoids [] s a = refl
trim_back-Avoids (c ∷ f) s (ac, as') =
    let n : (c == b'/') ≡ false = ground arith in rw (n, trim_back-Avoids f s as') (ground arith)

-- Trimming commutes with encoding.
trim_front-url_encode :
    (s : Bytes) → IsBytes s → trim_front (url_encode s) ≡ url_encode (trim_front s)
unfolding trim_front url_encode
trim_front-url_encode [] h = refl
trim_front-url_encode (c ∷ s) (hc, hs) = elim (encoded c hc) [
  | slash y e ↦ rw (e, y) (trim_front-url_encode s hs)
  | other n d r e a ↦ let m : (d == b'/') ≡ false = ground arith in rw (e, n, m) (rw e)
]

pub is_empty-url_encode : (s : Bytes) → is_empty (url_encode s) ≡ is_empty s
unfolding url_encode encode_byte
is_empty-url_encode [] = refl
is_empty-url_encode (c ∷ s) = elim (Bool-cases (need_escape c)) [ inl y ↦ rw y | inr n ↦ rw n ]

trim_back_slash :
    (c : ℕ) (s t : Bytes)
    → (c == b'/') ≡ true
    → encode_byte c ≡ b'/' ∷ []
    → t ≡ url_encode (trim_back s)
    → (if is_empty t && true then [] else b'/' ∷ t)
      ≡ url_encode (if is_empty (trim_back s) && true then [] else c ∷ trim_back s)
unfolding url_encode
trim_back_slash c s t y e h = elim (Bool-cases (is_empty (trim_back s))) [
  | inl z ↦ rw (h, is_empty-url_encode (trim_back s), z)
  | inr z ↦ rw (h, is_empty-url_encode (trim_back s), z, e)
]

trim_back-url_encode : (s : Bytes) → IsBytes s → trim_back (url_encode s) ≡ url_encode (trim_back s)
unfolding trim_back url_encode
trim_back-url_encode [] h = refl
trim_back-url_encode (c ∷ s) (hc, hs) = elim (encoded c hc) [
  | slash y e ↦ rw (e, y) (trim_back_slash c s _ y e (trim_back-url_encode s hs))
  | other n d r e a ↦
      rw (e, trim_back-Avoids (d ∷ r) (url_encode s) a, trim_back-url_encode s hs, n)
        (elim (Bool-cases (is_empty (trim_back s))) [ inl z ↦ rw (z, e) | inr z ↦ rw (z, e) ])
]

pub trim_front-IsBytes : (s : Bytes) → IsBytes s → IsBytes (trim_front s)
unfolding trim_front
trim_front-IsBytes [] h = tt
trim_front-IsBytes (c ∷ s) (hc, hs) = elim (Bool-cases (c == b'/')) [
  | inl y ↦ rw y (trim_front-IsBytes s hs)
  | inr n ↦ rw n (hc, hs)
]

pub trim-url_encode : (s : Bytes) → IsBytes s → trim (url_encode s) ≡ url_encode (trim s)
unfolding trim
trim-url_encode s h =
    rw (trim_front-url_encode s h) (trim_back-url_encode (trim_front s) (trim_front-IsBytes s h))

trim_back_end : (s : Bytes) → trim_back (s ++ b'/' ∷ []) ≡ trim_back s
unfolding trim_back
trim_back_end [] = refl
trim_back_end (c ∷ s) = rw (trim_back_end s)

-- One more slash at the end is trimmed too.
pub trim_end : (s : Bytes) → trim (s ++ b'/' ∷ []) ≡ trim s
unfolding trim trim_front
trim_end [] = refl
trim_end (c ∷ s) = elim (Bool-cases (c == b'/')) [
  | inl y ↦ rw y (trim_end s)
  | inr n ↦ rw n (trim_back_end (c ∷ s))
]
