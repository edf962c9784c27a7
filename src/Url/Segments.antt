-- ===== src/Url/Segments.antt =====
-- What the loops of the URL parser read of the segments that the writer wrote.
use hearty_rabbit.Prelude.{
  ℕ, ◌≡◌, ◌≢◌, ◌⊎◌, refl, ap, ◌∙◌, true, false, ◌||◌, [], ◌∷◌, ◌++◌, append-nil, append_assoc,
  if◌then◌else◌, Bytes, codes, contains, Avoids, Avoids-append, Avoids-subset, All-Avoids, IsBytes,
  is_empty, inl, inr, arith,
}
use hearty_rabbit.Escape.Hex.{hex_digits}
use hearty_rabbit.Escape.SplitLaws.{
  split_left-append, split_left_none, split_right-append, split_right_none,
}
use hearty_rabbit.Escape.Url.{url_encode, url_decode}
use hearty_rabbit.Escape.UrlLaws.{
  url_decode_same, url_decode-url_encode, url_encode-no_query, url_encode-no_slash,
}
use hearty_rabbit.ObjectId.{is_hex, is_hex-All}
use hearty_rabbit.Url.Types.{Action, Parameter, UrlIntent}
use hearty_rabbit.Url.Parse.{
  trim, parse_fields, parse_path, parse_field_from_left, parse_last_segment, parse_collection,
  is_filename,
}
use hearty_rabbit.Url.Write.{segment}
use hearty_rabbit.Url.Pieces.{extract_left_slash, trim-url_encode, trim_end}

-- The query string as `str` writes it.
abbrev pub query_string : Bytes → Bytes
query_string option = if is_empty option then [] else b'?' ∷ option

-- The query string is cut off at its question mark, whatever it holds.
pub parse_fields-query :
    (a : Action) (p o : Bytes)
    → Avoids (codes "?") p
    → parse_fields a (p ++ query_string o) ≡ parse_path a p o
unfolding parse_fields
parse_fields-query a p [] h = rw (append-nil, split_left_none p (codes "?") h)
parse_fields-query a p (c ∷ o) h = rw (split_left-append p b'?' (c ∷ o) (codes "?") h refl)

pub contains-Avoids : (s : Bytes) (v : ℕ) → Avoids (v ∷ []) s → contains s v ≡ false
contains-Avoids [] v h = refl
contains-Avoids (c ∷ s) v (hc, hs) = rw (contains-Avoids s v hs) (ground arith)

pub parse_collection-path :
    (c t : Bytes) (i : UrlIntent)
    → IsBytes c
    → trim c ≡ c
    → Avoids (codes "?") t
    → trim t ≡ url_encode c
    → parse_collection (t, i) ≡ ([], record i { coll = c })
unfolding parse_collection
parse_collection-path c t i hb ht hq e =
    rw (contains-Avoids t b'?' hq, e, url_decode-url_encode c hb)

pub segment-no_query : (c : Bytes) → IsBytes c → Avoids (codes "?") (segment c)
segment-no_query [] h = unfold url_encode in tt
segment-no_query (x ∷ c) h =
    Avoids-append (codes "?") (url_encode (x ∷ c)) (b'/' ∷ [])
      (Avoids-subset (codes "?") (codes "?#") (url_encode (x ∷ c)) refl
        (url_encode-no_query (x ∷ c) h))
      (refl, tt)

pub trim-segment : (c : Bytes) → IsBytes c → trim c ≡ c → trim (segment c) ≡ url_encode c
trim-segment [] h t = unfold url_encode trim in refl
trim-segment (x ∷ c) h t =
    trim_end (url_encode (x ∷ c)) ∙ trim-url_encode (x ∷ c) h ∙ ap url_encode t

-- The last segment of a written path is read as the file name.
pub last_segment :
    (p : Parameter) (c f : Bytes) (i : UrlIntent)
    → (is_filename p || is_hex f) ≡ true
    → Avoids (codes "/") f
    → parse_last_segment p (segment c ++ f, i)
      ≡ (url_encode c, record i { filename = url_decode f })
unfolding parse_last_segment
last_segment p [] f i h a = unfold url_encode in rw (split_right_none f (codes "/") a, h)
last_segment p (x ∷ c) f i h a =
    rw (append_assoc, split_right-append (url_encode (x ∷ c)) b'/' f (codes "/") a refl, h)

-- With no blob, the slash at the end leaves the collection alone.
pub no_last_segment :
    (c : Bytes) (i : UrlIntent)
    → parse_last_segment Parameter.blob (segment c ++ [], i) ≡ (segment c, i)
unfolding parse_last_segment is_hex
no_last_segment [] i = unfold url_encode in rw (split_right_none [] (codes "/") tt)
no_last_segment (x ∷ c) i =
    rw (append_assoc, split_right-append (url_encode (x ∷ c)) b'/' [] (codes "/") tt refl)

-- A blob is absent or an ID in hexadecimal digits.
abbrev pub IsBlobName : Bytes → Type 0
IsBlobName f = (f ≡ []) ⊎ (is_hex f ≡ true)

-- What a user, a collection and a file name may be, to be read back.
pub record IsUser (u : Bytes) : Type 0 where
  pub present : u ≢ []
  pub bytes : IsBytes u
  pub one_segment : Avoids (codes "/") u

pub record IsCollection (c : Bytes) : Type 0 where
  pub bytes : IsBytes c
  pub trimmed : trim c ≡ c

pub record IsFilename (f : Bytes) : Type 0 where
  pub bytes : IsBytes f
  pub one_segment : Avoids (codes "/") f

pub right_blob :
    (c f : Bytes) (i : UrlIntent)
    → IsCollection c
    → IsBlobName f
    → i.filename ≡ []
    → parse_collection (parse_last_segment Parameter.blob (segment c ++ f, i))
      ≡ ([], record i { coll = c; filename = f })
right_blob c f i hc (inl e) n =
    rw (e, no_last_segment c i)
      (parse_collection-path c (segment c) i hc.bytes hc.trimmed (segment-no_query c hc.bytes)
          (trim-segment c hc.bytes hc.trimmed)
        ∙ rw (← n))
right_blob c f i hc (inr e) n =
    let digits = (is_hex-All f e).1 in
    rw (last_segment Parameter.blob c f i e (All-Avoids hex_digits (codes "/") f refl digits)) (
      rw (url_decode_same f (All-Avoids hex_digits (codes "%") f refl digits)) (
        parse_collection-path c (url_encode c) _ hc.bytes hc.trimmed
          (Avoids-subset (codes "?") (codes "?#") (url_encode c) refl
            (url_encode-no_query c hc.bytes))
          (trim-url_encode c hc.bytes ∙ ap url_encode hc.trimmed)))

pub right_file :
    (c f : Bytes) (i : UrlIntent)
    → IsCollection c
    → IsFilename f
    → parse_collection (parse_last_segment Parameter.filename (segment c ++ url_encode f, i))
      ≡ ([], record i { coll = c; filename = f })
right_file c f i hc hf =
    rw
      (last_segment Parameter.filename c (url_encode f) i refl (
        Avoids-subset (codes "/") (codes "/?#") (url_encode f) refl
          (url_encode-no_slash f hf.bytes hf.one_segment)))
      (rw (url_decode-url_encode f hf.bytes) (
        parse_collection-path c (url_encode c) _ hc.bytes hc.trimmed
          (Avoids-subset (codes "?") (codes "?#") (url_encode c) refl
            (url_encode-no_query c hc.bytes))
          (trim-url_encode c hc.bytes ∙ ap url_encode hc.trimmed)))

pub left_user :
    (u rest : Bytes) (i : UrlIntent)
    → IsUser u
    → parse_field_from_left Parameter.user (segment u ++ rest, i) ≡ (rest, record i { user = u })
unfolding parse_field_from_left
left_user [] rest i h = absurd (h.present refl)
left_user (x ∷ u) rest i h = rw (
  append_assoc,
  extract_left_slash (url_encode (x ∷ u)) rest (url_encode-no_slash (x ∷ u) h.bytes h.one_segment),
  url_decode-url_encode (x ∷ u) h.bytes,
)
