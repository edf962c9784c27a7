-- ===== src/Url/RoundTrip.antt =====
-- `str` of src/common/hrb/URLIntent.cc, and the parser behind it.
use hearty_rabbit.Prelude.{
  ◌≡◌, refl, ◌∙◌, Bool, true, not, [], ◌∷◌, ◌++◌, append-nil, Bytes, codes, Avoids, Avoids-append,
  Avoids-subset, All-Avoids, IsBytes, is_empty, Bool-cases, inl, inr,
}
use hearty_rabbit.Escape.Hex.{hex_digits}
use hearty_rabbit.Escape.Url.{url_encode}
use hearty_rabbit.Escape.UrlLaws.{
  url_decode-url_encode, url_encode-no_query, url_encode-no_slash, avoids-Avoids,
}
use hearty_rabbit.ObjectId.{is_hex-All}
use hearty_rabbit.Url.Types.{Action, QueryTarget, UrlIntent, blank}
use hearty_rabbit.Url.Parse.{
  parse, parse_path, parse_field_from_left, parse_field_from_right, dispatch, parse_action,
  parse_query_target,
}
use hearty_rabbit.Url.Write.{str, path, to_string, segment}
use hearty_rabbit.Url.Pieces.{extract_left_slash, extract_left_query, extract_left_all}
use hearty_rabbit.Url.Segments.{
  IsUser, IsCollection, IsFilename, IsBlobName, query_string, parse_fields-query, segment-no_query,
  right_blob, right_file, left_user,
}

-- What an intent of each action holds when `str` and `parse` agree on it.
abbrev pub IsWritten : Action → UrlIntent → Type 0
IsWritten Action.view i =
    IsUser i.user
    × IsCollection i.coll
    × IsBlobName i.filename
    × (i.query_target ≡ QueryTarget.none)
    × (i.valid ≡ true)
IsWritten Action.api i =
    IsUser i.user
    × IsCollection i.coll
    × IsBlobName i.filename
    × (i.query_target ≡ QueryTarget.none)
    × (i.valid ≡ true)
IsWritten Action.upload i =
    IsUser i.user
    × IsCollection i.coll
    × IsFilename i.filename
    × (i.query_target ≡ QueryTarget.none)
    × (i.valid ≡ true)
IsWritten Action.lib i =
    (i.user ≡ [])
    × (i.coll ≡ [])
    × IsFilename i.filename
    × (i.query_target ≡ QueryTarget.none)
    × (i.valid ≡ true)
IsWritten Action.query i =
    (i.user ≡ []) × (i.coll ≡ []) × (i.filename ≡ []) × (i.valid ≡ not (is_empty i.option))
IsWritten Action.none i = ⊥
IsWritten _ i =
    (i.user ≡ [])
    × (i.coll ≡ [])
    × (i.filename ≡ [])
    × (i.query_target ≡ QueryTarget.none)
    × (i.valid ≡ true)

str-query : (i : UrlIntent) → str i ≡ path i ++ query_string i.option
unfolding str
str-query i = elim (Bool-cases (is_empty i.option)) [ inl e ↦ rw (e, append-nil) | inr e ↦ rw e ]

-- The intent that a path of each action stands for.
abbrev read : Action → Bytes → Bytes → Bytes → Bytes → UrlIntent
read a u c f o = record {
  action = a;
  user = u;
  coll = c;
  filename = f;
  option = o;
  query_target = QueryTarget.none;
  valid = true;
}

abbrev start : Action → Bytes → UrlIntent
start a o = record blank { action = a; option = o; valid = true }

module _ (u c f o : Bytes) (hu : IsUser u) (hc : IsCollection c) where
  view_path :
      IsBlobName f
      → parse_path Action.view (segment u ++ (segment c ++ f)) o ≡ read Action.view u c f o
  unfolding parse_path parse_field_from_right
  view_path hf =
      let i : UrlIntent = record (start Action.view o) { user = u } in
      rw (left_user u (segment c ++ f) (start Action.view o) hu, right_blob c f i hc hf refl)

  api_path :
      IsBlobName f
      → parse_path Action.api (segment u ++ (segment c ++ f)) o ≡ read Action.api u c f o
  unfolding parse_path parse_field_from_right
  api_path hf =
      let i : UrlIntent = record (start Action.api o) { user = u } in
      rw (left_user u (segment c ++ f) (start Action.api o) hu, right_blob c f i hc hf refl)

  upload_path :
      IsFilename f
      → parse_path Action.upload (segment u ++ (segment c ++ url_encode f)) o
        ≡ read Action.upload u c f o
  unfolding parse_path parse_field_from_right
  upload_path hf =
      let i : UrlIntent = record (start Action.upload o) { user = u } in
      rw
        (left_user u (segment c ++ url_encode f) (start Action.upload o) hu, right_file c f i hc hf)

lib_path :
    (f o : Bytes)
    → IsFilename f
    → parse_path Action.lib (url_encode f) o ≡ read Action.lib [] [] f o
unfolding parse_path parse_field_from_left
lib_path f o h = rw (
  extract_left_all (url_encode f) (url_encode-no_slash f h.bytes h.one_segment),
  url_decode-url_encode f h.bytes,
)

encoded-no_query : (f : Bytes) → IsBytes f → Avoids (codes "?") (url_encode f)
encoded-no_query f h =
    Avoids-subset (codes "?") (codes "?#") (url_encode f) refl (url_encode-no_query f h)

blob-no_query : (f : Bytes) → IsBlobName f → Avoids (codes "?") f
blob-no_query f (inl e) = rw e tt
blob-no_query f (inr e) = All-Avoids hex_digits (codes "?") f refl (is_hex-All f e).1

segments-no_query :
    (u c f : Bytes)
    → IsUser u
    → IsCollection c
    → Avoids (codes "?") f
    → Avoids (codes "?") (segment u ++ (segment c ++ f))
segments-no_query u c f hu hc hf =
    Avoids-append (codes "?") (segment u) (segment c ++ f) (segment-no_query u hu.bytes)
      (Avoids-append (codes "?") (segment c) f (segment-no_query c hc.bytes) hf)

-- A word with a slash behind it is the field of the action; so is a word before the query string.
parse_word :
    (w rest : Bytes)
    → Avoids (codes "/?#") w
    → parse (b'/' ∷ (w ++ b'/' ∷ rest)) ≡ dispatch (parse_action w) rest
unfolding parse
parse_word w rest h = rw (extract_left_slash w rest h)

parse_lone_word :
    (w o : Bytes)
    → Avoids (codes "/?#") w
    → parse (b'/' ∷ (w ++ query_string o)) ≡ dispatch (parse_action w) (query_string o)
unfolding parse
parse_lone_word w [] h = rw (append-nil, extract_left_all w h)
parse_lone_word w (c ∷ o) h = rw (extract_left_query w (c ∷ o) h)

pub to_string-plain : (q : QueryTarget) → Avoids (codes "/?#") (to_string q)
to_string-plain QueryTarget.blob = avoids-Avoids (codes "/?#") (codes "blob") refl
to_string-plain QueryTarget.collection = avoids-Avoids (codes "/?#") (codes "collection") refl
to_string-plain QueryTarget.blob_set = avoids-Avoids (codes "/?#") (codes "blob_set") refl
to_string-plain QueryTarget.none = tt

to_string-no_query : (q : QueryTarget) → Avoids (codes "?") (to_string q)
to_string-no_query q =
    Avoids-subset (codes "?") (codes "/?#") (to_string q) refl (to_string-plain q)

parse_query_target-to_string : (q : QueryTarget) → parse_query_target (to_string q) ≡ q
unfolding parse_query_target
parse_query_target-to_string QueryTarget.blob = refl
parse_query_target-to_string QueryTarget.collection = refl
parse_query_target-to_string QueryTarget.blob_set = refl
parse_query_target-to_string QueryTarget.none = refl

query_path :
    (q : QueryTarget) (o : Bytes)
    → parse_path Action.query (to_string q) o ≡ record blank {
      action = Action.query;
      option = o;
      query_target = q;
      valid = not (is_empty o);
    }
unfolding parse_path parse_field_from_left
query_path q o =
    rw (extract_left_all (to_string q) (to_string-plain q), parse_query_target-to_string q)

-- `parse` reads back what `str` writes, for an intent with the parts of its action: a user of one
-- segment, a collection without slashes at its ends, a blob that is absent or hexadecimal, a file
-- name of one segment. The option may hold any bytes, and the other parts any that a path escapes.
pub parse-str : (i : UrlIntent) → IsWritten i.action i → parse (str i) ≡ i
unfolding path dispatch parse_action parse_path
parse-str i h =
    rw (str-query i) (go i.action i.user i.coll i.filename i.option i.query_target i.valid h)
  where
    go :
        (a : Action) (u c f o : Bytes) (q : QueryTarget) (v : Bool)
        → let i : UrlIntent = record {
          action = a;
          user = u;
          coll = c;
          filename = f;
          option = o;
          query_target = q;
          valid = v;
        } in
          IsWritten a i → parse (path i ++ query_string o) ≡ i
    go Action.view u c f o q v (hu, hc, hf, hq, hv) =
        rw (hq, hv, append-nil f)
          (parse_word (codes "view") _ (avoids-Avoids (codes "/?#") (codes "view") refl)
            ∙ (parse_fields-query Action.view _ o
                  (segments-no_query u c f hu hc (blob-no_query f hf))
                ∙ view_path u c f o hu hc hf))
    go Action.api u c f o q v (hu, hc, hf, hq, hv) =
        rw (hq, hv, append-nil f)
          (parse_word (codes "api") _ (avoids-Avoids (codes "/?#") (codes "api") refl)
            ∙ (parse_fields-query Action.api _ o
                  (segments-no_query u c f hu hc (blob-no_query f hf))
                ∙ api_path u c f o hu hc hf))
    go Action.upload u c f o q v (hu, hc, hf, hq, hv) =
        rw (hq, hv, append-nil (url_encode f))
          (parse_word (codes "upload") _ (avoids-Avoids (codes "/?#") (codes "upload") refl)
            ∙ (parse_fields-query Action.upload _ o
                  (segments-no_query u c (url_encode f) hu hc (encoded-no_query f hf.bytes))
                ∙ upload_path u c f o hu hc hf))
    go Action.lib u c f o q v (hu, hc, hf, hq, hv) =
        rw (hu, hc, hq, hv, append-nil (url_encode f))
          (parse_word (codes "lib") _ (avoids-Avoids (codes "/?#") (codes "lib") refl)
            ∙ (parse_fields-query Action.lib _ o (encoded-no_query f hf.bytes) ∙ lib_path f o hf))
    go Action.query u c f o q v (hu, hc, hf, hv) =
        rw (hu, hc, hf, hv, append-nil (to_string q))
          (parse_word (codes "query") _ (avoids-Avoids (codes "/?#") (codes "query") refl)
            ∙ (parse_fields-query Action.query (to_string q) o (to_string-no_query q)
                ∙ query_path q o))
    go Action.login u c f o q v (hu, hc, hf, hq, hv) =
        rw (hu, hc, hf, hq, hv)
          (parse_lone_word (codes "login") o (avoids-Avoids (codes "/?#") (codes "login") refl)
            ∙ parse_fields-query Action.login [] o tt)
    go Action.logout u c f o q v (hu, hc, hf, hq, hv) =
        rw (hu, hc, hf, hq, hv)
          (parse_lone_word (codes "logout") o (avoids-Avoids (codes "/?#") (codes "logout") refl)
            ∙ parse_fields-query Action.logout [] o tt)
    go Action.home u c f o q v (hu, hc, hf, hq, hv) =
        rw (hu, hc, hf, hq, hv) (parse_lone_word [] o tt ∙ parse_fields-query Action.home [] o tt)
    go Action.none u c f o q v h = absurd h
