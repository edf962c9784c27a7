-- ===== src/Url/Intents.antt =====
-- The URLs that are read, and those of the blobs, of src/common/hrb/URLIntent.cc.
use hearty_rabbit.Prelude.{
  ◌≡◌, ◌≢◌, ◌⊎◌, refl, ◌∙◌, Bool, true, false, ◌&&◌, List, reverse, not, [], ◌∷◌, ◌==◌,
  if◌then◌else◌, Bytes, codes, IsBytes, All-Avoids, is_empty, Bool-cases, inl, inr, arith, some,
}
use hearty_rabbit.Escape.Hex.{HexCodec, HexLaws, to_hex, hex_digits}
use hearty_rabbit.Escape.Split.{split_left, split_right}
use hearty_rabbit.Escape.UrlLaws.{url_decode_same}
use hearty_rabbit.ObjectId.{
  IsObjectId, is_hex, is_hex-All, is_hex-to_hex, is_hex-from_hex, from_hex-to_hex,
}
use hearty_rabbit.Url.Types.{
  Action, Parameter, UrlIntent, blank, require_user, require_filename, intent_definitions,
}
use hearty_rabbit.Url.Parse.{
  parse, parse_body, dispatch, parse_fields, parse_path, parse_field_from_left,
  parse_field_from_right, parse_last_segment, parse_collection, extract_left, valid, trim,
  parse_action, run_fields, before_mid, from_mid, is_query,
}
use hearty_rabbit.Url.Write.{str, of_blob, blob, is_blob_action}
use hearty_rabbit.Url.Segments.{IsUser, IsCollection, IsBlobName}
use hearty_rabbit.Url.RoundTrip.{parse-str, IsWritten}
use hearty_rabbit.Url.Trim.{trim_idem, trim-IsBytes, trim-Avoids}

last_segment-IsBlobName :
    (t : Bytes) (i : UrlIntent)
    → IsBlobName i.filename
    → IsBlobName (parse_last_segment Parameter.blob (t, i)).1.filename
unfolding parse_last_segment
last_segment-IsBlobName t i h = elim (Bool-cases (is_hex (split_right t (codes "/")).field)) [
  | inl y ↦
      rw y (
        inr
          (rw (url_decode_same _ (All-Avoids hex_digits (codes "%") _ refl (is_hex-All _ y).1)) y))
  | inr n ↦ rw n h
]

collection-filename : (s : Bytes × UrlIntent) → (parse_collection s).1.filename ≡ s.1.filename
unfolding parse_collection
collection-filename (t, i) = ground arith

-- The result of a URL is blank, or that of the path of a known action.
data Parsed (i : UrlIntent) : Type 0 where
  unknown : i ≡ blank → Parsed i
  known : (a : Action) (p o : Bytes) → i ≡ parse_path a p o → Parsed i

fields-Parsed : (a : Action) (t : Bytes) → Parsed (parse_fields a t)
unfolding parse_fields
fields-Parsed a t = elim (Bool-cases ((split_left t (codes "?")).match == b'?')) [
  | inl y ↦ let cut = split_left t (codes "?") in known a cut.field cut.rest (rw y)
  | inr n ↦ known a t [] (rw n)
]

dispatch-Parsed : (a : Action) (t : Bytes) → Parsed (dispatch a t)
unfolding dispatch
dispatch-Parsed Action.none t = unknown refl
dispatch-Parsed Action.view t = fields-Parsed Action.view t
dispatch-Parsed a t = fields-Parsed a t

parse-Parsed : (t : Bytes) → Parsed (parse t)
unfolding parse parse_body
parse-Parsed [] = unknown refl
parse-Parsed (c ∷ t) = elim (Bool-cases (c == b'/')) [
  | inl y ↦ rw y (dispatch-Parsed (parse_action (extract_left t).0) (extract_left t).1)
  | inr n ↦ rw n (unknown refl)
]

-- The last test of the constructor changes only whether the intent is valid.
checked-filename :
    (s : Bytes × UrlIntent)
    → (if is_empty s.0 then s.1 else record (s.1) { valid = false }).filename ≡ s.1.filename
checked-filename (t, i) = ground arith

-- Reading the fields keeps the action and its validity.
left-action :
    (p : Parameter) (s : Bytes × UrlIntent) → (parse_field_from_left p s).1.action ≡ s.1.action
unfolding parse_field_from_left
left-action Parameter.user (t, i) = refl
left-action p (t, i) = refl

right-action :
    (p : Parameter) (s : Bytes × UrlIntent) → (parse_field_from_right p s).1.action ≡ s.1.action
unfolding parse_field_from_right parse_last_segment parse_collection
right-action Parameter.user (t, i) = refl
right-action p (t, i) = ground arith

left_fields-action :
    (ps : List Parameter) (s : Bytes × UrlIntent)
    → (run_fields parse_field_from_left ps s).1.action ≡ s.1.action
left_fields-action [] s = refl
left_fields-action (p ∷ ps) s = left_fields-action ps (parse_field_from_left p s) ∙ left-action p s

right_fields-action :
    (ps : List Parameter) (s : Bytes × UrlIntent)
    → (run_fields parse_field_from_right ps s).1.action ≡ s.1.action
right_fields-action [] s = refl
right_fields-action (p ∷ ps) s =
    right_fields-action ps (parse_field_from_right p s) ∙ right-action p s

checked-action :
    (s : Bytes × UrlIntent)
    → (if is_empty s.0 then s.1 else record (s.1) { valid = false }).action ≡ s.1.action
checked-action (t, i) = ground arith

path-action : (a : Action) (p o : Bytes) → (parse_path a p o).action ≡ a
unfolding parse_path
path-action a p o =
    let definition = intent_definitions a in
    let left =
      run_fields parse_field_from_left (before_mid definition)
        (p, record blank { action = a; option = o; valid = not (is_query a && is_empty o) }) in
    checked-action (run_fields parse_field_from_right (reverse (from_mid definition)) left)
    ∙ (right_fields-action (reverse (from_mid definition)) left
        ∙ left_fields-action (before_mid definition) _)

abbrev HasBlob : Action → Type 0
HasBlob a = (a ≡ Action.view) ⊎ (a ≡ Action.api)

path-IsBlobName : (a : Action) (p o : Bytes) → HasBlob a → IsBlobName (parse_path a p o).filename
unfolding parse_path parse_field_from_right parse_field_from_left
path-IsBlobName Action.view p o h =
    rw (checked-filename, collection-filename) (last_segment-IsBlobName _ _ (inl refl))
path-IsBlobName Action.api p o h =
    rw (checked-filename, collection-filename) (last_segment-IsBlobName _ _ (inl refl))
path-IsBlobName _ p o (inl e) = cc
path-IsBlobName _ p o (inr e) = cc

valid-needs :
    (i : UrlIntent)
    → valid i ≡ true
    → (i.action ≢ Action.none)
      × ((require_user i.action ≡ false) ⊎ (is_empty i.user ≡ false))
      × ((require_filename i.action ≡ false) ⊎ (is_empty i.filename ≡ false))
unfolding valid
valid-needs i v = go i.action i.user i.filename i.valid v
  where
    go :
        (a : Action) (u f : Bytes) (b : Bool)
        → valid (record blank { action = a; user = u; filename = f; valid = b }) ≡ true
        → (a ≢ Action.none)
          × ((require_user a ≡ false) ⊎ (is_empty u ≡ false))
          × ((require_filename a ≡ false) ⊎ (is_empty f ≡ false))
    go Action.none u f b v = cc
    go _ u f b v = ground arith

Parsed-IsBlobName :
    (i : UrlIntent) → Parsed i → (is_blob_action i.action ≡ false) ⊎ IsBlobName i.filename
Parsed-IsBlobName i (unknown e) = rw e (inl refl)
Parsed-IsBlobName i (known a p o e) = rw (e, path-action a p o) (by_action a)
  where
    by_action : (a : Action) → (is_blob_action a ≡ false) ⊎ IsBlobName (parse_path a p o).filename
    by_action Action.view = inr (path-IsBlobName Action.view p o (inl refl))
    by_action Action.api = inr (path-IsBlobName Action.api p o (inr refl))
    by_action _ = inl refl

-- A URL that is valid names what its action needs: a known action, the user of a view, an upload or
-- an API call, the file of an upload or a library request, and as blob of a view or an API call
-- nothing or the hexadecimal text of an ID, which `blob` reads.
pub valid-parse :
    (h : HexCodec) (laws : HexLaws h) (t : Bytes)
    → valid (parse t) ≡ true
    → ((parse t).action ≢ Action.none)
      × ((require_user (parse t).action ≡ false) ⊎ (is_empty (parse t).user ≡ false))
      × ((require_filename (parse t).action ≡ false) ⊎ (is_empty (parse t).filename ≡ false))
      × ((is_blob_action (parse t).action ≡ false)
          ⊎ ((parse t).filename ≡ [])
          ⊎ ((id : Bytes) × (blob h (parse t) ≡ some id) × IsObjectId id))
unfolding blob
valid-parse h laws t v =
    let (known_action, has_user, has_file) = valid-needs (parse t) v in
    (known_action, has_user, has_file, blob_of (Parsed-IsBlobName (parse t) (parse-Parsed t)))
  where
    blob_of :
        (is_blob_action (parse t).action ≡ false) ⊎ IsBlobName (parse t).filename
        → (is_blob_action (parse t).action ≡ false)
          ⊎ ((parse t).filename ≡ [])
          ⊎ ((id : Bytes) × (blob h (parse t) ≡ some id) × IsObjectId id)
    blob_of (inl e) = inl e
    blob_of (inr (inl e)) = inr (inl e)
    blob_of (inr (inr e)) =
        let reads = is_hex-from_hex h laws (parse t).filename in
        let (id, r) = reads.0.0 e in inr (inr (id, r, reads.1 id r))

trim-to_hex :
    (h : HexCodec) (laws : HexLaws h) (id : Bytes)
    → IsObjectId id
    → trim (to_hex h id) ≡ to_hex h id
trim-to_hex h laws id v =
    let digits = (is_hex-All _ (is_hex-to_hex h laws id v)).1 in
    trim-Avoids (to_hex h id) (All-Avoids hex_digits (codes "/") _ refl digits)

of_blob-IsWritten :
    (h : HexCodec) (laws : HexLaws h) (a : Action) (user coll id option : Bytes)
    → is_blob_action a ≡ true
    → IsUser (trim user)
    → IsBytes coll
    → IsObjectId id
    → IsWritten a (of_blob h a user coll id option)
of_blob-IsWritten h laws a user coll id option blob_action hu hc v = by_action a blob_action
  where
    collection : IsCollection (trim coll)
    collection = record { bytes = trim-IsBytes coll hc; trimmed = trim_idem coll }

    name : IsBlobName (trim (to_hex h id))
    name = inr (rw (trim-to_hex h laws id v) (is_hex-to_hex h laws id v))

    by_action :
        (a : Action) → is_blob_action a ≡ true → IsWritten a (of_blob h a user coll id option)
    by_action Action.view e = unfold of_blob in (hu, collection, name, refl, refl)
    by_action Action.api e = unfold of_blob in (hu, collection, name, refl, refl)
    by_action _ e = cc

-- The URL of a blob that the server or a client makes is read back to the same intent and the same
-- ID, for any owner of one segment and any collection; slashes at the ends of either are trimmed.
pub parse-str-of_blob :
    (h : HexCodec) (laws : HexLaws h) (a : Action) (user coll id option : Bytes)
    → is_blob_action a ≡ true
    → IsUser (trim user)
    → IsBytes coll
    → IsObjectId id
    → (parse (str (of_blob h a user coll id option)) ≡ of_blob h a user coll id option)
      × (blob h (parse (str (of_blob h a user coll id option))) ≡ some id)
parse-str-of_blob h laws a user coll id option e hu hc v = (back, rw back reads)
  where
    made : UrlIntent
    made = of_blob h a user coll id option

    back : parse (str made) ≡ made
    back =
        parse-str made (unfold of_blob in of_blob-IsWritten h laws a user coll id option e hu hc v)

    reads : blob h made ≡ some id
    reads = unfold blob of_blob in rw (trim-to_hex h laws id v) (from_hex-to_hex h laws id v)
