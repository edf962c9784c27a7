-- ===== src/Tests/Urls.antt =====
-- Escapes and URLs.
use hearty_rabbit.Prelude.{
  true, false, ◌≡◌, ◌≢◌, ◌⊎◌, refl, [], ◌∷◌, codes, Bytes, none, some, inr, arith, is_empty,
}
use hearty_rabbit.Escape.Url.{url_encode, url_decode, from_hex, hex_digit}
use hearty_rabbit.Escape.UrlLaws.{avoids-Avoids}
use hearty_rabbit.Escape.Split.{split_left, split_right}
use hearty_rabbit.ObjectId.{is_hex, IsObjectId}
use hearty_rabbit.Url.Types.{Action, QueryTarget, UrlIntent, blank, require_user, require_filename}
use hearty_rabbit.Url.Parse.{
  parse, valid, trim, parse_body, parse_action, dispatch, parse_fields, parse_path, extract_left,
  parse_field_from_left, parse_field_from_right, parse_last_segment, parse_collection,
}
use hearty_rabbit.Url.Write.{str, of_blob, of_query, blob, is_blob_action}
use hearty_rabbit.Url.Segments.{IsUser, IsCollection}
use hearty_rabbit.Url.RoundTrip.{parse-str}
use hearty_rabbit.Url.Intents.{valid-parse}
use hearty_rabbit.Tests.HexModel.{model, model-HexLaws}

abbrev blob_hex : Bytes
blob_hex = codes "0100000000000000000000000000000000000003"

abbrev intent : UrlIntent
intent = record blank {
  action = Action.view;
  user = codes "nestal";
  coll = codes "some/collection?";
  filename = blob_hex;
  option = codes "rendition=2048";
  valid = true;
}

parses :
    parse (
      codes
        "/view/nestal/some/collection%3f/0100000000000000000000000000000000000003?rendition=2048")
    ≡ intent
unfolding parse parse_body parse_action dispatch parse_fields parse_path extract_left
    parse_field_from_left parse_field_from_right parse_last_segment parse_collection split_left
    split_right is_hex url_decode hex_digit
parses = refl

writes :
    str intent
    ≡ codes
        "/view/nestal/some/collection%3F/0100000000000000000000000000000000000003?rendition=2048"
unfolding str url_encode
writes = refl

unknown_action : parse (codes "/nothing/nestal") ≡ blank
unfolding parse parse_body parse_action dispatch extract_left split_left
unknown_action = refl

no_digit : from_hex b'z' b'1' ≡ none
unfolding from_hex hex_digit
no_digit = refl

abbrev sample_id : Bytes
sample_id = 1 ∷ 0 ∷ 0 ∷ 0 ∷ 0 ∷ 0 ∷ 0 ∷ 0 ∷ 0 ∷ 0 ∷ 0 ∷ 0 ∷ 0 ∷ 0 ∷ 0 ∷ 0 ∷ 0 ∷ 0 ∷ 0 ∷ 3 ∷ []

sample-IsObjectId : IsObjectId sample_id
sample-IsObjectId = record { full = refl; bytes = omega arith }

pub nestal-IsUser : IsUser (codes "nestal")
nestal-IsUser = record {
  present = cc;
  bytes = omega arith;
  one_segment = avoids-Avoids (codes "/") (codes "nestal") refl;
}

album-IsCollection : IsCollection (codes "some/collection?")
unfolding trim
album-IsCollection = record { bytes = omega arith; trimmed = refl }

blob_hex-is_hex : is_hex blob_hex ≡ true
unfolding is_hex
blob_hex-is_hex = refl

parse-str_example : parse (str intent) ≡ intent
parse-str_example =
    parse-str intent (nestal-IsUser, album-IsCollection, inr blob_hex-is_hex, refl, refl)

abbrev target : Bytes
target = codes "/api/nestal/0100000000000000000000000000000000000003"

target-valid : valid (parse target) ≡ true
unfolding valid parse parse_body parse_action dispatch parse_fields parse_path extract_left
    parse_field_from_left parse_field_from_right parse_last_segment parse_collection split_left
    split_right is_hex url_decode hex_digit
target-valid = refl

valid-parse_example :
    ((parse target).action ≢ Action.none)
    × ((require_user (parse target).action ≡ false) ⊎ (is_empty (parse target).user ≡ false))
    × ((require_filename (parse target).action ≡ false)
        ⊎ (is_empty (parse target).filename ≡ false))
    × ((is_blob_action (parse target).action ≡ false)
        ⊎ ((parse target).filename ≡ [])
        ⊎ ((id : Bytes) × (blob model (parse target) ≡ some id) × IsObjectId id))
valid-parse_example = valid-parse model model-HexLaws target target-valid

spaced-IsUser : IsUser (trim (codes "/nestal/"))
unfolding trim
spaced-IsUser = nestal-IsUser

abbrev made : UrlIntent
made =
    of_blob model Action.api (codes "/nestal/") (codes "some/collection?/") sample_id (codes "a=?")

-- The constructor for a query leaves the intent invalid, whatever its option.
query_invalid : valid (of_query QueryTarget.blob (codes "id=3")) ≡ false
unfolding valid of_query
query_invalid = refl
