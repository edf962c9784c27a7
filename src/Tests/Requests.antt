-- ===== src/Tests/Requests.antt =====
-- Requests to the server.
use hearty_rabbit.Prelude.{
  ◌⊎◌, ◌∷◌, ◌≡◌, ◌≢◌, refl, Bool, true, false, [], none, some, if◌then◌else◌, bytes_eq, Bytes,
  codes,
}
use hearty_rabbit.Escape.Url
use hearty_rabbit.Escape.Split
use hearty_rabbit.Url.Parse
use hearty_rabbit.ObjectId
use hearty_rabbit.Cookie
use hearty_rabbit.StringFields
use hearty_rabbit.Tests.HexModel
use hearty_rabbit.Redis.Reply.{Error}
use hearty_rabbit.RedisKeys.{collection, blob_inode}
use hearty_rabbit.UserId.{UserId}
use hearty_rabbit.Url.Types.{Action, QueryTarget}
use hearty_rabbit.Handler.Request.{not_modified, Request, get_, delete_, Upload, BlobRequest}
use hearty_rabbit.Handler.Body.{get_blob}
use hearty_rabbit.Escape.Hex.{to_quoted_hex}
use hearty_rabbit.Handler.Blob.{after_redis, blob_answer, get_blob-answers}
use hearty_rabbit.Handler.Owner.{acts_for}
use hearty_rabbit.Redis.Reply.{ℤ}
use hearty_rabbit.BlobInode.{BlobInode}
use hearty_rabbit.Collection.{Collection}
use hearty_rabbit.Handler.Serve.{serve}
use hearty_rabbit.Handler.Verified.{IsVerified, IsShared, is_repair, serve-IsVerified}
use hearty_rabbit.Tests.HexModel.{model}
use hearty_rabbit.Tests.DbModel.{tables}
use hearty_rabbit.Tests.Owners.{nestal, trip, cat, linked}

abbrev delete_cat : Request
delete_cat = record {
  method = delete_;
  target = codes "/api/nestal/trip/303132333435363738396162636465666768696a";
  cookie = codes "id=30313233343536373839616263646566";
  content_type = [];
  if_none_match = [];
}

abbrev pub no_file : Upload
no_file = record { size = none; saved = none }

-- Any session is nestal's.
abbrev pub verify : Bytes → Error × UserId
verify session = (Error.ok, record { session = session; user = nestal; guest = false })

abbrev pub shared : UserId → Bytes → Bool × Error
shared auth coll = (false, Error.ok)

deletes : acts_for (serve model verify shared delete_cat [] no_file) ≡ some nestal
unfolding serve Parse.dispatch Parse.parse_action Parse.extract_left Split.split_left
    Parse.parse_fields Parse.parse_field_from_right Parse.parse_collection Parse.parse_last_segment
    ObjectId.is_hex Split.split_right Parse.parse_field_from_left Cookie.field
    StringFields.next_token StringFields.match_field StringFields.trim_name HexModel.unhex
    Url.from_hex Url.hex_digit Url.url_decode
deletes = refl

named : nestal ≢ []
named = cc

serve-IsVerified_example :
    IsVerified model verify shared delete_cat nestal
    ⊎ (IsShared model verify shared delete_cat nestal
        × (is_repair (serve model verify shared delete_cat [] no_file) ≡ true))
serve-IsVerified_example =
    serve-IsVerified model verify shared delete_cat [] no_file nestal named deletes

abbrev pub owner : UserId
owner = record { session = codes "0123456789abcdef"; user = nestal; guest = false }

abbrev get_trip : Request
get_trip = record delete_cat { method = get_; target = codes "/api/nestal/trip" }

-- A blob without a timestamp.
abbrev old_album : Collection BlobInode
old_album = record {
  name = trip;
  owner = nestal;
  blobs =
      record {
        id = cat;
        inode = record {
          perm = b' ';
          filename = codes "cat.jpg";
          mime = codes "image/jpeg";
          timestamp = ℤ.pos 0;
        };
      }
      ∷ [];
}

abbrev taken : Bytes → ℤ
taken id = ℤ.pos 9

abbrev cat_request : BlobRequest
cat_request = record {
  url = record {
    action = Action.api;
    user = nestal;
    coll = trip;
    filename = codes "303132333435363738396162636465666768696a";
    option = codes "rendition=thumbnail";
    query_target = QueryTarget.none;
    valid = true;
  };
  etag = [];
  body = [];
}

get_blob-answers_example :
    after_redis model owner tables linked Error.ok (get_blob model owner cat_request cat) ≡ (
      if bytes_eq [] (to_quoted_hex model cat b'"')
      then not_modified cat
      else blob_answer owner cat_request cat false
          (tables.hget linked (collection nestal trip) cat)
          (tables.hget linked (blob_inode nestal) cat))
get_blob-answers_example = get_blob-answers model owner tables linked Error.ok cat_request cat
