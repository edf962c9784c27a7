-- ===== src/Handler/Request.antt =====
-- Requests and answers of src/server/hrb/SessionHandler.hh, and class BlobRequest
-- (src/server/hrb/BlobRequest.hh and BlobRequest.cc). HTTP is parsed by Boost.Beast, so a request is
-- the fields that the handler reads.
use hearty_rabbit.Prelude.{ℕ, Bool, not, ◌&&◌, Option, if◌then◌else◌, Bytes, codes, bytes_eq, []}
use hearty_rabbit.Escape.Hex.{HexCodec}
use hearty_rabbit.ObjectId.{from_hex}
use hearty_rabbit.Redis.Reply.{ℤ}
use hearty_rabbit.UserId.{UserId}
use hearty_rabbit.Url.Types.{UrlIntent}
use hearty_rabbit.Ownership.Commands.{Call}

pub data Method : Type 0 where
  get_ head_ post_ put_ delete_ other_ : Method

-- `RequestBodyType`.
pub data BodyType : Type 0 where
  string_type upload_type empty_type : BodyType

-- What saving an upload gives: `BlobFile`.
pub record Saved : Type 0 where
  pub id : Bytes
  pub mime : Bytes
  pub datetime : ℤ
  pub phash : Option ℕ

-- An uploaded file: its size, and what saving it gives; `none` where the file system reports an error.
pub record Upload : Type 0 where
  pub size : Option ℕ
  pub saved : Option Saved

-- The type of a request tells its body.
pub data Body : Type 0 where
  empty_body : Body
  string_body : Bytes → Body
  upload_body : Upload → Body

pub record Request : Type 0 where
  pub method : Method
  pub target : Bytes
  pub cookie : Bytes
  pub content_type : Bytes
  pub if_none_match : Bytes

pub record BlobRequest : Type 0 where
  pub url : UrlIntent
  pub etag : Bytes
  pub body : Bytes

-- What the handler does: it sends a response, or asks the redis database, the blob database or the
-- web resources, and sends what it makes of the result. A user or owner comes first.
pub data Answer : Type 0 where
  respond : ℕ → Answer
  bad_request : Bytes → Answer
  not_found : Bytes → Answer
  not_modified : Bytes → Answer
  file : UrlIntent → Bytes → Answer
  log_in : Bytes → Bytes → Answer
  log_out : Answer
  list_albums : Bytes → Bool → Answer
  list_publics : Bool → Bytes → Answer
  show_album : Bytes → Bytes → Option Bytes → Bool → Answer
  -- As JSON: the user for whom missing timestamps are filled in, the owner and the album.
  json_album : Bytes → Bytes → Bytes → Answer
  find_duplicates : Bytes → Bytes → Bool → Answer
  read_blob : Bytes → Bytes → Bytes → BlobRequest → Answer
  read_inode : Bytes → Bytes → Bytes → Answer
  meta : Bytes → Answer
  content : Bytes → Bytes → Bytes → Answer
  change : Bytes → Call → Answer
  share : Bytes → Bytes → Answer
  list_guests : Bytes → Bytes → Answer
  upload : Bytes → Call → Option ℕ → Answer
  -- The value of an empty `optional` is used.
  undefined : Answer

abbrev pub form_type : Bytes
form_type = codes "application/x-www-form-urlencoded"

unfoldable pub form_body : Bytes → Body → Bytes
form_body content_type (string_body text) = if bytes_eq content_type form_type then text else []
form_body content_type _ = []

-- The constructor.
unfoldable pub blob_request : Request → Body → UrlIntent → BlobRequest
unfolding form_body
blob_request req body intent = record {
  url = intent;
  etag = req.if_none_match;
  body = form_body req.content_type body;
}

unfoldable pub request_by_owner : BlobRequest → UserId → Bool
request_by_owner breq requester = not requester.guest && bytes_eq requester.user breq.url.user

module _ (h : HexCodec) where
  unfoldable pub blob : BlobRequest → Option Bytes
  unfolding from_hex
  blob breq = from_hex h breq.url.filename
