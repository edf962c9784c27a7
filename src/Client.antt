-- ===== src/Client.antt =====
-- src/client/http/HRBClient.ipp, HRBClient.hh and HRBClient.cc: the client of the server. Each member
-- makes a request and gives it to the scheduler; what it does with the response is a function of its
-- own, which runs when the exchange is over (Client/Exchange.antt).
pub mod Downloads
pub mod Sessions
pub mod Albums
pub mod Asked
pub mod Forms
pub mod Served
pub mod Stuck
pub mod Exchange
use hearty_rabbit.Prelude.{
  ℕ, ◌*◌, Bool, true, false, not, ◌&&◌, ◌||◌, is_empty, get_or, List, [], ◌∷◌, ◌++◌, Option, none,
  some, if◌then◌else◌, Bytes, codes, length, ◌==◌, ◌>>=◌,
}
use hearty_rabbit.Escape.Hex.{HexCodec}
use hearty_rabbit.Redis.Reply.{Error, is_error}
use hearty_rabbit.UserId.{UserId, nobody, cookie, of_cookie}
use hearty_rabbit.Url.Types.{Action, QueryTarget, UrlIntent, blank}
use hearty_rabbit.Url.Parse.{parse}
use hearty_rabbit.Url.Write.{str, of_name, of_query, of_blob}
use hearty_rabbit.Handler.Request.{Method, get_, post_, put_, Request, form_type}
use hearty_rabbit.Collection.{Collection, Entry}
use hearty_rabbit.BlobInode.{BlobInode}
use hearty_rabbit.Scheduler
use hearty_rabbit.Scheduler.{Scheduler}
use hearty_rabbit.Aggregated
use hearty_rabbit.Aggregated.{Aggregated}

-- The body of a request: none, a text, or the file at a path.
pub data Content : Type 0 where
  nothing : Content
  text : Bytes → Content
  file : Bytes → Content

-- A request, with the file that the response is written to and the limit of its size.
pub record Outgoing : Type 0 where
  pub request : Request
  pub content : Content
  pub dest : Option Bytes
  pub body_limit : Option ℕ

-- What the client reads of a response.
pub record Response : Type 0 where
  pub result : ℕ
  pub body : Bytes
  pub set_cookie : Option Bytes
  pub location : Option Bytes

-- The number of a request is its place among all that were made.
pub record Client : Type 0 where
  pub user : UserId
  pub requests : List Outgoing
  pub outstanding : Scheduler

abbrev pub fresh : ℕ → Client
fresh limit = record { user = nobody; requests = []; outstanding = Scheduler.fresh limit }

ends_slash : Bytes → Bool
ends_slash [] = false
ends_slash (c ∷ []) = c == b'/'
ends_slash (c ∷ d ∷ s) = ends_slash (d ∷ s)

-- `operator/` of paths: a path from the root takes the place of the directory.
unfoldable pub join : Bytes → Bytes → Bytes
unfolding ends_slash
join dir name =
    if get_or name 0 0 == b'/' || is_empty dir
    then name
    else if ends_slash dir
    then dir ++ name
    else dir ++ b'/' ∷ name

-- `m_outstanding.add(std::move(req))`
unfoldable pub send : Outgoing → Client → Client
send out c = record c {
  requests = c.requests ++ out ∷ [];
  outstanding = Scheduler.add (length c.requests) c.outstanding;
}

-- `m_outstanding.finish(req.shared_from_this())`
unfoldable pub done : ℕ → Client → Client
done req c = record c { outstanding = Scheduler.finish req c.outstanding }

unfoldable pub login : Bytes → Bytes → Client → Client
unfolding send
login username password c =
    send
      (record {
        request = record {
          method = post_;
          target = codes "/login";
          cookie = [];
          content_type = form_type;
          if_none_match = [];
        };
        content = text (codes "username=" ++ (username ++ (codes "&password=" ++ password)));
        dest = none;
        body_limit = none;
      })
      c

abbrev pub rendition_of : Bytes → Bytes
rendition_of rendition = codes "rendition=" ++ rendition

module _ (h : HexCodec) where
  -- `request`
  unfoldable pub request : Client → UrlIntent → Method → Content → Outgoing
  request c intent method content = record {
    request = record {
      method = method;
      target = str intent;
      cookie = cookie h c.user;
      content_type = [];
      if_none_match = [];
    };
    content = content;
    dest = none;
    body_limit = none;
  }

  -- The callback of `login`; `none` is the exception of `at`.
  unfoldable pub on_login : ℕ → Bytes → Response → Error → Client → Option (Client × Error)
  unfolding done of_cookie
  on_login req username response ec c =
      if response.result == 204
      then (do
        value ← response.set_cookie
        some (record (done req c) { user = of_cookie h value username }, ec))
      else some (done req c, Error.login_incorrect)

  unfoldable pub get_collection : Bytes → Client → Client
  unfolding request send
  get_collection coll c =
      send (request c (of_name Action.api c.user.user coll [] []) get_ nothing) c

  unfoldable pub scan_collections : Client → Client
  unfolding request send
  scan_collections c =
      send
        (request c (of_query QueryTarget.collection (codes "json&user=" ++ c.user.user)) get_
          nothing)
        c

  -- `upload` of a file, under the name it has, and of bytes; a file that cannot be opened is an
  -- exception.
  unfoldable pub upload_file : Bool → Bytes → Bytes → Bytes → Client → Option Client
  unfolding request send
  upload_file true coll path filename c =
      some
        (send (request c (of_name Action.upload c.user.user coll filename []) put_ (file path)) c)
  upload_file false coll path filename c = none

  unfoldable pub upload_bytes : Bytes → Bytes → Bytes → Client → Client
  unfolding request send
  upload_bytes coll filename bytes c =
      send (request c (of_name Action.upload c.user.user coll filename []) put_ (text bytes)) c

  unfoldable pub get_blob : Bytes → Bytes → Bytes → Bytes → Client → Client
  unfolding request send
  get_blob owner coll blob rendition c =
      send (request c (of_blob h Action.api owner coll blob (rendition_of rendition)) get_ nothing)
        c

  unfoldable pub get_blob_meta : Bytes → Bytes → Bytes → Client → Client
  unfolding request send
  get_blob_meta owner coll blob c =
      send (request c (of_blob h Action.api owner coll blob (codes "&json")) get_ nothing) c

  -- The file that a blob is written to is opened first; if that fails, the error is what the caller
  -- gets at once.
  unfoldable pub download_blob :
      Option Error → Bytes → Bytes → Bytes → Bytes → Bytes → Client → Client × List Error
  unfolding request send
  download_blob none owner coll blob rendition dest c = (
    send
        (record (request c (of_blob h Action.api owner coll blob (rendition_of rendition)) get_
          nothing) { dest = some dest; body_limit = some (20 * 1024 * 1024) })
        c,
    [],
  )
  download_blob (some ec) owner coll blob rendition dest c = (c, ec ∷ [])

  -- The loop of `download_collection`, with the errors of the files that cannot be opened.
  unfoldable pub download_entries :
      (Bytes → Option Error)
      → Bytes
      → Bytes
      → Bytes
      → Bytes
      → List (Entry BlobInode)
      → Client
      → Client × List Error
  unfolding download_blob
  download_entries opens owner coll rendition dest_dir [] c = (c, [])
  download_entries opens owner coll rendition dest_dir (entry ∷ entries) c =
      let dest = join dest_dir entry.inode.filename in
      let (c1, failed) = download_blob (opens dest) owner coll entry.id rendition dest c in
      let (c2, others) = download_entries opens owner coll rendition dest_dir entries c1 in
      (c2, failed ++ others)

  -- `download_collection`, with the calls of the shared callback that are made at once.
  unfoldable pub download_collection :
      (Bytes → Option Error) → Collection BlobInode → Bytes → Bytes → Client → Client × List Error
  unfolding download_entries
  download_collection opens coll rendition dest_dir c =
      download_entries opens coll.owner coll.name rendition dest_dir coll.blobs c

-- What the caller of `download_collection` gets of the calls of the shared callback.
unfoldable pub downloaded : Collection BlobInode → List Error → List Error
downloaded coll calls = Aggregated.call_all calls (Aggregated.fresh (length coll.blobs))

-- `handle_upload_response`
unfoldable pub handle_upload_response : Response → Error → UrlIntent × Error
unfolding parse
handle_upload_response response ec = (
  elim response.location [ none ↦ blank | some url ↦ parse url ],
  if response.result == 201 then ec else Error.unknown_error,
)

unfoldable pub on_upload : ℕ → Response → Error → Client → Client × (UrlIntent × Error)
unfolding done handle_upload_response
on_upload req response ec c = (done req c, handle_upload_response response ec)

-- The callback of `get_blob` and, with the file that was written, of `download_blob`.
unfoldable pub on_blob : ℕ → Response → Error → Client → Client × (Bytes × Error)
unfolding done
on_blob req response ec c = (done req c, (response.body, ec))

-- The callbacks that read JSON. `parse_json` is `none` for a text that is not JSON, and `read` where
-- what was expected is not in it: an exception, which is `none` here, but for a text that the parser
-- discards.
module _ {ℓ ι} {V : Type ℓ} {A : Type ι} (parse_json : Bytes → Option V) (read : V → Option A) where
  unfoldable pub read_collection : A → Option V → Error → Option (A × Error)
  read_collection empty none ec = some (empty, Error.unknown_error)
  read_collection empty (some v) ec = do coll ← read v; some (coll, ec)

  unfoldable pub on_get_collection :
      A → ℕ → Response → Error → Client → Option (Client × (A × Error))
  unfolding done read_collection
  on_get_collection empty req response ec c =
      if not (is_error ec) && response.result == 200
      then (do
        answer ← read_collection empty (parse_json response.body) ec
        some (done req c, answer))
      else some (done req c, (empty, if is_error ec then ec else Error.unknown_error))

  -- The callbacks of `scan_collections` and of `get_blob_meta`.
  unfoldable pub on_json : ℕ → Response → Error → Client → Option (Client × (A × Error))
  unfolding done
  on_json req response ec c = do
    v ← parse_json response.body
    result ← read v
    some (done req c, (result, ec))
