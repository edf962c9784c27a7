-- ===== src/Tests/Clients.antt =====
-- The client, and the server that it talks to.
use hearty_rabbit.Prelude.{
  ℕ, min, ◌-◌, ◌≡◌, ◌≤◌, refl, false, [], ◌∷◌, ◌++◌, List, Option, none, some, if◌then◌else◌, Bytes,
  codes, length, ◌==◌, arith,
}
use hearty_rabbit.Escape.Hex
use hearty_rabbit.Escape.Url
use hearty_rabbit.Escape.UrlLaws.{avoids-Avoids}
use hearty_rabbit.Ownership.Commands.{Call}
use hearty_rabbit.ObjectId.{IsObjectId}
use hearty_rabbit.Redis.Reply.{Error}
use hearty_rabbit.Prelude.Int.{ℤ}
use hearty_rabbit.UserId.{valid, set_cookie}
use hearty_rabbit.Permission.{private}
use hearty_rabbit.Url.Types.{Action, UrlIntent}
use hearty_rabbit.Url.Parse.{trim}
use hearty_rabbit.Url.Write
use hearty_rabbit.Url.Write.{str, path, of_action, of_name, of_blob}
use hearty_rabbit.Url.Segments.{IsFilename}
use hearty_rabbit.Collection.{Collection}
use hearty_rabbit.BlobInode.{BlobInode}
use hearty_rabbit.Handler.Request.{get_, Saved, log_in, read_blob, content, upload}
use hearty_rabbit.Handler.Body.{upload_location}
use hearty_rabbit.Handler.Blob.{send_blob}
use hearty_rabbit.Handler.Serve.{serve, has_dots}
use hearty_rabbit.Client
use hearty_rabbit.Client.{
  Client, Outgoing, Response, text, nothing, login, get_blob, upload_bytes, on_login, done,
  handle_upload_response, rendition_of, download_collection, downloaded,
}
use hearty_rabbit.Client.Served.{IsLoggedIn}
use hearty_rabbit.Client.Asked.{asked, made, get_blob-asked}
use hearty_rabbit.Client.Albums.{received, sent_bytes, upload-asked}
use hearty_rabbit.Client.Sessions.{login-asked, on_login-set_cookie, upload-location}
use hearty_rabbit.Client.Stuck.{send_all, send_all-fresh}
use hearty_rabbit.Client.Downloads.{download_collection_completes}
use hearty_rabbit.Tests.HexModel
use hearty_rabbit.Tests.HexModel.{model, model-HexLaws}
use hearty_rabbit.Tests.Owners.{nestal, trip, cat}
use hearty_rabbit.Tests.Urls.{nestal-IsUser}
use hearty_rabbit.Tests.Requests.{verify, shared, owner, no_file}
use hearty_rabbit.Tests.Identity.{member-IsSession}

abbrev user : Client
user = record (Client.fresh 5) { user = owner }

user-IsLoggedIn : IsLoggedIn model model-HexLaws verify shared user owner
unfolding valid
user-IsLoggedIn = record { has_session = refl; session = member-IsSession; verified = refl }

cat-IsObjectId : IsObjectId cat
cat-IsObjectId = record { full = refl; bytes = omega arith }

no_dots : has_dots (str (made model nestal trip cat (rendition_of (codes "thumbnail")))) ≡ false
unfolding has_dots str path of_blob Url.url_encode Hex.to_hex HexModel.hex_lower
no_dots = refl

get_blob-asked_example :
    (out : Outgoing) × ((get_blob model nestal trip cat (codes "thumbnail") user).requests
      ≡ [] ++ out ∷ [])
    × (serve model verify shared out.request [] no_file
        ≡ read_blob
            (trim nestal)
            (trim trip)
            cat
            (asked model nestal trip cat (rendition_of (codes "thumbnail"))))
    × ((filename : Bytes)
        → send_blob owner
            (asked model nestal trip cat (rendition_of (codes "thumbnail")))
            cat
            filename
          ≡ content cat (codes "thumbnail") filename)
get_blob-asked_example =
    get_blob-asked model model-HexLaws verify shared user owner nestal trip cat (codes "thumbnail")
      [] no_file user-IsLoggedIn (unfold trim in nestal-IsUser) (omega arith) cat-IsObjectId
      (avoids-Avoids (codes ";&") (codes "thumbnail") refl) no_dots

abbrev picture : Saved
picture = record { id = cat; mime = codes "image/jpeg"; datetime = ℤ.pos 7; phash = none }

cat-IsFilename : IsFilename (trim (codes "cat.jpg"))
unfolding trim
cat-IsFilename = record {
  bytes = omega arith;
  one_segment = avoids-Avoids (codes "/") (codes "cat.jpg") refl;
}

upload_no_dots : has_dots (str (of_name Action.upload nestal trip (codes "cat.jpg") [])) ≡ false
unfolding has_dots str path of_name Url.url_encode
upload_no_dots = refl

abbrev no_files : Bytes → Bytes
no_files path = []

abbrev save : Bytes → Saved
save bytes = record picture { mime = bytes }

upload-asked_example :
    (out : Outgoing) × ((upload_bytes model trip (codes "cat.jpg") (codes "meow") user).requests
      ≡ [] ++ out ∷ [])
    × (out.content ≡ text (codes "meow"))
    × (serve model verify shared out.request [] (received save (sent_bytes no_files out.content))
        ≡ upload nestal
            (Call.link_blob (trim trip) cat (record {
              perm = private;
              filename = trim (codes "cat.jpg");
              mime = codes "meow";
              timestamp = ℤ.pos 7;
            }))
            none)
upload-asked_example =
    upload-asked model model-HexLaws verify shared user owner trip (codes "cat.jpg") (codes "meow")
      [] no_files save user-IsLoggedIn (unfold trim in refl) (unfold trim in nestal-IsUser)
      (omega arith) cat-IsFilename refl upload_no_dots

login-asked_example :
    (out : Outgoing) × (form : Bytes) × ((login nestal (codes "secret") user).requests
      ≡ [] ++ out ∷ [])
    × (out.content ≡ text form)
    × (serve model verify shared out.request form no_file ≡ log_in nestal (codes "secret"))
login-asked_example =
    login-asked model verify shared user nestal (codes "secret") no_file
      (avoids-Avoids (codes ";&") nestal refl) (avoids-Avoids (codes ";&") (codes "secret") refl)

on_login-set_cookie_example :
    on_login model 0 nestal
      (record {
        result = 204;
        body = [];
        set_cookie = some (set_cookie model owner 3600);
        location = none;
      })
      Error.ok
      user
    ≡ some (
      record (done 0 user) {
        user = record { session = codes "0123456789abcdef"; user = nestal; guest = false };
      },
      Error.ok,
    )
on_login-set_cookie_example =
    on_login-set_cookie model model-HexLaws 0 nestal [] owner 3600 Error.ok user
      (unfold valid in refl) member-IsSession

abbrev to_trip : UrlIntent
to_trip = of_name Action.upload nestal trip (codes "cat.jpg") []

upload-location_example :
    (i : UrlIntent) × (handle_upload_response
        (record {
          result = 201;
          body = [];
          set_cookie = none;
          location = some (upload_location model owner to_trip cat);
        })
        Error.ok
      ≡ (i, Error.ok))
    × (i.action ≡ Action.api)
    × (i.user ≡ trim nestal)
    × (i.coll ≡ trim to_trip.coll)
    × (Write.blob model i ≡ some cat)
unfolding of_name
upload-location_example =
    upload-location model model-HexLaws owner to_trip cat [] Error.ok (unfold trim in nestal-IsUser)
      (omega arith) cat-IsObjectId

-- No operation gets further than the host's name.
abbrev unresolved : ℕ → List Error
unresolved req = Error.io ∷ []

abbrev two : List Outgoing
two =
    Client.request model user to_trip get_ nothing
    ∷ Client.request model user to_trip get_ nothing
    ∷ []

send_all-fresh_example :
    (length (send_all unresolved two (Client.fresh 1)).outstanding.started ≡ min 2 1)
    × (length (send_all unresolved two (Client.fresh 1)).outstanding.pending ≡ 2 - 1)
send_all-fresh_example = send_all-fresh unresolved 1 two (λ req. refl)

abbrev cat_inode : BlobInode
cat_inode = record {
  perm = private;
  filename = codes "cat.jpg";
  mime = codes "image/jpeg";
  timestamp = ℤ.pos 7;
}

abbrev album : Collection BlobInode
album = record { name = trip; owner = nestal; blobs = record { id = cat; inode = cat_inode } ∷ [] }

all_open : Bytes → Option Error
all_open dest = none

one_request :
    1
    ≤ length
        (download_collection model all_open album (codes "master") (codes "/tmp") user).0.requests
unfolding download_collection Client.download_entries Client.download_blob Client.send all_open
one_request = omega arith

download_collection_completes_example :
    length (
      downloaded album (
        (download_collection model all_open album (codes "master") (codes "/tmp") user).1
        ++ Error.ok ∷ []))
    ≡ (if 1
          == length
              (download_collection model all_open album
                (codes "master")
                (codes "/tmp")
                user).0.requests
        then 1
        else 0)
download_collection_completes_example =
    download_collection_completes model all_open album (codes "master") (codes "/tmp") user
      (Error.ok ∷ []) refl (omega arith) one_request
