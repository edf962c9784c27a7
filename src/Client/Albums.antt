-- ===== src/Client/Albums.antt =====
-- What the server is asked for by the members of src/client/http/HRBClient.ipp that read and fill the
-- albums of the user, and what the answer to an upload tells the client.
use hearty_rabbit.Prelude.{
  is_empty, length, arith, ◌≡◌, ◌∙◌, refl, true, false, [], ◌∷◌, ◌++◌, some, Bytes, codes, ◌==◌,
  IsBytes, bytes_eq_refl, inl, Bool,
}
use hearty_rabbit.Escape.Hex.{HexCodec, HexLaws}
use hearty_rabbit.Redis.Reply.{Error}
use hearty_rabbit.UserId.{UserId}
use hearty_rabbit.Permission.{private}
use hearty_rabbit.Url.Types.{Action, QueryTarget, UrlIntent}
use hearty_rabbit.Url.Parse.{parse, trim}
use hearty_rabbit.Url.Write.{str, path, of_name, of_query}
use hearty_rabbit.Url.Segments.{IsUser, IsCollection, IsFilename}
use hearty_rabbit.Url.RoundTrip.{parse-str}
use hearty_rabbit.Url.Trim.{trim_idem, trim-IsBytes}
use hearty_rabbit.Ownership.Commands.{Call}
use hearty_rabbit.Handler.Request.{
  get_, put_, Upload, Saved, json_album, list_albums, upload, blob_request,
}
use hearty_rabbit.Handler.Header.{header_of}
use hearty_rabbit.Handler.Body.{
  on_action, on_request_api, get_api, query_of, scan_collection, on_body, on_empty, get_page,
  on_file, on_upload, sized_upload, save_upload,
}
use hearty_rabbit.Handler.Serve.{serve, has_dots, body_of, is_known}
use hearty_rabbit.Client.{
  Client, Content, Outgoing, nothing, text, file, send, request, get_collection, scan_collections,
  upload_bytes,
}
use hearty_rabbit.Client.Served.{IsLoggedIn, serve-sent}
use hearty_rabbit.Client.Forms.{IsValue, json_user_read}

-- The bytes of a body, with what the client's files hold, and what the server has of them where its
-- file system reports no error.
abbrev pub sent_bytes : (Bytes → Bytes) → Content → Bytes
sent_bytes files nothing = []
sent_bytes files (text bytes) = bytes
sent_bytes files (file path) = files path

abbrev pub received : (Bytes → Saved) → Bytes → Upload
received save bytes = record { size = some (length bytes); saved = some (save bytes) }

not_empty : (s : Bytes) → is_empty s ≡ false → (length s == 0) ≡ false
not_empty [] h = cc
not_empty (c ∷ s) h = ground arith

module _ (h : HexCodec) (laws : HexLaws h) (verify : Bytes → Error × UserId)
    (shared : UserId → Bytes → Bool × Error) (c : Client) (auth : UserId) where
  album_intent : Bytes → UrlIntent
  album_intent coll = of_name Action.api c.user.user coll [] []

  album_back :
      (coll : Bytes)
      → IsUser (trim c.user.user)
      → IsBytes coll
      → parse (str (album_intent coll)) ≡ album_intent coll
  unfolding album_intent
  album_back coll hu hc = parse-str (of_name Action.api c.user.user coll [] []) (
      unfold of_name trim in
      (hu, record { bytes = trim-IsBytes coll hc; trimmed = trim_idem coll }, inl refl, refl, refl))

  -- The album that `get_collection` of a client that is logged in asks for is the one that is shown, as
  -- JSON, without the slashes at the ends of its name and of the user's.
  pub get_collection-asked :
      (coll body : Bytes) (stored : Upload)
      → IsLoggedIn h laws verify shared c auth
      → IsUser (trim c.user.user)
      → IsBytes coll
      → has_dots (str (of_name Action.api c.user.user coll [] [])) ≡ false
      → (out : Outgoing) × ((get_collection h coll c).requests ≡ c.requests ++ out ∷ [])
        × (serve h verify shared out.request body stored
            ≡ json_album auth.user (trim c.user.user) (trim coll))
  unfolding get_collection send on_action header_of is_known body_of request on_request_api get_api
      blob_request of_name album_intent
  get_collection-asked coll body stored logged hu hc dots = (
    request h c (album_intent coll) get_ nothing,
    refl,
    serve-sent h laws verify shared c auth (album_intent coll) get_ nothing body stored logged
        (album_back coll hu hc) (λ u req. refl) refl dots,
  )

  -- `scan_collections` of a client that is logged in asks for the albums of its user, as JSON.
  pub scan_collections-asked :
      (body : Bytes) (stored : Upload)
      → IsLoggedIn h laws verify shared c auth
      → auth.user ≡ c.user.user
      → IsValue c.user.user
      → has_dots (str (of_query QueryTarget.collection (codes "json&user=" ++ c.user.user))) ≡ false
      → (out : Outgoing) × ((scan_collections h c).requests ≡ c.requests ++ out ∷ [])
        × (serve h verify shared out.request body stored ≡ list_albums c.user.user false)
  unfolding scan_collections send on_action header_of is_known body_of request on_body on_empty
      get_page query_of scan_collection of_query str path
  scan_collections-asked body stored logged same hv dots =
      let asked = record (of_query QueryTarget.collection (codes "json&user=" ++ c.user.user)) {
        valid = true;
      } in
      let (user_read, json_read) = json_user_read c.user.user hv in
      let back : parse (str asked) ≡ asked = parse-str asked (refl, refl, refl, refl) in
      (
        request h c asked get_ nothing,
        refl,
        serve-sent h laws verify shared c auth asked get_ nothing body stored logged back
              (λ u req. refl) refl dots
            ∙ rw (user_read, json_read, same, bytes_eq_refl),
      )

  abbrev upload_intent : Bytes → Bytes → UrlIntent
  upload_intent coll filename = of_name Action.upload c.user.user coll filename []

  -- What `upload` of a client that is logged in sends are the bytes that it was given: the server stores
  -- these for the user, and links what was saved of them to the album, under the name that they were
  -- given and for no one else to see. There must be a byte, and no two dots in a row in the path.
  pub upload-asked :
      (coll filename bytes body : Bytes) (files : Bytes → Bytes) (save : Bytes → Saved)
      → IsLoggedIn h laws verify shared c auth
      → auth.user ≡ trim c.user.user
      → IsUser (trim c.user.user)
      → IsBytes coll
      → IsFilename (trim filename)
      → is_empty bytes ≡ false
      → has_dots (str (upload_intent coll filename)) ≡ false
      → (out : Outgoing) × ((upload_bytes h coll filename bytes c).requests
          ≡ c.requests ++ out ∷ [])
        × (out.content ≡ text bytes)
        × (serve h verify shared out.request body (received save (sent_bytes files out.content))
            ≡ upload auth.user
                (Call.link_blob (trim coll) (save bytes).id (record {
                  perm = private;
                  filename = trim filename;
                  mime = (save bytes).mime;
                  timestamp = (save bytes).datetime;
                }))
                (save bytes).phash)
  unfolding upload_bytes send on_action header_of is_known body_of request on_body on_file on_upload
      sized_upload save_upload of_name
  upload-asked coll filename bytes body files save logged same hu hc hf some_byte dots =
      let asked = upload_intent coll filename in
      let collection : IsCollection (trim coll) = record {
        bytes = trim-IsBytes coll hc;
        trimmed = trim_idem coll;
      } in
      let back : parse (str asked) ≡ asked = parse-str asked (hu, collection, hf, refl, refl) in
      (
        request h c asked put_ (text bytes),
        refl,
        refl,
        serve-sent h laws verify shared c auth asked put_ (text bytes) body (received save bytes)
              logged back (λ u req. refl) refl dots
            ∙ rw (same, bytes_eq_refl, not_empty bytes some_byte) refl,
      )
