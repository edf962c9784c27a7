-- ===== src/Client/Asked.antt =====
-- What the server is asked for by the members of src/client/http/HRBClient.ipp: a request that they
-- make, served by src/server/net/Session.cc and src/server/hrb/SessionHandler.ipp.
use hearty_rabbit.Prelude.{◌≡◌, ◌∙◌, refl, Bool, false, [], ◌∷◌, ◌++◌, some, Bytes, codes, IsBytes}
use hearty_rabbit.Escape.Hex.{HexCodec, HexLaws, to_quoted_hex}
use hearty_rabbit.Redis.Reply.{Error}
use hearty_rabbit.UserId.{UserId}
use hearty_rabbit.ObjectId.{IsObjectId}
use hearty_rabbit.Url.Types.{Action, UrlIntent}
use hearty_rabbit.Url.Parse.{trim}
use hearty_rabbit.Url.Write
use hearty_rabbit.Url.Write.{str, of_name, of_blob, of_query}
use hearty_rabbit.Url.Segments.{IsUser}
use hearty_rabbit.Url.Intents.{parse-str-of_blob}
use hearty_rabbit.Handler.Request
use hearty_rabbit.Handler.Request.{
  get_, put_, Upload, BlobRequest, Answer, read_blob, show_album, list_albums, meta, content,
  blob_request,
}
use hearty_rabbit.Handler.Body
use hearty_rabbit.Handler.Body.{
  on_action, on_request_api, get_api, query_of, scan_collection, on_body, on_empty, get_page,
}
use hearty_rabbit.Handler.Blob.{send_blob}
use hearty_rabbit.Handler.Header.{header_of}
use hearty_rabbit.Handler.Serve.{serve, has_dots, body_of, is_known}
use hearty_rabbit.Client.{
  Client, Outgoing, nothing, send, request, rendition_of, get_blob, get_blob_meta,
}
use hearty_rabbit.Client.Served.{IsLoggedIn, serve-sent}
use hearty_rabbit.Client.Forms.{IsValue, rendition_read, json_read}

abbrev pub made : HexCodec → Bytes → Bytes → Bytes → Bytes → UrlIntent
made h owner coll blob option = of_blob h Action.api owner coll blob option

abbrev pub asked : HexCodec → Bytes → Bytes → Bytes → Bytes → BlobRequest
asked h owner coll blob option = record {
  url = made h owner coll blob option;
  etag = [];
  body = [];
}

module _ (h : HexCodec) (laws : HexLaws h) (verify : Bytes → Error × UserId)
    (shared : UserId → Bytes → Bool × Error) (c : Client) (auth : UserId) where
  module _ (owner coll blob option : Bytes) where
    blob_asked :
        (body : Bytes) (stored : Upload)
        → IsLoggedIn h laws verify shared c auth
        → IsUser (trim owner)
        → IsBytes coll
        → IsObjectId blob
        → has_dots (str (made h owner coll blob option)) ≡ false
        → serve h verify shared
            (request h c (made h owner coll blob option) get_ nothing).request
            body
            stored
          ≡ read_blob (trim owner) (trim coll) blob (asked h owner coll blob option)
    unfolding on_action on_request_api get_api Body.get_blob blob_request Request.form_body of_blob
        header_of is_known body_of request to_quoted_hex
    blob_asked body stored logged hu hc hb dots =
        let (back, reads) =
          parse-str-of_blob h laws Action.api owner coll blob option refl hu hc hb in
        let found : Request.blob h (asked h owner coll blob option) ≡ some blob =
          unfold Request.blob Write.blob in rw back at reads in
        serve-sent h laws verify shared c auth (made h owner coll blob option) get_ nothing body
          stored logged back (λ u req. refl) refl dots
        ∙ rw (found, Request.blob)

  -- What `get_blob` of a client that is logged in asks is taken by the server as a request for that
  -- blob, album and owner, without the slashes at the ends of their names, and if the blob may be seen
  -- it is sent in the rendition asked for. The path must have no two dots in a row, and the rendition
  -- no separator of a form.
  pub get_blob-asked :
      (owner coll blob rendition body : Bytes) (stored : Upload)
      → IsLoggedIn h laws verify shared c auth
      → IsUser (trim owner)
      → IsBytes coll
      → IsObjectId blob
      → IsValue rendition
      → has_dots (str (made h owner coll blob (rendition_of rendition))) ≡ false
      → (out : Outgoing) × ((get_blob h owner coll blob rendition c).requests
          ≡ c.requests ++ out ∷ [])
        × (serve h verify shared out.request body stored
            ≡ read_blob
                (trim owner)
                (trim coll)
                blob
                (asked h owner coll blob (rendition_of rendition)))
        × ((filename : Bytes)
            → send_blob auth (asked h owner coll blob (rendition_of rendition)) blob filename
              ≡ content blob rendition filename)
  unfolding get_blob send send_blob of_blob
  get_blob-asked owner coll blob rendition body stored logged hu hc hb hr dots =
      let option = rendition_of rendition in
      let (named, no_json) = rendition_read rendition hr in
      (
        request h c (made h owner coll blob option) get_ nothing,
        refl,
        blob_asked owner coll blob option body stored logged hu hc hb dots,
        λ filename. rw (no_json, named),
      )

  -- The same for `get_blob_meta`, which is sent what is known of the blob.
  pub get_blob_meta-asked :
      (owner coll blob body : Bytes) (stored : Upload)
      → IsLoggedIn h laws verify shared c auth
      → IsUser (trim owner)
      → IsBytes coll
      → IsObjectId blob
      → has_dots (str (made h owner coll blob (codes "&json"))) ≡ false
      → (out : Outgoing) × ((get_blob_meta h owner coll blob c).requests ≡ c.requests ++ out ∷ [])
        × (serve h verify shared out.request body stored
            ≡ read_blob (trim owner) (trim coll) blob (asked h owner coll blob (codes "&json")))
        × ((filename : Bytes)
            → send_blob auth (asked h owner coll blob (codes "&json")) blob filename ≡ meta blob)
  unfolding get_blob_meta send send_blob of_blob
  get_blob_meta-asked owner coll blob body stored logged hu hc hb dots = (
    request h c (made h owner coll blob (codes "&json")) get_ nothing,
    refl,
    blob_asked owner coll blob (codes "&json") body stored logged hu hc hb dots,
    λ filename. rw json_read,
  )
