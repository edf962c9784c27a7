-- ===== src/Url/Plain.antt =====
-- The bytes of the paths that are written.
use hearty_rabbit.Prelude.{
  ◌≡◌, ◌⊎◌, refl, Bool, true, false, ◌||◌, List, [], ◌∷◌, Bytes, codes, IsBytes, Avoids,
  Avoids-append, Avoids-subset, All-Avoids, inl, inr, arith,
}
use hearty_rabbit.Escape.Hex.{hex_digits}
use hearty_rabbit.Escape.Url.{url_encode}
use hearty_rabbit.Escape.UrlLaws.{url_encode-no_query, avoids-Avoids}
use hearty_rabbit.ObjectId.{is_hex-All}
use hearty_rabbit.Url.Types.{Action, Parameter, UrlIntent, intent_definitions}
use hearty_rabbit.Url.Write.{
  path, is_blob_action, segment, to_string, write_parameter, write_parameters, action_path,
}
use hearty_rabbit.Url.Segments.{IsBlobName}
use hearty_rabbit.Url.RoundTrip.{to_string-plain}

segment-plain : (s : Bytes) → IsBytes s → Avoids (codes "?#") (segment s)
segment-plain [] h = unfold url_encode in tt
segment-plain (c ∷ s) h =
    Avoids-append (codes "?#") (url_encode (c ∷ s)) (b'/' ∷ []) (url_encode-no_query (c ∷ s) h)
      (avoids-Avoids (codes "?#") (b'/' ∷ []) refl)

-- What an intent may hold for its path to be one.
pub record IsPlain (i : UrlIntent) : Type 0 where
  pub user : IsBytes i.user
  pub coll : IsBytes i.coll
  pub filename : IsBytes i.filename
  pub blob : (is_blob_action i.action ≡ false) ⊎ IsBlobName i.filename

is_blob_parameter : Parameter → Bool
is_blob_parameter Parameter.blob = true
is_blob_parameter _ = false

has_blob : List Parameter → Bool
unfolding is_blob_parameter
has_blob [] = false
has_blob (p ∷ ps) = is_blob_parameter p || has_blob ps

module _ (i : UrlIntent) (plain : IsPlain i) where
  blob-plain : IsBlobName i.filename → Avoids (codes "?#") i.filename
  blob-plain (inl e) = rw e tt
  blob-plain (inr e) = All-Avoids hex_digits (codes "?#") _ refl (is_hex-All _ e).1

  parameter-plain :
      (p : Parameter)
      → (is_blob_parameter p ≡ false) ⊎ IsBlobName i.filename
      → Avoids (codes "?#") (write_parameter i p)
  unfolding is_blob_parameter
  parameter-plain Parameter.user h = segment-plain i.user plain.user
  parameter-plain Parameter.collection h = segment-plain i.coll plain.coll
  parameter-plain Parameter.filename h = url_encode-no_query i.filename plain.filename
  parameter-plain Parameter.blob (inl e) = cc
  parameter-plain Parameter.blob (inr e) = blob-plain e
  parameter-plain Parameter.query_target h =
      Avoids-subset (codes "?#") (codes "/?#") (to_string i.query_target) refl
        (to_string-plain i.query_target)

  head_of :
      (p : Parameter) (ps : List Parameter)
      → (has_blob (p ∷ ps) ≡ false) ⊎ IsBlobName i.filename
      → ((is_blob_parameter p ≡ false) ⊎ IsBlobName i.filename)
        × ((has_blob ps ≡ false) ⊎ IsBlobName i.filename)
  unfolding has_blob
  head_of p ps (inl e) = (inl (ground arith), inl (ground arith))
  head_of p ps (inr e) = (inr e, inr e)

  parameters-plain :
      (ps : List Parameter)
      → (has_blob ps ≡ false) ⊎ IsBlobName i.filename
      → Avoids (codes "?#") (write_parameters i ps)
  parameters-plain [] h = tt
  parameters-plain (p ∷ ps) h =
      Avoids-append (codes "?#") (write_parameter i p) (write_parameters i ps)
        (parameter-plain p (head_of p ps h).0) (parameters-plain ps (head_of p ps h).1)

  blob_of_action :
      (a : Action)
      → (is_blob_action a ≡ false) ⊎ IsBlobName i.filename
      → (has_blob (intent_definitions a) ≡ false) ⊎ IsBlobName i.filename
  unfolding has_blob
  blob_of_action Action.view (inl e) = cc
  blob_of_action Action.api (inl e) = cc
  blob_of_action _ (inl e) = inl refl
  blob_of_action _ (inr e) = inr e

action_path-plain : (a : Action) → Avoids (codes "?#") (action_path a)
action_path-plain Action.login = avoids-Avoids (codes "?#") (codes "login") refl
action_path-plain Action.logout = avoids-Avoids (codes "?#") (codes "logout") refl
action_path-plain Action.view = avoids-Avoids (codes "?#") (codes "view/") refl
action_path-plain Action.upload = avoids-Avoids (codes "?#") (codes "upload/") refl
action_path-plain Action.lib = avoids-Avoids (codes "?#") (codes "lib/") refl
action_path-plain Action.query = avoids-Avoids (codes "?#") (codes "query/") refl
action_path-plain Action.api = avoids-Avoids (codes "?#") (codes "api/") refl
action_path-plain Action.home = tt
action_path-plain Action.none = tt

-- The path of an intent holds no question mark and no hash, whatever bytes its user, collection and
-- file name are, if the blob of a view or an API call is absent or hexadecimal: only an option
-- brings a query string, and nothing brings a fragment.
pub path-Avoids : (i : UrlIntent) → IsPlain i → Avoids (codes "?#") (path i)
unfolding path
path-Avoids i p =
    Avoids-append (codes "?#") (b'/' ∷ action_path i.action) (write_parameters i _)
      (refl, action_path-plain i.action)
      (parameters-plain i p (intent_definitions i.action) (blob_of_action i p i.action p.blob))
