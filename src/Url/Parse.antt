-- ===== src/Url/Parse.antt =====
-- The parsing constructor of `URLIntent` in src/common/hrb/URLIntent.cc. A function that shortens
-- `target` or sets members returns the new values.
use hearty_rabbit.Prelude.{
  Bool, true, false, not, ◌&&◌, ◌||◌, List, [], ◌∷◌, reverse, ◌==◌, if◌then◌else◌, Bytes, codes,
  length, drop, contains, is_empty, bytes_eq,
}
use hearty_rabbit.Escape.Split.{split_left, split_right}
use hearty_rabbit.Escape.Url.{url_decode}
use hearty_rabbit.ObjectId.{is_hex}
use hearty_rabbit.Url.Types.{
  Action, QueryTarget, Parameter, UrlIntent, blank, intent_definitions, is_separator, require_user,
  require_filename,
}

-- The field before the first of `/?#`; only a slash is removed behind it.
unfoldable pub extract_left : Bytes → Bytes × Bytes
extract_left target =
    let cut = split_left target (codes "/?#") in
    if cut.match == b'/' then (cut.field, cut.rest) else (cut.field, drop (length cut.field) target)

-- The two loops of `trim`.
unfoldable pub trim_front : Bytes → Bytes
trim_front [] = []
trim_front (c ∷ s) = let rest = trim_front s in if c == b'/' then rest else c ∷ s

unfoldable pub trim_back : Bytes → Bytes
trim_back [] = []
trim_back (c ∷ s) = let rest = trim_back s in if is_empty rest && c == b'/' then [] else c ∷ rest

unfoldable pub trim : Bytes → Bytes
unfolding trim_front trim_back
trim s = trim_back (trim_front s)

unfoldable pub parse_action : Bytes → Action
parse_action str =
    if bytes_eq str (codes "view")
    then Action.view
    else if bytes_eq str (codes "upload")
    then Action.upload
    else if bytes_eq str (codes "login")
    then Action.login
    else if bytes_eq str (codes "logout")
    then Action.logout
    else if bytes_eq str (codes "lib")
    then Action.lib
    else if bytes_eq str (codes "query")
    then Action.query
    else if bytes_eq str (codes "api")
    then Action.api
    else if is_empty str
    then Action.home
    else Action.none

unfoldable pub parse_query_target : Bytes → QueryTarget
parse_query_target str =
    if bytes_eq str (codes "blob")
    then QueryTarget.blob
    else if bytes_eq str (codes "collection")
    then QueryTarget.collection
    else if bytes_eq str (codes "blob_set")
    then QueryTarget.blob_set
    else QueryTarget.none

-- What one parameter stores of a field cut from the left.
abbrev store_left : Parameter → Bytes → UrlIntent → UrlIntent
store_left Parameter.user field i = record i { user = url_decode field }
store_left Parameter.filename field i = record i { filename = url_decode field }
store_left Parameter.query_target field i = record i { query_target = parse_query_target field }
store_left _ field i = i

unfoldable pub parse_field_from_left : Parameter → Bytes × UrlIntent → Bytes × UrlIntent
unfolding extract_left
parse_field_from_left p (target, i) =
    let (field, target') = extract_left target in (target', store_left p field i)

abbrev pub is_filename : Parameter → Bool
is_filename Parameter.filename = true
is_filename _ = false

-- The last segment, if the parameter takes it; a blob must be an ID in hexadecimal digits.
unfoldable pub parse_last_segment : Parameter → Bytes × UrlIntent → Bytes × UrlIntent
parse_last_segment p (target, i) =
    let cut = split_right target (codes "/") in
    if is_filename p || is_hex cut.field
    then (cut.rest, record i { filename = url_decode cut.field })
    else (target, i)

-- A collection takes all that is left, unless that holds a question mark.
unfoldable pub parse_collection : Bytes × UrlIntent → Bytes × UrlIntent
unfolding trim
parse_collection (target, i) =
    if contains target b'?' then (target, i) else ([], record i { coll = url_decode (trim target) })

unfoldable pub parse_field_from_right : Parameter → Bytes × UrlIntent → Bytes × UrlIntent
parse_field_from_right Parameter.filename s = parse_last_segment Parameter.filename s
parse_field_from_right Parameter.blob s = parse_last_segment Parameter.blob s
parse_field_from_right Parameter.collection s = parse_collection s
parse_field_from_right _ s = s

-- The parameters before the first separator, and the others.
abbrev pub before_mid : List Parameter → List Parameter
before_mid [] = []
before_mid (p ∷ ps) = if is_separator p then [] else p ∷ before_mid ps

abbrev pub from_mid : List Parameter → List Parameter
from_mid [] = []
from_mid (p ∷ ps) = if is_separator p then p ∷ ps else from_mid ps

abbrev pub run_fields :
    (Parameter → Bytes × UrlIntent → Bytes × UrlIntent)
    → List Parameter
    → Bytes × UrlIntent
    → Bytes × UrlIntent
run_fields step [] s = s
run_fields step (p ∷ ps) s = run_fields step ps (step p s)

abbrev pub is_query : Action → Bool
is_query Action.query = true
is_query _ = false

-- The path behind the action, with the query string cut off.
unfoldable pub parse_path : Action → Bytes → Bytes → UrlIntent
parse_path action path option =
    let start = record blank {
      action = action;
      option = option;
      valid = not (is_query action && is_empty option);
    } in
    let definition = intent_definitions action in
    let left = run_fields parse_field_from_left (before_mid definition) (path, start) in
    let right = run_fields parse_field_from_right (reverse (from_mid definition)) left in
    if is_empty right.0 then right.1 else record (right.1) { valid = false }

-- The action is known; `target` is what stands behind it.
unfoldable pub parse_fields : Action → Bytes → UrlIntent
unfolding parse_path
parse_fields action target =
    let cut = split_left target (codes "?") in
    if cut.match == b'?' then parse_path action cut.field cut.rest else parse_path action target []

-- An unknown action leaves the intent as it was made.
unfoldable pub dispatch : Action → Bytes → UrlIntent
dispatch Action.none rest = blank
dispatch action rest = parse_fields action rest

unfoldable pub parse_body : Bytes → UrlIntent
parse_body target = let (field, rest) = extract_left target in dispatch (parse_action field) rest

-- The constructor `URLIntent(std::string_view)`.
unfoldable pub parse : Bytes → UrlIntent
unfolding parse_body
parse [] = blank
parse (c ∷ target) = if c == b'/' then parse_body target else blank

-- `valid()`.
unfoldable pub valid : UrlIntent → Bool
valid i = elim i.action [
  | Action.none ↦ false
  | action ↦
      if require_user action && is_empty i.user
      then false
      else if require_filename action && is_empty i.filename
      then false
      else i.valid
]
