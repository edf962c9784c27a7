-- ===== src/Url/Write.antt =====
-- `path`, `str`, the other constructors and the option of `URLIntent` in
-- src/common/hrb/URLIntent.cc.
use hearty_rabbit.Prelude.{
  Bool, true, false, ◌||◌, List, [], ◌∷◌, ◌++◌, if◌then◌else◌, Bytes, codes, is_empty, Option,
}
use hearty_rabbit.Escape.Hex.{HexCodec, to_hex}
use hearty_rabbit.Escape.Url.{url_encode}
use hearty_rabbit.ObjectId
use hearty_rabbit.ObjectId.{is_hex}
use hearty_rabbit.Url.Parse.{trim}
use hearty_rabbit.Url.Types.{Action, QueryTarget, Parameter, UrlIntent, blank, intent_definitions}

abbrev pub action_path : Action → Bytes
action_path Action.login = codes "login"
action_path Action.logout = codes "logout"
action_path Action.view = codes "view/"
action_path Action.upload = codes "upload/"
action_path Action.lib = codes "lib/"
action_path Action.query = codes "query/"
action_path Action.api = codes "api/"
action_path Action.home = []
action_path Action.none = []

abbrev pub to_string : QueryTarget → Bytes
to_string QueryTarget.blob = codes "blob"
to_string QueryTarget.collection = codes "collection"
to_string QueryTarget.blob_set = codes "blob_set"
to_string QueryTarget.none = []

-- A segment with a slash behind it, unless it is empty.
abbrev pub segment : Bytes → Bytes
segment s = if is_empty s then url_encode s else url_encode s ++ b'/' ∷ []

abbrev pub write_parameter : UrlIntent → Parameter → Bytes
write_parameter i Parameter.user = segment i.user
write_parameter i Parameter.collection = segment i.coll
write_parameter i Parameter.filename = url_encode i.filename
write_parameter i Parameter.blob = i.filename
write_parameter i Parameter.query_target = to_string i.query_target

abbrev pub write_parameters : UrlIntent → List Parameter → Bytes
write_parameters i [] = []
write_parameters i (p ∷ ps) = write_parameter i p ++ write_parameters i ps

-- `write_path`, on an empty stream.
unfoldable pub path : UrlIntent → Bytes
path i = b'/' ∷ action_path i.action ++ write_parameters i (intent_definitions i.action)

unfoldable pub str : UrlIntent → Bytes
unfolding path
str i = if is_empty i.option then path i else path i ++ b'?' ∷ i.option

unfoldable pub add_option : Bytes → UrlIntent → UrlIntent
add_option option i =
    if is_empty i.option
    then record i { option = option }
    else record i { option = i.option ++ b'&' ∷ option }

abbrev valid_alone : Action → Bool
valid_alone Action.login = true
valid_alone Action.logout = true
valid_alone Action.home = true
valid_alone _ = false

-- `URLIntent(Action)`
unfoldable pub of_action : Action → UrlIntent
of_action act = record blank { action = act; valid = valid_alone act }

abbrev valid_named : Action → Bytes → Bool
valid_named Action.api filename = is_empty filename || is_hex filename
valid_named Action.view filename = is_empty filename || is_hex filename
valid_named Action.upload filename = true
valid_named Action.lib filename = true
valid_named _ filename = false

-- `URLIntent(Action, user, coll, name, option)`
unfoldable pub of_name : Action → Bytes → Bytes → Bytes → Bytes → UrlIntent
unfolding trim is_hex
of_name act user coll name option = record blank {
  action = act;
  user = trim user;
  coll = trim coll;
  filename = trim name;
  option = option;
  valid = valid_named act (trim name);
}

abbrev pub is_blob_action : Action → Bool
is_blob_action Action.api = true
is_blob_action Action.view = true
is_blob_action _ = false

-- `URLIntent(QueryTarget, option)`
unfoldable pub of_query : QueryTarget → Bytes → UrlIntent
of_query target option = record blank {
  action = Action.query;
  option = option;
  query_target = target;
}

module _ (h : HexCodec) where
  -- `URLIntent(Action, user, coll, blob, option)`
  unfoldable pub of_blob : Action → Bytes → Bytes → Bytes → Bytes → UrlIntent
  unfolding of_name
  of_blob act user coll blob option = record (of_name act user coll (to_hex h blob) option) {
    valid = is_blob_action act;
  }

  -- `blob()`
  unfoldable pub blob : UrlIntent → Option Bytes
  blob i = ObjectId.from_hex h i.filename
