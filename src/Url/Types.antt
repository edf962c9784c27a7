-- ===== src/Url/Types.antt =====
-- The enumerations and the state of `URLIntent` in src/common/hrb/URLIntent.hh, with its tables.
use hearty_rabbit.Prelude.{Bool, true, false, List, [], ◌∷◌, Bytes}

pub data Action : Type 0 where
  login logout view upload home lib query api none : Action

pub data QueryTarget : Type 0 where
  blob collection blob_set none : QueryTarget

pub data Parameter : Type 0 where
  user collection filename blob query_target : Parameter

pub record UrlIntent : Type 0 where
  pub action : Action
  pub user : Bytes
  pub coll : Bytes
  pub filename : Bytes
  pub option : Bytes
  pub query_target : QueryTarget
  pub valid : Bool

-- The default constructor.
abbrev pub blank : UrlIntent
blank = record {
  action = Action.none;
  user = [];
  coll = [];
  filename = [];
  option = [];
  query_target = QueryTarget.none;
  valid = false;
}

abbrev pub require_user : Action → Bool
require_user Action.view = true
require_user Action.upload = true
require_user Action.api = true
require_user _ = false

abbrev pub require_filename : Action → Bool
require_filename Action.upload = true
require_filename Action.lib = true
require_filename _ = false

abbrev pub intent_definitions : Action → List Parameter
intent_definitions Action.view = Parameter.user ∷ Parameter.collection ∷ Parameter.blob ∷ []
intent_definitions Action.upload = Parameter.user ∷ Parameter.collection ∷ Parameter.filename ∷ []
intent_definitions Action.lib = Parameter.filename ∷ []
intent_definitions Action.query = Parameter.query_target ∷ []
intent_definitions Action.api = Parameter.user ∷ Parameter.collection ∷ Parameter.blob ∷ []
intent_definitions _ = []

-- Whether a parameter is one of `separator_fields`.
abbrev pub is_separator : Parameter → Bool
is_separator Parameter.collection = true
is_separator _ = false
