-- ===== src/Tests/DbModel.antt =====
-- A database that meets what Ownership relies on of redis: a list of cells for each kind of value.
use hearty_rabbit.Prelude.{
  Bool, not, ◌&&◌, List, [], ◌∷◌, ◌++◌, Option, none, some, if◌then◌else◌, Bytes, is_empty,
  bytes_eq,
}
use hearty_rabbit.Ownership.Store.{
  Db, Command, sadd, srem, hset, hsetnx, hdel, rpush, lrem, lpop, Kind, kind_of, value_or, without,
  tail,
}

pub record Cell : Type 0 where
  pub key : Bytes
  pub field : Bytes
  pub value : Bytes

-- A member of a set is a field without a value; an element of a list, a value without a field.
pub record Tables : Type 0 where
  pub sets : List Cell
  pub hashes : List Cell
  pub lists : List Cell

unfoldable pub drop_cell : List Cell → Bytes → Bytes → List Cell
drop_cell [] k f = []
drop_cell (c ∷ cs) k f =
    let rest = drop_cell cs k f in if bytes_eq c.key k && bytes_eq c.field f then rest else c ∷ rest

unfoldable pub find_cell : List Cell → Bytes → Bytes → Option Bytes
find_cell [] k f = none
find_cell (c ∷ cs) k f =
    let rest = find_cell cs k f in
    if bytes_eq c.key k && bytes_eq c.field f then some c.value else rest

unfoldable pub fields_of : List Cell → Bytes → List Bytes
fields_of [] k = []
fields_of (c ∷ cs) k =
    let rest = fields_of cs k in if bytes_eq c.key k then c.field ∷ rest else rest

unfoldable pub values_of : List Cell → Bytes → List Bytes
values_of [] k = []
values_of (c ∷ cs) k =
    let rest = values_of cs k in if bytes_eq c.key k then c.value ∷ rest else rest

-- The cells of the values, put first, without those that the key had.
unfoldable pub cells_of : Bytes → List Bytes → List Cell
cells_of k [] = []
cells_of k (v ∷ vs) = record { key = k; field = []; value = v } ∷ cells_of k vs

unfoldable pub without_key : List Cell → Bytes → List Cell
without_key [] k = []
without_key (c ∷ cs) k = let rest = without_key cs k in if bytes_eq c.key k then rest else c ∷ rest

abbrev set_list : Tables → Bytes → List Bytes → Tables
set_list t k vs = record t { lists = cells_of k vs ++ without_key t.lists k }

abbrev set_cell : Tables → Bytes → Bytes → Bytes → Tables
set_cell t k f v = record t { hashes = record { key = k; field = f; value = v } ∷ t.hashes }

unfoldable pub call : Tables → Command → Tables
call t (sadd k m) = record t { sets = record { key = k; field = m; value = [] } ∷ t.sets }
call t (srem k m) = record t { sets = drop_cell t.sets k m }
call t (hset k f v) = set_cell t k f v
call t (hsetnx k f v) = set_cell t k f (value_or (find_cell t.hashes k f) v)
call t (hdel k f) = record t { hashes = drop_cell t.hashes k f }
call t (rpush k v) = set_list t k (values_of t.lists k ++ v ∷ [])
call t (lrem k v) = set_list t k (without v (values_of t.lists k))
call t (lpop k) = set_list t k (tail (values_of t.lists k))

unfoldable pub exists_kind : Kind → Tables → Bytes → Bool
exists_kind Kind.sets t k = not (is_empty (fields_of t.sets k))
exists_kind Kind.hashes t k = not (is_empty (fields_of t.hashes k))
exists_kind Kind.lists t k = not (is_empty (values_of t.lists k))

abbrev pub tables : Db Tables
tables = record {
  call = call;
  exists = λ t k. exists_kind (kind_of k) t k;
  smembers = λ t k. fields_of t.sets k;
  hget = λ t k f. find_cell t.hashes k f;
  hkeys = λ t k. fields_of t.hashes k;
  lrange = λ t k. values_of t.lists k;
}

abbrev pub no_tables : Tables
no_tables = record { sets = []; hashes = []; lists = [] }
