-- ===== src/Tests/DbLaws.antt =====
-- The database of Tests/DbModel.antt meets the laws that Ownership relies on.
use hearty_rabbit.Prelude.{
  ◌≡◌, ◌∙◌, refl, true, false, not, ◌&&◌, List, [], ◌∷◌, ◌++◌, none, if◌then◌else◌, Bytes, is_some,
  has, bytes_eq, bytes_eq_refl, bytes_eq_sound, arith,
}
use hearty_rabbit.Ownership.Store.{
  DbLaws, Command, sadd, srem, hset, hsetnx, hdel, rpush, lrem, lpop, key_of, kind_of, Kind,
}
use hearty_rabbit.Tests.DbModel.{
  Cell, Tables, drop_cell, find_cell, fields_of, values_of, cells_of, without_key, call,
  exists_kind, tables,
}

-- Two keys that agree with a third agree.
same_key : (c k j : Bytes) → bytes_eq k j ≡ false → bytes_eq c k ≡ true → bytes_eq c j ≡ false
same_key c k j n y = rw (bytes_eq_sound c k y) n

find-drop :
    (cs : List Cell) (k f j g : Bytes)
    → find_cell (drop_cell cs k f) j g
      ≡ (if bytes_eq k j && bytes_eq f g then none else find_cell cs j g)
unfolding drop_cell find_cell
find-drop [] k f j g = ground arith
find-drop (c ∷ cs) k f j g = ground (
  arith,
  find-drop cs k f j g,
  bytes_eq_sound c.key k,
  bytes_eq_sound c.field f,
  bytes_eq_sound k j,
  bytes_eq_sound f g,
)

fields-drop_other :
    (cs : List Cell) (k f j : Bytes)
    → bytes_eq k j ≡ false
    → fields_of (drop_cell cs k f) j ≡ fields_of cs j
unfolding drop_cell fields_of
fields-drop_other [] k f j n = refl
fields-drop_other (c ∷ cs) k f j n =
    ground (arith, fields-drop_other cs k f j n, same_key c.key k j n)

fields-drop :
    (cs : List Cell) (k f g : Bytes)
    → has g (fields_of (drop_cell cs k f) k) ≡ not (bytes_eq f g) && has g (fields_of cs k)
unfolding drop_cell fields_of
fields-drop [] k f g = ground arith
fields-drop (c ∷ cs) k f g =
    ground (arith, fields-drop cs k f g, bytes_eq_sound c.field f, bytes_eq_sound f g)

has-fields : (cs : List Cell) (k f : Bytes) → has f (fields_of cs k) ≡ is_some (find_cell cs k f)
unfolding fields_of find_cell
has-fields [] k f = refl
has-fields (c ∷ cs) k f = ground (arith, has-fields cs k f)

values-cells :
    (k : Bytes) (vs : List Bytes) (cs : List Cell)
    → values_of (cells_of k vs ++ without_key cs k) k ≡ vs
unfolding values_of cells_of without_key
values-cells k [] [] = refl
values-cells k [] (c ∷ cs) = ground (arith, values-cells k [] cs)
values-cells k (v ∷ vs) cs = rw (bytes_eq_refl k, values-cells k vs cs)

values-cells_other :
    (k j : Bytes) (vs : List Bytes) (cs : List Cell)
    → bytes_eq k j ≡ false
    → values_of (cells_of k vs ++ without_key cs k) j ≡ values_of cs j
unfolding values_of cells_of without_key
values-cells_other k j [] [] n = refl
values-cells_other k j [] (c ∷ cs) n =
    ground (arith, values-cells_other k j [] cs n, same_key c.key k j n)
values-cells_other k j (v ∷ vs) cs n = rw (n, values-cells_other k j vs cs n)

smembers-call :
    (s : Tables) (w : Command) (j : Bytes)
    → bytes_eq (key_of w) j ≡ false
    → fields_of (call s w).sets j ≡ fields_of s.sets j
unfolding call fields_of
smembers-call s (sadd k m) j n = rw n
smembers-call s (srem k m) j n = fields-drop_other s.sets k m j n
smembers-call s (hset k f v) j n = refl
smembers-call s (hsetnx k f v) j n = refl
smembers-call s (hdel k f) j n = refl
smembers-call s (rpush k v) j n = refl
smembers-call s (lrem k v) j n = refl
smembers-call s (lpop k) j n = refl

hkeys-call :
    (s : Tables) (w : Command) (j : Bytes)
    → bytes_eq (key_of w) j ≡ false
    → fields_of (call s w).hashes j ≡ fields_of s.hashes j
unfolding call fields_of
hkeys-call s (sadd k m) j n = refl
hkeys-call s (srem k m) j n = refl
hkeys-call s (hset k f v) j n = rw n
hkeys-call s (hsetnx k f v) j n = rw n
hkeys-call s (hdel k f) j n = fields-drop_other s.hashes k f j n
hkeys-call s (rpush k v) j n = refl
hkeys-call s (lrem k v) j n = refl
hkeys-call s (lpop k) j n = refl

hget-call :
    (s : Tables) (w : Command) (j g : Bytes)
    → bytes_eq (key_of w) j ≡ false
    → find_cell (call s w).hashes j g ≡ find_cell s.hashes j g
unfolding call find_cell
hget-call s (sadd k m) j g n = refl
hget-call s (srem k m) j g n = refl
hget-call s (hset k f v) j g n = rw n
hget-call s (hsetnx k f v) j g n = rw n
hget-call s (hdel k f) j g n = find-drop s.hashes k f j g ∙ rw n
hget-call s (rpush k v) j g n = refl
hget-call s (lrem k v) j g n = refl
hget-call s (lpop k) j g n = refl

lrange-call :
    (s : Tables) (w : Command) (j : Bytes)
    → bytes_eq (key_of w) j ≡ false
    → values_of (call s w).lists j ≡ values_of s.lists j
unfolding call
lrange-call s (sadd k m) j n = refl
lrange-call s (srem k m) j n = refl
lrange-call s (hset k f v) j n = refl
lrange-call s (hsetnx k f v) j n = refl
lrange-call s (hdel k f) j n = refl
lrange-call s (rpush k v) j n = values-cells_other k j _ s.lists n
lrange-call s (lrem k v) j n = values-cells_other k j _ s.lists n
lrange-call s (lpop k) j n = values-cells_other k j _ s.lists n

exists-call :
    (s : Tables) (w : Command) (j : Bytes) (kind : Kind)
    → bytes_eq (key_of w) j ≡ false
    → exists_kind kind (call s w) j ≡ exists_kind kind s j
unfolding exists_kind
exists-call s w j Kind.sets n = rw (smembers-call s w j n)
exists-call s w j Kind.hashes n = rw (hkeys-call s w j n)
exists-call s w j Kind.lists n = rw (lrange-call s w j n)

pub tables-DbLaws : DbLaws tables
unfolding call fields_of find_cell exists_kind
tables-DbLaws = record {
  exists_frame = λ s w j n. exists-call s w j (kind_of j) n;
  smembers_frame = smembers-call;
  hget_frame = hget-call;
  lrange_frame = lrange-call;
  smembers_sadd = λ s k m n h. rw (bytes_eq_refl k);
  smembers_srem = λ s k m n h. fields-drop s.sets k m n;
  hget_hset = λ s k f v g h. rw (bytes_eq_refl k);
  hget_hsetnx = λ s k f v g h. rw (bytes_eq_refl k);
  hget_hdel = λ s k f g h. find-drop s.hashes k f k g ∙ rw (bytes_eq_refl k);
  hkeys_hget = λ s k f h. has-fields s.hashes k f;
  exists_set = λ s k h. rw h;
  exists_hash = λ s k h. rw h;
  lrange_rpush = λ s k v h. values-cells k _ s.lists;
  lrange_lrem = λ s k v h. values-cells k _ s.lists;
  lrange_lpop = λ s k h. values-cells k _ s.lists;
}
