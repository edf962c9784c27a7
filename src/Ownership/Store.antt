-- ===== src/Ownership/Store.antt =====
-- What Ownership relies on of redis: sets, hashes and lists under keys, and the commands that its
-- Lua scripts give. Each key of src/server/hrb/RedisKeys.cc holds one kind of value.
use hearty_rabbit.Prelude.{
  ◌≡◌, Bool, false, not, ◌&&◌, ◌||◌, List, [], ◌∷◌, ◌++◌, Option, none, some, if◌then◌else◌, Bytes,
  codes, is_prefix, is_empty, is_some, has, bytes_eq,
}

-- The commands that change the database, with `LREM key 0 value`.
pub data Command : Type 0 where
  sadd : Bytes → Bytes → Command
  srem : Bytes → Bytes → Command
  hset : Bytes → Bytes → Bytes → Command
  hsetnx : Bytes → Bytes → Bytes → Command
  hdel : Bytes → Bytes → Command
  rpush : Bytes → Bytes → Command
  lrem : Bytes → Bytes → Command
  lpop : Bytes → Command

abbrev pub key_of : Command → Bytes
key_of (sadd k m) = k
key_of (srem k m) = k
key_of (hset k f v) = k
key_of (hsetnx k f v) = k
key_of (hdel k f) = k
key_of (rpush k v) = k
key_of (lrem k v) = k
key_of (lpop k) = k

-- `hget` gives `none` for a field that is not there.
pub record Db {ℓ} (S : Type ℓ) : Type ℓ where
  pub call : S → Command → S
  pub exists : S → Bytes → Bool
  pub smembers : S → Bytes → List Bytes
  pub hget : S → Bytes → Bytes → Option Bytes
  pub hkeys : S → Bytes → List Bytes
  pub lrange : S → Bytes → List Bytes

pub data Kind : Type 0 where
  sets : Kind
  hashes : Kind
  lists : Kind

abbrev pub kind_of : Bytes → Kind
kind_of k =
    if is_prefix (codes "blob-refs:") k
    then Kind.sets
    else if is_prefix (codes "blob-owners:") k
    then Kind.sets
    else if is_prefix (codes "public_blobs") k
    then Kind.lists
    else Kind.hashes

abbrev pub value_or : Option Bytes → Bytes → Bytes
value_or none d = d
value_or (some v) d = v

-- `LREM key 0 v` and `LPOP key` on the list.
abbrev pub without : Bytes → List Bytes → List Bytes
without v [] = []
without v (x ∷ xs) = let rest = without v xs in if bytes_eq x v then rest else x ∷ rest

abbrev pub tail : List Bytes → List Bytes
tail [] = []
tail (x ∷ xs) = xs

-- A command changes nothing but its key; and what it does to its key, if that holds the right kind.
pub record DbLaws {ℓ} {S : Type ℓ} (db : Db S) : Type ℓ where
  pub exists_frame :
      (s : S) (w : Command) (j : Bytes)
      → bytes_eq (key_of w) j ≡ false
      → db.exists (db.call s w) j ≡ db.exists s j
  pub smembers_frame :
      (s : S) (w : Command) (j : Bytes)
      → bytes_eq (key_of w) j ≡ false
      → db.smembers (db.call s w) j ≡ db.smembers s j
  pub hget_frame :
      (s : S) (w : Command) (j f : Bytes)
      → bytes_eq (key_of w) j ≡ false
      → db.hget (db.call s w) j f ≡ db.hget s j f
  pub lrange_frame :
      (s : S) (w : Command) (j : Bytes)
      → bytes_eq (key_of w) j ≡ false
      → db.lrange (db.call s w) j ≡ db.lrange s j
  pub smembers_sadd :
      (s : S) (k m n : Bytes)
      → kind_of k ≡ Kind.sets
      → has n (db.smembers (db.call s (sadd k m)) k) ≡ bytes_eq m n || has n (db.smembers s k)
  pub smembers_srem :
      (s : S) (k m n : Bytes)
      → kind_of k ≡ Kind.sets
      → has n (db.smembers (db.call s (srem k m)) k) ≡ not (bytes_eq m n) && has n (db.smembers s k)
  pub hget_hset :
      (s : S) (k f v g : Bytes)
      → kind_of k ≡ Kind.hashes
      → db.hget (db.call s (hset k f v)) k g ≡ (if bytes_eq f g then some v else db.hget s k g)
  pub hget_hsetnx :
      (s : S) (k f v g : Bytes)
      → kind_of k ≡ Kind.hashes
      → db.hget (db.call s (hsetnx k f v)) k g
        ≡ (if bytes_eq f g then some (value_or (db.hget s k f) v) else db.hget s k g)
  pub hget_hdel :
      (s : S) (k f g : Bytes)
      → kind_of k ≡ Kind.hashes
      → db.hget (db.call s (hdel k f)) k g ≡ (if bytes_eq f g then none else db.hget s k g)
  pub hkeys_hget :
      (s : S) (k f : Bytes)
      → kind_of k ≡ Kind.hashes
      → has f (db.hkeys s k) ≡ is_some (db.hget s k f)
  pub exists_set :
      (s : S) (k : Bytes) → kind_of k ≡ Kind.sets → db.exists s k ≡ not (is_empty (db.smembers s k))
  pub exists_hash :
      (s : S) (k : Bytes) → kind_of k ≡ Kind.hashes → db.exists s k ≡ not (is_empty (db.hkeys s k))
  pub lrange_rpush :
      (s : S) (k v : Bytes)
      → kind_of k ≡ Kind.lists
      → db.lrange (db.call s (rpush k v)) k ≡ db.lrange s k ++ v ∷ []
  pub lrange_lrem :
      (s : S) (k v : Bytes)
      → kind_of k ≡ Kind.lists
      → db.lrange (db.call s (lrem k v)) k ≡ without v (db.lrange s k)
  pub lrange_lpop :
      (s : S) (k : Bytes)
      → kind_of k ≡ Kind.lists
      → db.lrange (db.call s (lpop k)) k ≡ tail (db.lrange s k)
