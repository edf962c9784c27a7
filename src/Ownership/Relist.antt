-- ===== src/Ownership/Relist.antt =====
-- `coll_list` in the scripts of src/server/hrb/Ownership.cc: a command on it leaves the rest alone.
use hearty_rabbit.Prelude.{◌≡◌, true, false, some, inl, inr, Bytes, is_some, has, Option-cases}
use hearty_rabbit.RedisKeys.{blob_refs, blob_owners, collection, collection_list, blob_inode}
use hearty_rabbit.Ownership.Store.{Db, DbLaws, Command, key_of}
use hearty_rabbit.Ownership.Scripts.{Lua, Outcome, after, has_raised}
use hearty_rabbit.Ownership.Invariant.{IsCovered, IsConsistent}

module _ {ℓ κ} {S : Type ℓ} {J : Type κ} (db : Db S) (l : Lua J) (u : Bytes) where
  -- The script runs to its end, and what the user has is consistent again.
  abbrev pub Kept : Outcome S → Type 0
  Kept o = (has_raised o ≡ false) × IsConsistent db l u (after o)

module _ {ℓ κ} {S : Type ℓ} {J : Type κ} (db : Db S) (laws : DbLaws db) (l : Lua J)
    (u : Bytes) where
  -- All but the list of albums is consistent.
  pub record AllButList (s : S) : Type 0 where
    pub linked :
        (b c : Bytes)
        → is_some (db.hget s (collection u c) b) ≡ has c (db.smembers s (blob_refs u b))
    pub owned : (b : Bytes) → has u (db.smembers s (blob_owners b)) ≡ db.exists s (blob_refs u b)
    pub stored : (b : Bytes) → is_some (db.hget s (blob_inode u) b) ≡ db.exists s (blob_refs u b)

  -- A command on the list of albums changes nothing else.
  pub relist-AllButList :
      (s : S) (w : Command) → key_of w ≡ collection_list u → AllButList s → AllButList (db.call s w)
  unfolding blob_refs blob_owners collection collection_list blob_inode
  relist-AllButList s w e h = record {
    linked = λ b c. simp (e, laws.hget_frame, laws.smembers_frame, h.linked b c);
    owned = λ b. simp (e, laws.exists_frame, laws.smembers_frame, h.owned b);
    stored = λ b. simp (e, laws.hget_frame, laws.exists_frame, h.stored b);
  }

  -- With a list that fits, all is consistent again.
  pub listed-IsConsistent :
      (s : S)
      → AllButList s
      → ((c : Bytes) → is_some (db.hget s (collection_list u) c) ≡ db.exists s (collection u c))
      → ((c text : Bytes) → db.hget s (collection_list u) c ≡ some text → IsCovered db l u s c text)
      → IsConsistent db l u s
  listed-IsConsistent s h listed covered = record {
    linked = h.linked;
    owned = h.owned;
    stored = h.stored;
    listed = listed;
    covered = covered;
  }

  pub IsConsistent-AllButList : (s : S) → IsConsistent db l u s → AllButList s
  IsConsistent-AllButList s inv = record {
    linked = inv.linked;
    owned = inv.owned;
    stored = inv.stored;
  }

  -- What an album that has blobs is listed with.
  pub listed_text :
      (s : S) (c : Bytes)
      → IsConsistent db l u s
      → db.exists s (collection u c) ≡ true
      → (text : Bytes) × (db.hget s (collection_list u) c ≡ some text)
  listed_text s c inv y = elim (Option-cases (db.hget s (collection_list u) c)) [
    | inl n ↦ let bad : false ≡ true = rw (← inv.listed c, n) at y in cc
    | inr found ↦ found
  ]

  pub relist_album :
      (s : S) (w : Command) (c b : Bytes)
      → key_of w ≡ collection_list u
      → db.hget (db.call s w) (collection u c) b ≡ db.hget s (collection u c) b
  unfolding collection collection_list
  relist_album s w c b e = simp (e, laws.hget_frame)

  pub relist_exists :
      (s : S) (w : Command) (c : Bytes)
      → key_of w ≡ collection_list u
      → db.exists (db.call s w) (collection u c) ≡ db.exists s (collection u c)
  unfolding collection collection_list
  relist_exists s w c e = simp (e, laws.exists_frame)

  pub outcome-Kept : (o p : Outcome S) → o ≡ p → Kept db l u p → Kept db l u o
  outcome-Kept o p e k = rw e k
