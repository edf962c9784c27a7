-- ===== src/Ownership/Move.antt =====
-- `move_command` of src/server/hrb/Ownership.cc, between two albums.
use hearty_rabbit.Prelude.{
  ◌≡◌, refl, true, false, not, ◌&&◌, ◌||◌, none, some, inl, inr, if◌then◌else◌, Bytes, has,
  bytes_eq, bytes_eq_refl, bytes_eq_sound, Bool-cases, arith,
}
use hearty_rabbit.RedisKeys.{blob_refs, blob_owners, collection, collection_list, blob_inode}
use hearty_rabbit.Ownership.Store.{Db, DbLaws, sadd, srem}
use hearty_rabbit.Ownership.Scripts.{Lua, after, has_raised, move_script, move_filename}
use hearty_rabbit.Ownership.Fields.{
  blob_refs_sadd, blob_refs_srem, hget_collection_hset, hget_collection_hdel, blob_refs-eq,
  exists_has,
}
use hearty_rabbit.Ownership.Relist.{AllButList}

module _ {ℓ κ} {S : Type ℓ} {J : Type κ} (db : Db S) (laws : DbLaws db) (l : Lua J) (u : Bytes)
    (s : S) (src dest blob cover filename : Bytes)
    (there : db.hget s (collection u src) blob ≡ some filename)
    (apart : bytes_eq src dest ≡ false) where
  abbrev moved : S
  moved = after (move_script db l u s src dest blob cover)

  read_filename :
      db.hget
        (db.call (db.call s (sadd (blob_refs u blob) dest)) (srem (blob_refs u blob) src))
        (collection u src)
        blob
      ≡ some filename
  unfolding blob_refs collection
  read_filename = simp (laws.hget_frame, there)

  move_album :
      (d e : Bytes)
      → db.hget moved (collection u d) e ≡ (
          if bytes_eq src d && bytes_eq blob e
          then none
          else if bytes_eq dest d && bytes_eq blob e
          then some filename
          else db.hget s (collection u d) e)
  unfolding move_script move_filename collection collection_list blob_refs
  move_album d e =
      rw read_filename
        (simp (laws.hget_frame, hget_collection_hset db laws u, hget_collection_hdel db laws u))

  move_refs :
      (e d : Bytes)
      → has d (db.smembers moved (blob_refs u e))
        ≡ not (bytes_eq blob e && bytes_eq src d)
          && ((bytes_eq blob e && bytes_eq dest d) || has d (db.smembers s (blob_refs u e)))
  unfolding move_script move_filename collection collection_list blob_refs
  move_refs e d =
      rw read_filename
        (simp (laws.smembers_frame, blob_refs_sadd db laws u, blob_refs_srem db laws u))

  move_owners : (e : Bytes) → db.smembers moved (blob_owners e) ≡ db.smembers s (blob_owners e)
  unfolding move_script move_filename collection collection_list blob_refs blob_owners
  move_owners e = rw read_filename (simp laws.smembers_frame)

  move_inode : (e : Bytes) → db.hget moved (blob_inode u) e ≡ db.hget s (blob_inode u) e
  unfolding move_script move_filename collection collection_list blob_refs blob_inode
  move_inode e = rw read_filename (simp laws.hget_frame)

  move_exists_other :
      (e : Bytes)
      → bytes_eq blob e ≡ false
      → db.exists moved (blob_refs u e) ≡ db.exists s (blob_refs u e)
  unfolding move_script move_filename collection collection_list blob_refs
  move_exists_other e n = rw read_filename (simp (laws.exists_frame, blob_refs-eq u blob e, n))

  move_exists :
      AllButList db laws l u s
      → (e : Bytes) → db.exists moved (blob_refs u e) ≡ db.exists s (blob_refs u e)
  move_exists h e = elim (Bool-cases (bytes_eq blob e)) [
    | inr n ↦ move_exists_other e n
    | inl y ↦
        let now : db.exists moved (blob_refs u blob) ≡ true =
          exists_has db laws u moved (blob_refs u blob) dest (unfold blob_refs in refl)
            (rw (move_refs blob dest, bytes_eq_refl blob, apart, bytes_eq_refl dest)) in
        let before : db.exists s (blob_refs u blob) ≡ true =
          exists_has db laws u s (blob_refs u blob) src (unfold blob_refs in refl)
            (rw (← h.linked blob src, there)) in
        rw (← bytes_eq_sound blob e y, now, before)
  ]

  -- A blob of an album is moved to another album without an error: it is there under the same
  -- filename, and no more in the first album; links, owners and inodes stay consistent.
  pub move-AllButList :
      AllButList db laws l u s
      → (has_raised (move_script db l u s src dest blob cover) ≡ false)
        × (db.hget (after (move_script db l u s src dest blob cover)) (collection u dest) blob
            ≡ some filename)
        × (db.hget (after (move_script db l u s src dest blob cover)) (collection u src) blob
            ≡ none)
        × AllButList db laws l u (after (move_script db l u s src dest blob cover))
  move-AllButList h = (
    unfold move_script move_filename in rw read_filename,
    rw (move_album dest blob, apart, bytes_eq_refl dest, bytes_eq_refl blob),
    rw (move_album src blob, bytes_eq_refl src, bytes_eq_refl blob),
    record {
      linked = λ b c. ground (
        arith,
        move_album c b,
        move_refs b c,
        h.linked b c,
        bytes_eq_sound src c,
        bytes_eq_sound dest c,
        apart,
      );
      owned = λ b. rw (move_owners b, move_exists h b) (h.owned b);
      stored = λ b. rw (move_inode b, move_exists h b) (h.stored b);
    },
  )

module _ {ℓ κ} {S : Type ℓ} {J : Type κ} (db : Db S) (laws : DbLaws db) (l : Lua J)
    (u : Bytes) where
  -- A blob that is not in one album is not moved to another: the script raises an error, and the other
  -- album stays without it, but is counted among the blob's albums by then.
  pub move_missing :
      (s : S) (src dest blob cover : Bytes)
      → db.hget s (collection u src) blob ≡ none
      → bytes_eq src dest ≡ false
      → (has_raised (move_script db l u s src dest blob cover) ≡ true)
        × (has dest
              (db.smembers (after (move_script db l u s src dest blob cover)) (blob_refs u blob))
            ≡ true)
        × (db.hget (after (move_script db l u s src dest blob cover)) (collection u dest) blob
            ≡ db.hget s (collection u dest) blob)
  unfolding move_script move_filename blob_refs collection
  move_missing s src dest blob cover gone apart =
      let s1 = db.call s (sadd (blob_refs u blob) dest) in
      let read : db.hget (db.call s1 (srem (blob_refs u blob) src)) (collection u src) blob ≡ none =
        simp (laws.hget_frame, gone) in
      (
        rw read,
        rw read (
            rw (
              blob_refs_srem db laws u s1 blob src blob dest,
              apart,
              blob_refs_sadd db laws u s blob dest blob dest,
              bytes_eq_refl blob,
              bytes_eq_refl dest,
            )),
        rw read (simp laws.hget_frame),
      )
