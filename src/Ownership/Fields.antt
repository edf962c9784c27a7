-- ===== src/Ownership/Fields.antt =====
-- What one command of a script does to what the keys of one user hold, and how keys differ.
use hearty_rabbit.Prelude.{
  ◌≡◌, refl, true, false, not, ◌&&◌, ◌||◌, List, ◌∷◌, none, some, if◌then◌else◌, Bytes, is_some,
  has, has-is_empty, bytes_eq, bytes_eq-append, bytes_eq_refl, bytes_eq_sound, Bool-cases,
  List-cases, inl, inr,
}
use hearty_rabbit.RedisKeys.{blob_refs, blob_owners, collection}
use hearty_rabbit.Ownership.Store.{Db, DbLaws, Kind, kind_of, sadd, srem, hset, hdel}

pub collection-eq : (u c d : Bytes) → bytes_eq (collection u c) (collection u d) ≡ bytes_eq c d
unfolding collection
collection-eq u c d = rw (bytes_eq-append u (b':' ∷ c) (b':' ∷ d))

pub blob_refs-eq : (u c d : Bytes) → bytes_eq (blob_refs u c) (blob_refs u d) ≡ bytes_eq c d
unfolding blob_refs
blob_refs-eq u c d = rw (bytes_eq-append u (b':' ∷ c) (b':' ∷ d))

module _ {ℓ} {S : Type ℓ} (db : Db S) (laws : DbLaws db) (u : Bytes) where
  pub hget_collection_hset :
      (s : S) (c b f d e : Bytes)
      → db.hget (db.call s (hset (collection u c) b f)) (collection u d) e
        ≡ (if bytes_eq c d && bytes_eq b e then some f else db.hget s (collection u d) e)
  hget_collection_hset s c b f d e = elim (Bool-cases (bytes_eq c d)) [
    | inl y ↦
        rw (bytes_eq_sound c d y, bytes_eq_refl d)
          (laws.hget_hset s (collection u d) b f e (unfold collection in refl))
    | inr n ↦ rw n (
        laws.hget_frame s (hset (collection u c) b f) (collection u d) e
          (rw (collection-eq u c d) n))
  ]

  pub hget_collection_hdel :
      (s : S) (c b d e : Bytes)
      → db.hget (db.call s (hdel (collection u c) b)) (collection u d) e
        ≡ (if bytes_eq c d && bytes_eq b e then none else db.hget s (collection u d) e)
  hget_collection_hdel s c b d e = elim (Bool-cases (bytes_eq c d)) [
    | inl y ↦
        rw (bytes_eq_sound c d y, bytes_eq_refl d)
          (laws.hget_hdel s (collection u d) b e (unfold collection in refl))
    | inr n ↦ rw n (
        laws.hget_frame s (hdel (collection u c) b) (collection u d) e (rw (collection-eq u c d) n))
  ]

  pub blob_refs_sadd :
      (s : S) (b c e d : Bytes)
      → has d (db.smembers (db.call s (sadd (blob_refs u b) c)) (blob_refs u e))
        ≡ (bytes_eq b e && bytes_eq c d) || has d (db.smembers s (blob_refs u e))
  blob_refs_sadd s b c e d = elim (Bool-cases (bytes_eq b e)) [
    | inl y ↦
        rw (bytes_eq_sound b e y, bytes_eq_refl e)
          (laws.smembers_sadd s (blob_refs u e) c d (unfold blob_refs in refl))
    | inr n ↦ rw (
      n,
      laws.smembers_frame s (sadd (blob_refs u b) c) (blob_refs u e) (rw (blob_refs-eq u b e) n),
    )
  ]

  pub blob_refs_srem :
      (s : S) (b c e d : Bytes)
      → has d (db.smembers (db.call s (srem (blob_refs u b) c)) (blob_refs u e))
        ≡ not (bytes_eq b e && bytes_eq c d) && has d (db.smembers s (blob_refs u e))
  blob_refs_srem s b c e d = elim (Bool-cases (bytes_eq b e)) [
    | inl y ↦
        rw (bytes_eq_sound b e y, bytes_eq_refl e)
          (laws.smembers_srem s (blob_refs u e) c d (unfold blob_refs in refl))
    | inr n ↦ rw (
      n,
      laws.smembers_frame s (srem (blob_refs u b) c) (blob_refs u e) (rw (blob_refs-eq u b e) n),
    )
  ]

  pub blob_owners_sadd :
      (s : S) (b c e d : Bytes)
      → has d (db.smembers (db.call s (sadd (blob_owners b) c)) (blob_owners e))
        ≡ (bytes_eq b e && bytes_eq c d) || has d (db.smembers s (blob_owners e))
  blob_owners_sadd s b c e d = elim (Bool-cases (bytes_eq b e)) [
    | inl y ↦
        rw (bytes_eq_sound b e y, bytes_eq_refl e)
          (laws.smembers_sadd s (blob_owners e) c d (unfold blob_owners in refl))
    | inr n ↦ rw (
      n,
      laws.smembers_frame s (sadd (blob_owners b) c) (blob_owners e) (unfold blob_owners in n),
    )
  ]

  pub blob_owners_srem :
      (s : S) (b c e d : Bytes)
      → has d (db.smembers (db.call s (srem (blob_owners b) c)) (blob_owners e))
        ≡ not (bytes_eq b e && bytes_eq c d) && has d (db.smembers s (blob_owners e))
  blob_owners_srem s b c e d = elim (Bool-cases (bytes_eq b e)) [
    | inl y ↦
        rw (bytes_eq_sound b e y, bytes_eq_refl e)
          (laws.smembers_srem s (blob_owners e) c d (unfold blob_owners in refl))
    | inr n ↦ rw (
      n,
      laws.smembers_frame s (srem (blob_owners b) c) (blob_owners e) (unfold blob_owners in n),
    )
  ]

  -- A key exists exactly if its set or hash has something in it.
  pub exists_has :
      (s : S) (k m : Bytes)
      → kind_of k ≡ Kind.sets
      → has m (db.smembers s k) ≡ true
      → db.exists s k ≡ true
  exists_has s k m h e = rw (laws.exists_set s k h, has-is_empty m (db.smembers s k) e)

  pub exists_field :
      (s : S) (k f : Bytes)
      → kind_of k ≡ Kind.hashes
      → is_some (db.hget s k f) ≡ true
      → db.exists s k ≡ true
  exists_field s k f h e =
      rw (laws.exists_hash s k h, has-is_empty f (db.hkeys s k) (rw (laws.hkeys_hget s k f h) e))

  pub has_exists :
      (s : S) (k : Bytes)
      → kind_of k ≡ Kind.sets
      → db.exists s k ≡ true
      → (m : Bytes) × (has m (db.smembers s k) ≡ true)
  has_exists s k h e = elim (List-cases (db.smembers s k)) [
    | inl n ↦ let bad : false ≡ true = rw (laws.exists_set s k h, n) at e in cc
    | inr (m, ms, p) ↦ (m, rw (p, bytes_eq_refl m))
  ]

  -- With the list of the fields, whose first is the new cover of an album.
  pub field_exists :
      (s : S) (k : Bytes)
      → kind_of k ≡ Kind.hashes
      → db.exists s k ≡ true
      → (f : Bytes) × (fs : List Bytes) × (db.hkeys s k ≡ f ∷ fs) × (is_some (db.hget s k f) ≡ true)
  field_exists s k h e = elim (List-cases (db.hkeys s k)) [
    | inl n ↦ let bad : false ≡ true = rw (laws.exists_hash s k h, n) at e in cc
    | inr (f, fs, p) ↦ (f, fs, p, rw (← laws.hkeys_hget s k f h, p, bytes_eq_refl f))
  ]
