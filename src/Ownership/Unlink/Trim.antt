-- ===== src/Ownership/Unlink/Trim.antt =====
-- The last part of `unlink_command` of src/server/hrb/Ownership.cc: it drops an album that is empty
-- from the list of albums, or gives it another cover if the blob was it.
use hearty_rabbit.Prelude.{
  ◌≡◌, refl, true, false, List, [], ◌∷◌, Option, none, some, ◌⊎◌, inl, inr, Bytes, is_some,
  bytes_eq, Bool-cases, Option-cases,
}
use hearty_rabbit.RedisKeys.{collection, collection_list}
use hearty_rabbit.Ownership.Store.{Db, DbLaws, Command, key_of, hset, hdel}
use hearty_rabbit.Ownership.Scripts.{
  Lua, returned, after, trim_album, fix_cover, recover, replace_cover, album_of, tohex, cover_of,
}
use hearty_rabbit.Ownership.Fields.{field_exists}

module _ {ℓ κ} {S : Type ℓ} {J : Type κ} (db : Db S) (laws : DbLaws db) (l : Lua J)
    (u : Bytes) where
  pub cover_of_decodes :
      (text c : Bytes)
      → cover_of l text ≡ some c
      → (a : J) × (l.decode text ≡ some a) × (l.cover a ≡ some c)
  unfolding cover_of
  cover_of_decodes text c h = elim (Option-cases (l.decode text)) [
    | inl n ↦ let bad : none ≡ some c = rw (cover_of, n) at h in cc
    | inr (a, e) ↦ (a, e, rw (cover_of, e) at h)
  ]

  module _ (s : S) (coll blob : Bytes) where
    -- The album is empty, and leaves the list.
    abbrev pub Emptied : Type ℓ
    Emptied =
        (db.exists s (collection u coll) ≡ false)
        × (trim_album db l u s coll blob
            ≡ returned (db.call s (hdel (collection_list u) coll)) true)

    -- The blob was the cover, and the first blob of the album becomes it.
    abbrev pub Recovered : Type (ℓ ⊔ κ)
    Recovered =
        (db.exists s (collection u coll) ≡ true)
        × ((a : J) × (first : Bytes) × (is_some (db.hget s (collection u coll) first) ≡ true)
            × (trim_album db l u s coll blob
                ≡ returned
                    (db.call s
                      (hset (collection_list u) coll (l.encode (l.with_cover a (tohex first)))))
                    true))

    -- Another blob is the cover, and stays it.
    abbrev pub Untouched : Bytes → Type ℓ
    Untouched c =
        (db.exists s (collection u coll) ≡ true)
        × (bytes_eq c (tohex blob) ≡ false)
        × (trim_album db l u s coll blob ≡ returned s true)

    -- An album that has blobs is in the list with a text that names a cover.
    pub trim_cases :
        (text c : Bytes)
        → (db.exists s (collection u coll) ≡ false)
          ⊎ ((db.hget s (collection_list u) coll ≡ some text) × (cover_of l text ≡ some c))
        → Emptied ⊎ Recovered ⊎ Untouched c
    unfolding trim_album fix_cover album_of replace_cover recover
    trim_cases text c (inl n) = inl (n, rw (trim_album, n))
    trim_cases text c (inr (e, h)) =
        let (a, d, k) = cover_of_decodes text c h in
        elim (Bool-cases (db.exists s (collection u coll))) [
          | inl y ↦ elim (Bool-cases (bytes_eq c (tohex blob))) [
            | inl same ↦
                let (f, fs, keys, there) =
                  field_exists db laws u s (collection u coll) (unfold collection in refl) y in
                inr (
                  inl (
                    y,
                    (
                      a,
                      f,
                      there,
                      rw (
                        trim_album, y, e, album_of, d, fix_cover, k, replace_cover, same, keys,
                        recover,
                      ),
                    ),
                  ))
            | inr other ↦ inr (
                inr (
                  y,
                  other,
                  rw (trim_album, y, e, album_of, d, fix_cover, k, replace_cover, other),
                ))
          ]
          | inr n ↦ inl (n, rw (trim_album, n))
        ]

  -- At most one command is given, and it is one on the list of albums.
  abbrev Relists : S → S → Type ℓ
  Relists s t = (t ≡ s) ⊎ ((w : Command) × (key_of w ≡ collection_list u) × (t ≡ db.call s w))

  recover-Relists :
      (s : S) (coll : Bytes) (a : J) (ks : List Bytes)
      → Relists s (after (recover db l u s coll a ks))
  unfolding recover
  recover-Relists s coll a [] = inl refl
  recover-Relists s coll a (k ∷ ks) =
      inr (hset (collection_list u) coll (l.encode (l.with_cover a (tohex k))), refl, refl)

  replace-Relists :
      (s : S) (coll blob : Bytes) (a : J) (c : Option Bytes)
      → Relists s (after (replace_cover db l u s coll blob a c))
  unfolding replace_cover
  replace-Relists s coll blob a none = inl refl
  replace-Relists s coll blob a (some c) = elim (Bool-cases (bytes_eq c (tohex blob))) [
    | inl y ↦ rw y (recover-Relists s coll a (db.hkeys s (collection u coll)))
    | inr n ↦ rw n (inl refl)
  ]

  fix-Relists :
      (s : S) (coll blob : Bytes) (o : Option J)
      → Relists s (after (fix_cover db l u s coll blob o))
  unfolding fix_cover
  fix-Relists s coll blob none = inl refl
  fix-Relists s coll blob (some a) = replace-Relists s coll blob a (l.cover a)

  pub trim-Relists : (s : S) (coll blob : Bytes) → Relists s (after (trim_album db l u s coll blob))
  unfolding trim_album
  trim-Relists s coll blob = elim (Bool-cases (db.exists s (collection u coll))) [
    | inl y ↦ rw y (fix-Relists s coll blob (album_of db l u (db.hget s (collection_list u) coll)))
    | inr n ↦ rw n (inr (hdel (collection_list u) coll, refl, refl))
  ]
