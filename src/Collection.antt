-- ===== src/Collection.antt =====
-- The blobs of an album, in src/common/hrb/Collection.hh and Collection.cc, and the comparison of
-- a local with a remote album in src/client/hrbsync/CollectionComparison.cc. The map from IDs to
-- blobs is the list of its entries, in any order; files and JSON are left out, so an entry is of
-- any type `E`.
pub mod Laws
use hearty_rabbit.Prelude.{
  ℕ, zero, suc, ◌≡◌, ◌⊎◌, inl, inr, refl, sym, ap, ◌∙◌, Bool, true, false, not, ◌||◌, List, [], ◌∷◌,
  ◌++◌, map, Option, none, some, if◌then◌else◌, Bytes, length, bytes_eq, bytes_eq_refl,
  bytes_eq_sound, bytes_eq_apart, arith, Bool-cases, Option-cases,
}

module _ {ℓ} (E : Type ℓ) where
  pub record Entry : Type ℓ where
    pub id : Bytes
    pub inode : E

  pub record Collection : Type ℓ where
    pub name : Bytes
    pub owner : Bytes
    pub blobs : List Entry

  -- `Blob`.
  pub record Blob : Type ℓ where
    pub owner : Bytes
    pub collection : Bytes
    pub id : Bytes
    pub info : E

  pub record CollectionComparison : Type ℓ where
    pub upload : Collection
    pub download : Collection

abbrev pub has_id : List Bytes → Bytes → Bool
has_id [] id = false
has_id (i ∷ is) id = bytes_eq i id || has_id is id

-- `std::set_difference`.
unfoldable pub set_difference : List Bytes → List Bytes → List Bytes
set_difference [] others = []
set_difference (i ∷ is) others =
    let rest = set_difference is others in if has_id others i then rest else i ∷ rest

module _ {ℓ} {E : Type ℓ} where
  unfoldable pub find_entry : List (Entry E) → Bytes → Option E
  find_entry [] id = none
  find_entry (e ∷ es) id =
      let others = find_entry es id in if bytes_eq e.id id then some e.inode else others

  unfoldable pub find : Collection E → Bytes → Option E
  find c id = find_entry c.blobs id

  -- `emplace`: an entry that is there stays.
  unfoldable pub add_blob : Bytes → E → Collection E → Collection E
  add_blob id inode c = elim (find_entry c.blobs id) [
    | none ↦ record c { blobs = record { id = id; inode = inode } ∷ c.blobs }
    | some old ↦ c
  ]

  unfoldable pub erase_entry : Bytes → List (Entry E) → List (Entry E)
  erase_entry id [] = []
  erase_entry id (e ∷ es) =
      let others = erase_entry id es in if bytes_eq e.id id then others else e ∷ others

  unfoldable pub remove_blob : Bytes → Collection E → Collection E
  remove_blob id c = record c { blobs = erase_entry id c.blobs }

  unfoldable pub get_blob : Collection E → Bytes → Option (Blob E)
  get_blob c id = elim (find_entry c.blobs id) [
    | none ↦ none
    | some inode ↦ some (record { owner = c.owner; collection = c.name; id = id; info = inode })
  ]

  -- The IDs of a collection.
  abbrev pub ids : List (Entry E) → List Bytes
  ids [] = []
  ids (e ∷ es) = e.id ∷ ids es

  -- The loop that adds the entries of `source` under some IDs. An ID that it lacks, which the code
  -- would take behind the end of the map, is passed over; there is none.
  unfoldable pub copy_blobs : Collection E → List Bytes → Collection E → Collection E
  copy_blobs source [] c = c
  copy_blobs source (id ∷ is) c = elim (find source id) [
    | none ↦ copy_blobs source is c
    | some inode ↦ copy_blobs source is (add_blob id inode c)
  ]

  unfoldable pub compare : Collection E → Collection E → CollectionComparison E
  compare local remote =
      let empty : Collection E = record { name = remote.name; owner = remote.owner; blobs = [] } in
      record {
        download = copy_blobs remote (set_difference (ids remote.blobs) (ids local.blobs)) empty;
        upload = copy_blobs local (set_difference (ids local.blobs) (ids remote.blobs)) empty;
      }
