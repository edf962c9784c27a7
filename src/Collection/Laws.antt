-- ===== src/Collection/Laws.antt =====
-- The map of src/common/hrb/Collection.cc, and src/client/hrbsync/CollectionComparison.cc.
use hearty_rabbit.Prelude.{
  ◌≡◌, inl, inr, refl, sym, Bool, true, false, List, [], ◌∷◌, Option, none, some, if◌then◌else◌,
  Bytes, bytes_eq, bytes_eq_refl, bytes_eq_sound, bytes_eq_apart, Bool-cases, Option-cases,
}
use hearty_rabbit.Collection.{
  Entry, Collection, find_entry, find, add_blob, erase_entry, remove_blob, ids, has_id,
  set_difference, copy_blobs, compare,
}

module _ {ℓ} {E : Type ℓ} where
  add_new :
      (id : Bytes) (inode : E) (c : Collection E)
      → find c id ≡ none
      → add_blob id inode c ≡ record c { blobs = record { id = id; inode = inode } ∷ c.blobs }
  unfolding find add_blob
  add_new id inode c e = rw (add_blob, e)

  add_old :
      (id : Bytes) (inode old : E) (c : Collection E)
      → find c id ≡ some old
      → add_blob id inode c ≡ c
  unfolding find add_blob
  add_old id inode old c e = rw (add_blob, e)

  find_front :
      (e : Entry E) (c : Collection E) (id : Bytes)
      → find (record c { blobs = e ∷ c.blobs }) id
        ≡ (if bytes_eq e.id id then some e.inode else find c id)
  unfolding find find_entry
  find_front e c id = refl

  abbrev is_some : Option E → Bool
  is_some none = false
  is_some (some x) = true

  -- A value, or else another one.
  abbrev pub or_else : Option E → Option E → Option E
  or_else none d = d
  or_else (some x) d = some x

  -- A value, if there is no other one.
  abbrev pub lacked_by : Option E → Option E → Option E
  lacked_by none d = d
  lacked_by (some x) d = none

  -- Adding gives the blob to an ID that has none, and changes nothing else.
  pub find-add_blob :
      (id other : Bytes) (inode : E) (c : Collection E)
      → find (add_blob id inode c) other
        ≡ or_else (find c other) (if bytes_eq id other then some inode else none)
  find-add_blob id other inode c = elim (Bool-cases (bytes_eq id other)) [
    | inl y ↦ elim (Option-cases (find c other)) [
      | inl e ↦
          let gone : find c id ≡ none = rw (bytes_eq_sound id other y) e in
          rw (add_new id inode c gone, find_front, e, y)
      | inr (old, e) ↦
          let there : find c id ≡ some old = rw (bytes_eq_sound id other y) e in
          rw (add_old id inode old c there, e)
    ]
    | inr n ↦ elim (Option-cases (find c id)) [
      | inl e ↦ rw (add_new id inode c e, find_front, n) (kept (find c other))
      | inr (old, e) ↦ rw (add_old id inode old c e, n) (kept (find c other))
    ]
  ]
    where
      kept : (o : Option E) → o ≡ or_else o none
      kept none = refl
      kept (some x) = refl

  -- Removing takes the blob of an ID, and leaves every other one.
  pub find-remove_blob :
      (id other : Bytes) (c : Collection E)
      → find (remove_blob id c) other ≡ (if bytes_eq id other then none else find c other)
  unfolding find remove_blob find_entry erase_entry
  find-remove_blob id other c = erased c.blobs
    where
      erased :
          (es : List (Entry E))
          → find_entry (erase_entry id es) other
            ≡ (if bytes_eq id other then none else find_entry es other)
      erased [] = elim (Bool-cases (bytes_eq id other)) [ inl y ↦ rw y | inr n ↦ rw n ]
      erased (e ∷ es) = elim (Bool-cases (bytes_eq e.id id)) [
        | inl y ↦
            rw (y, bytes_eq_sound e.id id y)
              (elim (Bool-cases (bytes_eq id other)) [
                | inl z ↦ rw (erased es, z)
                | inr m ↦ rw (erased es, m)
              ])
        | inr n ↦ elim (Bool-cases (bytes_eq e.id other)) [
          | inl z ↦ rw (n, z, bytes_eq_apart e.id id other n z)
          | inr m ↦ rw (n, m) (erased es)
        ]
      ]

  -- An ID has a blob exactly if it is among the IDs.
  has_id-ids : (es : List (Entry E)) (id : Bytes) → has_id (ids es) id ≡ is_some (find_entry es id)
  unfolding find_entry
  has_id-ids [] id = refl
  has_id-ids (e ∷ es) id = elim (Bool-cases (bytes_eq e.id id)) [
    | inl y ↦ rw y
    | inr n ↦ rw n (has_id-ids es id)
  ]

has_id-set_difference :
    (is others : List Bytes) (id : Bytes)
    → has_id (set_difference is others) id ≡ (if has_id others id then false else has_id is id)
unfolding set_difference
has_id-set_difference [] others id = elim (Bool-cases (has_id others id)) [
  | inl y ↦ rw y
  | inr n ↦ rw n
]
has_id-set_difference (i ∷ is) others id = elim (Bool-cases (bytes_eq i id)) [
  | inl y ↦ elim (Bool-cases (has_id others id)) [
    | inl h ↦ rw (bytes_eq_sound i id y, h, has_id-set_difference is others id, h)
    | inr m ↦ rw (bytes_eq_sound i id y, m, bytes_eq_refl id)
  ]
  | inr n ↦ elim (Bool-cases (has_id others i)) [
    | inl h ↦ rw (h, n) (has_id-set_difference is others id)
    | inr m ↦ rw (m, n) (has_id-set_difference is others id)
  ]
]

module _ {ℓ} {E : Type ℓ} where
  copy_miss :
      (source : Collection E) (i : Bytes) (is : List Bytes) (c : Collection E)
      → find source i ≡ none
      → copy_blobs source (i ∷ is) c ≡ copy_blobs source is c
  unfolding copy_blobs
  copy_miss source i is c e = rw (copy_blobs, e)

  copy_hit :
      (source : Collection E) (i : Bytes) (is : List Bytes) (inode : E) (c : Collection E)
      → find source i ≡ some inode
      → copy_blobs source (i ∷ is) c ≡ copy_blobs source is (add_blob i inode c)
  unfolding copy_blobs
  copy_hit source i is inode c e = rw (copy_blobs, e)

  if_same : (b : Bool) (o : Option E) → or_else o (if b then none else none) ≡ or_else o none
  if_same true o = refl
  if_same false o = refl

  nested : (o p q : Option E) → or_else (or_else o p) q ≡ or_else o (or_else p q)
  nested none p q = refl
  nested (some x) p q = refl

  find_copied :
      (source : Collection E) (is : List Bytes) (c : Collection E) (id : Bytes)
      → find (copy_blobs source is c) id
        ≡ or_else (find c id) (if has_id is id then find source id else none)
  find_copied source [] c id = unfold copy_blobs in either (find c id)
    where
      either : (o : Option E) → o ≡ or_else o none
      either none = refl
      either (some x) = refl
  find_copied source (i ∷ is) c id = elim (Option-cases (find source i)) [
    | inl e ↦
        rw (copy_miss source i is c e, find_copied source is c id)
          (elim (Bool-cases (bytes_eq i id)) [
            | inr n ↦ rw n
            | inl y ↦
                let gone : find source id ≡ none = rw (sym (bytes_eq_sound i id y)) e in
                rw (y, gone) (if_same (has_id is id) (find c id))
          ])
    | inr (inode, e) ↦
        rw (copy_hit source i is inode c e, find_copied source is _ id, find-add_blob i id inode c)
          (elim (Bool-cases (bytes_eq i id)) [
            | inr n ↦ rw n (nested (find c id) none _)
            | inl y ↦
                let there : find source id ≡ some inode = rw (sym (bytes_eq_sound i id y)) e in
                rw (y, there) (nested (find c id) (some inode) _)
          ])
  ]

  -- An ID has a blob exactly if it is among the IDs.
  has_id-find : (c : Collection E) (id : Bytes) → has_id (ids c.blobs) id ≡ is_some (find c id)
  unfolding find
  has_id-find c id = has_id-ids c.blobs id

  copied_lacked :
      (source other : Collection E) (name owner id : Bytes)
      → find
          (copy_blobs source
            (set_difference (ids source.blobs) (ids other.blobs))
            (record { name = name; owner = owner; blobs = [] }))
          id
        ≡ lacked_by (find other id) (find source id)
  copied_lacked source other name owner id =
      rw
        (
          find_copied source _ (record { name = name; owner = owner; blobs = [] }) id,
          has_id-set_difference (ids source.blobs) (ids other.blobs) id,
          has_id-find source id,
          has_id-find other id,
        )
        (unfold find find_entry in by_found (find other id) (find source id))
    where
      by_found :
          (o p : Option E)
          → (if if is_some o then false else is_some p then p else none) ≡ lacked_by o p
      by_found none none = refl
      by_found none (some x) = refl
      by_found (some x) p = refl

  -- After the comparison, the blobs to download are those of the remote album that the local one
  -- lacks, and the blobs to upload those of the local album that the remote one lacks.
  pub compare_sound :
      (local remote : Collection E) (id : Bytes)
      → (find (compare local remote).download id ≡ lacked_by (find local id) (find remote id))
        × (find (compare local remote).upload id ≡ lacked_by (find remote id) (find local id))
  unfolding compare
  compare_sound local remote id = (
    copied_lacked remote local remote.name remote.owner id,
    copied_lacked local remote remote.name remote.owner id,
  )
