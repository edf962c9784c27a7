-- ===== src/Ownership/Visible.antt =====
-- src/server/hrb/Ownership.cc and Ownership.ipp: which blobs a requester is shown.
use hearty_rabbit.Prelude.{
  ◌≡◌, ◌∙◌, refl, Bool, true, false, ◌||◌, ap, List, [], ◌∷◌, Option, none, some, if◌then◌else◌,
  Bytes, is_empty, ◌==◌, ◌>>=◌, has, inl, inr, arith, Bool-cases, Option-cases, is_some, bytes_eq,
  bytes_eq_sound, length,
}
use hearty_rabbit.Redis.Reply.{string, Error, as_string, as_array, array_size, items}
use hearty_rabbit.UserId.{UserId}
use hearty_rabbit.ObjectId.{from_raw}
use hearty_rabbit.Permission.{allow}
use hearty_rabbit.BlobInode.{Json, BlobInode}
use hearty_rabbit.BlobInode.Record.{permission, fields, fields_perm}
use hearty_rabbit.Collection.{Collection, find, find_entry, add_blob}
use hearty_rabbit.Collection.Laws.{or_else, find-add_blob}
use hearty_rabbit.RedisKeys.{collection, blob_inode}
use hearty_rabbit.Ownership.Store.{Db, DbLaws, value_or}
use hearty_rabbit.Ownership.Replies.{
  found, scan_rows, elements-to_replies, scan_script, on_get_collection, from_reply, rename_to,
  add_fields, add_allowed, add_row, from_rows,
}

module _ {ℓ ι} {S : Type ℓ} {V : Type ι} (db : Db S) (j : Json V) (user : Bytes) where
  -- What is shown of an inode, once it is read: nothing of a text that is no JSON.
  abbrev pub shown_fields : Bytes → Option (Option BlobInode) → Option BlobInode
  shown_fields filename (some (some inode)) = some (rename_to j user filename inode)
  shown_fields filename _ = none

  abbrev pub shown_inode : UserId → Bytes → Bytes → Option Bytes → Option BlobInode
  shown_inode requester blob filename none = none
  shown_inode requester blob filename (some raw) =
      if is_empty raw
      then none
      else if length blob == 20
      then (if allow (permission raw) requester user
          then shown_fields filename (fields j raw)
          else none)
      else none

  -- What a requester is shown of a blob.
  abbrev pub shown : S → Bytes → UserId → Bytes → Option BlobInode
  shown s coll requester blob =
      shown_inode requester blob (value_or (db.hget s (collection user coll) blob) [])
        (db.hget s (blob_inode user) blob)

  as_string-found : (o : Option Bytes) → as_string (found o) ≡ value_or o []
  unfolding as_string
  as_string-found none = refl
  as_string-found (some v) = refl

  -- Adding nothing.
  nothing :
      (a b : Collection BlobInode) (i : Bytes) (test : Bool)
      → some a ≡ some b
      → find b i ≡ or_else (find a i) (if test then none else none)
  nothing a b i test e =
      let same : b ≡ a = cc in
      rw same (elim (Option-cases (find a i)) [
        | inl n ↦ rw n (elim (Bool-cases test) [ inl y ↦ rw y | inr k ↦ rw k ])
        | inr (x, k) ↦ rw k
      ])

  module _ (requester : UserId) (blob filename : Bytes) (result : Collection BlobInode) where
    row_fields :
        (o : Option (Option BlobInode)) (next : Collection BlobInode) (i : Bytes)
        → (o >>= λ inode. some (add_fields j user blob filename inode result)) ≡ some next
        → find next i
          ≡ or_else (find result i) (if bytes_eq blob i then shown_fields filename o else none)
    unfolding add_fields
    row_fields none next i e = cc
    row_fields (some none) next i e = nothing result next i (bytes_eq blob i) e
    row_fields (some (some inode)) next i e =
        let same : next ≡ add_blob blob (rename_to j user filename inode) result = cc in
        rw same (find-add_blob blob i (rename_to j user filename inode) result)

    row_shown :
        (o : Option Bytes) (next : Collection BlobInode) (i : Bytes)
        → add_row j user requester blob (as_string (found o)) filename result ≡ some next
        → find next i
          ≡ or_else
              (find result i)
              (if bytes_eq blob i then shown_inode requester blob filename o else none)
    unfolding add_row add_allowed as_string from_raw
    row_shown none next i e = nothing result next i (bytes_eq blob i) e
    row_shown (some raw) next i e = elim (Bool-cases (is_empty raw)) [
      | inl y ↦ rw y (nothing result next i (bytes_eq blob i) (rw y at e))
      | inr n ↦ elim (Bool-cases (length blob == 20)) [
        | inr k ↦ rw (n, k) (nothing result next i (bytes_eq blob i) (rw (n, k, add_allowed) at e))
        | inl z ↦ elim (Bool-cases (allow (permission raw) requester user)) [
          | inr d ↦
              rw (n, z, d)
                (nothing result next i (bytes_eq blob i) (rw (n, z, add_allowed, d) at e))
          | inl a ↦ rw (n, z, a) (row_fields (fields j raw) next i (rw (n, z, add_allowed, a) at e))
        ]
      ]
    ]

  -- The first of two results, or the second.
  join :
      (a b : Option BlobInode) (x y : Bool)
      → or_else (or_else a (if x then b else none)) (if y then b else none)
        ≡ or_else a (if x || y then b else none)
  join none none x y = ground arith
  join none (some b) x y = ground arith
  join (some a) b x y = refl

  rows_shown :
      (s : S) (coll : Bytes) (requester : UserId) (blobs : List Bytes)
      (result c : Collection BlobInode) (i : Bytes)
      → from_rows j user requester (scan_rows db user s coll blobs) result ≡ some c
      → find c i ≡ or_else (find result i) (if has i blobs then shown s coll requester i else none)
  unfolding from_rows scan_rows as_string
  rows_shown s coll requester [] result c i e = nothing result c i false e
  rows_shown s coll requester (b ∷ bs) result c i e =
      let same_shown : (b i : Bytes)
          → (if bytes_eq b i then shown s coll requester b else none)
            ≡ (if bytes_eq b i then shown s coll requester i else none) =
        λ b i. elim (Bool-cases (bytes_eq b i)) [
          | inl y ↦ rw y (ap (shown s coll requester) (bytes_eq_sound b i y))
          | inr n ↦ rw n
        ] in
      let name = as_string (found (db.hget s (collection user coll) b)) in
      let raw = db.hget s (blob_inode user) b in
      elim (Option-cases
        (add_row j user requester (as_string (string b)) (as_string (found raw)) name result)) [
          | inl n ↦ let bad : none ≡ some c = rw n at e in cc
          | inr (next, k) ↦
              let rest = rows_shown s coll requester bs next c i (rw k at e) in
              let here : find next i
                  ≡ or_else (find result i)
                      (if bytes_eq b i then shown s coll requester b else none) =
                rw (← as_string-found (db.hget s (collection user coll) b))
                  (row_shown requester b name result raw next i k) in
              rest
              ∙ (rw (here, same_shown b i)
                  (join (find result i) (shown s coll requester i) (bytes_eq b i) (has i bs)))
        ]

  -- What `get_collection` makes of the script's reply, if it throws nothing: a collection of exactly
  -- the blobs that are in the user's album, have an ID of 20 bytes and an inode that is legible and that
  -- the requester may see, each under the filename that it has in the album, if that is not empty.
  pub get_collection_shows :
      (s : S) (coll : Bytes) (requester : UserId) (c : Collection BlobInode) (i : Bytes)
      → DbLaws db
      → on_get_collection j user (scan_script db user s coll) Error.ok coll requester
        ≡ (some c, Error.ok)
      → find c i
        ≡ (if is_some (db.hget s (collection user coll) i) then shown s coll requester i else none)
  unfolding on_get_collection scan_script from_reply array_size as_array items find find_entry
  get_collection_shows s coll requester c i laws e =
      let rows = scan_rows db user s coll (db.hkeys s (collection user coll)) in
      let read : from_rows j user requester rows (record { name = coll; owner = user; blobs = [] })
          ≡ some c =
        rw (← elements-to_replies rows) (ap (λ p. p.0) e) in
      rw (← laws.hkeys_hget s (collection user coll) i (unfold collection in refl)) (
        rows_shown s coll requester (db.hkeys s (collection user coll))
          (record { name = coll; owner = user; blobs = [] }) c i read)

  shown_fields_perm :
      (filename raw : Bytes) (inode : BlobInode)
      → shown_fields filename (fields j raw) ≡ some inode
      → inode.perm ≡ permission raw
  unfolding rename_to
  shown_fields_perm filename raw inode e = elim (Option-cases (fields j raw)) [
    | inl n ↦ let bad : none ≡ some inode = rw n at e in cc
    | inr (none, k) ↦ let bad : none ≡ some inode = rw k at e in cc
    | inr (some f, k) ↦
        let read : some (rename_to j user filename f) ≡ some inode = rw k at e in
        let same : inode ≡ rename_to j user filename f = cc in
        let kept : (rename_to j user filename f).perm ≡ f.perm =
          elim (Bool-cases (is_empty filename)) [ inl y ↦ rw y | inr n ↦ rw n ] in
        rw (same, kept) (fields_perm j raw f k)
  ]

  inode_allowed :
      (requester : UserId) (blob filename : Bytes) (o : Option Bytes) (inode : BlobInode)
      → shown_inode requester blob filename o ≡ some inode
      → allow inode.perm requester user ≡ true
  inode_allowed requester blob filename none inode e = cc
  inode_allowed requester blob filename (some raw) inode e = elim (Bool-cases (is_empty raw)) [
    | inl y ↦ let bad : none ≡ some inode = rw y at e in cc
    | inr n ↦ elim (Bool-cases (length blob == 20)) [
      | inr k ↦ let bad : none ≡ some inode = rw (n, k) at e in cc
      | inl z ↦ elim (Bool-cases (allow (permission raw) requester user)) [
        | inr d ↦ let bad : none ≡ some inode = rw (n, z, d) at e in cc
        | inl a ↦ rw (shown_fields_perm filename raw inode (rw (n, z, a) at e)) a
      ]
    ]
  ]

  -- Every blob that `get_collection` completes with is one that its permission allows the requester to
  -- see.
  pub get_collection_allowed :
      (s : S) (coll : Bytes) (requester : UserId) (c : Collection BlobInode) (i : Bytes)
      (inode : BlobInode)
      → DbLaws db
      → on_get_collection j user (scan_script db user s coll) Error.ok coll requester
        ≡ (some c, Error.ok)
      → find c i ≡ some inode
      → allow inode.perm requester user ≡ true
  get_collection_allowed s coll requester c i inode laws e h =
      let listed = get_collection_shows s coll requester c i laws e in
      elim (Bool-cases (is_some (db.hget s (collection user coll) i))) [
        | inr n ↦ let bad : none ≡ some inode = rw (listed, n) at h in cc
        | inl y ↦
            inode_allowed requester i (value_or (db.hget s (collection user coll) i) [])
              (db.hget s (blob_inode user) i) inode (rw (listed, y) at h)
      ]
