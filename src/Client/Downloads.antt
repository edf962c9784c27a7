-- ===== src/Client/Downloads.antt =====
-- `download_collection` of src/client/http/HRBClient.ipp: how many files are asked for, and when the
-- caller hears of it.
use hearty_rabbit.Prelude.{
  ℕ, suc, zero, ◌+◌, ◌-◌, ◌<◌, ◌≤◌, ◌≡◌, false, List, [], ◌∷◌, ◌++◌, Option, none, some,
  if◌then◌else◌, Bytes, length, length-append, get_elem?, ltb, ◌==◌, is_empty, arith,
}
use hearty_rabbit.Escape.Hex.{HexCodec}
use hearty_rabbit.Redis.Reply.{Error}
use hearty_rabbit.BlobInode.{BlobInode}
use hearty_rabbit.Collection.{Collection, Entry}
use hearty_rabbit.Aggregated.{call_all-fresh, at_most_one}
use hearty_rabbit.Client.{
  Client, send, download_blob, download_entries, download_collection, downloaded, join,
}

length-get_elem? {ℓ} :
    {A : Type ℓ} (calls : List A) (n : ℕ)
    → length (at_most_one (get_elem? calls n)) ≡ (if ltb n (length calls) then 1 else 0)
length-get_elem? [] zero = ground arith
length-get_elem? [] (suc n) = ground arith
length-get_elem? (x ∷ calls) zero = ground arith
length-get_elem? (x ∷ calls) (suc n) = ground (arith, length-get_elem? calls n)

not_empty {ℓ} : {A : Type ℓ} (xs : List A) → is_empty xs ≡ false → (length xs == 0) ≡ false
not_empty [] h = cc
not_empty (x ∷ xs) h = ground arith

module _ (h : HexCodec) where
  blob_counted :
      (o : Option Error) (owner coll blob rendition dest : Bytes) (c : Client)
      → length (download_blob h o owner coll blob rendition dest c).0.requests
          + length (download_blob h o owner coll blob rendition dest c).1
        ≡ suc (length c.requests)
  unfolding download_blob send
  blob_counted none owner coll blob rendition dest c = omega (arith, length-append c.requests _)
  blob_counted (some ec) owner coll blob rendition dest c = omega arith

  module _ (opens : Bytes → Option Error) where
    -- Each blob of an album is asked for, or its file cannot be opened.
    entries_counted :
        (owner coll rendition dest_dir : Bytes) (entries : List (Entry BlobInode)) (c : Client)
        → length (download_entries h opens owner coll rendition dest_dir entries c).0.requests
            + length (download_entries h opens owner coll rendition dest_dir entries c).1
          ≡ length c.requests + length entries
    unfolding download_entries
    entries_counted owner coll rendition dest_dir [] c = omega arith
    entries_counted owner coll rendition dest_dir (entry ∷ entries) c =
        let dest = join dest_dir entry.inode.filename in
        let first = download_blob h (opens dest) owner coll entry.id rendition dest c in
        let rest = download_entries h opens owner coll rendition dest_dir entries first.0 in
        omega (
          arith,
          blob_counted (opens dest) owner coll entry.id rendition dest c,
          entries_counted owner coll rendition dest_dir entries first.0,
          length-append first.1 rest.1,
        )

    -- The caller of `download_collection` is called exactly once, when the last of the requests that it
    -- made has been answered, and not before; files that cannot be opened count as answered at once.
    -- The album must have a blob, and fewer than a counter of 64 bits can count.
    pub download_collection_completes :
        (coll : Collection BlobInode) (rendition dest_dir : Bytes) (c : Client)
        (answers : List Error)
        → is_empty coll.blobs ≡ false
        → length coll.blobs < 18446744073709551616
        → length c.requests + length answers
          ≤ length (download_collection h opens coll rendition dest_dir c).0.requests
        → length
            (downloaded coll ((download_collection h opens coll rendition dest_dir c).1 ++ answers))
          ≡ (if length c.requests + length answers
                == length (download_collection h opens coll rendition dest_dir c).0.requests
              then 1
              else 0)
    unfolding download_collection downloaded
    download_collection_completes coll rendition dest_dir c answers some_blob bounded within =
        let made = download_entries h opens coll.owner coll.name rendition dest_dir coll.blobs c in
        let counted = entries_counted coll.owner coll.name rendition dest_dir coll.blobs c in
        let calls = made.1 ++ answers in
        let total = length-append made.1 answers in
        let full : (length coll.blobs == 0) ≡ false = not_empty coll.blobs some_blob in
        rw
          (
            call_all-fresh calls (length coll.blobs) (omega (arith, total, counted)),
            full,
            length-get_elem? calls (length coll.blobs - 1),
          )
          (ground (arith, total, counted))
