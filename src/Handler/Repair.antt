-- ===== src/Handler/Repair.antt =====
-- `validate_collection` of src/server/hrb/SessionHandler.cc, which the handler calls on an album that it
-- sends as JSON. When a blob was taken, by the file that is kept of it, is an argument.
use hearty_rabbit.Prelude.{
  ◌≡◌, refl, Bool, false, List, [], ◌∷◌, if◌then◌else◌, Bytes, ◌==◌, map, All, some,
}
use hearty_rabbit.Redis.Reply.{ℤ}
use hearty_rabbit.BlobInode.{BlobInode}
use hearty_rabbit.Collection.{Entry, Collection}
use hearty_rabbit.Ownership.Commands.{Call}
use hearty_rabbit.UserId.{UserId}
use hearty_rabbit.Handler.Request.{
  Answer, json_album, respond, bad_request, not_found, not_modified, file, log_in, log_out,
  list_albums, list_publics, show_album, find_duplicates, read_blob, read_inode, meta, content,
  change, share, list_guests, upload, undefined,
}
use hearty_rabbit.Handler.Owner.{IsOwn, acts_for}

-- `Timestamp{}`.
abbrev pub is_epoch : ℤ → Bool
is_epoch (ℤ.pos n) = n == 0
is_epoch (ℤ.negsuc n) = false

module _ (datetime : Bytes → ℤ) where
  -- The loop, with the calls of `update_blob`.
  unfoldable pub validate_entries : List (Entry BlobInode) → List (Entry BlobInode) × List Call
  validate_entries [] = ([], [])
  validate_entries (entry ∷ entries) =
      let (kept, calls) = validate_entries entries in
      let repaired = record entry.inode { timestamp = datetime entry.id } in
      if is_epoch entry.inode.timestamp
      then (record entry { inode = repaired } ∷ kept, Call.update_blob entry.id repaired ∷ calls)
      else (entry ∷ kept, calls)

  unfoldable pub validate_collection : Collection BlobInode → Collection BlobInode × List Call
  unfolding validate_entries
  validate_collection c =
      let (kept, calls) = validate_entries c.blobs in (record c { blobs = kept }, calls)

  -- The callback of `get_collection`: the album that is sent, and what is asked of redis meanwhile.
  unfoldable pub on_json_album : Answer → Collection BlobInode → Collection BlobInode × List Answer
  unfolding validate_collection
  on_json_album (json_album user owner coll) c =
      let (sent, calls) = validate_collection c in (sent, map (change user) calls)
  on_json_album answer c = (c, [])

-- All that is asked of redis meanwhile is for the user that the answer names.
changes_act :
    (user : Bytes) (calls : List Call) → All (λ a. acts_for a ≡ some user) (map (change user) calls)
changes_act user [] = tt
changes_act user (call ∷ calls) = (refl, changes_act user calls)

module _ (datetime : Bytes → ℤ) where
  pub on_json_album-acts :
      (sent : Bool) (auth : UserId) (a : Answer) (c : Collection BlobInode)
      → IsOwn sent auth a
      → All (λ b. acts_for b ≡ some auth.user) (on_json_album datetime a c).1
  unfolding on_json_album
  on_json_album-acts sent auth (json_album user owner coll) c own =
      rw own (changes_act user (validate_collection datetime c).1)
  on_json_album-acts sent auth (respond n) c own = tt
  on_json_album-acts sent auth (bad_request n) c own = tt
  on_json_album-acts sent auth (not_found n) c own = tt
  on_json_album-acts sent auth (not_modified n) c own = tt
  on_json_album-acts sent auth (file n m) c own = tt
  on_json_album-acts sent auth (log_in n m) c own = tt
  on_json_album-acts sent auth log_out c own = tt
  on_json_album-acts sent auth (list_albums n m) c own = tt
  on_json_album-acts sent auth (list_publics n m) c own = tt
  on_json_album-acts sent auth (show_album n m o p) c own = tt
  on_json_album-acts sent auth (find_duplicates n m o) c own = tt
  on_json_album-acts sent auth (read_blob n m o p) c own = tt
  on_json_album-acts sent auth (read_inode n m o) c own = tt
  on_json_album-acts sent auth (meta n) c own = tt
  on_json_album-acts sent auth (content n m o) c own = tt
  on_json_album-acts sent auth (change n m) c own = tt
  on_json_album-acts sent auth (share n m) c own = tt
  on_json_album-acts sent auth (list_guests n m) c own = tt
  on_json_album-acts sent auth (upload n m o) c own = tt
  on_json_album-acts sent auth undefined c own = tt
